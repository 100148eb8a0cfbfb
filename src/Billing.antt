-- ===== src/Billing.antt =====
-- apps/nehemiah/src/billing: rates, prices, admission under the spend cap and the usage ledger.
pub mod Rates
pub mod Price
pub mod Admission
mod Tests
