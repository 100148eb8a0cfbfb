-- ===== src/Scheduler.antt =====
-- apps/nehemiah/src/scheduler: capacity, placement and the reservation of hosts.
pub mod Capacity
pub mod Placement
pub mod Quota
pub mod Reserve
mod Tests
