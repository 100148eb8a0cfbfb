-- ===== src/Billing/Admission.antt =====
-- apps/nehemiah/src/billing/admission.ts, `BillingAdmissionPolicy`: whether an organization may
-- commit to more resources. The rows that PostgreSQL returns are the argument `Ledger`.
pub mod SpendCap
pub mod Projection
use nehemiah.Base.{
  ℕ, ◌+◌, ◌*◌, String, Bool, true, false, not, ◌||◌, List, [], ◌∷◌, Option, none, some, Result, ok,
  err, ◌>>=◌, ◌>>◌, throw_if, if◌then◌else◌, ◌==◌, string_eq, is_some, ltb,
}
use nehemiah.Base.Int.{ℤ, pos, negsuc}
use nehemiah.Billing.Rates.{
  MeterDimension, vcpu_seconds, gib_seconds, storage_gib_hours, egress_bytes, inference_units,
  dimension_eq, Rate,
}
use nehemiah.Billing.Price.{PriceError, Quantity, text, bigint, is_negative, ceiling_price}

abbrev pub micros_per_cent : ℕ
micros_per_cent = 10000

abbrev pub mebibytes_per_gibibyte : ℕ
mebibytes_per_gibibyte = 1024

abbrev pub bytes_per_gibibyte_hour : ℕ
bytes_per_gibibyte_hour = 1073741824 * 3600

abbrev pub meter_dimensions : List MeterDimension
meter_dimensions =
    vcpu_seconds ∷ gib_seconds ∷ storage_gib_hours ∷ egress_bytes ∷ inference_units ∷ []

pub record BillingCommitmentDelta : Type 0 where
  pub vcpu_seconds : Option ℤ
  pub memory_mebibyte_seconds : Option ℤ
  pub storage_byte_seconds : Option ℤ

-- A JavaScript `Map` of rates.
abbrev pub Rates : Type 0
Rates = List (MeterDimension × ℤ)

abbrev pub rate_of : MeterDimension → Rates → Option ℤ
rate_of dimension [] = none
rate_of dimension ((d, price) ∷ rates) =
    if d == dimension then some price else rate_of dimension rates

pub record BillingAdmissionPolicy : Type 0 where
  pub rates : Rates
  pub plan : String

pub data PolicyError : Type 0 where
  invalid_rate : PolicyError
  missing_rate : MeterDimension → PolicyError

-- the first loop of the constructor
abbrev pub configure : Rates → List Rate → Result PolicyError Rates
configure configured [] = ok configured
configure configured (rate ∷ rates) =
    let rest = configure ((rate.dimension, rate.unit_price_micros) ∷ configured) rates in
    if is_some (rate_of rate.dimension configured) || is_negative rate.unit_price_micros
    then err invalid_rate
    else rest

-- the second loop of the constructor
abbrev pub require_dimensions : Rates → List MeterDimension → Result PolicyError (Unit {0})
require_dimensions configured [] = ok tt
require_dimensions configured (dimension ∷ dimensions) =
    if is_some (rate_of dimension configured)
    then require_dimensions configured dimensions
    else err (missing_rate dimension)

unfoldable pub make_policy : List Rate → String → Result PolicyError BillingAdmissionPolicy
make_policy rates plan = do
  configured ← configure [] rates
  require_dimensions configured meter_dimensions
  ok (record { rates = configured; plan = plan })

pub record BillingAccount : Type 0 where
  pub plan : String
  pub spend_cap_cents : Option ℤ
  pub delinquent : Bool

pub record UsageRow : Type 0 where
  pub dimension : MeterDimension
  pub quantity : String

pub record DurableCommitments : Type 0 where
  pub vcpu_seconds : String
  pub memory_mebibyte_seconds : String
  pub storage_byte_seconds : String

-- What the three queries of `enforce` return for an organization.
pub record Ledger : Type 0 where
  pub account : Option BillingAccount
  pub usage : List UsageRow
  pub durable : DurableCommitments

pub data BillingError : Type 0 where
  billing_delinquent billing_plan_unavailable spend_cap_exceeded : BillingError
  unpriced : PriceError → BillingError

-- `this.#rates.get(dimension)!`; the constructor has checked that each dimension is there
abbrev pub known_rate : Option ℤ → ℤ
known_rate none = pos 0
known_rate (some price) = price

abbrev pub priced : Result PriceError ℕ → Result BillingError ℕ
priced (ok price) = ok price
priced (err e) = err (unpriced e)

abbrev pub or_zero : Option ℤ → ℤ
or_zero none = pos 0
or_zero (some n) = n

-- `projectedMicros > BigInt(account.spend_cap_cents) * microsPerCent`
abbrev pub exceeds_cap : ℕ → ℤ → Bool
exceeds_cap projected (pos cents) = ltb (cents * micros_per_cent) projected
exceeds_cap projected (negsuc cents) = true

module _ (policy : BillingAdmissionPolicy) where
  unfoldable pub price_at : MeterDimension → Quantity → ℕ → Result BillingError ℕ
  price_at dimension quantity divisor =
      priced (ceiling_price quantity (known_rate (rate_of dimension policy.rates)) (pos divisor))

  -- the loop over the usage rows
  unfoldable pub price_usage : ℕ → List UsageRow → Result BillingError ℕ
  price_usage projected [] = ok projected
  price_usage projected (row ∷ rows) = do
    price ← price_at row.dimension (text row.quantity) 1
    price_usage (projected + price) rows

  unfoldable pub project_cost : Ledger → BillingCommitmentDelta → Result BillingError ℕ
  project_cost ledger additional = do
    used ← price_usage 0 ledger.usage
    durable_vcpu ← price_at vcpu_seconds (text ledger.durable.vcpu_seconds) 1
    durable_memory ←
        price_at gib_seconds (text ledger.durable.memory_mebibyte_seconds) mebibytes_per_gibibyte
    durable_storage ←
        price_at storage_gib_hours (text ledger.durable.storage_byte_seconds)
          bytes_per_gibibyte_hour
    vcpu ← price_at vcpu_seconds (bigint (or_zero additional.vcpu_seconds)) 1
    memory ←
        price_at gib_seconds (bigint (or_zero additional.memory_mebibyte_seconds))
          mebibytes_per_gibibyte
    storage ←
        price_at storage_gib_hours (bigint (or_zero additional.storage_byte_seconds))
          bytes_per_gibibyte_hour
    ok (used + durable_vcpu + durable_memory + durable_storage + vcpu + memory + storage)

  abbrev pub enforce_cap :
      Ledger → BillingCommitmentDelta → Option ℤ → Result BillingError (Unit {0})
  enforce_cap ledger additional none = ok tt
  enforce_cap ledger additional (some cap) = do
    projected ← project_cost ledger additional
    throw_if (exceeds_cap projected cap) spend_cap_exceeded

  abbrev pub enforce_account :
      Ledger → BillingCommitmentDelta → Option BillingAccount → Result BillingError (Unit {0})
  enforce_account ledger additional none = ok tt
  enforce_account ledger additional (some account) = do
    throw_if account.delinquent billing_delinquent
    throw_if (not (account.plan == policy.plan)) billing_plan_unavailable
    enforce_cap ledger additional account.spend_cap_cents

  unfoldable pub enforce : Ledger → BillingCommitmentDelta → Result BillingError (Unit {0})
  enforce ledger additional = enforce_account ledger additional ledger.account
