-- ===== src/Billing/Rates.antt =====
-- apps/nehemiah/src/billing/rates.ts: the dimensions that are metered and their prices.
use nehemiah.Base.{String, ◌≡◌, ◌↔◌, Bool, true, false, List, [], ◌∷◌, arith, Eq}
use nehemiah.Base.Int.{ℤ, pos}

pub data MeterDimension : Type 0 where
  vcpu_seconds gib_seconds storage_gib_hours egress_bytes inference_units : MeterDimension

abbrev pub dimension_beq : MeterDimension → MeterDimension → Bool
dimension_beq vcpu_seconds vcpu_seconds = true
dimension_beq gib_seconds gib_seconds = true
dimension_beq storage_gib_hours storage_gib_hours = true
dimension_beq egress_bytes egress_bytes = true
dimension_beq inference_units inference_units = true
dimension_beq _ _ = false

pub dimension_beq_iff : (a b : MeterDimension) → (dimension_beq a b ≡ true) ↔ (a ≡ b)
dimension_beq_iff a b = ground arith

instance abbrev pub dimension_eq : Eq MeterDimension
dimension_eq = record { same = dimension_beq; same_iff = dimension_beq_iff }

-- `bigint` prices are signed.
pub record Rate : Type 0 where
  pub dimension : MeterDimension
  pub unit_price_micros : ℤ
  pub unit : String

abbrev pub private_beta_rates : List Rate
private_beta_rates =
    record { dimension = vcpu_seconds; unit_price_micros = pos 0; unit = "vCPU-second" }
    ∷ record { dimension = gib_seconds; unit_price_micros = pos 0; unit = "GiB-second" }
    ∷ record { dimension = storage_gib_hours; unit_price_micros = pos 0; unit = "GiB-hour" }
    ∷ record { dimension = egress_bytes; unit_price_micros = pos 0; unit = "byte" }
    ∷ record { dimension = inference_units; unit_price_micros = pos 0; unit = "provider unit" }
    ∷ []
