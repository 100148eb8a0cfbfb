-- ===== src/Metering/Ingest/Errors.antt =====
-- How the processing of an input can fail.
use nehemiah.Base.{
  ℕ, ◌≡◌, ◌⊎◌, String, Bool, true, false, List, Option, string_eq, nat_eq, Result, ok, err,
}
use nehemiah.Base.Number.{exceeds}
use nehemiah.Metering.{StoredObservationRow, MeteringError, integer_out_of_range}
use nehemiah.Metering.Tables.{MeteringTables}
use nehemiah.Metering.Validation.{HostUsageObservation}
use nehemiah.Metering.Receipts.{Receipt}
use nehemiah.Metering.Ingest.{maximum_int4}

-- A call that does not fail.
abbrev pub succeeds : {A : Type 0} → Result MeteringError A → Bool
succeeds (ok a) = true
succeeds (err e) = false

module _ (date : String → Option ℕ) (payload_hash : HostUsageObservation → String)
    (new_id : List StoredObservationRow → ℕ) where
  -- The result of an input whose machine is found.
  abbrev IsSettled :
      HostUsageObservation → Result MeteringError ((Receipt × Bool) × MeteringTables) → Type 0
  IsSettled input result =
      ((exceeds input.process_id maximum_int4 ≡ true) × (result ≡ err integer_out_of_range))
      ⊎ (succeeds result ≡ true)
