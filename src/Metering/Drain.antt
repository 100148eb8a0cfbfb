-- ===== src/Metering/Drain.antt =====
-- apps/nehemiah/src/billing/metering.ts, `ingest`: the loop that processes the observations that are
-- stored, in the order of their sequences, which are below 2 ^ 63 - 1: the next one is a bigint.
pub mod Ends
pub mod Balance
use nehemiah.Base.{
  ℕ, zero, suc, ◌+◌, ◌-◌, ◌*◌, String, Bool, true, false, not, ◌&&◌, ◌||◌, List, [], ◌∷◌, ◌++◌, map,
  any, length, select, first, find, update, Option, none, some, ltb, leb, ◌==◌, string_eq, nat_eq,
  Result, ok, err, ◌>>=◌, ◌>>◌, throw_if, require, if◌then◌else◌, transaction, is_some,
}
use nehemiah.Base.Number.{Number, integer}
use nehemiah.Base.Int.{pos}
use nehemiah.Metering.{
  MachineIdentityRow, MeterStateRow, StoredObservationRow, Reading, observation_integrity_reason,
  MeteringError, batch_size, host_lifecycle, batch_cadence, lease_mismatch, missing_state,
  out_of_fuel,
}
use nehemiah.Metering.Tables.{
  Key, KeyPart, text, number, key_beq, MeteringException, MeteringTables, MeteringHostRow,
  exception, set_quarantined, quarantine_host,
}
use nehemiah.Metering.Processing.{
  Outcome, accepted, duplicate, pending_gap, quarantined, rejected_payload_conflict,
  process_observation,
}

abbrev pub state_of : MachineIdentityRow → MeteringTables → Option MeterStateRow
state_of identity db = find (λ s. s.machine_id == identity.id) db.states

-- the observation that follows the last one of the meter
abbrev pub is_next : MachineIdentityRow → MeterStateRow → StoredObservationRow → Bool
is_next identity state o =
    o.machine_id == identity.id
    && o.lease_generation == identity.lease_generation
    && o.host_boot_id == state.host_boot_id
    && o.sequence == state.last_sequence + 1

-- `processedInput` and `inputQuarantined`
pub record Progress : Type 0 where
  pub processed_input : Bool
  pub input_quarantined : Bool

abbrev pub is_quarantined : Outcome → Bool
is_quarantined quarantined = true
is_quarantined _ = false

abbrev pub noted : ℕ → ℕ → Outcome → Progress → Progress
noted pending_id stored_id outcome progress =
    if pending_id == stored_id
    then record { processed_input = true; input_quarantined = is_quarantined outcome }
    else progress

-- one round of the loop, with what the rounds after it do
abbrev pub drain_next :
    MachineIdentityRow
    → ℕ
    → ℕ
    → Progress
    → MeteringTables
    → (Progress → MeteringTables → Result MeteringError (Progress × MeteringTables))
    → MeterStateRow
    → Option StoredObservationRow
    → Result MeteringError (Progress × MeteringTables)
drain_next identity stored_id now progress db continue state none = ok (progress, db)
drain_next identity stored_id now progress db continue state (some pending) =
    process_observation identity state pending now db >>= λ result.
    continue (noted pending.id stored_id result.0 progress) result.1

abbrev pub drain_round :
    MachineIdentityRow
    → ℕ
    → ℕ
    → Progress
    → MeteringTables
    → (Progress → MeteringTables → Result MeteringError (Progress × MeteringTables))
    → Option MeterStateRow
    → Result MeteringError (Progress × MeteringTables)
drain_round identity stored_id now progress db continue none = err missing_state
drain_round identity stored_id now progress db continue (some state) =
    drain_next identity stored_id now progress db continue state
      (find (is_next identity state) db.observations)

-- the loop `for (;;)`
unfoldable pub drain :
    ℕ
    → MachineIdentityRow
    → ℕ
    → ℕ
    → Progress
    → MeteringTables
    → Result MeteringError (Progress × MeteringTables)
drain zero identity stored_id now progress db = err out_of_fuel
drain (suc fuel) identity stored_id now progress db =
    drain_round identity stored_id now progress db (drain fuel identity stored_id now)
      (state_of identity db)

abbrev pub enough_rounds : MeteringTables → ℕ
enough_rounds db = suc (length db.observations)
