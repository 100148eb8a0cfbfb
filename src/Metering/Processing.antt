-- ===== src/Metering/Processing.antt =====
-- apps/nehemiah/src/billing/metering.ts, `processObservation`.
pub mod Cases
pub mod Advance
pub mod Balance
use nehemiah.Base.{
  ℕ, ◌+◌, ◌-◌, ◌*◌, ◌/◌, max, String, Bool, true, false, ◌&&◌, List, [], ◌∷◌, Option, none, some,
  update, if◌then◌else◌, ltb, ◌==◌, string_eq, nat_eq, Result, ok, err,
}
use nehemiah.Metering.{
  MachineIdentityRow, MeterStateRow, StoredObservationRow, nanoseconds_per_millisecond,
  MeteringError, missing_period_boundary, out_of_fuel,
}
use nehemiah.Metering.Split.{UsageSegment, split_runtime_at_utc_midnight}
use nehemiah.Metering.Anomaly.{anomaly}
use nehemiah.Metering.Tables.{
  KeyPart, text, number, Key, MeteringException, MeteringTables, exception, set_quarantined,
  coalesce,
}
use nehemiah.Metering.Projection.{close_legacy_prefix, project_segments, project_egress, has_lease}

-- HostUsageObservationOutcome; `processObservation` returns the first or the last but one.
pub data Outcome : Type 0 where
  accepted duplicate pending_gap quarantined rejected_payload_conflict : Outcome

abbrev pub observation_key : MachineIdentityRow → StoredObservationRow → Key → Key
observation_key identity observation rest =
    text "meter"
    ∷ text identity.id
    ∷ number identity.lease_generation
    ∷ text observation.host_boot_id
    ∷ number observation.sequence
    ∷ rest

abbrev pub observation_exception :
    MachineIdentityRow → StoredObservationRow → Key → String → MeteringException
observation_exception identity observation rest reason = record {
  exception_key = observation_key identity observation rest;
  host_id = identity.host_id;
  machine_id = identity.id;
  lease_id = identity.lease_id;
  lease_generation = identity.lease_generation;
  host_boot_id = some observation.host_boot_id;
  sequence = some observation.sequence;
  reason = reason;
}

-- UPDATE machine_meter_state SET … WHERE machine_id = … AND last_sequence = …
abbrev pub update_state :
    MachineIdentityRow → ℕ → (MeterStateRow → MeterStateRow) → MeteringTables → MeteringTables
update_state identity prior f db = record db {
  states = update (λ s. s.machine_id == identity.id && s.last_sequence == prior) f db.states;
}

abbrev pub refused_state : StoredObservationRow → MeterStateRow → MeterStateRow
refused_state observation s = record s {
  last_sequence = observation.sequence;
  last_received_at = some observation.received_at;
}

abbrev pub refuse :
    MachineIdentityRow
    → MeterStateRow
    → StoredObservationRow
    → String
    → ℕ
    → MeteringTables
    → MeteringTables
refuse identity state observation reason now db =
    update_state identity state.last_sequence (refused_state observation) (
      set_quarantined identity.id reason now
        (exception (observation_exception identity observation (text reason ∷ []) reason) db))

abbrev pub started_state : StoredObservationRow → ℕ → MeterStateRow → MeterStateRow
started_state observation boundary s = record s {
  last_sequence = observation.sequence;
  start_seen = true;
  last_runtime_ns = observation.runtime_ns;
  projected_runtime_ns = (boundary - observation.observed_at) * nanoseconds_per_millisecond;
  last_egress_bytes = observation.egress_bytes;
  egress_counter_epoch = observation.egress_counter_epoch;
  start_monotonic_ns = some observation.observed_monotonic_ns;
  last_observed_monotonic_ns = some observation.observed_monotonic_ns;
  last_observed_at = some observation.observed_at;
  last_period_end = some boundary;
  last_received_at = some observation.received_at;
  final_seen = false;
}

abbrev pub start_meter :
    MachineIdentityRow → MeterStateRow → StoredObservationRow → MeteringTables → MeteringTables
start_meter identity state observation db =
    let (boundary, db1) = close_legacy_prefix identity observation.observed_at db in
    update_state identity state.last_sequence (started_state observation boundary) db1

abbrev pub read_state : StoredObservationRow → ℕ → ℕ → MeterStateRow → MeterStateRow
read_state observation projected period_end s = record s {
  last_sequence = observation.sequence;
  last_runtime_ns = observation.runtime_ns;
  projected_runtime_ns = projected;
  last_egress_bytes = observation.egress_bytes;
  last_observed_monotonic_ns = some observation.observed_monotonic_ns;
  last_observed_at = some observation.observed_at;
  last_period_end = some period_end;
  last_received_at = some observation.received_at;
  final_seen = observation.kind == "final";
}

-- state.last_period_end ?? state.last_observed_at
abbrev pub period_start : MeterStateRow → Option ℕ
period_start state = elim state.last_period_end [
  | some at ↦ some at
  | none ↦ state.last_observed_at
]

-- the runtime that was not projected before
abbrev pub runtime_delta : MeterStateRow → StoredObservationRow → ℕ
runtime_delta state observation = observation.runtime_ns - state.projected_runtime_ns

abbrev pub finish_meter : MachineIdentityRow → ℕ → ℕ → MeteringTables → MeteringTables
finish_meter identity period_end now db = record db {
  machines =
      update (has_lease identity)
        (λ m. record m {
          usage_checkpoint_at = some period_end;
          usage_finalized_at = coalesce m.usage_finalized_at now;
        })
        db.machines;
}

abbrev pub finish :
    MachineIdentityRow → StoredObservationRow → ℕ → ℕ → MeteringTables → Outcome × MeteringTables
finish identity observation period_end now db =
    if observation.kind == "final"
    then (if observation.quality == "last_defensible"
        then (
          quarantined,
          set_quarantined identity.id "degraded_terminal" now (
              exception
                (observation_exception identity observation
                  (text "degraded_terminal" ∷ text observation.quality_reason ∷ [])
                  "degraded_terminal")
                (finish_meter identity period_end now db)),
        )
        else (accepted, finish_meter identity period_end now db))
    else (accepted, db)

-- what follows the split into segments
abbrev pub project :
    MachineIdentityRow
    → MeterStateRow
    → StoredObservationRow
    → ℕ
    → List UsageSegment
    → ℕ
    → MeteringTables
    → Outcome × MeteringTables
project identity state observation start segments now db =
    let delta = runtime_delta state observation in
    let period_end = (start * nanoseconds_per_millisecond + delta) / nanoseconds_per_millisecond in
    let db1 = project_segments identity observation.id segments db in
    let db2 =
      project_egress identity observation.id (observation.egress_bytes - state.last_egress_bytes)
        start segments db1 in
    let db3 =
      update_state identity state.last_sequence
        (read_state observation (max observation.runtime_ns state.projected_runtime_ns) period_end)
        db2 in
    finish identity observation period_end now db3

abbrev pub project_from :
    MachineIdentityRow
    → MeterStateRow
    → StoredObservationRow
    → ℕ
    → MeteringTables
    → ℕ
    → Option (List UsageSegment)
    → Result MeteringError (Outcome × MeteringTables)
project_from identity state observation now db start none = err out_of_fuel
project_from identity state observation now db start (some segments) =
    ok (project identity state observation start segments now db)

abbrev pub read_meter :
    MachineIdentityRow
    → MeterStateRow
    → StoredObservationRow
    → ℕ
    → MeteringTables
    → Option ℕ
    → Result MeteringError (Outcome × MeteringTables)
read_meter identity state observation now db none = err missing_period_boundary
read_meter identity state observation now db (some start) =
    project_from identity state observation now db start
      (split_runtime_at_utc_midnight start (runtime_delta state observation))

abbrev pub process_with :
    Option String
    → MachineIdentityRow
    → MeterStateRow
    → StoredObservationRow
    → ℕ
    → MeteringTables
    → Result MeteringError (Outcome × MeteringTables)
process_with (some reason) identity state observation now db =
    ok (quarantined, refuse identity state observation reason now db)
process_with none identity state observation now db =
    if observation.kind == "start"
    then ok (accepted, start_meter identity state observation db)
    else read_meter identity state observation now db (period_start state)

unfoldable pub process_observation :
    MachineIdentityRow
    → MeterStateRow
    → StoredObservationRow
    → ℕ
    → MeteringTables
    → Result MeteringError (Outcome × MeteringTables)
process_observation identity state observation now db =
    process_with (anomaly identity state observation) identity state observation now db
