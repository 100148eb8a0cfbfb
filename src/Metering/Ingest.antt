-- ===== src/Metering/Ingest.antt =====
-- apps/nehemiah/src/billing/metering.ts, `AuthoritativeMetering.ingest`: a batch of observations in one
-- transaction. The text of a number in an input is validated before it is read. A uuid of an input
-- may be in upper case, and is compared with that of a row as the column writes it; `host_id` is the
-- identifier of a row.
pub mod Errors
pub mod Answers
use Prim.Native.String
use nehemiah.Base.{
  ℕ, zero, suc, ◌+◌, ◌-◌, ◌*◌, String, Bool, true, false, not, ◌&&◌, ◌||◌, List, [], ◌∷◌, ◌++◌, map,
  any, length, select, first, find, update, Option, none, some, ltb, leb, ◌==◌, string_eq, nat_eq,
  Result, ok, err, ◌>>=◌, ◌>>◌, throw_if, require, if◌then◌else◌, transaction, is_some,
}
use nehemiah.Base.Number.{Number, integer, exceeds}
use nehemiah.Base.Int.{pos}
use nehemiah.Base.Text.{stored_uuid}
use nehemiah.Metering.{
  MachineIdentityRow, MeterStateRow, StoredObservationRow, Reading, observation_integrity_reason,
  MeteringError, batch_size, host_lifecycle, batch_cadence, lease_mismatch, integer_out_of_range,
  missing_state, out_of_fuel,
}
use nehemiah.Metering.Tables.{
  Key, KeyPart, text, number, key_beq, MeteringException, MeteringTables, MeteringHostRow,
  exception, set_quarantined, quarantine_host,
}
use nehemiah.Metering.Processing.{
  Outcome, accepted, duplicate, pending_gap, quarantined, rejected_payload_conflict,
  process_observation,
}
use nehemiah.Metering.Validation.{HostUsageObservation, big_int, validate_all}
use nehemiah.Metering.Drain.{Progress, state_of, drain, enough_rounds}
use nehemiah.Metering.Receipts.{
  Receipt, receipt_for, Times, input_exception, quarantine_both, sequenced_key, settle_input,
}

abbrev pub maximum_forward_sequence_window : ℕ
maximum_forward_sequence_window = 64

-- the largest number of a column of type integer
abbrev pub maximum_int4 : ℕ
maximum_int4 = 2147483647

abbrev pub maximum_pending_observations_per_host : ℕ
maximum_pending_observations_per_host = 2048

-- JavaScript's `!==` of an integer and a number that is validated
abbrev pub is_number : ℕ → Number → Bool
is_number n (integer (pos m)) = n == m
is_number n _ = false

-- INSERT INTO machine_meter_state
abbrev pub new_state : MachineIdentityRow → HostUsageObservation → MeterStateRow
new_state identity input = record {
  machine_id = identity.id;
  host_id = identity.host_id;
  host_machine_id = identity.host_machine_id;
  lease_id = identity.lease_id;
  lease_generation = identity.lease_generation;
  host_boot_id = stored_uuid input.host_boot_id;
  last_sequence = 0;
  last_runtime_ns = 0;
  projected_runtime_ns = 0;
  start_monotonic_ns = none;
  last_observed_monotonic_ns = none;
  last_egress_bytes = 0;
  egress_counter_epoch = big_int input.egress_counter_epoch;
  start_seen = false;
  final_seen = false;
  last_observed_at = none;
  last_period_end = none;
  last_received_at = none;
  loss_closed_at = none;
  quarantined_at = none;
  quarantine_reason = none;
}

abbrev pub with_state :
    MachineIdentityRow → HostUsageObservation → MeteringTables → MeterStateRow × MeteringTables
with_state identity input db = elim (state_of identity db) [
  | some state ↦ (state, db)
  | none ↦
      let state = new_state identity input in
      (state, record db { states = db.states ++ state ∷ [] })
]

-- WHERE observation.host_id = … AND observation.sequence > meter.last_sequence, on the joined rows
abbrev pub is_outstanding : String → List MeterStateRow → StoredObservationRow → Bool
is_outstanding host_id states o =
    o.host_id == host_id
    && any
        (λ s.
          s.machine_id == o.machine_id
          && s.lease_generation == o.lease_generation
          && ltb s.last_sequence o.sequence)
        states

abbrev pub is_sequence_violation :
    String → MeterStateRow → HostUsageObservation → MeteringTables → Bool
is_sequence_violation host_id state input db =
    let sequence = big_int input.sequence in
    not (state.host_boot_id == input.host_boot_id)
    || ltb (state.last_sequence + maximum_forward_sequence_window) sequence
    || (ltb (state.last_sequence + 1) sequence
        && leb maximum_pending_observations_per_host
            (length (select (is_outstanding host_id db.states) db.observations)))

abbrev pub input_reading : HostUsageObservation → Reading
input_reading input = record {
  kind = input.kind;
  quality = input.quality;
  runtime_ns = big_int input.runtime_ns;
  egress_bytes = big_int input.egress_bytes;
  egress_counter_epoch = big_int input.egress_counter_epoch;
}

abbrev pub integrity_violation :
    MachineIdentityRow → MeterStateRow → HostUsageObservation → ℕ → Option String
integrity_violation identity state input admitted =
    if big_int input.sequence == state.last_sequence + 1
    then observation_integrity_reason identity state (input_reading input) admitted
    else none

-- ON CONFLICT (host_id, host_boot_id, lease_id, lease_generation, sequence)
abbrev pub is_same_observation : String → HostUsageObservation → StoredObservationRow → Bool
is_same_observation host_id input o =
    o.host_id == host_id
    && o.host_boot_id == stored_uuid input.host_boot_id
    && o.lease_id == stored_uuid input.lease_id
    && o.lease_generation == big_int input.lease_generation
    && o.sequence == big_int input.sequence

abbrev pub admits_metering : Option ℕ → MeteringHostRow → Bool
admits_metering credential_generation h =
    (h.desired_state == "active" || h.desired_state == "draining")
    && h.credential_status == "active"
    && (elim credential_generation [ none ↦ true | some n ↦ h.credential_generation == n ])

-- last_metering_batch_at <= statement_timestamp() - the interval
abbrev pub is_cadence_valid : ℕ → ℕ → Option ℕ → Bool
is_cadence_valid interval time none = true
is_cadence_valid interval time (some last) = leb (last + interval) time

abbrev pub has_identity : String → HostUsageObservation → MachineIdentityRow → Bool
has_identity host_id input m =
    m.id == input.machine_id
    && m.host_id == host_id
    && m.host_machine_id == input.host_machine_id
    && m.lease_id == stored_uuid input.lease_id
    && m.lease_generation == big_int input.lease_generation

module _ (date : String → Option ℕ) (payload_hash : HostUsageObservation → String)
    -- the next value of the identity column
    (new_id : List StoredObservationRow → ℕ) where
  -- A text that validation lets through is a date.
  abbrev pub stored_row :
      String
      → HostUsageObservation
      → ℕ
      → MachineIdentityRow
      → List StoredObservationRow
      → StoredObservationRow
  stored_row host_id input received identity rows = record {
    id = new_id rows;
    host_id = host_id;
    machine_id = input.machine_id;
    lease_id = stored_uuid input.lease_id;
    lease_generation = big_int input.lease_generation;
    payload_hash = payload_hash input;
    host_boot_id = stored_uuid input.host_boot_id;
    sequence = big_int input.sequence;
    kind = input.kind;
    quality = input.quality;
    quality_reason = input.quality_reason;
    runtime_ns = big_int input.runtime_ns;
    egress_bytes = big_int input.egress_bytes;
    egress_counter_epoch = big_int input.egress_counter_epoch;
    observed_monotonic_ns = big_int input.observed_monotonic_ns;
    observed_at = elim (date input.observed_at) [ none ↦ 0 | some at ↦ at ];
    received_at = received;
    vcpus = identity.vcpus;
    memory_bytes = identity.memory_bytes;
  }

  -- The INSERT and what follows it. The row has the resources of the machine, which are those of the
  -- input.
  abbrev pub store_row :
      MachineIdentityRow
      → HostUsageObservation
      → Times
      → MeteringTables
      → Result MeteringError ((Receipt × Bool) × MeteringTables)
  store_row identity input times db =
      let nothing : Progress = record { processed_input = false; input_quarantined = false } in
      elim (find (is_same_observation identity.host_id input) db.observations) [
        | none ↦
            let row = stored_row identity.host_id input times.received identity db.observations in
            let db1 = record db { observations = row ∷ db.observations } in
            drain (enough_rounds db1) identity row.id times.now nothing db1 >>= λ result.
            settle_input identity input false times result.0 result.1
        | some stored ↦
            if stored.payload_hash == payload_hash input
            then (drain (enough_rounds db) identity stored.id times.now nothing db >>= λ result.
                settle_input identity input true times result.0 result.1)
            else ok (
              (receipt_for input rejected_payload_conflict, true),
              quarantine_both identity
                  (input_exception identity input (sequenced_key input "payload_conflict")
                    "payload_conflict")
                  "payload_conflict" "metering payload conflict" times db,
            )
      ]

  -- What follows the integrity checks. The column process_id is an integer of 32 bits; nothing reads
  -- it.
  abbrev pub store_input :
      MachineIdentityRow
      → HostUsageObservation
      → Times
      → MeteringTables
      → Result MeteringError ((Receipt × Bool) × MeteringTables)
  store_input identity input times db =
      throw_if (exceeds input.process_id maximum_int4) integer_out_of_range
      >> store_row identity input times db

  abbrev pub check_integrity :
      MachineIdentityRow
      → HostUsageObservation
      → Times
      → MeteringTables
      → Option String
      → Result MeteringError ((Receipt × Bool) × MeteringTables)
  check_integrity identity input times db none = store_input identity input times db
  check_integrity identity input times db (some reason) = ok (
    (receipt_for input quarantined, true),
    quarantine_both identity (input_exception identity input (text reason ∷ []) reason) reason
        (String.◌++◌ "metering " reason) times db,
  )

  -- the body of the loop over the inputs
  unfoldable pub ingest_input :
      String
      → HostUsageObservation
      → Times
      → MeteringTables
      → Result MeteringError ((Receipt × Bool) × MeteringTables)
  ingest_input host_id input times db =
      require (find (has_identity host_id input) db.machines) lease_mismatch >>= λ identity.
      throw_if
        (not (is_number identity.vcpus input.vcpus)
          || not (identity.memory_bytes == big_int input.memory_bytes))
        lease_mismatch
      >> (let (state, db1) = with_state identity input db in
          if is_sequence_violation host_id state input db1
          then ok (
            (receipt_for input quarantined, true),
            quarantine_both identity
                (input_exception identity input (text "sequence_window_exceeded" ∷ [])
                  "sequence_window_exceeded")
                "sequence_window_exceeded" "metering sequence admission violated" times db1,
          )
          else check_integrity identity input times db1
              (integrity_violation identity state input times.admitted))

  -- for (const input of observations)
  abbrev pub ingest_inputs :
      String
      → List (HostUsageObservation × Times)
      → Bool
      → MeteringTables
      → Result MeteringError (List Receipt × MeteringTables)
  ingest_inputs host_id [] host_quarantined db = ok ([], db)
  ingest_inputs host_id (input ∷ inputs) host_quarantined db =
      (if host_quarantined
        then ok ((receipt_for input.0 quarantined, true), db)
        else ingest_input host_id input.0 input.1 db)
      >>= λ result.
          let ((receipt, now_quarantined), db1) = result in
          ingest_inputs host_id inputs now_quarantined db1 >>= λ rest. ok (receipt ∷ rest.0, rest.1)

  abbrev pub ingest_work :
      ℕ
      → ℕ
      → String
      → List (HostUsageObservation × Times)
      → Option ℕ
      → MeteringTables
      → Result MeteringError (List Receipt × MeteringTables)
  ingest_work interval time host_id inputs credential_generation db =
      require (find (λ h. h.id == host_id) db.hosts) host_lifecycle >>= λ host.
      throw_if (not (admits_metering credential_generation host)) host_lifecycle
      >> throw_if (not (is_cadence_valid interval time host.last_metering_batch_at)) batch_cadence
      >> ingest_inputs host_id inputs false (record db {
        hosts =
            update (λ h. h.id == host_id) (λ h. record h { last_metering_batch_at = some time })
              db.hosts;
      })

  -- The interval is `minimumBatchIntervalMs`, the time that of the first statements.
  unfoldable pub ingest :
      ℕ
      → ℕ
      → String
      → List (HostUsageObservation × Times)
      → Option ℕ
      → MeteringTables
      → Result MeteringError (List Receipt) × MeteringTables
  ingest interval time host_id inputs credential_generation db =
      let checks =
        throw_if (ltb (length inputs) 1 || ltb 256 (length inputs)) batch_size
        >> validate_all date (map (λ i. i.0) inputs) in
      elim checks [
        | err e ↦ (err e, db)
        | ok nothing ↦
            transaction (ingest_work interval time host_id inputs credential_generation) db
      ]
