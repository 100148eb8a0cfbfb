-- ===== src/Metering/Tests.antt =====
-- Concrete meters, and runs of their operations.
use nehemiah.Base.{
  ℕ, ◌+◌, ◌≡◌, ◌⊎◌, refl, inr, String, true, false, List, [], ◌∷◌, length, Option, none, some,
  string_eq, nat_eq, is_some, find, Result, ok, err, map,
}
use nehemiah.Base.Outcome.{transaction}
use nehemiah.Base.Int.{pos}
use nehemiah.Base.Number.{integer}
use nehemiah.Base.Text.{is_uuid, stored_uuid}
use nehemiah.Database.{running}
use nehemiah.Metering.{
  MachineIdentityRow, MeterStateRow, StoredObservationRow, MeteringError,
  observation_integrity_reason,
}
use nehemiah.Metering.Split.{UsageSegment, split_from, split_runtime_at_utc_midnight}
use nehemiah.Metering.Split.Tiling.{Tiles, split_runtime_at_utc_midnight-Tiles}
use nehemiah.Metering.Tables.{Dimension, compute, memory, egress, MeteringHostRow, MeteringTables}
use nehemiah.Metering.Anomaly.{first_anomaly, anomaly}
use nehemiah.Metering.Anomaly.Regular.{is_meter, IsMeter}
use nehemiah.Metering.Projection.{append_projection, project_segments}
use nehemiah.Metering.Projection.Billed.{billed}
use nehemiah.Metering.Projection.Mirror.{IsMirrored}
use nehemiah.Metering.Processing.{process_observation, Outcome, accepted, duplicate}
use nehemiah.Metering.Processing.Balance.{metered}
use nehemiah.Metering.Validation.{
  HostUsageObservation, parse_unsigned, parse_positive_bigint, validate_observation,
}
use nehemiah.Metering.Drain.{Progress, state_of, is_next, drain, enough_rounds}
use nehemiah.Metering.Drain.Balance.{drain-ends, drain-balance, drain-IsMirrored}
use nehemiah.Metering.Receipts.{Receipt, receipt_for, Times}
use nehemiah.Metering.Ingest.{ingest, ingest_input}
use nehemiah.Metering.Ingest.Answers.{ingest-receipts, AreReceiptsFor}
use nehemiah.Metering.HostLoss.{close_host_loss}
use nehemiah.Metering.HostLoss.Final.{close_host_loss-final}

abbrev lease : String
lease = "01234567-89ab-4cde-8f01-23456789abcd"

abbrev boot : String
boot = "11111111-2222-4333-9444-555555555555"

abbrev machine : MachineIdentityRow
machine = record {
  id = "m_aaaaaaaaaaaa";
  organization_id = "o1";
  project_id = "p1";
  host_id = "h1";
  host_machine_id = "m-0123abcd";
  lease_id = lease;
  lease_generation = 1;
  vcpus = 2;
  memory_bytes = 1073741824;
  created_at = 1000000;
  started_at = some 1000000;
  usage_checkpoint_at = some 1000000;
  usage_finalized_at = none;
  state = running;
  expires_at = 9000000;
}

abbrev meter : MeterStateRow
meter = record {
  machine_id = "m_aaaaaaaaaaaa";
  host_id = "h1";
  host_machine_id = "m-0123abcd";
  lease_id = lease;
  lease_generation = 1;
  host_boot_id = boot;
  last_sequence = 1;
  last_runtime_ns = 0;
  projected_runtime_ns = 0;
  start_monotonic_ns = some 5;
  last_observed_monotonic_ns = some 5;
  last_egress_bytes = 0;
  egress_counter_epoch = 1;
  start_seen = true;
  final_seen = false;
  last_observed_at = some 1000000;
  last_period_end = some 1000000;
  last_received_at = some 1000000;
  loss_closed_at = none;
  quarantined_at = none;
  quarantine_reason = none;
}

-- five seconds of runtime and a hundred bytes
abbrev checkpoint : StoredObservationRow
checkpoint = record {
  id = 7;
  host_id = "h1";
  machine_id = "m_aaaaaaaaaaaa";
  lease_id = lease;
  lease_generation = 1;
  payload_hash = "2";
  host_boot_id = boot;
  sequence = 2;
  kind = "checkpoint";
  quality = "exact";
  quality_reason = "none";
  runtime_ns = 5000000000;
  egress_bytes = 100;
  egress_counter_epoch = 1;
  observed_monotonic_ns = 5000000005;
  observed_at = 1005000;
  received_at = 1005000;
  vcpus = 2;
  memory_bytes = 1073741824;
}

abbrev host : MeteringHostRow
host = record {
  id = "h1";
  desired_state = "active";
  state = "ready";
  credential_generation = 1;
  credential_status = "active";
  credential_hash = some "hash";
  control_credential_ciphertext = none;
  gateway_credential_ciphertext = none;
  credential_revoked_at = none;
  reported_available_vcpus = 4;
  reported_available_memory_mb = 4096;
  reported_available_disk_mb = 20480;
  reported_machine_count = 1;
  lifecycle_reason = none;
  lifecycle_updated_at = 0;
  last_metering_batch_at = none;
  metering_quarantined_at = none;
}

abbrev tables : MeteringTables
tables = record {
  hosts = host ∷ [];
  machines = machine ∷ [];
  states = meter ∷ [];
  observations = checkpoint ∷ [];
  raw_events = [];
  usage_events = [];
  outbox = [];
  exceptions = [];
  resolutions = [];
  audit_events = [];
}

abbrev nothing_done : Progress
nothing_done = record { processed_input = false; input_quarantined = false }

-- `checkpoint` as the host sends it
abbrev input : HostUsageObservation
input = record {
  machine_id = "m_aaaaaaaaaaaa";
  host_machine_id = "m-0123abcd";
  lease_id = lease;
  lease_generation = "1";
  host_boot_id = boot;
  sequence = "2";
  kind = "checkpoint";
  quality = "exact";
  quality_reason = "none";
  runtime_ns = "5000000000";
  egress_bytes = "100";
  egress_counter_epoch = "1";
  observed_monotonic_ns = "5000000005";
  observed_at = "1970-01-01T00:16:45Z";
  vcpus = integer (pos 2);
  memory_bytes = "1073741824";
  process_id = integer (pos 100);
}

abbrev times : Times
times = record { now = 1005000; admitted = 1005000; received = 1005000; revoked = 1005000 }

abbrev fixed_date : String → Option ℕ
fixed_date text = some 1005000

abbrev by_sequence : HostUsageObservation → String
by_sequence o = o.sequence

abbrev next_id : List StoredObservationRow → ℕ
next_id rows = length rows + 1

billed_after : Result MeteringError (Progress × MeteringTables) → List ℕ
billed_after (err e) = []
billed_after (ok (progress, db)) =
    billed compute "m_aaaaaaaaaaaa" db.raw_events
    ∷ billed memory "m_aaaaaaaaaaaa" db.raw_events
    ∷ billed egress "m_aaaaaaaaaaaa" db.raw_events
    ∷ []

-- A second of midnight, and one after it, are two segments.
midnight_test :
    split_runtime_at_utc_midnight 86399000 2000000000
    ≡ some (
        record { index = 0; start = 86399000; end = 86400000; runtime_ns = 1000000000 }
        ∷ record { index = 1; start = 86400000; end = 86401000; runtime_ns = 1000000000 }
        ∷ [])
unfolding split_runtime_at_utc_midnight split_from
midnight_test = refl

drain_test :
    billed_after (drain 2 machine 7 1005000 nothing_done tables)
    ≡ 10000000000 ∷ 5368709120000000000 ∷ 100 ∷ []
unfolding drain process_observation anomaly first_anomaly observation_integrity_reason
    split_runtime_at_utc_midnight split_from append_projection project_segments billed_after
drain_test = refl

split_runtime_at_utc_midnight-Tiles_example :
    (segments : List UsageSegment) × (split_runtime_at_utc_midnight 86399000 2000000000
      ≡ some segments)
    × Tiles 0 86399000000000 86401000000000 segments
split_runtime_at_utc_midnight-Tiles_example =
    split_runtime_at_utc_midnight-Tiles 86399000 2000000000

meter-IsMeter : IsMeter meter
unfolding is_meter
meter-IsMeter = refl

drain-ends_example :
    (progress : Progress) × (t : MeterStateRow) × (end : MeteringTables) × (drain
        (enough_rounds tables)
        machine
        7
        1005000
        nothing_done
        tables
      ≡ ok (progress, end))
    × (state_of machine end ≡ some t)
    × IsMeter t
    × (find (is_next machine t) end.observations ≡ none)
drain-ends_example = drain-ends machine 1005000 7 nothing_done meter tables refl meter-IsMeter

drain-balance_example :
    (progress : Progress) × (t : MeterStateRow) × (end : MeteringTables) × (drain
        (enough_rounds tables)
        machine
        7
        1005000
        nothing_done
        tables
      ≡ ok (progress, end))
    × (state_of machine end ≡ some t)
    × ((d : Dimension)
        → billed d "m_aaaaaaaaaaaa" end.raw_events + metered d machine meter
          ≡ billed d "m_aaaaaaaaaaaa" [] + metered d machine t)
drain-balance_example =
    drain-balance machine 1005000 7 nothing_done meter tables refl meter-IsMeter refl (tt, tt)
      (inr tt, tt)

drain-IsMirrored_example :
    (progress : Progress) × (end : MeteringTables) × (drain
        (enough_rounds tables)
        machine
        7
        1005000
        nothing_done
        tables
      ≡ ok (progress, end))
    × IsMirrored end
drain-IsMirrored_example =
    drain-IsMirrored machine 1005000 7 nothing_done meter tables refl meter-IsMeter refl

ingest-receipts_example :
    ((receipts : List Receipt) × (end : MeteringTables) × (ingest fixed_date by_sequence next_id
          1000 1005000 "h1"
          ((input, times) ∷ [])
          (some 1)
          tables
        ≡ (ok receipts, end))
      × AreReceiptsFor ((input, times) ∷ []) receipts)
    ⊎ ((e : MeteringError) × (ingest fixed_date by_sequence next_id 1000 1005000 "h1"
            ((input, times) ∷ [])
            (some 1)
            tables
          ≡ (err e, tables)))
ingest-receipts_example =
    ingest-receipts fixed_date by_sequence next_id 1000 1005000 "h1" ((input, times) ∷ []) (some 1)
      tables

-- The tables once the loss is closed.
abbrev closed : MeteringTables
closed = (close_host_loss "m_aaaaaaaaaaaa" lease 1006000 tables).1

close_host_loss-final_example :
    (progress : Progress) × (t : MeterStateRow) × (end : MeteringTables) × (drain
        (enough_rounds closed)
        machine
        7
        1007000
        nothing_done
        closed
      ≡ ok (progress, end))
    × (state_of machine end ≡ some t)
    × (is_some t.loss_closed_at ≡ true)
    × (end.raw_events ≡ closed.raw_events)
    × (end.usage_events ≡ closed.usage_events)
    × (find (is_next machine t) end.observations ≡ none)
close_host_loss-final_example =
    close_host_loss-final "m_aaaaaaaaaaaa" lease 1006000 tables machine meter machine 7 1007000
      nothing_done closed refl refl meter-IsMeter refl refl refl refl

abbrev outcomes : Result MeteringError (List Receipt) × MeteringTables → List Outcome
outcomes (ok receipts, db) = map (λ r. r.outcome) receipts
outcomes (err e, db) = []

-- An observation that is new, sent twice.
ingest_test :
    outcomes (
      ingest fixed_date by_sequence next_id 1000 1005000 "h1"
        ((input, times) ∷ (input, times) ∷ [])
        (some 1)
        (record tables { observations = [] }))
    ≡ accepted ∷ duplicate ∷ []
unfolding ingest transaction validate_observation parse_positive_bigint parse_unsigned is_uuid
    stored_uuid ingest_input drain process_observation anomaly first_anomaly
    observation_integrity_reason split_runtime_at_utc_midnight split_from append_projection
    project_segments receipt_for
ingest_test = refl
