-- ===== src/Metering/Projection.antt =====
-- apps/nehemiah/src/billing/metering.ts, `appendProjection`, its loop over segments in
-- `processObservation`, and `closeLegacyPrefix`.
pub mod Billed
pub mod Mirror
pub mod Frame
use nehemiah.Base.{
  ℕ, ◌+◌, ◌-◌, ◌*◌, ◌/◌, max, String, Bool, ◌&&◌, List, [], ◌∷◌, Option, none, some, update,
  if◌then◌else◌, ltb, ◌==◌, string_eq, nat_eq,
}
use nehemiah.Metering.{MachineIdentityRow, nanoseconds_per_second, bytes_per_gibibyte}
use nehemiah.Metering.Split.{UsageSegment}
use nehemiah.Metering.Tables.{
  Key, KeyPart, text, number, Dimension, compute, memory, egress, UsageUnit, vcpu_nanosecond,
  byte_nanosecond, byte, RawUsageEvent, UsageEvent, OutboxRow, MeteringTables, insert_new, coalesce,
}

pub record ProjectionInput : Type 0 where
  pub event_key : Key
  pub observation_id : ℕ
  pub dimension : Dimension
  pub unit : UsageUnit
  pub quantity : ℕ
  pub period_start : ℕ
  pub period_end : ℕ

abbrev pub raw_event : MachineIdentityRow → ProjectionInput → RawUsageEvent
raw_event identity input = record {
  event_key = input.event_key;
  observation_id = input.observation_id;
  organization_id = identity.organization_id;
  project_id = identity.project_id;
  machine_id = identity.id;
  lease_id = identity.lease_id;
  lease_generation = identity.lease_generation;
  dimension = input.dimension;
  unit = input.unit;
  quantity = input.quantity;
  period_start = input.period_start;
  period_end = input.period_end;
}

abbrev pub projected_dimension : UsageUnit → String
projected_dimension vcpu_nanosecond = "vcpu_seconds"
projected_dimension byte_nanosecond = "gib_seconds"
projected_dimension byte = "egress_bytes"

abbrev pub projected_divisor : UsageUnit → ℕ
projected_divisor vcpu_nanosecond = nanoseconds_per_second
projected_divisor byte_nanosecond = bytes_per_gibibyte * nanoseconds_per_second
projected_divisor byte = 1

abbrev pub usage_event : MachineIdentityRow → ProjectionInput → UsageEvent
usage_event identity input = record {
  event_key = text "raw" ∷ input.event_key;
  organization_id = identity.organization_id;
  project_id = identity.project_id;
  machine_id = identity.id;
  dimension = projected_dimension input.unit;
  quantity = input.quantity;
  divisor = projected_divisor input.unit;
  period_start = input.period_start;
  period_end = input.period_end;
  source = "host";
}

unfoldable pub append_projection :
    MachineIdentityRow → ProjectionInput → MeteringTables → MeteringTables
append_projection identity input db = if input.quantity == 0 then db else record db {
  raw_events = insert_new (λ e. e.event_key) (raw_event identity input) db.raw_events;
  usage_events = insert_new (λ e. e.event_key) (usage_event identity input) db.usage_events;
}

abbrev pub compute_input : MachineIdentityRow → ℕ → UsageSegment → ProjectionInput
compute_input identity observation_id segment = record {
  event_key = text "meter" ∷ number observation_id ∷ number segment.index ∷ text "compute" ∷ [];
  observation_id = observation_id;
  dimension = compute;
  unit = vcpu_nanosecond;
  quantity = segment.runtime_ns * identity.vcpus;
  period_start = segment.start;
  period_end = segment.end;
}

abbrev pub memory_input : MachineIdentityRow → ℕ → UsageSegment → ProjectionInput
memory_input identity observation_id segment = record {
  event_key = text "meter" ∷ number observation_id ∷ number segment.index ∷ text "memory" ∷ [];
  observation_id = observation_id;
  dimension = memory;
  unit = byte_nanosecond;
  quantity = segment.runtime_ns * identity.memory_bytes;
  period_start = segment.start;
  period_end = segment.end;
}

-- for (const segment of segments)
unfoldable pub project_segments :
    MachineIdentityRow → ℕ → List UsageSegment → MeteringTables → MeteringTables
project_segments identity observation_id [] db = db
project_segments identity observation_id (segment ∷ segments) db =
    project_segments identity observation_id segments (
      append_projection identity (memory_input identity observation_id segment)
        (append_projection identity (compute_input identity observation_id segment) db))

-- segments.at(-1)?.end ?? periodStart
abbrev pub last_end : ℕ → List UsageSegment → ℕ
last_end period_start [] = period_start
last_end period_start (segment ∷ segments) = last_end segment.end segments

abbrev pub egress_input : ℕ → ℕ → ℕ → ℕ → ProjectionInput
egress_input observation_id quantity period_start period_end = record {
  event_key = text "meter" ∷ number observation_id ∷ text "egress" ∷ [];
  observation_id = observation_id;
  dimension = egress;
  unit = byte;
  quantity = quantity;
  period_start = period_start;
  period_end = period_end;
}

abbrev pub project_egress :
    MachineIdentityRow → ℕ → ℕ → ℕ → List UsageSegment → MeteringTables → MeteringTables
project_egress identity observation_id egress_delta period_start segments db =
    if ltb 0 egress_delta
    then append_projection identity
        (egress_input observation_id egress_delta period_start (last_end period_start segments)) db
    else db

-- identity.usage_checkpoint_at ?? identity.started_at
abbrev pub legacy_start : MachineIdentityRow → Option ℕ
legacy_start identity = elim identity.usage_checkpoint_at [
  | some at ↦ some at
  | none ↦ identity.started_at
]

abbrev pub cutover_boundary : Option ℕ → ℕ → ℕ
cutover_boundary none host_start = host_start
cutover_boundary (some start) host_start = if ltb host_start start then start else host_start

abbrev pub outbox_row : MachineIdentityRow → ℕ → ℕ → OutboxRow
outbox_row identity start boundary = record {
  event_key =
      text "machine"
      ∷ text identity.id
      ∷ text "meter-cutover"
      ∷ number identity.lease_generation
      ∷ number boundary
      ∷ [];
  organization_id = identity.organization_id;
  project_id = identity.project_id;
  machine_id = identity.id;
  vcpus = identity.vcpus;
  memory_mb = identity.memory_bytes / 1048576;
  period_start = start;
  period_end = boundary;
}

abbrev pub legacy_outbox : MachineIdentityRow → Option ℕ → ℕ → List OutboxRow → List OutboxRow
legacy_outbox identity none boundary rows = rows
legacy_outbox identity (some start) boundary rows =
    if ltb start boundary
    then insert_new (λ e. e.event_key) (outbox_row identity start boundary) rows
    else rows

-- WHERE id = … AND lease_id = … AND lease_generation = …
abbrev pub has_lease : MachineIdentityRow → MachineIdentityRow → Bool
has_lease identity m =
    m.id == identity.id
    && m.lease_id == identity.lease_id
    && m.lease_generation == identity.lease_generation

abbrev pub greatest : Option ℕ → ℕ → ℕ
greatest none boundary = boundary
greatest (some at) boundary = max at boundary

unfoldable pub close_legacy_prefix : MachineIdentityRow → ℕ → MeteringTables → ℕ × MeteringTables
close_legacy_prefix identity host_start db =
    let start = legacy_start identity in
    let boundary = cutover_boundary start host_start in
    (
      boundary,
      record db {
        outbox = legacy_outbox identity start boundary db.outbox;
        machines =
            update (has_lease identity)
              (λ m. record m {
                usage_checkpoint_at = some (greatest m.usage_checkpoint_at boundary);
              })
              db.machines;
      },
    )
