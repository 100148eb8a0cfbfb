-- ===== src/Metering/Projection/Mirror.antt =====
-- The usage events are the raw usage events, converted.
use nehemiah.Base.{
  ℕ, ◌≡◌, refl, ap, inl, inr, List, [], ◌∷◌, map, any, select, String, Bool, false, ◌∙◌, ◌==◌,
  nat_eq, ltb, ◌||◌, Bool-cases,
}
use nehemiah.Metering.{MachineIdentityRow}
use nehemiah.Metering.Split.{UsageSegment}
use nehemiah.Metering.Tables.{
  text, Key, key_beq, part_beq, UsageUnit, vcpu_nanosecond, byte_nanosecond, byte, RawUsageEvent,
  UsageEvent, MeteringTables, insert_new,
}
use nehemiah.Metering.Projection.{
  ProjectionInput, raw_event, usage_event, append_projection, project_segments, project_egress,
  compute_input, memory_input, egress_input, last_end,
}

-- The dimension that is billed, and how many of the raw unit make one of it: nanoseconds of a
-- processor in a second, bytes times nanoseconds in a gibibyte for a second, and bytes.
abbrev pub billed_as : UsageUnit → String × ℕ
billed_as vcpu_nanosecond = ("vcpu_seconds", 1000000000)
billed_as byte_nanosecond = ("gib_seconds", 1073741824000000000)
billed_as byte = ("egress_bytes", 1)

-- The usage event of a raw event: its quantity over the number of raw units in one.
abbrev pub converted : RawUsageEvent → UsageEvent
converted e = record {
  event_key = text "raw" ∷ e.event_key;
  organization_id = e.organization_id;
  project_id = e.project_id;
  machine_id = e.machine_id;
  dimension = (billed_as e.unit).0;
  quantity = e.quantity;
  divisor = (billed_as e.unit).1;
  period_start = e.period_start;
  period_end = e.period_end;
  source = "host";
}

-- The key of a row that comes from a raw event.
abbrev pub is_raw : UsageEvent → Bool
is_raw e = elim e.event_key [ [] ↦ false | part ∷ parts ↦ part_beq part (text "raw") ]

abbrev pub IsMirrored : MeteringTables → Type 0
IsMirrored db = select is_raw db.usage_events ≡ map converted db.raw_events

usage_event-converted :
    (identity : MachineIdentityRow) (input : ProjectionInput)
    → usage_event identity input ≡ converted (raw_event identity input)
usage_event-converted identity input = named_and_scaled input.unit
  where
    named_and_scaled :
        (unit : UsageUnit)
        → usage_event identity (record input { unit = unit })
          ≡ converted (raw_event identity (record input { unit = unit }))
    named_and_scaled vcpu_nanosecond = refl
    named_and_scaled byte_nanosecond = refl
    named_and_scaled byte = refl

any-converted :
    (key : Key) (events : List RawUsageEvent)
    → any (λ e. key_beq e.event_key (text "raw" ∷ key)) (map converted events)
      ≡ any (λ e. key_beq e.event_key key) events
any-converted key [] = refl
any-converted key (e ∷ events) =
    ap (λ rest. key_beq e.event_key key || rest) (any-converted key events)

has_key-is_raw :
    (key parts : Key)
    → elim parts [ [] ↦ false | part ∷ rest ↦ part_beq part (text "raw") ] ≡ false
    → key_beq parts (text "raw" ∷ key) ≡ false
has_key-is_raw key [] other = refl
has_key-is_raw key (part ∷ parts) other = rw other refl

-- Only rows of raw events have the key of one.
any-is_raw :
    (key : Key) (events : List UsageEvent)
    → any (λ e. key_beq e.event_key (text "raw" ∷ key)) events
      ≡ any (λ e. key_beq e.event_key (text "raw" ∷ key)) (select is_raw events)
any-is_raw key [] = refl
any-is_raw key (e ∷ events) = elim (Bool-cases (is_raw e)) [
  | inl raw ↦
      rw raw (ap (λ rest. key_beq e.event_key (text "raw" ∷ key) || rest) (any-is_raw key events))
  | inr other ↦ rw (other, has_key-is_raw key e.event_key other) (any-is_raw key events)
]

insert_new-converted :
    (row : RawUsageEvent) (events : List RawUsageEvent) (usage : List UsageEvent)
    → select is_raw usage ≡ map converted events
    → select is_raw (insert_new (λ e. e.event_key) (converted row) usage)
      ≡ map converted (insert_new (λ e. e.event_key) row events)
insert_new-converted row events usage h =
    let same =
      any-is_raw row.event_key usage
      ∙ ap (λ rows. any (λ e. key_beq e.event_key (text "raw" ∷ row.event_key)) rows) h
      ∙ any-converted row.event_key events in
    elim (Bool-cases (any (λ e. key_beq e.event_key row.event_key) events)) [
      | inl there ↦ rw (same, there) h
      | inr missing ↦ rw (same, missing) (ap (λ rows. converted row ∷ rows) h)
    ]

pub append_projection-IsMirrored :
    (identity : MachineIdentityRow) (input : ProjectionInput) (db : MeteringTables)
    → IsMirrored db
    → IsMirrored (append_projection identity input db)
unfolding append_projection
append_projection-IsMirrored identity input db h = elim (Bool-cases (input.quantity == 0)) [
  | inl nothing ↦ rw nothing h
  | inr something ↦
      rw (something, usage_event-converted identity input)
        (insert_new-converted (raw_event identity input) db.raw_events db.usage_events h)
]

pub project_segments-IsMirrored :
    (identity : MachineIdentityRow) (id : ℕ) (segments : List UsageSegment) (db : MeteringTables)
    → IsMirrored db
    → IsMirrored (project_segments identity id segments db)
unfolding project_segments
project_segments-IsMirrored identity id [] db h = h
project_segments-IsMirrored identity id (segment ∷ segments) db h =
    let db1 = append_projection identity (compute_input identity id segment) db in
    project_segments-IsMirrored identity id segments
      (append_projection identity (memory_input identity id segment) db1)
      (append_projection-IsMirrored identity (memory_input identity id segment) db1
        (append_projection-IsMirrored identity (compute_input identity id segment) db h))

pub project_egress-IsMirrored :
    (identity : MachineIdentityRow) (id delta start : ℕ) (segments : List UsageSegment)
    (db : MeteringTables)
    → IsMirrored db
    → IsMirrored (project_egress identity id delta start segments db)
project_egress-IsMirrored identity id delta start segments db h = elim (Bool-cases (ltb 0 delta)) [
  | inl some_bytes ↦ rw some_bytes (
      append_projection-IsMirrored identity (egress_input id delta start (last_end start segments))
        db h)
  | inr nothing ↦ rw nothing h
]
