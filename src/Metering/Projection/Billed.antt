-- ===== src/Metering/Projection/Billed.antt =====
-- What the raw usage events of a machine add up to.
use native.Mathlib.Nat.{add-mul}
use nehemiah.Base.{
  ℕ, ◌+◌, ◌*◌, ◌≡◌, refl, ap, ◌∙◌, inl, inr, String, Bool, true, false, ◌&&◌, List, [], ◌∷◌, any,
  All, sum, arith, eq_iff, if◌then◌else◌, leb, ltb, ◌==◌, string_eq, nat_eq, Bool-cases,
}
use nehemiah.Metering.{MachineIdentityRow}
use nehemiah.Metering.Split.{UsageSegment}
use nehemiah.Metering.Split.Tiling.{Tiles}
use nehemiah.Metering.Tables.{
  Key, KeyPart, text, number, part_beq, key_beq, Dimension, compute, memory, egress, RawUsageEvent,
  MeteringTables,
}
use nehemiah.Metering.Projection.{
  ProjectionInput, raw_event, append_projection, project_segments, project_egress, compute_input,
  memory_input, egress_input, last_end,
}

abbrev pub dimension_beq : Dimension → Dimension → Bool
dimension_beq compute compute = true
dimension_beq memory memory = true
dimension_beq egress egress = true
dimension_beq _ _ = false

-- The sum over the raw events of a machine in a dimension.
abbrev pub billed : Dimension → String → List RawUsageEvent → ℕ
billed d machine_id =
    sum (λ e. if dimension_beq e.dimension d && e.machine_id == machine_id then e.quantity else 0)

-- The key of an event of an observation, for the egress or for a segment from the given one on.
abbrev pub names_from : ℕ → ℕ → Key → Bool
names_from id n (text p ∷ number i ∷ number k ∷ rest) = i == id && leb n k
names_from id n (text p ∷ number i ∷ text q ∷ rest) = i == id
names_from _ _ _ = false

-- No such event is there yet.
abbrev pub IsFreshFrom : ℕ → ℕ → List RawUsageEvent → Type 0
IsFreshFrom id n events = All (λ e. names_from id n e.event_key ≡ false) events

part_beq_sound : (a b : KeyPart) → part_beq a b ≡ true → a ≡ b
part_beq_sound (text s) (text t) h = ap text (ground (arith, eq_iff s t))
part_beq_sound (number m) (number n) h = ap number (ground arith)
part_beq_sound (text s) (number n) h = cc
part_beq_sound (number m) (text t) h = cc

pub key_beq_sound : (k l : Key) → key_beq k l ≡ true → k ≡ l
key_beq_sound [] [] h = refl
key_beq_sound (a ∷ k) (b ∷ l) h =
    rw (part_beq_sound a b (ground arith)) (ap (λ r. b ∷ r) (key_beq_sound k l (ground arith)))
key_beq_sound [] (b ∷ l) h = cc
key_beq_sound (a ∷ k) [] h = cc

not_listed :
    (id n : ℕ) (key : Key) (events : List RawUsageEvent)
    → names_from id n key ≡ true
    → IsFreshFrom id n events
    → any (λ e. key_beq e.event_key key) events ≡ false
not_listed id n key [] named fresh = refl
not_listed id n key (e ∷ events) named fresh = elim (Bool-cases (key_beq e.event_key key)) [
  | inl same ↦
      let clash : names_from id n e.event_key ≡ true =
        rw (key_beq_sound e.event_key key same) named in
      cc
  | inr other ↦ rw other (not_listed id n key events named fresh.1)
]

names_later :
    (id n : ℕ) (key : Key) → names_from id n key ≡ false → names_from id (n + 1) key ≡ false
names_later id n [] h = refl
names_later id n (text p ∷ number i ∷ number k ∷ rest) h = ground arith
names_later id n (text p ∷ number i ∷ text q ∷ rest) h = h
names_later id n (text p ∷ []) h = refl
names_later id n (text p ∷ text q ∷ rest) h = refl
names_later id n (text p ∷ number i ∷ []) h = refl
names_later id n (number i ∷ rest) h = refl

fresh_later :
    (id n : ℕ) (events : List RawUsageEvent)
    → IsFreshFrom id n events
    → IsFreshFrom id (n + 1) events
fresh_later id n [] h = tt
fresh_later id n (e ∷ events) h = (names_later id n e.event_key h.0, fresh_later id n events h.1)

-- What an event adds to a sum.
abbrev pub share : Dimension → ProjectionInput → ℕ
share d input = if dimension_beq input.dimension d then input.quantity else 0

pub append_projection-billed :
    (identity : MachineIdentityRow) (input : ProjectionInput) (db : MeteringTables) (d : Dimension)
    → any (λ e. key_beq e.event_key input.event_key) db.raw_events ≡ false
    → billed d identity.id (append_projection identity input db).raw_events
      ≡ share d input + billed d identity.id db.raw_events
unfolding append_projection
append_projection-billed identity input db d fresh = elim (Bool-cases (input.quantity == 0)) [
  | inl nothing ↦ rw nothing (ground arith)
  | inr something ↦ rw (something, fresh) (ground (arith, eq_iff identity.id identity.id))
]

pub fresh_append :
    (identity : MachineIdentityRow) (input : ProjectionInput) (db : MeteringTables) (id n : ℕ)
    → names_from id n input.event_key ≡ false
    → IsFreshFrom id n db.raw_events
    → IsFreshFrom id n (append_projection identity input db).raw_events
unfolding append_projection
fresh_append identity input db id n apart fresh = elim (Bool-cases (input.quantity == 0)) [
  | inl nothing ↦ rw nothing fresh
  | inr something ↦
      elim (Bool-cases (any (λ e. key_beq e.event_key input.event_key) db.raw_events)) [
        | inl there ↦ rw (something, there) fresh
        | inr missing ↦ rw (something, missing) (apart, fresh)
      ]
]

any_append :
    (identity : MachineIdentityRow) (input : ProjectionInput) (db : MeteringTables)
    (p : RawUsageEvent → Bool)
    → p (raw_event identity input) ≡ false
    → any p db.raw_events ≡ false
    → any p (append_projection identity input db).raw_events ≡ false
unfolding append_projection
any_append identity input db p apart fresh = elim (Bool-cases (input.quantity == 0)) [
  | inl nothing ↦ rw nothing fresh
  | inr something ↦
      elim (Bool-cases (any (λ e. key_beq e.event_key input.event_key) db.raw_events)) [
        | inl there ↦ rw (something, there) fresh
        | inr missing ↦ rw (something, missing, apart) fresh
      ]
]

-- What a nanosecond of runtime adds.
abbrev pub rate : Dimension → MachineIdentityRow → ℕ
rate compute identity = identity.vcpus
rate memory identity = identity.memory_bytes
rate egress identity = 0

-- A segment's two events in a row.
segment_step :
    (identity : MachineIdentityRow) (id n : ℕ) (segment : UsageSegment) (db : MeteringTables)
    → segment.index ≡ n
    → IsFreshFrom id n db.raw_events
    → let after =
        append_projection identity
          (memory_input identity id segment)
          (append_projection identity (compute_input identity id segment) db) in
      ((d : Dimension)
        → billed d identity.id after.raw_events
          ≡ billed d identity.id db.raw_events + segment.runtime_ns * rate d identity)
      × IsFreshFrom id (n + 1) after.raw_events
segment_step identity id n segment db at fresh =
    let one = compute_input identity id segment in
    let two = memory_input identity id segment in
    let db1 = append_projection identity one db in
    let new_one : any (λ e. key_beq e.event_key one.event_key) db.raw_events ≡ false =
      not_listed id n one.event_key db.raw_events (ground arith) fresh in
    let new_two : any (λ e. key_beq e.event_key two.event_key) db1.raw_events ≡ false =
      any_append identity one db (λ e. key_beq e.event_key two.event_key) (ground arith)
        (not_listed id n two.event_key db.raw_events (ground arith) fresh) in
    (
      (λ d.
          append_projection-billed identity two db1 d new_two
          ∙ rw (append_projection-billed identity one db d new_one) (shares d)),
      fresh_append identity two db1 id (n + 1) (ground arith) (
          fresh_append identity one db id (n + 1) (ground arith)
            (fresh_later id n db.raw_events fresh)),
    )
  where
    shares :
        (d : Dimension)
        → share d (memory_input identity id segment)
            + (share d (compute_input identity id segment) + billed d identity.id db.raw_events)
          ≡ billed d identity.id db.raw_events + segment.runtime_ns * rate d identity
    shares compute = omega arith
    shares memory = omega arith
    shares egress = omega arith

abbrev pub runtime_of : List UsageSegment → ℕ
runtime_of = sum (λ segment. segment.runtime_ns)

-- Segments whose events are new add their runtime at the rate of the dimension.
pub project_segments-billed :
    (identity : MachineIdentityRow) (id n cursor terminal : ℕ) (segments : List UsageSegment)
    (db : MeteringTables)
    → Tiles n cursor terminal segments
    → IsFreshFrom id n db.raw_events
    → ((d : Dimension)
        → billed d identity.id (project_segments identity id segments db).raw_events
          ≡ billed d identity.id db.raw_events + runtime_of segments * rate d identity)
      × ((last : ℕ) × IsFreshFrom id last (project_segments identity id segments db).raw_events)
unfolding project_segments
project_segments-billed identity id n cursor terminal [] db tiles fresh =
    ((λ d. omega arith), (n, fresh))
project_segments-billed identity id n cursor terminal (segment ∷ segments) db tiles fresh =
    let (here, fresh1) = segment_step identity id n segment db tiles.0.at_index fresh in
    let db1 =
      append_projection identity (memory_input identity id segment)
        (append_projection identity (compute_input identity id segment) db) in
    let (later, fresh2) =
      project_segments-billed identity id (n + 1) (cursor + segment.runtime_ns) terminal segments
        db1 tiles.1 fresh1 in
    (
      (λ d. omega (
        arith,
        here d,
        later d,
        add-mul segment.runtime_ns (runtime_of segments) (rate d identity),
      )),
      fresh2,
    )

-- Egress of an observation that is new adds its bytes.
pub project_egress-billed :
    (identity : MachineIdentityRow) (id n delta start : ℕ) (segments : List UsageSegment)
    (db : MeteringTables) (d : Dimension)
    → IsFreshFrom id n db.raw_events
    → billed d identity.id (project_egress identity id delta start segments db).raw_events
      ≡ billed d identity.id db.raw_events + (if dimension_beq egress d then delta else 0)
project_egress-billed identity id n delta start segments db d fresh =
    let input = egress_input id delta start (last_end start segments) in
    let new : any (λ e. key_beq e.event_key input.event_key) db.raw_events ≡ false =
      not_listed id n input.event_key db.raw_events (ground arith) fresh in
    elim (Bool-cases (ltb 0 delta)) [
      | inl some_bytes ↦
          rw some_bytes (append_projection-billed identity input db d new ∙ ground arith)
      | inr nothing ↦ rw nothing (ground arith)
    ]
