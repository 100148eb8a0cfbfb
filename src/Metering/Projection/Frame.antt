-- ===== src/Metering/Projection/Frame.antt =====
-- What the projections of an observation leave as it was.
use nehemiah.Base.{
  ℕ, ◌≡◌, ◌≢◌, refl, ◌∙◌, inl, inr, false, List, [], ◌∷◌, arith, ltb, ◌==◌, nat_eq, Bool-cases,
}
use nehemiah.Metering.{MachineIdentityRow}
use nehemiah.Metering.Split.{UsageSegment}
use nehemiah.Metering.Tables.{MeteringTables}
use nehemiah.Metering.Projection.{
  ProjectionInput, append_projection, project_segments, project_egress, compute_input, memory_input,
  egress_input, last_end,
}
use nehemiah.Metering.Projection.Billed.{IsFreshFrom, names_from, fresh_append}

-- The meters and the observations are the same, and no event of another observation is new.
pub record IsFramed (id : ℕ) (before after : MeteringTables) : Type 0 where
  pub same_states : after.states ≡ before.states
  pub same_observations : after.observations ≡ before.observations
  pub apart :
      (other n : ℕ)
      → other ≢ id
      → IsFreshFrom other n before.raw_events
      → IsFreshFrom other n after.raw_events

IsFramed-twice :
    (id : ℕ) (a b c : MeteringTables) → IsFramed id a b → IsFramed id b c → IsFramed id a c
IsFramed-twice id a b c first second = record {
  same_states = second.same_states ∙ first.same_states;
  same_observations = second.same_observations ∙ first.same_observations;
  apart = λ other n differs fresh. second.apart other n differs (first.apart other n differs fresh);
}

append_projection-IsFramed :
    (identity : MachineIdentityRow) (input : ProjectionInput) (id : ℕ) (db : MeteringTables)
    → ((other n : ℕ) → other ≢ id → names_from other n input.event_key ≡ false)
    → IsFramed id db (append_projection identity input db)
unfolding append_projection
append_projection-IsFramed identity input id db named = record {
  same_states = elim (Bool-cases (input.quantity == 0)) [
    | inl nothing ↦ rw nothing refl
    | inr more ↦ rw more refl
  ];
  same_observations = elim (Bool-cases (input.quantity == 0)) [
    | inl nothing ↦ rw nothing refl
    | inr more ↦ rw more refl
  ];
  apart =
      λ other n differs fresh. fresh_append identity input db other n (named other n differs) fresh;
}

pub project_segments-IsFramed :
    (identity : MachineIdentityRow) (id : ℕ) (segments : List UsageSegment) (db : MeteringTables)
    → IsFramed id db (project_segments identity id segments db)
unfolding project_segments
project_segments-IsFramed identity id [] db = record {
  same_states = refl;
  same_observations = refl;
  apart = λ other n differs fresh. fresh;
}
project_segments-IsFramed identity id (segment ∷ segments) db =
    let one = compute_input identity id segment in
    let two = memory_input identity id segment in
    let db1 = append_projection identity one db in
    let db2 = append_projection identity two db1 in
    IsFramed-twice id db db1 (project_segments identity id segments db2)
      (append_projection-IsFramed identity one id db (λ other n differs. ground arith))
      (IsFramed-twice id db1 db2 (project_segments identity id segments db2)
        (append_projection-IsFramed identity two id db1 (λ other n differs. ground arith))
        (project_segments-IsFramed identity id segments db2))

pub project_egress-IsFramed :
    (identity : MachineIdentityRow) (id delta start : ℕ) (segments : List UsageSegment)
    (db : MeteringTables)
    → IsFramed id db (project_egress identity id delta start segments db)
project_egress-IsFramed identity id delta start segments db = elim (Bool-cases (ltb 0 delta)) [
  | inl some_bytes ↦ rw some_bytes (
      append_projection-IsFramed identity (egress_input id delta start (last_end start segments)) id
        db (λ other n differs. ground arith))
  | inr nothing ↦ rw nothing (record {
    same_states = refl;
    same_observations = refl;
    apart = λ other n differs fresh. fresh;
  })
]

pub projections-IsFramed :
    (identity : MachineIdentityRow) (id delta start : ℕ) (segments : List UsageSegment)
    (db : MeteringTables)
    → IsFramed id db
        (project_egress identity id delta start segments (project_segments identity id segments db))
projections-IsFramed identity id delta start segments db =
    let db1 = project_segments identity id segments db in
    IsFramed-twice id db db1 (project_egress identity id delta start segments db1)
      (project_segments-IsFramed identity id segments db)
      (project_egress-IsFramed identity id delta start segments db1)
