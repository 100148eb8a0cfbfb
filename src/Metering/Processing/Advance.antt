-- ===== src/Metering/Processing/Advance.antt =====
-- The row of the meter after an observation.
use nehemiah.Base.{
  ℕ, ◌+◌, ◌-◌, ◌*◌, ◌/◌, max, ◌≡◌, refl, sym, ◌∙◌, inl, inr, String, Bool, true, false, not, ◌&&◌,
  ◌||◌, List, [], ◌∷◌, Option, none, some, arith, ◌==◌, string_eq, nat_eq, is_some, Bool-cases,
  and-eq-true, if◌then◌else◌, find, find-test, update,
}
use nehemiah.Metering.{
  MachineIdentityRow, MeterStateRow, StoredObservationRow, nanoseconds_per_millisecond,
}
use nehemiah.Metering.Anomaly.Regular.{IsMeter, is_meter, is_reasoned, anomaly-named}
use nehemiah.Metering.Tables.{MeteringTables, quarantined_state, coalesce, set_quarantined}
use nehemiah.Metering.Projection.{
  close_legacy_prefix, cutover_boundary, legacy_start, project_segments, project_egress,
}
use nehemiah.Metering.Projection.Frame.{projections-IsFramed}
use nehemiah.Metering.Processing.{
  Outcome, refused_state, started_state, read_state, finish, runtime_delta, update_state,
}
use nehemiah.Metering.Processing.Cases.{IsProcessed, refused, started, read}

abbrev pub finished_state : StoredObservationRow → ℕ → MeterStateRow → MeterStateRow
finished_state o now s =
    if o.kind == "final"
    then (if o.quality == "last_defensible" then quarantined_state "degraded_terminal" now s else s)
    else s

abbrev pub state_for : String → List MeterStateRow → Option MeterStateRow
state_for id = find (λ s. s.machine_id == id)

-- The row that an update of the found row leaves.
pub find-update :
    (id : String) (q : MeterStateRow → Bool) (f : MeterStateRow → MeterStateRow)
    (rows : List MeterStateRow) (s : MeterStateRow)
    → ((r : MeterStateRow) → (r.machine_id == id) ≡ false → q r ≡ false)
    → ((r : MeterStateRow) → (f r).machine_id ≡ r.machine_id)
    → state_for id rows ≡ some s
    → q s ≡ true
    → state_for id (update q f rows) ≡ some (f s)
find-update id q f [] s others keeps h test = cc
find-update id q f (r ∷ rows) s others keeps h test = elim (Bool-cases (r.machine_id == id)) [
  | inl here ↦
      let same : r ≡ s = ground arith in rw (same, test, keeps s) (rw (sym same) (rw here refl))
  | inr other ↦
      rw (others r other, other) (find-update id q f rows s others keeps (rw other at h) test)
]

module _ (identity : MachineIdentityRow) (s : MeterStateRow) (o : StoredObservationRow) (now : ℕ)
    (db : MeteringTables) where
  abbrev pub after :
      {result : Outcome × MeteringTables} → IsProcessed identity s o now db result → MeterStateRow
  after (refused reason found) = refused_state o (quarantined_state reason now s)
  after (started regular is_start) =
      started_state o (close_legacy_prefix identity o.observed_at db).0 s
  after (read start segments regular later tiles) = finished_state o now (
      read_state o (max o.runtime_ns s.projected_runtime_ns)
        ((start * nanoseconds_per_millisecond + runtime_delta s o) / nanoseconds_per_millisecond) s)

  found_update :
      (f : MeterStateRow → MeterStateRow) (at : MeterStateRow) (tables : MeteringTables)
      → ((r : MeterStateRow) → (f r).machine_id ≡ r.machine_id)
      → at.last_sequence ≡ s.last_sequence
      → state_for identity.id tables.states ≡ some at
      → state_for identity.id (update_state identity s.last_sequence f tables).states ≡ some (f at)
  found_update f at tables keeps same h =
      find-update identity.id
        (λ r. r.machine_id == identity.id && r.last_sequence == s.last_sequence) f tables.states at
        (λ r other. rw other refl) keeps h
        (rw (find-test (λ r. r.machine_id == identity.id) tables.states h, same) (ground arith))

  found_quarantined :
      (reason : String) (at : MeterStateRow) (tables : MeteringTables)
      → state_for identity.id tables.states ≡ some at
      → state_for identity.id (set_quarantined identity.id reason now tables).states
        ≡ some (quarantined_state reason now at)
  found_quarantined reason at tables h =
      find-update identity.id (λ r. r.machine_id == identity.id) (quarantined_state reason now)
        tables.states at (λ r other. other) (λ r. refl) h
        (find-test (λ r. r.machine_id == identity.id) tables.states h)

  finish-found :
      (at : MeterStateRow) (period_end : ℕ) (tables : MeteringTables)
      → state_for identity.id tables.states ≡ some at
      → state_for identity.id (finish identity o period_end now tables).1.states
        ≡ some (finished_state o now at)
  finish-found at period_end tables h = elim (Bool-cases (o.kind == "final")) [
    | inr going ↦ rw going h
    | inl final ↦ elim (Bool-cases (o.quality == "last_defensible")) [
      | inr exact ↦ rw (final, exact) h
      | inl degraded ↦ rw (final, degraded) (found_quarantined "degraded_terminal" at tables h)
    ]
  ]

  -- The row that is found afterwards.
  pub after-found :
      {result : Outcome × MeteringTables} (how : IsProcessed identity s o now db result)
      → state_for identity.id db.states ≡ some s
      → state_for identity.id result.1.states ≡ some (after how)
  unfolding close_legacy_prefix
  after-found (refused reason found) h =
      found_update (refused_state o) (quarantined_state reason now s)
        (set_quarantined identity.id reason now db) (λ r. refl) refl
        (found_quarantined reason s db h)
  after-found (started regular is_start) h =
      found_update (started_state o (cutover_boundary (legacy_start identity) o.observed_at)) s db
        (λ r. refl) refl h
  after-found (read start segments regular later tiles) h =
      let delta = o.egress_bytes - s.last_egress_bytes in
      let db1 =
        project_egress identity o.id delta start segments
          (project_segments identity o.id segments db) in
      let frame = projections-IsFramed identity o.id delta start segments db in
      let end =
        (start * nanoseconds_per_millisecond + runtime_delta s o) / nanoseconds_per_millisecond in
      let reading = read_state o (max o.runtime_ns s.projected_runtime_ns) end in
      finish-found (reading s) end (update_state identity s.last_sequence reading db1)
        (found_update reading s db1 (λ r. refl) refl (rw frame.same_states h))

  finish-observations :
      (period_end : ℕ) (tables : MeteringTables)
      → (finish identity o period_end now tables).1.observations ≡ tables.observations
  finish-observations period_end tables = elim (Bool-cases (o.kind == "final")) [
    | inr going ↦ rw going refl
    | inl final ↦ elim (Bool-cases (o.quality == "last_defensible")) [
      | inr exact ↦ rw (final, exact) refl
      | inl degraded ↦ rw (final, degraded) refl
    ]
  ]

  pub after-observations :
      {result : Outcome × MeteringTables}
      → IsProcessed identity s o now db result
      → result.1.observations ≡ db.observations
  unfolding close_legacy_prefix
  after-observations (refused reason found) = refl
  after-observations (started regular is_start) = refl
  after-observations (read start segments regular later tiles) =
      let delta = o.egress_bytes - s.last_egress_bytes in
      let db1 =
        project_egress identity o.id delta start segments
          (project_segments identity o.id segments db) in
      let end =
        (start * nanoseconds_per_millisecond + runtime_delta s o) / nanoseconds_per_millisecond in
      let reading = read_state o (max o.runtime_ns s.projected_runtime_ns) end in
      finish-observations end (update_state identity s.last_sequence reading db1)
      ∙ (projections-IsFramed identity o.id delta start segments db).same_observations

  -- What each step gives to the row.
  pub record IsAdvanced (row : MeterStateRow) : Type 0 where
    pub meter : IsMeter row
    pub at_sequence : row.last_sequence ≡ o.sequence
    pub same_boot : row.host_boot_id ≡ s.host_boot_id
    pub stays_started : (s.start_seen && not row.start_seen) ≡ false

  reasoned_later :
      (at : Option ℕ) (old : Option String) (reason : String)
      → (reason == "") ≡ false
      → is_reasoned at old ≡ true
      → is_reasoned (coalesce at now) (coalesce old reason) ≡ true
  reasoned_later none none reason named h = rw named refl
  reasoned_later (some t) (some r) reason named h = h
  reasoned_later (some t) none reason named h = cc
  reasoned_later none (some r) reason named h = cc

  meter_parts :
      (row : MeterStateRow)
      → IsMeter row
      → ((not row.start_seen || is_some row.last_period_end) ≡ true)
        × (is_reasoned row.quarantined_at row.quarantine_reason ≡ true)
  unfolding is_meter
  meter_parts row meter =
      and-eq-true (not row.start_seen || is_some row.last_period_end)
        (is_reasoned row.quarantined_at row.quarantine_reason) meter

  quarantined_meter :
      (reason : String) (row : MeterStateRow)
      → (reason == "") ≡ false
      → IsMeter row
      → IsMeter (quarantined_state reason now row)
  unfolding is_meter
  quarantined_meter reason row named meter =
      let (period, reasoned) = meter_parts row meter in
      rw (period, reasoned_later row.quarantined_at row.quarantine_reason reason named reasoned)
        refl

  finished_meter : (row : MeterStateRow) → IsMeter row → IsMeter (finished_state o now row)
  finished_meter row meter = elim (Bool-cases (o.kind == "final")) [
    | inr going ↦ rw going meter
    | inl final ↦ elim (Bool-cases (o.quality == "last_defensible")) [
      | inr exact ↦ rw (final, exact) meter
      | inl degraded ↦ rw (final, degraded) (quarantined_meter "degraded_terminal" row refl meter)
    ]
  ]

  -- The fields of a row that finishing leaves.
  pub finished_same :
      {A : Type 0} (field : MeterStateRow → A) (row : MeterStateRow)
      → field (quarantined_state "degraded_terminal" now row) ≡ field row
      → field (finished_state o now row) ≡ field row
  finished_same field row same = elim (Bool-cases (o.kind == "final")) [
    | inr going ↦ rw going refl
    | inl final ↦ elim (Bool-cases (o.quality == "last_defensible")) [
      | inr exact ↦ rw (final, exact) refl
      | inl degraded ↦ rw (final, degraded) same
    ]
  ]

  period_later : (b : Bool) → (not b || true) ≡ true
  period_later b = ground arith

  pub after-IsAdvanced :
      {result : Outcome × MeteringTables} (how : IsProcessed identity s o now db result)
      → IsMeter s
      → IsAdvanced (after how)
  unfolding is_meter
  after-IsAdvanced (refused reason found) meter = record {
    meter = quarantined_meter reason s (anomaly-named identity s o found) meter;
    at_sequence = refl;
    same_boot = refl;
    stays_started = ground arith;
  }
  after-IsAdvanced (started regular is_start) meter = record {
    meter = (meter_parts s meter).1;
    at_sequence = refl;
    same_boot = refl;
    stays_started = ground arith;
  }
  after-IsAdvanced (read start segments regular later tiles) meter =
      let end =
        (start * nanoseconds_per_millisecond + runtime_delta s o) / nanoseconds_per_millisecond in
      let reading = read_state o (max o.runtime_ns s.projected_runtime_ns) end s in
      record {
        meter = finished_meter reading (rw (period_later s.start_seen) ((meter_parts s meter).1));
        at_sequence = finished_same (λ r. r.last_sequence) reading refl;
        same_boot = finished_same (λ r. r.host_boot_id) reading refl;
        stays_started = rw (finished_same (λ r. r.start_seen) reading refl) (ground arith);
      }
