-- ===== src/Metering/Drain/Ends.antt =====
-- The loop that processes stored observations ends.
use nehemiah.Base.{
  ℕ, zero, suc, ◌+◌, ◌≤◌, ◌<◌, ◌≡◌, refl, inl, inr, Bool, true, false, ◌&&◌, List, [], ◌∷◌, length,
  none, some, arith, ◌==◌, string_eq, nat_eq, ltb, Bool-cases, Option-cases, if◌then◌else◌,
  and-eq-true, find, find-test, sum, ok,
}
use nehemiah.Metering.{MachineIdentityRow, MeterStateRow, StoredObservationRow}
use nehemiah.Metering.Anomaly.Regular.{IsMeter}
use nehemiah.Metering.Tables.{MeteringTables}
use nehemiah.Metering.Processing.{Outcome}
use nehemiah.Metering.Processing.Cases.{IsProcessed, process_observation-IsProcessed}
use nehemiah.Metering.Processing.Advance.{after, after-found, after-observations, after-IsAdvanced}
use nehemiah.Metering.Drain.{Progress, state_of, is_next, noted, drain}

-- An observation of the meter that it has not come to.
abbrev pub is_ahead : MachineIdentityRow → MeterStateRow → StoredObservationRow → Bool
is_ahead identity s o =
    o.machine_id == identity.id
    && o.lease_generation == identity.lease_generation
    && o.host_boot_id == s.host_boot_id
    && ltb s.last_sequence o.sequence

abbrev pub ahead : MachineIdentityRow → MeterStateRow → List StoredObservationRow → ℕ
ahead identity s = sum (λ o. if is_ahead identity s o then 1 else 0)

module _ (identity : MachineIdentityRow) where
  -- A row that has come one observation further.
  abbrev pub IsLater : MeterStateRow → MeterStateRow → Type 0
  IsLater s t = (t.host_boot_id ≡ s.host_boot_id) × (t.last_sequence ≡ s.last_sequence + 1)

  and_true : {b : Bool} → b ≡ true → (b && true) ≡ true
  and_true h = rw h refl

  and_false : (b : Bool) → (b && false) ≡ false
  and_false b = ground arith

  pub ahead_later :
      (s t : MeterStateRow) (o : StoredObservationRow)
      → IsLater s t
      → is_ahead identity t o ≡ true
      → is_ahead identity s o ≡ true
  ahead_later s t o later h =
      let on_machine =
        o.machine_id == identity.id && o.lease_generation == identity.lease_generation in
      let (rest, past) =
        and-eq-true (on_machine && o.host_boot_id == t.host_boot_id)
          (ltb t.last_sequence o.sequence) h in
      let before : ltb s.last_sequence o.sequence ≡ true = ground (arith, later.1) in
      rw before (and_true (rw later.0 at rest))

  pub next_ahead :
      (s t : MeterStateRow) (o : StoredObservationRow)
      → IsLater s t
      → is_next identity s o ≡ true
      → (is_ahead identity s o ≡ true) × (is_ahead identity t o ≡ false)
  next_ahead s t o later h =
      let on_boot =
        o.machine_id == identity.id
        && o.lease_generation == identity.lease_generation
        && o.host_boot_id == s.host_boot_id in
      let (rest, at_next) = and-eq-true on_boot (o.sequence == s.last_sequence + 1) h in
      let before : ltb s.last_sequence o.sequence ≡ true = ground arith in
      let beyond : ltb t.last_sequence o.sequence ≡ false = ground (arith, later.1) in
      (rw before (and_true rest), rw beyond (and_false _))

  ahead-le :
      (s t : MeterStateRow) (rows : List StoredObservationRow)
      → IsLater s t
      → ahead identity t rows ≤ ahead identity s rows
  ahead-le s t [] later = omega arith
  ahead-le s t (o ∷ rows) later = elim (Bool-cases (is_ahead identity t o)) [
    | inl h ↦ rw (h, ahead_later s t o later h) (omega (arith, ahead-le s t rows later))
    | inr h ↦ rw h (omega (arith, ahead-le s t rows later))
  ]

  ahead-lt :
      (s t : MeterStateRow) (rows : List StoredObservationRow) (o : StoredObservationRow)
      → IsLater s t
      → find (is_next identity s) rows ≡ some o
      → ahead identity t rows < ahead identity s rows
  ahead-lt s t [] o later h = cc
  ahead-lt s t (p ∷ rows) o later h = elim (Bool-cases (is_next identity s p)) [
    | inl here ↦
        let (was, now) = next_ahead s t p later here in
        rw (was, now) (omega (arith, ahead-le s t rows later))
    | inr other ↦
        let rest = ahead-lt s t rows o later (rw other at h) in
        elim (Bool-cases (is_ahead identity t p)) [
          | inl more ↦ rw (more, ahead_later s t p later more) (omega (arith, rest))
          | inr less ↦ rw less (omega (arith, rest))
        ]
  ]

  pub ahead-le-length :
      (s : MeterStateRow) (rows : List StoredObservationRow) → ahead identity s rows ≤ length rows
  ahead-le-length s [] = omega arith
  ahead-le-length s (o ∷ rows) = elim (Bool-cases (is_ahead identity s o)) [
    | inl h ↦ rw h (omega (arith, ahead-le-length s rows))
    | inr h ↦ rw h (omega (arith, ahead-le-length s rows))
  ]

  module _ (now : ℕ) where
    -- The observations that the loop processes, one after the other, until there is no next one.
    pub data IsDrained
        : MeterStateRow → MeteringTables → MeterStateRow → MeteringTables → Type 0 where
      over :
          {s : MeterStateRow} {db : MeteringTables}
          → find (is_next identity s) db.observations ≡ none
          → IsDrained s db s db
      step :
          {s t : MeterStateRow} {db end : MeteringTables} {result : Outcome × MeteringTables}
          (o : StoredObservationRow)
          → find (is_next identity s) db.observations ≡ some o
          → (how : IsProcessed identity s o now db result)
          → IsDrained (after identity s o now db how) result.1 t end
          → IsDrained s db t end

    -- What the loop leaves.
    pub record IsEnd (stored_id : ℕ) (progress : Progress) (s : MeterStateRow) (db : MeteringTables)
        (fuel : ℕ) : Type 0 where
      pub progress' : Progress
      pub row : MeterStateRow
      pub tables : MeteringTables
      pub returns : drain fuel identity stored_id now progress db ≡ ok (progress', tables)
      pub found : state_of identity tables ≡ some row
      pub meter : IsMeter row
      pub run : IsDrained s db row tables

    pub drain-IsEnd :
        (fuel stored_id : ℕ) (progress : Progress) (s : MeterStateRow) (db : MeteringTables)
        → state_of identity db ≡ some s
        → IsMeter s
        → ahead identity s db.observations < fuel
        → IsEnd stored_id progress s db fuel
    unfolding drain
    drain-IsEnd zero stored_id progress s db found meter fuelled = absurd (omega (arith, fuelled))
    drain-IsEnd (suc fuel) stored_id progress s db found meter fuelled =
        elim (Option-cases (find (is_next identity s) db.observations)) [
          | inl nothing ↦ record {
            progress' = progress;
            row = s;
            tables = db;
            returns = rw (found, nothing) refl;
            found = found;
            meter = meter;
            run = over nothing;
          }
          | inr (o, next) ↦
              let ((outcome, db1), returned, how) =
                process_observation-IsProcessed identity s o now db meter in
              let t = after identity s o now db how in
              let advanced = after-IsAdvanced identity s o now db how meter in
              let same = after-observations identity s o now db how in
              let test = find-test (is_next identity s) db.observations next in
              let at_next : o.sequence ≡ s.last_sequence + 1 = ground arith in
              let later : IsLater s t = (advanced.same_boot, rw advanced.at_sequence at_next) in
              let rest =
                drain-IsEnd fuel stored_id (noted o.id stored_id outcome progress) t db1
                  (after-found identity s o now db how found) advanced.meter
                  (rw same (omega (arith, ahead-lt s t db.observations o later next))) in
              record {
                progress' = rest.progress';
                row = rest.row;
                tables = rest.tables;
                returns = rw (found, next, returned) rest.returns;
                found = rest.found;
                meter = rest.meter;
                run = step {t = rest.row} {end = rest.tables} o next how rest.run;
              }
        ]
