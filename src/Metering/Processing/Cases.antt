-- ===== src/Metering/Processing/Cases.antt =====
-- The three ways in which an observation is processed.
use nehemiah.Base.{
  ℕ, ◌+◌, ◌*◌, ◌≡◌, refl, inl, inr, String, true, false, not, ◌||◌, List, some, arith, ◌==◌,
  string_eq, nat_eq, is_some, Bool-cases, Option-cases, and-eq-true, ok,
}
use nehemiah.Metering.{MachineIdentityRow, MeterStateRow, StoredObservationRow}
use nehemiah.Metering.Split.{UsageSegment}
use nehemiah.Metering.Split.Tiling.{Tiles, split_runtime_at_utc_midnight-Tiles}
use nehemiah.Metering.Anomaly.{anomaly}
use nehemiah.Metering.Anomaly.Regular.{IsMeter, is_meter, is_reasoned, IsRegular, anomaly-IsRegular}
use nehemiah.Metering.Tables.{MeteringTables}
use nehemiah.Metering.Processing.{
  Outcome, accepted, quarantined, process_observation, refuse, start_meter, project, runtime_delta,
  period_start,
}

module _ (identity : MachineIdentityRow) (s : MeterStateRow) (o : StoredObservationRow) (now : ℕ)
    (db : MeteringTables) where
  pub data IsProcessed : Outcome × MeteringTables → Type 0 where
    refused :
        (reason : String)
        → anomaly identity s o ≡ some reason
        → IsProcessed (quarantined, refuse identity s o reason now db)
    started :
        IsRegular identity s o
        → (o.kind == "start") ≡ true
        → IsProcessed (accepted, start_meter identity s o db)
    read :
        (start : ℕ) (segments : List UsageSegment)
        → IsRegular identity s o
        → (o.kind == "start") ≡ false
        → Tiles 0 (start * 1000000) (start * 1000000 + runtime_delta s o) segments
        → IsProcessed (project identity s o start segments now db)

  has_start : IsMeter s → s.start_seen ≡ true → (start : ℕ) × (period_start s ≡ some start)
  unfolding is_meter
  has_start meter seen =
      let first =
        (and-eq-true (not s.start_seen || is_some s.last_period_end)
          (is_reasoned s.quarantined_at s.quarantine_reason) meter).0 in
      elim (Option-cases s.last_period_end) [
        | inl missing ↦ let never : false ≡ true = rw (seen, missing) at first in cc
        | inr (at, found) ↦ (at, rw found refl)
      ]

  -- Each observation is processed, in one of the ways.
  pub process_observation-IsProcessed :
      IsMeter s
      → (result : Outcome × MeteringTables) × (process_observation identity s o now db ≡ ok result)
        × IsProcessed result
  unfolding process_observation
  process_observation-IsProcessed meter = elim (Option-cases (anomaly identity s o)) [
    | inr (reason, found) ↦
        ((quarantined, refuse identity s o reason now db), rw found refl, refused reason found)
    | inl fine ↦
        let regular = anomaly-IsRegular identity s o meter fine in
        elim (Bool-cases (o.kind == "start")) [
          | inl is_start ↦ (
            (accepted, start_meter identity s o db),
            rw (fine, is_start) refl,
            started regular is_start,
          )
          | inr later ↦
              let missing = regular.not_missing in
              let seen : s.start_seen ≡ true = ground arith in
              let (start, found) = has_start meter seen in
              let (segments, split, tiles) =
                split_runtime_at_utc_midnight-Tiles start (runtime_delta s o) in
              (
                project identity s o start segments now db,
                rw (fine, later, found, split) refl,
                read start segments regular later tiles,
              )
        ]
  ]
