-- ===== src/Metering/Processing/Balance.antt =====
-- What an observation bills, against what the meter reads.
use native.Mathlib.Nat.{add-mul}
use nehemiah.Base.{
  ℕ, ◌+◌, ◌-◌, ◌*◌, ◌/◌, ◌≤◌, max, ◌≡◌, ◌≢◌, refl, inl, inr, true, false, arith, ◌==◌, string_eq,
  nat_eq, Bool-cases, if◌then◌else◌,
}
use nehemiah.Metering.{
  MachineIdentityRow, MeterStateRow, StoredObservationRow, nanoseconds_per_millisecond,
}
use nehemiah.Metering.Split.Tiling.{Tiles-sum}
use nehemiah.Metering.Anomaly.{is_counter_reset}
use nehemiah.Metering.Tables.{Dimension, compute, memory, egress, MeteringTables}
use nehemiah.Metering.Projection.{close_legacy_prefix, project_segments, project_egress}
use nehemiah.Metering.Projection.Billed.{
  billed, rate, dimension_beq, IsFreshFrom, runtime_of, project_segments-billed,
  project_egress-billed,
}
use nehemiah.Metering.Projection.Mirror.{
  IsMirrored, project_segments-IsMirrored, project_egress-IsMirrored,
}
use nehemiah.Metering.Projection.Frame.{projections-IsFramed}
use nehemiah.Metering.Processing.{Outcome, finish, update_state, read_state, runtime_delta}
use nehemiah.Metering.Processing.Cases.{IsProcessed, refused, started, read}
use nehemiah.Metering.Processing.Advance.{after, finished_same}

-- What the meter says that a machine is to be billed.
abbrev pub metered : Dimension → MachineIdentityRow → MeterStateRow → ℕ
metered d identity row =
    row.projected_runtime_ns * rate d identity
    + (if dimension_beq egress d then row.last_egress_bytes else 0)

module _ (identity : MachineIdentityRow) (s : MeterStateRow) (o : StoredObservationRow) (now : ℕ)
    (db : MeteringTables) where
  finish-events :
      (period_end : ℕ) (tables : MeteringTables)
      → ((finish identity o period_end now tables).1.raw_events ≡ tables.raw_events)
        × ((finish identity o period_end now tables).1.usage_events ≡ tables.usage_events)
  finish-events period_end tables = elim (Bool-cases (o.kind == "final")) [
    | inr going ↦ rw going (refl, refl)
    | inl final ↦ elim (Bool-cases (o.quality == "last_defensible")) [
      | inr exact ↦ rw (final, exact) (refl, refl)
      | inl degraded ↦ rw (final, degraded) (refl, refl)
    ]
  ]

  egress_grown : is_counter_reset s o ≡ false → s.last_egress_bytes ≤ o.egress_bytes
  egress_grown h = ground arith

  grown :
      (d : Dimension) (row : MeterStateRow)
      → is_counter_reset s o ≡ false
      → row.projected_runtime_ns ≡ max o.runtime_ns s.projected_runtime_ns
      → row.last_egress_bytes ≡ o.egress_bytes
      → runtime_delta s o * rate d identity
          + (if dimension_beq egress d then o.egress_bytes - s.last_egress_bytes else 0)
          + metered d identity s
        ≡ metered d identity row
  grown d row reset runtime bytes =
      let more = egress_grown reset in
      let whole : row.projected_runtime_ns ≡ runtime_delta s o + s.projected_runtime_ns =
        omega arith in
      let product = add-mul (runtime_delta s o) s.projected_runtime_ns (rate d identity) in
      rw (whole, bytes) (in_dimension d product more)
    where
      in_dimension :
          (d : Dimension)
          → (runtime_delta s o + s.projected_runtime_ns) * rate d identity
            ≡ runtime_delta s o * rate d identity + s.projected_runtime_ns * rate d identity
          → s.last_egress_bytes ≤ o.egress_bytes
          → runtime_delta s o * rate d identity
              + (if dimension_beq egress d then o.egress_bytes - s.last_egress_bytes else 0)
              + metered d identity s
            ≡ (runtime_delta s o + s.projected_runtime_ns) * rate d identity
              + (if dimension_beq egress d then o.egress_bytes else 0)
      in_dimension compute product more = omega arith
      in_dimension memory product more = omega arith
      in_dimension egress product more = omega arith

  -- The bill of a machine grows by what its meter does.
  pub process_observation-balance :
      {result : Outcome × MeteringTables} (how : IsProcessed identity s o now db result)
      (d : Dimension)
      → s.start_seen ≡ true
      → IsFreshFrom o.id 0 db.raw_events
      → billed d identity.id result.1.raw_events + metered d identity s
        ≡ billed d identity.id db.raw_events + metered d identity (after identity s o now db how)
  unfolding close_legacy_prefix
  process_observation-balance (refused reason found) d seen fresh = refl
  process_observation-balance (started regular is_start) d seen fresh =
      let never : true ≡ false = rw (seen, is_start) at regular.not_repeated in cc
  process_observation-balance (read start segments regular later tiles) d seen fresh =
      let delta = o.egress_bytes - s.last_egress_bytes in
      let db1 = project_segments identity o.id segments db in
      let db2 = project_egress identity o.id delta start segments db1 in
      let end =
        (start * nanoseconds_per_millisecond + runtime_delta s o) / nanoseconds_per_millisecond in
      let reading = read_state o (max o.runtime_ns s.projected_runtime_ns) end in
      let row = after identity s o now db (read start segments regular later tiles) in
      let (by_segments, (last, fresh1)) =
        project_segments-billed identity o.id 0 (start * 1000000)
          (start * 1000000 + runtime_delta s o) segments db tiles fresh in
      let by_egress = project_egress-billed identity o.id last delta start segments db1 d fresh1 in
      let total : runtime_of segments ≡ runtime_delta s o = omega (
        arith,
        Tiles-sum 0 (start * 1000000) (start * 1000000 + runtime_delta s o) segments tiles,
      ) in
      let growth =
        grown d row regular.not_reset
          (finished_same identity s o now db (λ r. r.projected_runtime_ns) (reading s) refl)
          (finished_same identity s o now db (λ r. r.last_egress_bytes) (reading s) refl) in
      let events = (finish-events end (update_state identity s.last_sequence reading db2)).0 in
      rw (events, by_egress, by_segments d, total) (omega (arith, growth))

  -- The usage events stay the conversion of the raw events.
  pub process_observation-IsMirrored :
      {result : Outcome × MeteringTables}
      → IsProcessed identity s o now db result
      → IsMirrored db
      → IsMirrored result.1
  unfolding close_legacy_prefix
  process_observation-IsMirrored (refused reason found) h = h
  process_observation-IsMirrored (started regular is_start) h = h
  process_observation-IsMirrored (read start segments regular later tiles) h =
      let delta = o.egress_bytes - s.last_egress_bytes in
      let db1 = project_segments identity o.id segments db in
      let db2 = project_egress identity o.id delta start segments db1 in
      let end =
        (start * nanoseconds_per_millisecond + runtime_delta s o) / nanoseconds_per_millisecond in
      let reading = read_state o (max o.runtime_ns s.projected_runtime_ns) end in
      let events = finish-events end (update_state identity s.last_sequence reading db2) in
      rw (events.0, events.1)
        (project_egress-IsMirrored identity o.id delta start segments db1
          (project_segments-IsMirrored identity o.id segments db h))

  -- No event of another observation is new.
  pub process_observation-apart :
      {result : Outcome × MeteringTables} (other n : ℕ)
      → IsProcessed identity s o now db result
      → other ≢ o.id
      → IsFreshFrom other n db.raw_events
      → IsFreshFrom other n result.1.raw_events
  unfolding close_legacy_prefix
  process_observation-apart other n (refused reason found) differs fresh = fresh
  process_observation-apart other n (started regular is_start) differs fresh = fresh
  process_observation-apart other n (read start segments regular later tiles) differs fresh =
      let delta = o.egress_bytes - s.last_egress_bytes in
      let db2 =
        project_egress identity o.id delta start segments
          (project_segments identity o.id segments db) in
      let end =
        (start * nanoseconds_per_millisecond + runtime_delta s o) / nanoseconds_per_millisecond in
      let reading = read_state o (max o.runtime_ns s.projected_runtime_ns) end in
      rw ((finish-events end (update_state identity s.last_sequence reading db2)).0)
        ((projections-IsFramed identity o.id delta start segments db).apart other n differs fresh)
