-- ===== src/Metering/Drain/Balance.antt =====
-- What the loop that processes stored observations bills.
use mathlib.Core.Path.{subst}
use nehemiah.Base.{
  ℕ, ◌+◌, ◌≡◌, ◌≢◌, refl, sym, ◌∙◌, ◌⊎◌, inl, inr, true, false, List, [], ◌∷◌, Memᴰ, All, All-Memᴰ,
  none, some, arith, string_eq, nat_eq, Bool-cases, find, find-test, find-Memᴰ, ok,
}
use nehemiah.Base.Unique.{UniqueIds, row_unique}
use nehemiah.Metering.{MachineIdentityRow, MeterStateRow, StoredObservationRow}
use nehemiah.Metering.Anomaly.Regular.{IsMeter}
use nehemiah.Metering.Tables.{Dimension, MeteringTables}
use nehemiah.Metering.Projection.Billed.{billed, IsFreshFrom}
use nehemiah.Metering.Projection.Mirror.{IsMirrored}
use nehemiah.Metering.Processing.{Outcome}
use nehemiah.Metering.Processing.Cases.{IsProcessed}
use nehemiah.Metering.Processing.Advance.{after, after-observations, after-IsAdvanced}
use nehemiah.Metering.Processing.Balance.{
  metered, process_observation-balance, process_observation-IsMirrored, process_observation-apart,
}
use nehemiah.Metering.Drain.{Progress, state_of, is_next, drain, enough_rounds}
use nehemiah.Metering.Drain.Ends.{
  is_ahead, IsLater, ahead_later, next_ahead, ahead-le-length, IsDrained, over, step, drain-IsEnd,
}

-- No observation that the meter has not come to has raised a usage event.
abbrev pub AreFresh : MachineIdentityRow → MeterStateRow → MeteringTables → Type 0
AreFresh identity s db =
    All (λ o. (is_ahead identity s o ≡ false) ⊎ IsFreshFrom o.id 0 db.raw_events) db.observations

module _ (identity : MachineIdentityRow) (now : ℕ) where
  drained-IsMirrored :
      {s t : MeterStateRow} {db end : MeteringTables}
      → IsDrained identity now s db t end
      → IsMirrored db
      → IsMirrored end
  drained-IsMirrored (over nothing) h = h
  drained-IsMirrored {s} {t} {db} (step o next how rest) h =
      drained-IsMirrored rest (process_observation-IsMirrored identity s o now db how h)

  pub drained-over :
      {s t : MeterStateRow} {db end : MeteringTables}
      → IsDrained identity now s db t end
      → find (is_next identity t) end.observations ≡ none
  drained-over (over nothing) = nothing
  drained-over (step o next how rest) = drained-over rest

  module _ (s : MeterStateRow) (db : MeteringTables) (o : StoredObservationRow)
      {result : Outcome × MeteringTables}
      (next : find (is_next identity s) db.observations ≡ some o)
      (how : IsProcessed identity s o now db result) (meter : IsMeter s) where
    went_on : IsLater identity s (after identity s o now db how)
    went_on =
        let advanced = after-IsAdvanced identity s o now db how meter in
        let test = find-test (is_next identity s) db.observations next in
        let at_next : o.sequence ≡ s.last_sequence + 1 = ground arith in
        (advanced.same_boot, rw advanced.at_sequence at_next)

    next_fresh : AreFresh identity s db → IsFreshFrom o.id 0 db.raw_events
    next_fresh fresh =
        let test = find-test (is_next identity s) db.observations next in
        let was = (next_ahead identity s (after identity s o now db how) o went_on test).0 in
        let listed = find-Memᴰ (is_next identity s) db.observations next in
        elim (All-Memᴰ (λ p. (is_ahead identity s p ≡ false) ⊎ IsFreshFrom p.id 0 db.raw_events)
          db.observations fresh listed) [
            | inl behind ↦ let never : true ≡ false = sym was ∙ behind in cc
            | inr new ↦ new
          ]

    -- Another observation that the meter has still to come to has no events either.
    fresh_after :
        (rows : List StoredObservationRow)
        → ((p : StoredObservationRow) → Memᴰ p rows → Memᴰ p db.observations)
        → UniqueIds (λ p. p.id) db.observations
        → All (λ p. (is_ahead identity s p ≡ false) ⊎ IsFreshFrom p.id 0 db.raw_events) rows
        → All
            (λ p.
              (is_ahead identity (after identity s o now db how) p ≡ false)
              ⊎ IsFreshFrom p.id 0 result.1.raw_events)
            rows
    fresh_after [] among unique fresh = tt
    fresh_after (p ∷ rows) among unique fresh = (
      elim (Bool-cases (is_ahead identity (after identity s o now db how) p)) [
        | inr behind ↦ inl behind
        | inl beyond ↦ elim fresh.0 [
          | inl behind ↦
              let was = ahead_later identity s (after identity s o now db how) p went_on beyond in
              let never : true ≡ false = sym was ∙ behind in cc
          | inr new ↦
              inr (process_observation-apart identity s o now db p.id 0 how (differs beyond) new)
        ]
      ],
      fresh_after rows (λ q m. among q (Memᴰ.tail m)) unique fresh.1,
    )
      where
        differs : is_ahead identity (after identity s o now db how) p ≡ true → p.id ≢ o.id
        differs beyond same =
            let test = find-test (is_next identity s) db.observations next in
            let listed = find-Memᴰ (is_next identity s) db.observations next in
            let done = (next_ahead identity s (after identity s o now db how) o went_on test).1 in
            let equal : p ≡ o =
              row_unique (λ q. q.id) db.observations unique (among p (Memᴰ.head refl)) listed
                same in
            let here =
              subst (λ q. is_ahead identity (after identity s o now db how) q ≡ true) equal
                beyond in
            let never : true ≡ false = sym here ∙ done in cc

    after_fresh :
        UniqueIds (λ p. p.id) db.observations
        → AreFresh identity s db
        → AreFresh identity (after identity s o now db how) result.1
    after_fresh unique fresh =
        rw (after-observations identity s o now db how)
          (fresh_after db.observations (λ p m. m) unique fresh)

  drained-balance :
      {s t : MeterStateRow} {db end : MeteringTables} (d : Dimension)
      → IsDrained identity now s db t end
      → IsMeter s
      → s.start_seen ≡ true
      → UniqueIds (λ p. p.id) db.observations
      → AreFresh identity s db
      → billed d identity.id end.raw_events + metered d identity s
        ≡ billed d identity.id db.raw_events + metered d identity t
  drained-balance d (over nothing) meter seen unique fresh = refl
  drained-balance {s} {t} {db} {end} d (step {result = result} o next how rest) meter seen unique
        fresh =
      let row = after identity s o now db how in
      let advanced = after-IsAdvanced identity s o now db how meter in
      let stays = advanced.stays_started in
      let seen1 : row.start_seen ≡ true = ground arith in
      let first =
        process_observation-balance identity s o now db how d seen
          (next_fresh s db o next how meter fresh) in
      let later =
        drained-balance d rest advanced.meter seen1
          (rw (after-observations identity s o now db how) unique)
          (after_fresh s db o next how meter unique fresh) in
      omega (arith, first, later)

  module _ (stored_id : ℕ) (progress : Progress) (s : MeterStateRow) (db : MeteringTables) where
    -- For a meter whose row is there and is sound, that is to say that it has a period if it is started
    -- and a reason if it is quarantined, the loop over the observations that are stored ends, whatever
    -- they are, without an error; then the meter is sound and none follows its last one.
    pub drain-ends :
        state_of identity db ≡ some s
        → IsMeter s
        → (progress' : Progress) × (t : MeterStateRow) × (end : MeteringTables) × (drain
              (enough_rounds db)
              identity
              stored_id
              now
              progress
              db
            ≡ ok (progress', end))
          × (state_of identity end ≡ some t)
          × IsMeter t
          × (find (is_next identity t) end.observations ≡ none)
    drain-ends found meter =
        let last =
          drain-IsEnd identity now (enough_rounds db) stored_id progress s db found meter
            (omega (arith, ahead-le-length identity s db.observations)) in
        (
          last.progress',
          last.row,
          last.tables,
          last.returns,
          last.found,
          last.meter,
          drained-over last.run,
        )

    -- For a sound meter that has been started, where the stored observations have distinct identifiers
    -- and those that the meter has still to come to have no raw usage events, the loop ends, and the
    -- bill of the machine has grown exactly as its meter has, in each dimension: the nanoseconds that
    -- the meter has counted times the processors and times the memory, and the bytes of egress.
    pub drain-balance :
        state_of identity db ≡ some s
        → IsMeter s
        → s.start_seen ≡ true
        → UniqueIds (λ p. p.id) db.observations
        → AreFresh identity s db
        → (progress' : Progress) × (t : MeterStateRow) × (end : MeteringTables) × (drain
              (enough_rounds db)
              identity
              stored_id
              now
              progress
              db
            ≡ ok (progress', end))
          × (state_of identity end ≡ some t)
          × ((d : Dimension)
              → billed d identity.id end.raw_events + metered d identity s
                ≡ billed d identity.id db.raw_events + metered d identity t)
    drain-balance found meter seen unique fresh =
        let last =
          drain-IsEnd identity now (enough_rounds db) stored_id progress s db found meter
            (omega (arith, ahead-le-length identity s db.observations)) in
        (
          last.progress',
          last.row,
          last.tables,
          last.returns,
          last.found,
          λ d. drained-balance d last.run meter seen unique fresh,
        )

    -- Through the loop, for a sound meter, the usage events whose keys begin with "raw" stay, one for
    -- one and in order, the raw usage events, with the dimension that is billed for the unit and the
    -- quantity over 10 ^ 9 for nanoseconds of processors, over 2 ^ 30 * 10 ^ 9 for nanoseconds of
    -- bytes and over 1 for bytes, whatever other usage events there are.
    pub drain-IsMirrored :
        state_of identity db ≡ some s
        → IsMeter s
        → IsMirrored db
        → (progress' : Progress) × (end : MeteringTables) × (drain
              (enough_rounds db)
              identity
              stored_id
              now
              progress
              db
            ≡ ok (progress', end))
          × IsMirrored end
    drain-IsMirrored found meter mirrored =
        let last =
          drain-IsEnd identity now (enough_rounds db) stored_id progress s db found meter
            (omega (arith, ahead-le-length identity s db.observations)) in
        (last.progress', last.tables, last.returns, drained-IsMirrored last.run mirrored)
