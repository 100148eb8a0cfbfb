-- ===== src/Metering/Split/Tiling.antt =====
-- The segments tile the interval, and the loop ends.
use nehemiah.Base.{
  ℕ, zero, suc, ◌+◌, ◌-◌, ◌*◌, ◌/◌, ◌≤◌, ◌<◌, ◌≡◌, ◌⊎◌, inl, inr, refl, sym, ap, min, true, false,
  List, [], ◌∷◌, some, arith, Bool-cases, ltb, ◌==◌, nat_eq, sum,
}
use nehemiah.Metering.Split.{UsageSegment, next_midnight, split_from, split_runtime_at_utc_midnight}

abbrev day_ns : ℕ
day_ns = 86400000000000

-- A segment from the cursor on, which ends no later than the midnight that follows.
pub record IsSegment (index cursor : ℕ) (segment : UsageSegment) : Type 0 where
  pub at_index : segment.index ≡ index
  pub from_cursor : segment.start ≡ cursor / 1000000
  pub to_end : segment.end ≡ (cursor + segment.runtime_ns) / 1000000
  pub is_positive : 0 < segment.runtime_ns
  pub in_one_day : (cursor + segment.runtime_ns - 1) / day_ns ≡ cursor / day_ns

-- Segment after segment, from the cursor to the end, with nothing between them.
abbrev pub Tiles : ℕ → ℕ → ℕ → List UsageSegment → Type 0
Tiles index cursor terminal [] = cursor ≡ terminal
Tiles index cursor terminal (segment ∷ segments) =
    IsSegment index cursor segment
    × Tiles (index + 1) (cursor + segment.runtime_ns) terminal segments

split_step :
    (fuel index cursor terminal : ℕ) (segments : List UsageSegment)
    → cursor < terminal
    → split_from fuel (index + 1) (min (next_midnight cursor) terminal) terminal ≡ some segments
    → Tiles (index + 1) (min (next_midnight cursor) terminal) terminal segments
    → (all : List UsageSegment) × (split_from (suc fuel) index cursor terminal ≡ some all)
      × Tiles index cursor terminal all
unfolding split_from
split_step fuel index cursor terminal segments more rest tiles =
    let end = min (next_midnight cursor) terminal in
    let test : ltb cursor terminal ≡ true = ground arith in
    let whole : cursor + (end - cursor) ≡ end = omega arith in
    (
      record {
        index = index;
        start = cursor / 1000000;
        end = end / 1000000;
        runtime_ns = end - cursor;
      }
          ∷ segments,
      rw test (rw rest refl),
      (
        record {
          at_index = refl;
          from_cursor = refl;
          to_end = ap (λ n. n / 1000000) (sym whole);
          is_positive = omega arith;
          in_one_day = omega arith;
        },
        rw whole tiles,
      ),
    )

split_end :
    (fuel index cursor terminal : ℕ)
    → cursor ≡ terminal
    → (all : List UsageSegment) × (split_from (suc fuel) index cursor terminal ≡ some all)
      × Tiles index cursor terminal all
unfolding split_from
split_end fuel index cursor terminal same =
    let test : ltb cursor terminal ≡ false = ground arith in ([], rw test refl, same)

split_from-Tiles :
    (fuel index cursor terminal : ℕ)
    → cursor ≤ terminal
    → (cursor ≡ terminal) ⊎ (terminal ≤ (cursor / day_ns + fuel) * day_ns)
    → (all : List UsageSegment) × (split_from (suc fuel) index cursor terminal ≡ some all)
      × Tiles index cursor terminal all
split_from-Tiles fuel index cursor terminal h (inl same) = split_end fuel index cursor terminal same
split_from-Tiles zero index cursor terminal h (inr fuelled) =
    split_end zero index cursor terminal (omega arith)
split_from-Tiles (suc fuel) index cursor terminal h (inr fuelled) =
    let end = min (next_midnight cursor) terminal in
    elim (Bool-cases (ltb cursor terminal)) [
      | inr over ↦ split_end (suc fuel) index cursor terminal (ground arith)
      | inl more ↦
          let (segments, rest, tiles) =
            split_from-Tiles fuel (index + 1) end terminal (omega arith) (next_fuelled more) in
          split_step (suc fuel) index cursor terminal segments (ground arith) rest tiles
    ]
  where
    next_fuelled :
        ltb cursor terminal ≡ true
        → (min (next_midnight cursor) terminal ≡ terminal)
          ⊎ (terminal ≤ (min (next_midnight cursor) terminal / day_ns + fuel) * day_ns)
    next_fuelled more = elim (Bool-cases (ltb (next_midnight cursor) terminal)) [
      | inl inside ↦ inr (ground (arith, fuelled))
      | inr last ↦ inl (ground arith)
    ]

-- Splitting a runtime ends for every start and duration, and the segments it yields, numbered from 0,
-- follow one another without gap or overlap from the start over the whole duration; each is not
-- empty and lies within one day of UTC.
pub split_runtime_at_utc_midnight-Tiles :
    (at duration_ns : ℕ)
    → (segments : List UsageSegment) × (split_runtime_at_utc_midnight at duration_ns
        ≡ some segments)
      × Tiles 0 (at * 1000000) (at * 1000000 + duration_ns) segments
unfolding split_runtime_at_utc_midnight
split_runtime_at_utc_midnight-Tiles at duration_ns = elim (Bool-cases (duration_ns == 0)) [
  | inl nothing ↦
      let none_left : duration_ns ≡ 0 = ground arith in ([], rw nothing refl, omega arith)
  | inr something ↦
      let (segments, ended, tiles) =
        split_from-Tiles (duration_ns / day_ns + 2) 0 (at * 1000000) (at * 1000000 + duration_ns)
          (omega arith) (inr (omega arith)) in
      (segments, rw something ended, tiles)
]

-- The runtime of the segments is the duration.
pub Tiles-sum :
    (index cursor terminal : ℕ) (segments : List UsageSegment)
    → Tiles index cursor terminal segments
    → cursor + sum (λ segment. segment.runtime_ns) segments ≡ terminal
Tiles-sum index cursor terminal [] h = omega arith
Tiles-sum index cursor terminal (segment ∷ segments) h =
    omega (arith, Tiles-sum (index + 1) (cursor + segment.runtime_ns) terminal segments h.1)
