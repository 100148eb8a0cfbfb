-- ===== src/Metering/Split.antt =====
-- apps/nehemiah/src/billing/metering.ts, `splitRuntimeAtUtcMidnight`.
-- Every midnight that is computed is a date of JavaScript, no later than its last one.
pub mod Tiling
use nehemiah.Base.{
  ℕ, zero, suc, ◌+◌, ◌-◌, ◌*◌, ◌/◌, min, List, [], ◌∷◌, Option, none, some, if◌then◌else◌, ltb,
  ◌==◌, nat_eq,
}

pub record UsageSegment : Type 0 where
  pub index : ℕ
  pub start : ℕ
  pub end : ℕ
  pub runtime_ns : ℕ

abbrev pub milliseconds_per_day : ℕ
milliseconds_per_day = 86400000

-- `BigInt(Date.UTC(year, month, day + 1)) * nanosecondsPerMillisecond` at the cursor's date: leap
-- seconds are not counted, so that each day has as many milliseconds.
abbrev pub next_midnight : ℕ → ℕ
next_midnight cursor =
    (cursor / 1000000 / milliseconds_per_day + 1) * milliseconds_per_day * 1000000

-- the loop, from a cursor and an index; `none` if the fuel runs out
unfoldable pub split_from : ℕ → ℕ → ℕ → ℕ → Option (List UsageSegment)
split_from zero index cursor terminal = none
split_from (suc fuel) index cursor terminal =
    let end = min (next_midnight cursor) terminal in
    let rest = split_from fuel (index + 1) end terminal in
    let segment : UsageSegment = record {
      index = index;
      start = cursor / 1000000;
      end = end / 1000000;
      runtime_ns = end - cursor;
    } in
    if ltb cursor terminal
    then (elim rest [ none ↦ none | some segments ↦ some (segment ∷ segments) ])
    else some []

-- Two rounds more than there are days in the duration.
abbrev pub enough_fuel : ℕ → ℕ
enough_fuel duration_ns = suc (duration_ns / 86400000000000 + 2)

-- The duration is not negative.
unfoldable pub split_runtime_at_utc_midnight : ℕ → ℕ → Option (List UsageSegment)
unfolding split_from
split_runtime_at_utc_midnight at duration_ns =
    let cursor = at * 1000000 in
    if duration_ns == 0
    then some []
    else split_from (enough_fuel duration_ns) 0 cursor (cursor + duration_ns)
