-- ===== src/Windows/Bounds.antt =====
-- Within one window no more requests pass than the limit allows, whatever other buckets see.
use nehemiah.Base.{
  ℕ, ◌+◌, ◌≤◌, ◌<◌, ◌≡◌, inl, inr, refl, min, Bool, true, false, ◌&&◌, List, [], ◌∷◌, ◌++◌, any,
  all, Option, none, some, arith, Bool-cases, if◌then◌else◌, ◌==◌, string_eq, nat_eq, eq_iff, find,
  ltb, and-eq-true,
}
use nehemiah.Windows.{
  Bucket, WindowRow, maximum_stored_count, hit, is_row_of, apply, apply_all, is_within, retry_after,
}

-- The count that a row contributes in the window, and the one after one more request.
abbrev live_count : ℕ → Option WindowRow → ℕ
live_count window none = 0
live_count window (some row) = if ltb row.window_started_at window then 0 else row.request_count

abbrev bumped : ℕ → ℕ
bumped n = min (n + 1) maximum_stored_count

stored : ℕ → Bucket → List WindowRow → ℕ
stored window bucket rows = live_count window (find (is_row_of bucket) rows)

abbrev SameKey : Bucket → Bucket → Type 0
SameKey b c = (b.scope ≡ c.scope) × (b.slot ≡ c.slot)

abbrev pub same_key : Bucket → Bucket → Bool
same_key b c = b.scope == c.scope && b.slot == c.slot

is_row_of_same :
    (b c : Bucket) (row : WindowRow) → same_key b c ≡ true → is_row_of b row ≡ is_row_of c row
is_row_of_same b c row h =
    let (s, n) = and-eq-true (b.scope == c.scope) (b.slot == c.slot) h in
    let scopes : b.scope ≡ c.scope = (eq_iff b.scope c.scope).0 s in
    let slots : b.slot ≡ c.slot = ground arith in rw (scopes, slots) refl

-- Rows of two buckets with different keys are different rows.
is_row_of_other :
    (b c : Bucket) (row : WindowRow)
    → same_key b c ≡ false
    → is_row_of c row ≡ true
    → is_row_of b row ≡ false
is_row_of_other b c row h r =
    ground (arith, eq_iff b.scope c.scope, eq_iff row.scope b.scope, eq_iff row.scope c.scope)

hit-live :
    (window : ℕ) (row : WindowRow)
    → (hit window row).request_count ≡ bumped (live_count window (some row))
unfolding hit
hit-live window row = ground arith

hit-kept :
    (window : ℕ) (row : WindowRow)
    → live_count window (some (hit window row)) ≡ bumped (live_count window (some row))
unfolding hit
hit-kept window row = ground arith

is_row_of-hit :
    (b : Bucket) (window : ℕ) (row : WindowRow) → is_row_of b (hit window row) ≡ is_row_of b row
unfolding hit
is_row_of-hit b window row = refl

-- The row that is returned carries the count after this request.
apply-count :
    (window : ℕ) (c : Bucket) (rows : List WindowRow)
    → (apply window c rows).0.request_count ≡ bumped (stored window c rows)
unfolding apply stored
apply-count window c [] = omega arith
apply-count window c (row ∷ rows) = elim (Bool-cases (is_row_of c row)) [
  | inl here ↦ rw here (hit-live window row)
  | inr later ↦ rw later (apply-count window c rows)
]

stored-apply_same :
    (window : ℕ) (b c : Bucket) (rows : List WindowRow)
    → same_key b c ≡ true
    → stored window b (apply window c rows).1 ≡ bumped (stored window b rows)
unfolding apply stored
stored-apply_same window b c [] h = ground (arith, eq_iff b.scope c.scope, eq_iff c.scope b.scope)
stored-apply_same window b c (row ∷ rows) h = elim (Bool-cases (is_row_of c row)) [
  | inl here ↦
      rw (here, is_row_of-hit b window row, is_row_of_same b c row h, here) (hit-kept window row)
  | inr later ↦ rw (later, is_row_of_same b c row h, later) (stored-apply_same window b c rows h)
]

stored-apply_other :
    (window : ℕ) (b c : Bucket) (rows : List WindowRow)
    → same_key b c ≡ false
    → stored window b (apply window c rows).1 ≡ stored window b rows
unfolding apply stored
stored-apply_other window b c [] h = ground (arith, eq_iff b.scope c.scope, eq_iff c.scope b.scope)
stored-apply_other window b c (row ∷ rows) h = elim (Bool-cases (is_row_of c row)) [
  | inl here ↦ rw (here, is_row_of-hit b window row, is_row_of_other b c row h here) refl
  | inr later ↦ elim (Bool-cases (is_row_of b row)) [
    | inl mine ↦ rw (later, mine) refl
    | inr other ↦ rw (later, other) (stored-apply_other window b c rows h)
  ]
]

-- Of the requests that hit the buckets `cs` one after the other in a window, how many of those for
-- the bucket `b` pass its limit.
unfoldable pub passes : ℕ → Bucket → List Bucket → List WindowRow → ℕ
passes window b [] rows = 0
passes window b (c ∷ cs) rows =
    (if same_key b c && is_within ((apply window c rows).0, b.limit) then 1 else 0)
    + passes window b cs (apply window c rows).1

stored-eq :
    (window : ℕ) (b c : Bucket) (rows : List WindowRow)
    → same_key b c ≡ true
    → stored window b rows ≡ stored window c rows
unfolding stored
stored-eq window b c [] h = refl
stored-eq window b c (row ∷ rows) h = elim (Bool-cases (is_row_of c row)) [
  | inl here ↦ rw (is_row_of_same b c row h, here) refl
  | inr later ↦ rw (is_row_of_same b c row h, later) (stored-eq window b c rows h)
]

passes-stored :
    (window : ℕ) (b : Bucket) (cs : List Bucket) (rows : List WindowRow)
    → b.limit < maximum_stored_count
    → passes window b cs rows + min (stored window b rows) b.limit ≤ b.limit
unfolding passes
passes-stored window b [] rows small = omega arith
passes-stored window b (c ∷ cs) rows small = elim (Bool-cases (same_key b c)) [
  | inl mine ↦
      let ih = passes-stored window b cs (apply window c rows).1 small in
      let after = stored-apply_same window b c rows mine in
      let count = apply-count window c rows in
      let same = stored-eq window b c rows mine in rw mine (ground (arith, ih, after, count, same))
  | inr other ↦
      let ih = passes-stored window b cs (apply window c rows).1 small in
      let after = stored-apply_other window b c rows other in rw other (omega (arith, ih, after))
]

-- However requests for other buckets are mixed in, and whatever the table holds, at most `limit`
-- requests for a bucket pass in one window, if the limit is below the count at which storing stops.
pub passes-le-limit :
    (window : ℕ) (b : Bucket) (cs : List Bucket) (rows : List WindowRow)
    → b.limit < maximum_stored_count
    → passes window b cs rows ≤ b.limit
passes-le-limit window b cs rows small = omega (arith, passes-stored window b cs rows small)

pub passes-append :
    (window : ℕ) (b : Bucket) (cs ds : List Bucket) (rows : List WindowRow)
    → passes window b (cs ++ ds) rows
      ≡ passes window b cs rows + passes window b ds (apply_all window cs rows).1
unfolding passes apply_all
passes-append window b [] ds rows = omega arith
passes-append window b (c ∷ cs) ds rows =
    omega (arith, passes-append window b cs ds (apply window c rows).1)

-- If every row of a statement is within its limit, and `b` is among its buckets, it has passed.
pub passes-all_within :
    (window : ℕ) (b : Bucket) (cs : List Bucket) (rows : List WindowRow)
    → any (λ c. same_key b c && c.limit == b.limit) cs ≡ true
    → all is_within (apply_all window cs rows).0 ≡ true
    → 1 ≤ passes window b cs rows
unfolding passes apply_all
passes-all_within window b [] rows there within = cc
passes-all_within window b (c ∷ cs) rows there within =
    let (first, rest) =
      and-eq-true (is_within ((apply window c rows).0, c.limit))
        (all is_within (apply_all window cs (apply window c rows).1).0) within in
    elim (Bool-cases (same_key b c && c.limit == b.limit)) [
      | inl mine ↦
          let (key, limit) = and-eq-true (same_key b c) (c.limit == b.limit) mine in
          let same : c.limit ≡ b.limit = ground arith in
          let passed : is_within ((apply window c rows).0, b.limit) ≡ true =
            ground (arith, first, same) in
          rw (key, passed) (omega arith)
      | inr other ↦
          let later =
            passes-all_within window b cs (apply window c rows).1 (rw other at there) rest in
          omega (arith, later)
    ]

-- A refused caller is told to wait for a second at least and for the window at most.
pub retry_after_bounds :
    (seconds now : ℕ) (applied : List (WindowRow × ℕ))
    → 0 < seconds
    → (1 ≤ retry_after seconds now applied) × (retry_after seconds now applied ≤ seconds)
unfolding retry_after
retry_after_bounds seconds now applied h = (ground arith, ground arith)
