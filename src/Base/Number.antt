-- ===== src/Base/Number.antt =====
-- A JavaScript number as validation code sees it: an integer, or a value that is none
-- (a fraction, an infinity or NaN).
use nehemiah.Base.{ℕ, suc, Bool, false, ltb}
use nehemiah.Base.Int.{ℤ, pos, negsuc}

pub data Number : Type 0 where
  integer : ℤ → Number
  fraction : Number

-- 2 ^ 53
abbrev pub two53 : ℕ
two53 = 9007199254740992

-- Number.isSafeInteger
abbrev pub is_safe_integer : Number → Bool
is_safe_integer (integer (pos n)) = ltb n two53
is_safe_integer (integer (negsuc n)) = ltb (suc n) two53
is_safe_integer fraction = false

-- `value <= 0`, on the numbers that pass `is_safe_integer`
abbrev pub is_at_most_zero : Number → Bool
is_at_most_zero (integer (pos n)) = ltb n 1
is_at_most_zero (integer (negsuc n)) = ltb 0 1
is_at_most_zero fraction = false

-- `value > limit`, on the numbers that pass `is_safe_integer`
abbrev pub exceeds : Number → ℕ → Bool
exceeds (integer (pos n)) limit = ltb limit n
exceeds (integer (negsuc n)) limit = false
exceeds fraction limit = false

-- `value < limit`, on the numbers that pass `is_safe_integer`
abbrev pub is_below : Number → ℕ → Bool
is_below (integer (pos n)) limit = ltb n limit
is_below (integer (negsuc n)) limit = ltb 0 (suc limit)
is_below fraction limit = false
