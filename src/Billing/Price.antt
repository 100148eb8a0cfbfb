-- ===== src/Billing/Price.antt =====
-- apps/nehemiah/src/billing/admission.ts, `decimal` and `ceilingPrice`: exact prices of decimal
-- quantities, rounded up to a micro-dollar.
pub mod Ceiling
pub mod Decimals
use nehemiah.Base.{
  ℕ, zero, suc, ◌+◌, ◌-◌, ◌*◌, ◌/◌, ◌^◌, String, Bool, true, false, not, ◌&&◌, ◌||◌, List, [], ◌∷◌,
  ◌++◌, Result, ok, err, ◌>>=◌, ◌>>◌, throw_if, if◌then◌else◌, ◌==◌, nat_eq, all, length, ltb,
}
use nehemiah.Base.Int.{ℤ, pos, negsuc}
use nehemiah.Base.Text.{codes, is_digit, digits_from}

pub data PriceError : Type 0 where
  not_a_decimal : PriceError
  invalid_rate : PriceError
  negative_commitment : PriceError

pub record Decimal : Type 0 where
  pub numerator : ℤ
  pub denominator : ℕ

-- The greedy `\d+` and what follows it.
abbrev pub take_digits : List ℕ → List ℕ
take_digits [] = []
take_digits (c ∷ cs) = if is_digit c then c ∷ take_digits cs else []

abbrev pub drop_digits : List ℕ → List ℕ
drop_digits [] = []
drop_digits (c ∷ cs) = if is_digit c then drop_digits cs else c ∷ cs

abbrev pub is_empty : List ℕ → Bool
is_empty [] = true
is_empty (_ ∷ _) = false

abbrev pub decimal_value : List ℕ → List ℕ → Decimal
decimal_value whole fractional = record {
  numerator = pos (digits_from 0 (whole ++ fractional));
  denominator = 10 ^ length fractional;
}

-- the optional group `(?:\.(\d+))?$`
abbrev pub fraction_part : List ℕ → List ℕ → Result PriceError Decimal
fraction_part whole [] = ok (decimal_value whole [])
fraction_part whole (c ∷ cs) =
    if c == b'.' && not (is_empty cs) && all is_digit cs
    then ok (decimal_value whole cs)
    else err not_a_decimal

unfoldable pub decimal_codes : List ℕ → Result PriceError Decimal
decimal_codes cs =
    if is_empty (take_digits cs)
    then err not_a_decimal
    else fraction_part (take_digits cs) (drop_digits cs)

unfoldable pub decimal : String → Result PriceError Decimal
unfolding decimal_codes
decimal value = decimal_codes (codes value)

-- `string | bigint`
pub data Quantity : Type 0 where
  text : String → Quantity
  bigint : ℤ → Quantity

abbrev pub parse_quantity : Quantity → Result PriceError Decimal
parse_quantity (text s) = decimal s
parse_quantity (bigint n) = ok (record { numerator = n; denominator = 1 })

abbrev pub is_negative : ℤ → Bool
is_negative (pos n) = false
is_negative (negsuc n) = true

-- the value of an integer that is not negative
abbrev pub magnitude : ℤ → ℕ
magnitude (pos n) = n
magnitude (negsuc n) = 0

-- `numerator === 0n ? 0n : (numerator + denominator - 1n) / denominator`
unfoldable pub divide_up : ℕ → ℕ → ℕ
divide_up n d = if n == 0 then 0 else (n + d - 1) / d

unfoldable pub ceiling_price : Quantity → ℤ → ℤ → Result PriceError ℕ
ceiling_price quantity rate divisor = do
  throw_if (is_negative rate || ltb (magnitude divisor) 1) invalid_rate
  parsed ← parse_quantity quantity
  throw_if (is_negative parsed.numerator) negative_commitment
  let n = magnitude parsed.numerator * magnitude rate
  let d = parsed.denominator * magnitude divisor
  ok (divide_up n d)
