-- ===== src/Billing/Price/Ceiling.antt =====
-- `ceilingPrice` is the exact price, rounded up.
use native.Mathlib.Nat.{div-lt_iff_lt-mul, one-le-pow}
use nehemiah.Base.{
  ℕ, suc, ◌+◌, ◌*◌, ◌-◌, ◌/◌, ◌≤◌, ◌<◌, ◌≡◌, ◌↔◌, inl, inr, false, ◌||◌, Bool-cases, ok, >>=-eq-ok,
  arith, ◌==◌, nat_eq, ltb, length,
}
use nehemiah.Base.Int.{ℤ}
use nehemiah.Billing.Price.Decimals.{decimal-Denotes}
use nehemiah.Billing.Price.{
  Decimal, Quantity, text, bigint, parse_quantity, magnitude, is_negative, divide_up, ceiling_price,
}

quotient_least : (n d k : ℕ) → 0 < d → ((n + d - 1) / d ≤ k) ↔ (n ≤ k * d)
quotient_least n d k h =
    let (to, from) = div-lt_iff_lt-mul {k = d} {x = n + d - 1} {y = suc k} h in
    (λ p. omega (arith, to (omega arith)), λ p. omega (arith, from (omega arith)))

-- A quotient rounded up is the least number whose product reaches the dividend.
pub divide_up-least : (n d k : ℕ) → 0 < d → (divide_up n d ≤ k) ↔ (n ≤ k * d)
unfolding divide_up
divide_up-least n d k h = elim (Bool-cases (n == 0)) [
  | inl null ↦ rw null (λ p. grind arith, λ p. omega arith)
  | inr some_units ↦ rw some_units (quotient_least n d k h)
]

product_positive : (a b : ℕ) → 0 < a → 0 < b → 0 < a * b
product_positive a b h k = grind arith

-- The denominators that are parsed are powers of ten.
parse_quantity-positive :
    (quantity : Quantity) (parsed : Decimal)
    → parse_quantity quantity ≡ ok parsed
    → 0 < parsed.denominator
parse_quantity-positive (bigint n) parsed h = ground arith
parse_quantity-positive (text s) parsed h = elim ((decimal-Denotes s parsed).0 h) [
  | inl (n, same) ↦ ground arith
  | inr (whole, fractional, n, m, point, same) ↦
      rw same (omega (arith, one-le-pow (length fractional) 10 (omega arith)))
]

-- What a price is charged for: a quantity, a rate that is not negative, a divisor that is positive.
pub record IsPriced (quantity : Quantity) (rate divisor : ℤ) (price : ℕ) : Type 0 where
  pub parsed : Decimal
  pub read : parse_quantity quantity ≡ ok parsed
  pub rate_known : is_negative rate ≡ false
  pub divisor_known : 0 < magnitude divisor
  pub quantity_known : is_negative parsed.numerator ≡ false
  pub least :
      (k : ℕ)
      → (price ≤ k) ↔ (
          magnitude parsed.numerator * magnitude rate
          ≤ k * (parsed.denominator * magnitude divisor))

ceiling_price-parts :
    (quantity : Quantity) (rate divisor : ℤ) (price : ℕ)
    → ceiling_price quantity rate divisor ≡ ok price
    → (parsed : Decimal) × (parse_quantity quantity ≡ ok parsed)
      × (is_negative rate ≡ false)
      × (0 < magnitude divisor)
      × (is_negative parsed.numerator ≡ false)
      × (price
          ≡ divide_up
              (magnitude parsed.numerator * magnitude rate)
              (parsed.denominator * magnitude divisor))
unfolding ceiling_price
ceiling_price-parts quantity rate divisor price h =
    elim (Bool-cases (is_negative rate || ltb (magnitude divisor) 1)) [
      | inl bad ↦ absurd (ground arith)
      | inr good ↦
          let (parsed, read, rest) = >>=-eq-ok (parse_quantity quantity) _ (rw good at h) in
          elim (Bool-cases (is_negative parsed.numerator)) [
            | inl bad ↦ absurd (ground arith)
            | inr known ↦ (parsed, read, ground arith, ground arith, known, ground arith)
          ]
    ]

-- A price that is charged is the least number of micro-dollars that pays for the quantity at the
-- rate, and nothing is charged unless the quantity is a decimal or an integer that is not negative.
pub ceiling_price-IsPriced :
    (quantity : Quantity) (rate divisor : ℤ) (price : ℕ)
    → ceiling_price quantity rate divisor ≡ ok price
    → IsPriced quantity rate divisor price
ceiling_price-IsPriced quantity rate divisor price h =
    let (parsed, read, rate_known, divisor_known, quantity_known, same) =
      ceiling_price-parts quantity rate divisor price h in
    record {
      parsed = parsed;
      read = read;
      rate_known = rate_known;
      divisor_known = divisor_known;
      quantity_known = quantity_known;
      least = λ k. rw same (
          divide_up-least _ (parsed.denominator * magnitude divisor) k (
            product_positive parsed.denominator (magnitude divisor)
              (parse_quantity-positive quantity parsed read) divisor_known));
    }
