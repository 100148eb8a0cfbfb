-- ===== src/Billing/Price/Decimals.antt =====
-- `decimal` reads exactly the decimal texts, and reads what they denote.
use native.Mathlib.Nat.{pow-suc}
use mathlib.Core.Path.{subst, ap₂}
use mathlib.Core.List.{append-nil}
use nehemiah.Base.{
  ℕ, ◌+◌, ◌*◌, ◌-◌, ◌^◌, ◌≡◌, ◌≢◌, ◌↔◌, ◌⊎◌, inl, inr, refl, sym, ◌∙◌, ap, true, false, ◌&&◌, not,
  and-eq-true, Bool-cases, List, [], ◌∷◌, ◌++◌, ok, arith, ◌==◌, nat_eq, all, length, String,
}
use nehemiah.Base.Int.{pos}
use nehemiah.Base.Text.{codes, is_digit, digits_from, digits_from-append}
use nehemiah.Billing.Price.{
  Decimal, take_digits, drop_digits, is_empty, decimal_value, fraction_part, decimal_codes, decimal,
}

-- A run of one or more digits.
abbrev pub IsNumeral : List ℕ → Type 0
IsNumeral cs = (cs ≢ []) × (all is_digit cs ≡ true)

-- "12" denotes 12 / 1, and "12.50" denotes (12 * 10 ^ 2 + 50) / 10 ^ 2.
abbrev pub Denotes : List ℕ → Decimal → Type 0
Denotes cs value =
    (IsNumeral cs × (value ≡ record { numerator = pos (digits_from 0 cs); denominator = 1 }))
    ⊎ ((whole : List ℕ) × (fractional : List ℕ) × IsNumeral whole
        × IsNumeral fractional
        × (cs ≡ whole ++ b'.' ∷ fractional)
        × (value ≡ record {
          numerator = pos (digits_from 0 whole * 10 ^ length fractional + digits_from 0 fractional);
          denominator = 10 ^ length fractional;
        }))

shift_digit : (acc d p x : ℕ) → (acc * 10 + d) * p + x ≡ acc * (p * 10) + ((0 * 10 + d) * p + x)
shift_digit acc d p x = omega arith

digits_from-shift :
    (acc : ℕ) (cs : List ℕ) → digits_from acc cs ≡ acc * 10 ^ length cs + digits_from 0 cs
digits_from-shift acc [] = omega arith
digits_from-shift acc (c ∷ cs) =
    let d = c - b'0' in
    let p = 10 ^ length cs in
    digits_from-shift (acc * 10 + d) cs
    ∙ shift_digit acc d p (digits_from 0 cs)
    ∙ ap₂ (λ a b. acc * a + b) (sym (pow-suc 10 (length cs)))
        (sym (digits_from-shift (0 * 10 + d) cs))

take-append-drop : (cs : List ℕ) → take_digits cs ++ drop_digits cs ≡ cs
take-append-drop [] = refl
take-append-drop (c ∷ cs) = elim (Bool-cases (is_digit c)) [
  | inl d ↦ rw d (ap (λ r. c ∷ r) (take-append-drop cs))
  | inr d ↦ rw d refl
]

all-take_digits : (cs : List ℕ) → all is_digit (take_digits cs) ≡ true
all-take_digits [] = refl
all-take_digits (c ∷ cs) = elim (Bool-cases (is_digit c)) [
  | inl d ↦ rw d (rw d (all-take_digits cs))
  | inr d ↦ rw d refl
]

take_digits-numeral :
    (cs : List ℕ) → all is_digit cs ≡ true → (take_digits cs ≡ cs) × (drop_digits cs ≡ [])
take_digits-numeral [] h = (refl, refl)
take_digits-numeral (c ∷ cs) h =
    let (d, ds) = and-eq-true (is_digit c) (all is_digit cs) h in
    let (taken, left) = take_digits-numeral cs ds in rw d (ap (λ r. c ∷ r) taken, left)

take_digits-point :
    (cs rest : List ℕ)
    → all is_digit cs ≡ true
    → (take_digits (cs ++ b'.' ∷ rest) ≡ cs) × (drop_digits (cs ++ b'.' ∷ rest) ≡ b'.' ∷ rest)
take_digits-point [] rest h = (refl, refl)
take_digits-point (c ∷ cs) rest h =
    let (d, ds) = and-eq-true (is_digit c) (all is_digit cs) h in
    let (taken, left) = take_digits-point cs rest ds in rw d (ap (λ r. c ∷ r) taken, left)

decimal_value-point :
    (whole fractional : List ℕ)
    → decimal_value whole fractional ≡ record {
      numerator = pos (digits_from 0 whole * 10 ^ length fractional + digits_from 0 fractional);
      denominator = 10 ^ length fractional;
    }
decimal_value-point whole fractional =
    rw (digits_from-append 0 whole fractional)
      (rw (digits_from-shift (digits_from 0 whole) fractional) refl)

not_empty : (cs : List ℕ) → is_empty cs ≡ false → cs ≢ []
not_empty [] h e = cc
not_empty (c ∷ cs) h e = cc

decimal_value-whole :
    (whole : List ℕ)
    → decimal_value whole [] ≡ record { numerator = pos (digits_from 0 whole); denominator = 1 }
decimal_value-whole whole = rw append-nil refl

fraction_part-Denotes :
    (whole rest : List ℕ) (value : Decimal)
    → IsNumeral whole
    → fraction_part whole rest ≡ ok value
    → Denotes (whole ++ rest) value
fraction_part-Denotes whole [] value n h =
    let same : decimal_value whole [] ≡ value = cc in
    inl (rw append-nil n, sym same ∙ (rw append-nil refl))
fraction_part-Denotes whole (c ∷ cs) value n h =
    elim (Bool-cases (c == b'.' && not (is_empty cs) && all is_digit cs)) [
      | inr bad ↦ absurd (ground arith)
      | inl good ↦
          let same : decimal_value whole cs ≡ value = ground arith in
          let point : c ≡ b'.' = ground arith in
          inr (
            whole,
            cs,
            n,
            (not_empty cs (ground arith), ground arith),
            rw point refl,
            sym same ∙ decimal_value-point whole cs,
          )
    ]

Denotes-sound : (cs : List ℕ) (value : Decimal) → decimal_codes cs ≡ ok value → Denotes cs value
unfolding decimal_codes
Denotes-sound cs value h = elim (Bool-cases (is_empty (take_digits cs))) [
  | inl empty ↦ absurd (ground arith)
  | inr some_digits ↦
      subst (λ c. Denotes c value) (take-append-drop cs)
        (fraction_part-Denotes (take_digits cs) (drop_digits cs) value
          (not_empty _ some_digits, all-take_digits cs) (rw some_digits at h))
]

is_empty_of_ne : (cs : List ℕ) → cs ≢ [] → is_empty cs ≡ false
is_empty_of_ne [] h = absurd (h refl)
is_empty_of_ne (c ∷ cs) h = refl

Denotes-complete : (cs : List ℕ) (value : Decimal) → Denotes cs value → decimal_codes cs ≡ ok value
unfolding decimal_codes
Denotes-complete cs value (inl (n, same)) =
    let (taken, left) = take_digits-numeral cs n.1 in
    rw (taken, left, is_empty_of_ne cs n.0, same) (rw append-nil refl)
Denotes-complete cs value (inr (whole, fractional, n, m, text, same)) =
    let (taken, left) = take_digits-point whole fractional n.1 in
    rw (text, same)
      (rw (taken, left, is_empty_of_ne whole n.0)
        (rw (is_empty_of_ne fractional m.0, m.1) (ap ok (decimal_value-point whole fractional))))

-- The texts that are accepted are the runs of digits, with or without a point and more digits, and
-- the fraction that results is the one that the text denotes.
pub decimal-Denotes :
    (text : String) (value : Decimal) → (decimal text ≡ ok value) ↔ Denotes (codes text) value
unfolding decimal
decimal-Denotes text value = (Denotes-sound (codes text) value, Denotes-complete (codes text) value)
