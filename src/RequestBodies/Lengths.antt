-- ===== src/RequestBodies/Lengths.antt =====
-- Which bodies are read, and which declared lengths are accepted.
use mathlib.Core.Path.{subst}
use nehemiah.Base.{
  ℕ, ◌+◌, ◌-◌, ◌*◌, ◌∙◌, Bool, ◌&&◌, ◌||◌, ◌==◌, nat_eq, leb, all, and-eq-true, ◌≤◌, ◌<◌, ◌≡◌, ◌↔◌,
  inl, inr, refl, sym, ap, String, true, false, List, [], ◌∷◌, ◌++◌, some, ok, err, arith,
  Bool-cases, if◌then◌else◌, ltb, length, length-append,
}
use nehemiah.Base.Number.{two53}
use nehemiah.Base.Text.{codes, is_digit, digits_from, digits_from-append}
use nehemiah.RequestBodies.{
  request_too_large, collect, is_declared_length, validate_declared_body_length,
}

module _ {ℓ} {A : Type ℓ} where
  abbrev pub joined : List (List A) → List A
  joined [] = []
  joined (chunk ∷ chunks) = chunk ++ joined chunks

  append-nil : (xs : List A) → xs ++ [] ≡ xs
  append-nil [] = refl
  append-nil (x ∷ xs) = ap (λ ys. x ∷ ys) (append-nil xs)

  append_assoc : (xs ys zs : List A) → (xs ++ ys) ++ zs ≡ xs ++ (ys ++ zs)
  append_assoc [] ys zs = refl
  append_assoc (x ∷ xs) ys zs = ap (λ r. x ∷ r) (append_assoc xs ys zs)

  -- The body as far as it is read, and what the loop makes of it.
  collect_from :
      (maximum : ℕ) (body : List A) (chunks : List (List A))
      → length body ≤ maximum
      → collect maximum (length body) body chunks ≡ (
          if ltb maximum (length (body ++ joined chunks))
          then err request_too_large
          else ok (body ++ joined chunks))
  unfolding collect
  collect_from maximum body [] h =
      let within : ltb maximum (length (body ++ [])) ≡ false =
        ground (arith, length-append body []) in
      rw within (ap ok (sym (append-nil body)))
  collect_from maximum body (chunk ∷ chunks) h =
      let size = length-append body chunk in
      let more = length-append (body ++ chunk) (joined chunks) in
      let same = append_assoc body chunk (joined chunks) in
      elim (Bool-cases (ltb maximum (length body + length chunk))) [
        | inl large ↦
            let over : ltb maximum (length (body ++ (chunk ++ joined chunks))) ≡ true =
              rw (← same) (ground (arith, size, more)) in
            rw (large, over) refl
        | inr small ↦
            rw (small, ← size, ← same)
              (collect_from maximum (body ++ chunk) chunks (ground (arith, size)))
      ]

  -- A body is read in full, chunk after chunk, if it is no longer than the maximum, and is refused as
  -- too large if it is longer, however it is cut into chunks.
  pub collect_lem :
      (maximum : ℕ) (chunks : List (List A))
      → collect maximum 0 [] chunks ≡ (
          if ltb maximum (length (joined chunks))
          then err request_too_large
          else ok (joined chunks))
  collect_lem maximum chunks = collect_from maximum [] chunks (omega arith)

-- A number as it is written in decimal: one digit, or a positive number with one more digit.
pub data IsWritten : List ℕ → ℕ → Type 0 where
  digit : (d : ℕ) → d < 10 → IsWritten ((b'0' + d) ∷ []) d
  longer :
      (cs : List ℕ) (n d : ℕ)
      → IsWritten cs n
      → 0 < n
      → d < 10
      → IsWritten (cs ++ (b'0' + d) ∷ []) (n * 10 + d)

digit_of : (c : ℕ) → is_digit c ≡ true → (b'0' + (c - b'0') ≡ c) × (c - b'0' < 10)
digit_of c h = (ground arith, ground arith)

-- More digits after a positive number.
more_digits :
    (xs cs : List ℕ) (n : ℕ)
    → IsWritten xs n
    → 0 < n
    → all is_digit cs ≡ true
    → IsWritten (xs ++ cs) (digits_from n cs)
more_digits xs [] n w positive h = subst (λ ys. IsWritten ys n) (sym (append-nil xs)) w
more_digits xs (c ∷ cs) n w positive h =
    let (d, ds) = and-eq-true (is_digit c) (all is_digit cs) h in
    let (shown, small) = digit_of c d in
    let one_more =
      subst (λ k. IsWritten (xs ++ k ∷ []) (n * 10 + (c - b'0'))) shown
        (longer xs n (c - b'0') w positive small) in
    subst (λ ys. IsWritten ys (digits_from (n * 10 + (c - b'0')) cs)) (append_assoc xs (c ∷ []) cs)
      (more_digits (xs ++ c ∷ []) cs (n * 10 + (c - b'0')) one_more (omega (arith, positive)) ds)

is_leading : ℕ → List ℕ → Bool
is_leading c cs = leb b'1' c && leb c b'9' && all is_digit cs

declared-IsWritten : (cs : List ℕ) → is_declared_length cs ≡ true → IsWritten cs (digits_from 0 cs)
unfolding is_leading
declared-IsWritten [] h = cc
declared-IsWritten (c ∷ cs) h = elim (Bool-cases (is_leading c cs)) [
  | inl leading ↦
      let is_one : is_digit c ≡ true = ground arith in
      let (shown, small) = digit_of c is_one in
      let one = subst (λ k. IsWritten (k ∷ []) (c - b'0')) shown (digit (c - b'0') small) in
      let first : c - b'0' ≡ 0 * 10 + (c - b'0') = omega arith in
      subst (λ k. IsWritten (c ∷ cs) (digits_from k cs)) first
        (more_digits (c ∷ []) cs (c - b'0') one (ground arith) (ground arith))
  | inr other ↦ zero_digit cs (rw other at h)
]
  where
    zero_digit :
        (ds : List ℕ)
        → ((c == b'0' && leb (length ds) 0) || false) ≡ true
        → IsWritten (c ∷ ds) (digits_from 0 (c ∷ ds))
    zero_digit [] z = let same : c ≡ b'0' = ground arith in rw same (digit 0 (omega arith))
    zero_digit (d ∷ ds) z = absurd (ground arith)

all-append :
    (p : ℕ → Bool) (xs : List ℕ) (y : ℕ)
    → all p xs ≡ true
    → p y ≡ true
    → all p (xs ++ y ∷ []) ≡ true
all-append p [] y h k = rw k refl
all-append p (x ∷ xs) y h k =
    let (first, rest) = and-eq-true (p x) (all p xs) h in rw first (all-append p xs y rest k)

-- A declared length that is positive, with one more digit.
declared_longer :
    (cs : List ℕ) (n d : ℕ)
    → is_declared_length cs ≡ true
    → digits_from 0 cs ≡ n
    → 0 < n
    → d < 10
    → is_declared_length (cs ++ (b'0' + d) ∷ []) ≡ true
unfolding is_leading
declared_longer [] n d h same positive small = cc
declared_longer (c ∷ cs) n d h same positive small = elim (Bool-cases (is_leading c cs)) [
  | inl leading ↦
      let rest = all-append is_digit cs (b'0' + d) (ground arith) (ground arith) in ground arith
  | inr other ↦ absurd (not_zero cs (rw other at h) same)
]
  where
    not_zero :
        (ds : List ℕ)
        → ((c == b'0' && leb (length ds) 0) || false) ≡ true
        → digits_from 0 (c ∷ ds) ≡ n
        → ⊥
    not_zero [] z value = ground (arith, positive)
    not_zero (e ∷ ds) z value = ground arith

IsWritten-declared :
    (cs : List ℕ) (n : ℕ) → IsWritten cs n → (is_declared_length cs ≡ true) × (digits_from 0 cs ≡ n)
IsWritten-declared _ _ (digit d small) = (ground arith, omega arith)
IsWritten-declared _ _ (longer cs n d w positive small) =
    let (declared, value) = IsWritten-declared cs n w in
    (
      declared_longer cs n d declared value positive small,
      digits_from-append 0 cs ((b'0' + d) ∷ []) ∙ rw value (omega arith),
    )

-- What an accepted length is.
abbrev pub IsAccepted : String → ℕ → ℕ → Type 0
IsAccepted declared maximum n = IsWritten (codes declared) n × (n < two53) × (n ≤ maximum)

passes :
    (declared : String) (maximum n : ℕ)
    → (validate_declared_body_length (some declared) maximum ≡ ok (some n)) ↔ (
        (is_declared_length (codes declared) ≡ true)
        × (digits_from 0 (codes declared) ≡ n)
        × (n < two53)
        × (n ≤ maximum))
unfolding validate_declared_body_length
passes declared maximum n = ground arith

-- A declared length is accepted exactly when it is a number in decimal, written without superfluous
-- zeros, below 2 ^ 53 and at most the maximum, and then it is that number.
pub validate_declared_body_length-IsAccepted :
    (declared : String) (maximum n : ℕ)
    → (validate_declared_body_length (some declared) maximum ≡ ok (some n))
      ↔ IsAccepted declared maximum n
validate_declared_body_length-IsAccepted declared maximum n = (
  λ accepted.
      let (shape, value, safe, within) = (passes declared maximum n).0 accepted in
      (
        subst (λ k. IsWritten (codes declared) k) value (declared-IsWritten (codes declared) shape),
        safe,
        within,
      ),
  λ described.
      let (written, safe, within) = described in
      let (shape, value) = IsWritten-declared (codes declared) n written in
      (passes declared maximum n).1 (shape, value, safe, within),
)
