-- ===== src/Base/Tables.antt =====
-- Tables as lists of rows, with the statements that the program's SQL uses.
use Prim.Native.Nat.{ℕ, ◌+◌}
use mathlib.Core.Path.{◌≡◌, refl, sym}
use mathlib.Core.Logic.{inl, inr}
use mathlib.Core.Bool.{Bool, true, false}
use mathlib.Core.Option.{Option, none, some}
use mathlib.Core.List.{List, [], ◌∷◌, ◌++◌, Memᴰ}
use native.Mathlib.Omega.{arith}
use nehemiah.Base.Tests.{if◌then◌else◌, Bool-cases}

module _ {ℓ} {A : Type ℓ} where
  -- SELECT … WHERE p
  abbrev pub select : (A → Bool) → List A → List A
  select p [] = []
  select p (x ∷ xs) = if p x then x ∷ select p xs else select p xs

  -- The first row of a result, `rows[0]`.
  abbrev pub first : List A → Option A
  first [] = none
  first (x ∷ xs) = some x

  abbrev pub find : (A → Bool) → List A → Option A
  find p [] = none
  find p (x ∷ xs) = if p x then some x else find p xs

  -- UPDATE … SET f WHERE p
  abbrev pub update : (A → Bool) → (A → A) → List A → List A
  update p f [] = []
  update p f (x ∷ xs) = (if p x then f x else x) ∷ update p f xs

  -- DELETE … WHERE p
  abbrev pub delete : (A → Bool) → List A → List A
  delete p [] = []
  delete p (x ∷ xs) = if p x then delete p xs else x ∷ delete p xs

  -- sum(f) over the rows
  abbrev pub sum : (A → ℕ) → List A → ℕ
  sum f [] = 0
  sum f (x ∷ xs) = f x + sum f xs

  pub find-test : (p : A → Bool) (xs : List A) {x : A} → find p xs ≡ some x → p x ≡ true
  find-test p [] h = cc
  find-test p (y ∷ xs) {x} h = elim (Bool-cases (p y)) [
    | inl t ↦ ground (arith, find-test p xs {x = x})
    | inr f ↦ find-test p xs (ground arith)
  ]

  pub find-Memᴰ : (p : A → Bool) (xs : List A) {x : A} → find p xs ≡ some x → Memᴰ x xs
  find-Memᴰ p [] h = cc
  find-Memᴰ p (y ∷ xs) {x} h = elim (Bool-cases (p y)) [
    | inl t ↦ Memᴰ.head (ground arith)
    | inr f ↦ Memᴰ.tail (find-Memᴰ p xs (ground arith))
  ]

  -- The row that an update of the found row leaves.
  pub find-update :
      (p q : A → Bool) (f : A → A) (xs : List A) {x : A}
      → ((y : A) → p y ≡ false → q y ≡ false)
      → ((y : A) → p (f y) ≡ p y)
      → find p xs ≡ some x
      → q x ≡ true
      → find p (update q f xs) ≡ some (f x)
  find-update p q f [] others keeps h test = cc
  find-update p q f (y ∷ xs) {x} others keeps h test = elim (Bool-cases (p y)) [
    | inl here ↦
        let same : y ≡ x = ground arith in rw (same, test, keeps x, sym same) (rw here refl)
    | inr other ↦
        rw (others y other, other) (find-update p q f xs others keeps (rw other at h) test)
  ]

  pub find-append :
      (p : A → Bool) (xs ys : List A) {x : A} → find p xs ≡ some x → find p (xs ++ ys) ≡ some x
  find-append p [] ys h = cc
  find-append p (y ∷ xs) ys {x} h = elim (Bool-cases (p y)) [
    | inl here ↦ rw here (rw here at h)
    | inr other ↦ rw other (find-append p xs ys (rw other at h))
  ]
