-- ===== src/Base/Unique.antt =====
-- Statements whose WHERE clause names at most one row, and what they do to sums over the table.
use mathlib.Core.Path.{subst}
use nehemiah.Base.{
  ◌∙◌, Memᴰ, ℕ, ◌+◌, ◌≡◌, refl, sym, ap, inl, inr, Bool, true, false, ◌&&◌, List, [], ◌∷◌, some,
  arith, find, update, select, sum, length, All, Bool-cases, if◌then◌else◌, ◌≢◌, String, ◌==◌,
  string_eq, eq_iff,
}

module _ {ℓ} {A : Type ℓ} where
  -- The test holds of one row at most.
  abbrev pub IsUnique : (A → Bool) → List A → Type 0
  IsUnique p [] = Unit
  IsUnique p (x ∷ xs) = (p x ≡ true → All (λ y. p y ≡ false) xs) × IsUnique p xs

  pub update-none :
      (p : A → Bool) (f : A → A) (xs : List A) → All (λ y. p y ≡ false) xs → update p f xs ≡ xs
  update-none p f [] h = refl
  update-none p f (x ∷ xs) h = rw h.0 (ap (λ r. x ∷ r) (update-none p f xs h.1))

  pub sum-update :
      (g : A → ℕ) (p : A → Bool) (f : A → A) (xs : List A) (m : A)
      → IsUnique p xs
      → find p xs ≡ some m
      → sum g (update p f xs) + g m ≡ sum g xs + g (f m)
  sum-update g p f [] m u h = cc
  sum-update g p f (x ∷ xs) m u h = elim (Bool-cases (p x)) [
    | inl here ↦
        let same : x ≡ m = ground arith in
        rw (here, update-none p f xs (u.0 here), same) (omega arith)
    | inr later ↦ rw later (omega (arith, sum-update g p f xs m u.1 (rw later at h)))
  ]

  pub sum-select :
      (g : A → ℕ) (p : A → Bool) (xs : List A)
      → sum g (select p xs) ≡ sum (λ x. if p x then g x else 0) xs
  sum-select g p [] = refl
  sum-select g p (x ∷ xs) = elim (Bool-cases (p x)) [
    | inl h ↦ rw h (ap (λ r. g x + r) (sum-select g p xs))
    | inr h ↦ rw h (omega (arith, sum-select g p xs))
  ]

  pub length-select :
      (p : A → Bool) (xs : List A) → length (select p xs) ≡ sum (λ x. if p x then 1 else 0) xs
  length-select p [] = refl
  length-select p (x ∷ xs) = elim (Bool-cases (p x)) [
    | inl h ↦ rw h (omega (arith, length-select p xs))
    | inr h ↦ rw h (omega (arith, length-select p xs))
  ]

  -- Two updates of the same rows, the second of which undoes the first.
  pub update-update :
      (p q : A → Bool) (f g : A → A) (xs : List A)
      → ((x : A) → p x ≡ true → q (f x) ≡ true)
      → ((x : A) → p x ≡ false → q x ≡ false)
      → ((x : A) → p x ≡ true → g (f x) ≡ x)
      → update q g (update p f xs) ≡ xs
  update-update p q f g [] keep out back = refl
  update-update p q f g (x ∷ xs) keep out back = elim (Bool-cases (p x)) [
    | inl h ↦ rw (h, keep x h, back x h) (ap (λ r. x ∷ r) (update-update p q f g xs keep out back))
    | inr h ↦ rw (h, out x h) (ap (λ r. x ∷ r) (update-update p q f g xs keep out back))
  ]

-- Rows with an identifier.
module _ {ℓ} {A : Type ℓ} {K : Type 0} (id : A → K) where
  -- PRIMARY KEY
  abbrev pub UniqueIds : List A → Type 0
  UniqueIds [] = Unit
  UniqueIds (x ∷ xs) = All (λ y. id y ≢ id x) xs × UniqueIds xs

  module _ (p : A → Bool) (f : A → A) (same : (x : A) → id (f x) ≡ id x) where
    id_step : (x : A) → id (if p x then f x else x) ≡ id x
    id_step x = elim (Bool-cases (p x)) [ inl h ↦ rw h (same x) | inr h ↦ rw h refl ]

    others_step :
        (k : K) (xs : List A) → All (λ y. id y ≢ k) xs → All (λ y. id y ≢ k) (update p f xs)
    others_step k [] h = tt
    others_step k (x ∷ xs) h = ((λ e. h.0 (sym (id_step x) ∙ e)), others_step k xs h.1)

    pub UniqueIds-update : (xs : List A) → UniqueIds xs → UniqueIds (update p f xs)
    UniqueIds-update [] h = tt
    UniqueIds-update (x ∷ xs) h = (
      subst (λ k. All (λ y. id y ≢ k) (update p f xs)) (sym (id_step x))
          (others_step (id x) xs h.0),
      UniqueIds-update xs h.1,
    )

  not_listed : (k : K) (xs : List A) {y : A} → All (λ x. id x ≢ k) xs → Memᴰ y xs → id y ≢ k
  not_listed k [] h m = elim m [ ]
  not_listed k (x ∷ xs) h (Memᴰ.head e) = λ same. h.0 (ap id (sym e) ∙ same)
  not_listed k (x ∷ xs) h (Memᴰ.tail m) = not_listed k xs h.1 m

  pub row_unique :
      (xs : List A) {x y : A} → UniqueIds xs → Memᴰ x xs → Memᴰ y xs → id x ≡ id y → x ≡ y
  row_unique [] u m n e = elim m [ ]
  row_unique (z ∷ xs) u (Memᴰ.head p) (Memᴰ.head q) e = p ∙ sym q
  row_unique (z ∷ xs) u (Memᴰ.head p) (Memᴰ.tail n) e =
      absurd (not_listed (id z) xs u.0 n (sym e ∙ ap id p))
  row_unique (z ∷ xs) u (Memᴰ.tail m) (Memᴰ.head q) e =
      absurd (not_listed (id z) xs u.0 m (e ∙ ap id q))
  row_unique (z ∷ xs) u (Memᴰ.tail m) (Memᴰ.tail n) e = row_unique xs u.1 m n e

-- Rows whose identifier is a text.
module _ {ℓ} {A : Type ℓ} (id : A → String) where
  none_later :
      (k : String) (q : A → Bool) (x : A) (xs : List A)
      → All (λ y. id y ≢ id x) xs
      → id x ≡ k
      → All (λ y. (id y == k && q y) ≡ false) xs
  none_later k q x [] h e = tt
  none_later k q x (y ∷ xs) h e = (ground (arith, eq_iff (id y) k, h.0), none_later k q x xs h.1 e)

  pub IsUnique-of_id :
      (k : String) (q : A → Bool) (xs : List A)
      → UniqueIds id xs
      → IsUnique (λ x. id x == k && q x) xs
  IsUnique-of_id k q [] h = tt
  IsUnique-of_id k q (x ∷ xs) h =
      (λ t. none_later k q x xs h.0 (ground (arith, eq_iff (id x) k)), IsUnique-of_id k q xs h.1)

module _ {ℓ κ} {A : Type ℓ} (P : A → Type κ) (p : A → Bool) (f : A → A) where
  pub All-update :
      (xs : List A)
      → ((x : A) → Memᴰ x xs → p x ≡ true → P x → P (f x))
      → All P xs
      → All P (update p f xs)
  All-update [] keep h = tt
  All-update (x ∷ xs) keep h = elim (Bool-cases (p x)) [
    | inl t ↦ rw t (keep x (Memᴰ.head refl) t h.0, All-update xs (λ y m. keep y (Memᴰ.tail m)) h.1)
    | inr t ↦ rw t (h.0, All-update xs (λ y m. keep y (Memᴰ.tail m)) h.1)
  ]
