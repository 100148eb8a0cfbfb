-- ===== src/Scheduler/Placement/Sorting.antt =====
-- The head of a sorted list comes before every element of the list that was sorted.
use mathlib.Core.Path.{subst}
use nehemiah.Base.{
  ◌≡◌, ◌↔◌, ◌⊎◌, inl, inr, refl, Bool, true, false, List, [], ◌∷◌, none, some, arith, first, select,
  Memᴰ, Bool-cases, All,
}
use nehemiah.Base.Int.{ℤ, pos, leb_ℤ, ◌≤ℤ◌}
use nehemiah.Scheduler.Placement.{insert_sorted, sort}

-- A comparison function by which sorting makes sense: total and transitive.
pub record IsComparison {ℓ} {A : Type ℓ} (compare : A → A → ℤ) : Type ℓ where
  pub total : (x y : A) → (compare x y ≤ℤ pos 0) ⊎ (compare y x ≤ℤ pos 0)
  pub transitive : (x y z : A) → compare x y ≤ℤ pos 0 → compare y z ≤ℤ pos 0 → compare x z ≤ℤ pos 0

leb_ℤ→≤ℤ : (a : ℤ) → leb_ℤ a (pos 0) ≡ true → a ≤ℤ pos 0
leb_ℤ→≤ℤ a h = ground arith

pub not-≤ℤ : (a : ℤ) → leb_ℤ a (pos 0) ≡ false → ¬ (a ≤ℤ pos 0)
not-≤ℤ a h = ground arith

module _ {ℓ κ} {A : Type ℓ} (P : A → Type κ) where
  All-insert_sorted :
      (compare : A → A → ℤ) (x : A) (ys : List A)
      → P x
      → All P ys
      → All P (insert_sorted compare x ys)
  All-insert_sorted compare x [] p h = (p, tt)
  All-insert_sorted compare x (y ∷ ys) p h = elim (Bool-cases (leb_ℤ (compare x y) (pos 0))) [
    | inl e ↦ rw e (p, h)
    | inr e ↦ rw e (h.0, All-insert_sorted compare x ys p h.1)
  ]

  pub All-sort : (compare : A → A → ℤ) (xs : List A) → All P xs → All P (sort compare xs)
  unfolding sort
  All-sort compare [] h = tt
  All-sort compare (x ∷ xs) h =
      All-insert_sorted compare x (sort compare xs) h.0 (All-sort compare xs h.1)

  pub All-select : (p : A → Bool) (xs : List A) → All P xs → All P (select p xs)
  All-select p [] h = tt
  All-select p (x ∷ xs) h = elim (Bool-cases (p x)) [
    | inl e ↦ rw e (h.0, All-select p xs h.1)
    | inr e ↦ rw e (All-select p xs h.1)
  ]

  pub All-of_Memᴰ : (xs : List A) → ((x : A) → Memᴰ x xs → P x) → All P xs
  All-of_Memᴰ [] f = tt
  All-of_Memᴰ (x ∷ xs) f = (f x (Memᴰ.head refl), All-of_Memᴰ xs (λ y m. f y (Memᴰ.tail m)))

  pub All-first : (xs : List A) {x : A} → All P xs → first xs ≡ some x → P x
  All-first [] h e = cc
  All-first (y ∷ xs) {x} h e = let same : y ≡ x = cc in rw same at h.0

module _ {ℓ} {A : Type ℓ} where
  pub select-test : (p : A → Bool) (xs : List A) → All (λ x. p x ≡ true) (select p xs)
  select-test p [] = tt
  select-test p (x ∷ xs) = elim (Bool-cases (p x)) [
    | inl e ↦ rw e (e, select-test p xs)
    | inr e ↦ rw e (select-test p xs)
  ]

module _ {ℓ} {A : Type ℓ} where
  pub Memᴰ-select :
      (p : A → Bool) (xs : List A) {x : A} → Memᴰ x xs → p x ≡ true → Memᴰ x (select p xs)
  Memᴰ-select p [] m h = elim m [ ]
  Memᴰ-select p (y ∷ xs) (Memᴰ.head e) h = rw (← e, h) (Memᴰ.head refl)
  Memᴰ-select p (y ∷ xs) (Memᴰ.tail m) h = elim (Bool-cases (p y)) [
    | inl t ↦ rw t (Memᴰ.tail (Memᴰ-select p xs m h))
    | inr f ↦ rw f (Memᴰ-select p xs m h)
  ]

  pub select-eq-nil : (p : A → Bool) (xs : List A) → (select p xs ≡ []) ↔ All (λ x. p x ≡ false) xs
  select-eq-nil p [] = (λ e. tt, λ a. refl)
  select-eq-nil p (x ∷ xs) = elim (Bool-cases (p x)) [
    | inl t ↦ (λ e. absurd (ground arith), λ a. cc)
    | inr f ↦ (λ e. (f, (select-eq-nil p xs).0 (rw f at e)), λ a. rw f ((select-eq-nil p xs).1 a.1))
  ]

  pub first-eq-none : (xs : List A) → first xs ≡ none → xs ≡ []
  first-eq-none [] e = refl
  first-eq-none (x ∷ xs) e = cc

  pub All-map {κ μ} :
      {P : A → Type κ} {Q : A → Type μ}
      → ((x : A) → P x → Q x)
      → (xs : List A) → All P xs
      → All Q xs
  All-map f [] h = tt
  All-map f (x ∷ xs) h = (f x h.0, All-map f xs h.1)

pub not-true : {b : Bool} → ¬ (b ≡ true) → b ≡ false
not-true {b} h = elim (Bool-cases b) [ inl e ↦ absurd (h e) | inr e ↦ e ]

module _ {ℓ} {A : Type ℓ} (compare : A → A → ℤ) where
  insert_sorted-ne-nil : (x : A) (ys : List A) → insert_sorted compare x ys ≡ [] → ⊥
  insert_sorted-ne-nil x [] e = cc
  insert_sorted-ne-nil x (y ∷ ys) e = ground arith

  pub sort-eq-nil : (xs : List A) → sort compare xs ≡ [] → xs ≡ []
  unfolding sort
  sort-eq-nil [] e = refl
  sort-eq-nil (x ∷ xs) e = absurd (insert_sorted-ne-nil x (sort compare xs) e)

module _ {ℓ} {A : Type ℓ} {compare : A → A → ℤ} (c : IsComparison compare) where
  abbrev IsLeast : A → List A → Type 0
  IsLeast m xs = All (λ x. compare m x ≤ℤ pos 0) xs

  IsLeast-trans : (m n : A) (xs : List A) → compare m n ≤ℤ pos 0 → IsLeast n xs → IsLeast m xs
  IsLeast-trans m n [] h l = tt
  IsLeast-trans m n (x ∷ xs) h l = (c.transitive m n x h l.0, IsLeast-trans m n xs h l.1)

  compare_refl : (x : A) → compare x x ≤ℤ pos 0
  compare_refl x = elim (c.total x x) [ inl h ↦ h | inr h ↦ h ]

  -- the head of the result after one more insertion
  insert-IsLeast :
      (x m : A) (xs sorted : List A)
      → (sorted ≡ [] → xs ≡ [])
      → ((y : A) → first sorted ≡ some y → IsLeast y xs)
      → first (insert_sorted compare x sorted) ≡ some m
      → IsLeast m (x ∷ xs)
  insert-IsLeast x m xs [] none_left least e =
      let same : x ≡ m = cc in
      subst (λ k. IsLeast k (x ∷ xs)) same (compare_refl x, rw (none_left refl) tt)
  insert-IsLeast x m xs (y ∷ ys) none_left least e =
      elim (Bool-cases (leb_ℤ (compare x y) (pos 0))) [
        | inl before ↦
            let same : x ≡ m = ground arith in
            subst (λ k. IsLeast k (x ∷ xs)) same
              (compare_refl x, IsLeast-trans x y xs (leb_ℤ→≤ℤ _ before) (least y refl))
        | inr after ↦
            let same : y ≡ m = ground arith in
            subst (λ k. IsLeast k (x ∷ xs)) same
              (elim (c.total x y) [ inl h ↦ absurd (not-≤ℤ _ after h) | inr h ↦ h ], least y refl)
      ]

  pub first-sort-IsLeast : (xs : List A) (m : A) → first (sort compare xs) ≡ some m → IsLeast m xs
  unfolding sort
  first-sort-IsLeast [] m e = cc
  first-sort-IsLeast (x ∷ xs) m e =
      insert-IsLeast x m xs (sort compare xs) (sort-eq-nil compare xs) (first-sort-IsLeast xs) e
