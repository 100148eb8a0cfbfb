-- ===== src/Base/Outcome.antt =====
-- Exceptions as values, and database transactions: a transaction that throws leaves the tables as
-- they were (apps/nehemiah/src/db/client.ts, `Database.transaction`).
use mathlib.Core.Path.{◌≡◌, refl}
use mathlib.Core.Logic.{◌⊎◌, inl, inr}
use mathlib.Core.Bool.{Bool, true, false}
use mathlib.Core.Option.{Option, none, some}

pub data Result {ℓ κ} (E : Type ℓ) (A : Type κ) : Type (ℓ ⊔ κ) where
  ok : A → Result E A
  err : E → Result E A

module _ {ℓ} {E : Type ℓ} where
  -- What follows a call that may throw.
  infixl 5 ◌>>=◌
  abbrev pub ◌>>=◌ {κ μ} : {A : Type κ} {B : Type μ} → Result E A → (A → Result E B) → Result E B
  err failure >>= next = err failure
  ok value >>= next = next value

  infixl 5 ◌>>◌
  abbrev pub ◌>>◌ {μ} : {B : Type μ} → Result E (Unit {0}) → Result E B → Result E B
  first >> second = first >>= λ nothing. second

  -- `if (test) throw error`
  abbrev pub throw_if : Bool → E → Result E (Unit {0})
  throw_if test failure = elim test [ true ↦ err failure | false ↦ ok tt ]

  -- `if (value === undefined) throw error`
  abbrev pub require {κ} : {A : Type κ} → Option A → E → Result E A
  require none e = err e
  require (some a) e = ok a

  pub >>=-eq-ok {κ μ} :
      {A : Type κ} {B : Type μ} (call : Result E A) (next : A → Result E B) {result : B}
      → (call >>= next) ≡ ok result
      → (value : A) × (call ≡ ok value) × (next value ≡ ok result)
  >>=-eq-ok (err failure) next h = cc
  >>=-eq-ok (ok value) next h = (value, refl, h)

module _ {ℓ κ} {E : Type ℓ} {A : Type κ} where
  pub Result-cases : (r : Result E A) → ((e : E) × (r ≡ err e)) ⊎ ((a : A) × (r ≡ ok a))
  Result-cases (ok a) = inr (a, refl)
  Result-cases (err e) = inl (e, refl)

  pub ok-injective : {a b : A} → ◌≡◌ {A = Result E A} (ok a) (ok b) → a ≡ b
  ok-injective h = cc

  pub require-eq-ok : (o : Option A) (e : E) {a : A} → require o e ≡ ok a → o ≡ some a
  require-eq-ok none e h = cc
  require-eq-ok (some a) e h = cc

module _ {ℓ κ μ} {E : Type ℓ} {A : Type κ} {S : Type μ} where
  -- COMMIT keeps the tables that the work left, ROLLBACK those from before it.
  abbrev pub settle : S → Result E (A × S) → Result E A × S
  settle db (ok (a, db')) = (ok a, db')
  settle db (err e) = (err e, db)

  unfoldable pub transaction : (S → Result E (A × S)) → S → Result E A × S
  transaction work db = settle db (work db)

  settle-eq-ok :
      (db : S) (r : Result E (A × S)) {a : A} {db' : S}
      → settle db r ≡ (ok a, db')
      → r ≡ ok (a, db')
  settle-eq-ok db (ok (b, db'')) h = cc
  settle-eq-ok db (err e) h = cc

  -- A transaction that succeeds has done its work.
  pub transaction-eq-ok :
      (work : S → Result E (A × S)) (db : S) {a : A} {db' : S}
      → transaction work db ≡ (ok a, db')
      → work db ≡ ok (a, db')
  unfolding transaction
  transaction-eq-ok work db h = settle-eq-ok db (work db) h

  pub transaction-ok :
      (work : S → Result E (A × S)) (db : S) {a : A} {db' : S}
      → work db ≡ ok (a, db')
      → transaction work db ≡ (ok a, db')
  unfolding transaction
  transaction-ok work db h = rw h refl

  settle-cases :
      (db : S) (r : Result E (A × S))
      → ((a : A) × (db' : S) × (r ≡ ok (a, db')) × (settle db r ≡ (ok a, db')))
        ⊎ ((e : E) × (settle db r ≡ (err e, db)))
  settle-cases db (ok (a, db')) = inl (a, db', refl, refl)
  settle-cases db (err e) = inr (e, refl)

  -- A transaction does its work, or nothing.
  pub transaction-cases :
      (work : S → Result E (A × S)) (db : S)
      → ((a : A) × (db' : S) × (work db ≡ ok (a, db')) × (transaction work db ≡ (ok a, db')))
        ⊎ ((e : E) × (transaction work db ≡ (err e, db)))
  unfolding transaction
  transaction-cases work db = settle-cases db (work db)

module _ {ℓ κ μ ν} {E : Type ℓ} {A : Type κ} {S : Type μ} (P : S → Type ν) where
  settle-keeps :
      (db : S) (r : Result E (A × S))
      → ((a : A) (db' : S) → r ≡ ok (a, db') → P db')
      → P db
      → P (settle db r).1
  settle-keeps db (ok (a, db')) after before = after a db' refl
  settle-keeps db (err e) after before = before

  -- What holds before a transaction and after its work holds after it.
  pub transaction-keeps :
      (work : S → Result E (A × S)) (db : S)
      → ((a : A) (db' : S) → work db ≡ ok (a, db') → P db')
      → P db
      → P (transaction work db).1
  unfolding transaction
  transaction-keeps work db after before = settle-keeps db (work db) after before
