-- ===== src/Machines/Claims.antt =====
-- At most one caller at a time creates a machine.
use nehemiah.Base.{
  ℕ, ◌+◌, ◌*◌, ◌<◌, ◌≡◌, ◌≢◌, inl, inr, refl, ap, String, true, false, List, [], ◌∷◌, Option, none,
  some, arith, any, update, All, Bool-cases, ◌==◌, string_eq, eq_iff, and-eq-true,
}
use nehemiah.Base.Unique.{UniqueIds}
use nehemiah.Database.{Database, MachineRow, state_eq, second}
use nehemiah.Machines.{may_claim, claimed_by, claim_create}

none_claimable :
    (later : ℕ) (id : String) (m : MachineRow) (ms : List MachineRow)
    → m.id ≡ id
    → All (λ n. n.id ≢ m.id) ms
    → any (may_claim later id) ms ≡ false
none_claimable later id m [] h others = refl
none_claimable later id m (n ∷ ms) h others =
    let other : (n.id == id) ≡ false = ground (arith, eq_iff n.id id, others.0) in
    rw other (none_claimable later id m ms h others.1)

untouched :
    (now : ℕ) (token id : String) (m : MachineRow) (ms : List MachineRow)
    → m.id ≡ id
    → All (λ n. n.id ≢ m.id) ms
    → update (may_claim now id) (claimed_by now token) ms ≡ ms
untouched now token id m [] h others = refl
untouched now token id m (n ∷ ms) h others =
    let other : (n.id == id) ≡ false = ground (arith, eq_iff n.id id, others.0) in
    rw other (ap (λ rest. n ∷ rest) (untouched now token id m ms h others.1))

claimed_not_claimable :
    (now later : ℕ) (token id : String) (m : MachineRow)
    → later < now + 300 * second
    → may_claim later id (claimed_by now token m) ≡ false
claimed_not_claimable now later token id m h = ground arith

claimed_once :
    (now later : ℕ) (token id : String) (ms : List MachineRow)
    → UniqueIds (λ m. m.id) ms
    → any (may_claim now id) ms ≡ true
    → later < now + 300 * second
    → any (may_claim later id) (update (may_claim now id) (claimed_by now token) ms) ≡ false
claimed_once now later token id [] unique claimed h = refl
claimed_once now later token id (m ∷ ms) unique claimed h = elim (Bool-cases (may_claim now id m)) [
  | inl mine ↦
      let same : m.id ≡ id = (eq_iff m.id id).0 (and-eq-true (m.id == id) _ mine).0 in
      rw
        (
          mine,
          untouched now token id m ms same unique.0,
          claimed_not_claimable now later token id m h,
        )
        (none_claimable later id m ms same unique.0)
  | inr other ↦ elim (Bool-cases (m.id == id)) [
    | inl same ↦
        absurd (ground (arith, none_claimable now id m ms ((eq_iff m.id id).0 same) unique.0))
    | inr different ↦
        rw (other, different) (claimed_once now later token id ms unique.1 (rw other at claimed) h)
  ]
]

not_claimed :
    (now : ℕ) (token id : String) (ms : List MachineRow)
    → any (may_claim now id) ms ≡ false
    → update (may_claim now id) (claimed_by now token) ms ≡ ms
not_claimed now token id [] h = refl
not_claimed now token id (m ∷ ms) h = elim (Bool-cases (may_claim now id m)) [
  | inl mine ↦ absurd (ground arith)
  | inr other ↦ rw other (ap (λ rest. m ∷ rest) (not_claimed now token id ms (rw other at h)))
]

-- What the calls of others, each with its time and token, are answered, one after the other.
abbrev pub answers : String → List (ℕ × String) → Database → List (Option String)
answers id [] db = []
answers id ((at, token) ∷ calls) db =
    (claim_create at id token db).0 ∷ answers id calls (claim_create at id token db).1

nobody :
    (id : String) (end : ℕ) (calls : List (ℕ × String)) (db : Database)
    → ((at : ℕ) → at < end → any (may_claim at id) db.machines ≡ false)
    → All (λ (call : ℕ × String). call.0 < end) calls
    → All (λ answer. answer ≡ none) (answers id calls db)
unfolding claim_create
nobody id end [] db held early = tt
nobody id end ((at, token) ∷ calls) db held early =
    let none_now = held at early.0 in
    (
      rw none_now refl,
      rw (not_claimed at token id db.machines none_now) (nobody id end calls db held early.1),
    )

-- Once a caller is given the claim on the creation of a machine, no call of `claim_create` for the
-- machine in the five minutes that follow is given one, however many there are, if nothing but these
-- calls changes the machines, which have distinct identifiers.
pub claim_create-exclusive :
    (now : ℕ) (id token held : String) (db : Database) (calls : List (ℕ × String))
    → UniqueIds (λ m. m.id) db.machines
    → (claim_create now id token db).0 ≡ some held
    → All (λ (call : ℕ × String). call.0 < now + 300 * second) calls
    → All (λ answer. answer ≡ none) (answers id calls (claim_create now id token db).1)
unfolding claim_create
claim_create-exclusive now id token held db calls unique granted early =
    elim (Bool-cases (any (may_claim now id) db.machines)) [
      | inl mine ↦
          nobody id (now + 300 * second) calls (claim_create now id token db).1
            (λ at h. claimed_once now at token id db.machines unique mine h) early
      | inr free ↦ absurd (ground arith)
    ]
