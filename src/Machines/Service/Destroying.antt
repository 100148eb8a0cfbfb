-- ===== src/Machines/Service/Destroying.antt =====
-- What `destroy` does to the machine and to what is reserved for it.
use mathlib.Core.Path.{subst}
use nehemiah.Base.{
  ℕ, ◌≡◌, ◌≢◌, inl, inr, refl, sym, ap, ◌∙◌, String, Bool, true, false, not, ◌&&◌, ◌||◌, List, [],
  ◌∷◌, Memᴰ, Option, none, some, Result, ok, err, Bool-cases, Option-cases, find, find-test,
  find-Memᴰ, any, update, is_some, ◌==◌, string_eq, eq_iff, if◌then◌else◌, arith, and-eq-true,
}
use nehemiah.Base.Unique.{UniqueIds, row_unique}
use nehemiah.Base.Text.{truthy}
use nehemiah.Scheduler.Reserve.{release, release_claimed, is_unreleased}
use nehemiah.Database.{
  Database, MachineRow, MachineState, state_eq, requested, placing, starting, running, stopping,
  stopped, failed, lost, is_terminal,
}
use nehemiah.Machines.{transition, event, may_move, moved}
use nehemiah.Machines.Service.{
  HostAnswer, destroyed, not_found, host_failed, HostFailure, host_failure, is_visible,
  host_address, size_of_row, release_from, host_answer, destroy_answered, destroy_found, destroy,
}

abbrev pub row_of : String → Database → Option MachineRow
row_of id db = find (λ r. r.id == id) db.machines

-- requested, placing, starting or running
abbrev pub is_active : MachineState → Bool
is_active state = any (λ s. state == s) (requested ∷ placing ∷ starting ∷ running ∷ [])

module _ {A : Type 0} where
  -- The first row of a wider test, if it passes the narrower one.
  find-narrow :
      (p q : A → Bool) (xs : List A) {x : A}
      → ((y : A) → p y ≡ false → q y ≡ false)
      → find p xs ≡ some x
      → q x ≡ true
      → find q xs ≡ some x
  find-narrow p q [] narrow h test = cc
  find-narrow p q (y ∷ xs) {x} narrow h test = elim (Bool-cases (p y)) [
    | inl here ↦ let same : y ≡ x = ground arith in rw (same, test) refl
    | inr other ↦ rw (narrow y other) (find-narrow p q xs narrow (rw other at h) test)
  ]

  -- The row that is found after an update that keeps the test.
  find-updated :
      (p q : A → Bool) (f : A → A) (xs : List A) {x : A}
      → ((y : A) → p (f y) ≡ p y)
      → find p xs ≡ some x
      → find p (update q f xs) ≡ some (if q x then f x else x)
  find-updated p q f [] keeps h = cc
  find-updated p q f (y ∷ xs) {x} keeps h = elim (Bool-cases (p y)) [
    | inl here ↦
        let same : y ≡ x = ground arith in
        elim (Bool-cases (q y)) [
          | inl t ↦ rw (t, keeps y, here, ← same, t) refl
          | inr t ↦ rw (t, here, ← same, t) refl
        ]
    | inr other ↦ elim (Bool-cases (q y)) [
      | inl t ↦ rw (t, keeps y, other) (find-updated p q f xs keeps (rw other at h))
      | inr t ↦ rw (t, other) (find-updated p q f xs keeps (rw other at h))
    ]
  ]

  any-found :
      (p q : A → Bool) (xs : List A) {x : A} → find p xs ≡ some x → q x ≡ true → any q xs ≡ true
  any-found p q [] h test = cc
  any-found p q (y ∷ xs) {x} h test = elim (Bool-cases (p y)) [
    | inl here ↦ let same : y ≡ x = ground arith in rw (same, test) refl
    | inr other ↦ elim (Bool-cases (q y)) [
      | inl t ↦ rw t refl
      | inr t ↦ rw t (any-found p q xs (rw other at h) test)
    ]
  ]

-- The visible row is the one with the identifier.
visible-row :
    (p : MachineRow → Bool) (id : String) (ms : List MachineRow) (m : MachineRow)
    → ((r : MachineRow) → (r.id == id) ≡ false → p r ≡ false)
    → UniqueIds (λ r. r.id) ms
    → find p ms ≡ some m
    → (m.id == id) ≡ true
    → find (λ r. r.id == id) ms ≡ some m
visible-row p id [] m narrow unique h named = cc
visible-row p id (r ∷ ms) m narrow unique h named = elim (Bool-cases (r.id == id)) [
  | inl here ↦
      let same : r ≡ m =
        row_unique (λ r. r.id) (r ∷ ms) unique (Memᴰ.head refl) (find-Memᴰ p (r ∷ ms) h)
          ((eq_iff r.id id).0 here ∙ sym ((eq_iff m.id id).0 named)) in
      rw here (ap some same)
  | inr other ↦ rw other (visible-row p id ms m narrow unique.1 (rw (narrow r other) at h) named)
]

module _ (now : ℕ) (event_id id : String) (from : List MachineState) (to : MachineState)
    (reason : Option String) (db : Database) (m : MachineRow) where
  transition-moves :
      row_of id db ≡ some m
      → any (λ s. m.state == s) from ≡ true
      → ((transition now event_id id from to reason db).0 ≡ true)
        × ((transition now event_id id from to reason db).1.hosts ≡ db.hosts)
        × (row_of id (transition now event_id id from to reason db).1
            ≡ some (moved now to reason m))
  unfolding transition event
  transition-moves h may =
      let here = find-test (λ (r : MachineRow). r.id == id) db.machines h in
      let test : may_move id from m ≡ true = rw (here, may) refl in
      let found =
        find-narrow (λ (r : MachineRow). r.id == id) (may_move id from) db.machines
          (λ r other. rw other refl) h test in
      let after =
        find-updated (λ (r : MachineRow). r.id == id) (may_move id from) (moved now to reason)
          db.machines (λ r. refl) h in
      rw found (refl, refl, rw test at after)

  transition-stays :
      UniqueIds (λ r. r.id) db.machines
      → row_of id db ≡ some m
      → any (λ s. m.state == s) from ≡ false
      → transition now event_id id from to reason db ≡ (false, db)
  unfolding transition
  transition-stays unique h may_not = elim (Option-cases (find (may_move id from) db.machines)) [
    | inl nothing ↦ rw nothing refl
    | inr (r, found) ↦
        let (named, may) =
          and-eq-true (r.id == id) (any (λ s. r.state == s) from)
            (find-test (may_move id from) db.machines found) in
        let here = find-test (λ (r : MachineRow). r.id == id) db.machines h in
        let same : r ≡ m =
          row_unique (λ r. r.id) db.machines unique (find-Memᴰ (may_move id from) db.machines found)
            (find-Memᴰ (λ (r : MachineRow). r.id == id) db.machines h)
            ((eq_iff r.id id).0 named ∙ sym ((eq_iff m.id id).0 here)) in
        let never : true ≡ false =
          sym may ∙ ap (λ (r : MachineRow). any (λ s. r.state == s) from) same ∙ may_not in
        cc
  ]

-- A row that is stopped, and has nothing reserved if there is a host.
abbrev pub IsStopped : MachineRow → MachineRow → Type 0
IsStopped m n =
    (n.state ≡ stopped)
    × ((not (is_some (truthy m.host_id)) || is_some n.reservation_released_at) ≡ true)

release_from-IsStopped :
    (now : ℕ) (m : MachineRow) (host_id : Option String) (db : Database) (n : MachineRow)
    → (m.id == "") ≡ false
    → truthy m.host_id ≡ host_id
    → row_of m.id db ≡ some n
    → n.state ≡ stopped
    → (r : MachineRow) × (row_of m.id (release_from now m host_id db) ≡ some r) × IsStopped m r
unfolding release release_claimed
release_from-IsStopped now m none db n named host h ended = (n, h, (ended, rw host refl))
release_from-IsStopped now m (some host_id) db n named host h ended =
    let here = find-test (λ (r : MachineRow). r.id == m.id) db.machines h in
    elim (Bool-cases (is_unreleased m.id n)) [
      | inl held ↦ (
        record n { reservation_released_at = some now },
        rw named (
            rw
              (any-found (λ (r : MachineRow). r.id == m.id) (is_unreleased m.id) db.machines h held)
              (rw held at (
                find-updated (λ (r : MachineRow). r.id == m.id) (is_unreleased m.id)
                  (λ r. record r { reservation_released_at = some now }) db.machines (λ r. refl)
                  h))),
        (ended, rw host refl),
      )
      | inr free ↦
          let was : is_some n.reservation_released_at ≡ true = ground arith in
          (n, rw named (kept free), (ended, rw (host, was) refl))
    ]
  where
    kept :
        is_unreleased m.id n ≡ false
        → row_of m.id (release_claimed now host_id (size_of_row m) (some m.id) db) ≡ some n
    kept free = elim (Bool-cases (any (is_unreleased m.id) db.machines)) [
      | inr nobody ↦ rw nobody h
      | inl other ↦ rw other (
          rw free at (
            find-updated (λ (r : MachineRow). r.id == m.id) (is_unreleased m.id)
              (λ r. record r { reservation_released_at = some now }) db.machines (λ r. refl) h))
    ]

stopping_left :
    (state : MachineState) → is_terminal state ≡ false → is_active state ≡ false → state ≡ stopping
stopping_left requested live idle = cc
stopping_left placing live idle = cc
stopping_left starting live idle = cc
stopping_left running live idle = cc
stopping_left stopping live idle = refl
stopping_left stopped live idle = cc
stopping_left failed live idle = cc
stopping_left lost live idle = cc

-- A row that is stopping, with what was reserved for it.
abbrev pub IsStopping : MachineRow → MachineRow → Type 0
IsStopping m n = (n.state ≡ stopping) × (n.reservation_released_at ≡ m.reservation_released_at)

-- The host has a machine to delete that the control plane cannot name.
abbrev pub is_unnamed : MachineRow → Option String → Bool
is_unnamed m address =
    is_some (truthy m.host_id) && is_some address && not (is_some (truthy m.host_machine_id))

module _ (answer : String → String → HostAnswer) (now : ℕ) (first_event second_event : String)
    (m : MachineRow) (db : Database) where
  -- What becomes of a machine that is destroyed.
  pub data IsDestroyed : Result HostFailure Bool × Database → Type 0 where
    was_final : is_terminal m.state ≡ true → IsDestroyed (ok true, db)
    was_stopping : m.state ≡ stopping → IsDestroyed (ok true, db)
    awaits_name :
        (db' : Database) (n : MachineRow)
        → is_active m.state ≡ true
        → is_unnamed m (truthy (host_address db m)) ≡ true
        → db'.hosts ≡ db.hosts
        → row_of m.id db' ≡ some n
        → IsStopping m n
        → IsDestroyed (ok true, db')
    not_answered :
        (db' : Database) (n : MachineRow)
        → is_active m.state ≡ true
        → host_answer answer now first_event second_event
            (truthy (host_address db m))
            (truthy m.host_machine_id)
          ≡ host_failed
        → db'.hosts ≡ db.hosts
        → row_of m.id db' ≡ some n
        → IsStopping m n
        → IsDestroyed (err host_failure, db')
    ended :
        (db' : Database) (n : MachineRow)
        → is_active m.state ≡ true
        → host_answer answer now first_event second_event
            (truthy (host_address db m))
            (truthy m.host_machine_id)
          ≢ host_failed
        → row_of m.id db' ≡ some n
        → IsStopped m n
        → IsDestroyed (ok true, db')

  abbrev begun : Bool × Database
  begun =
      transition now first_event m.id (requested ∷ placing ∷ starting ∷ running ∷ []) stopping none
        db

  module _ (named : (m.id == "") ≡ false) (active : is_active m.state ≡ true)
      (same_hosts : begun.1.hosts ≡ db.hosts)
      (row : row_of m.id begun.1 ≡ some (moved now stopping none m)) where
    stopped-IsDestroyed :
        host_answer answer now first_event second_event
            (truthy (host_address db m))
            (truthy m.host_machine_id)
          ≢ host_failed
        → IsDestroyed (
          ok true,
          release_from now m
              (truthy m.host_id)
              (transition now second_event m.id (stopping ∷ []) stopped none begun.1).1,
        )
    stopped-IsDestroyed answered =
        let next = (transition now second_event m.id (stopping ∷ []) stopped none begun.1).1 in
        let (moved_on, hosts, row_after) =
          transition-moves now second_event m.id (stopping ∷ []) stopped none begun.1
            (moved now stopping none m) row refl in
        let last = moved now stopped none (moved now stopping none m) in
        let (n, found, is_stopped) =
          release_from-IsStopped now m (truthy m.host_id) next last named refl row_after refl in
        ended (release_from now m (truthy m.host_id) next) n active answered found is_stopped

    answered-IsDestroyed :
        (given : HostAnswer)
        → host_answer answer now first_event second_event
            (truthy (host_address db m))
            (truthy m.host_machine_id)
          ≡ given
        → IsDestroyed (destroy_answered answer now first_event second_event m given begun.1)
    answered-IsDestroyed host_failed same =
        not_answered begun.1 (moved now stopping none m) active same same_hosts row (refl, refl)
    answered-IsDestroyed destroyed same = stopped-IsDestroyed (λ e. cc)
    answered-IsDestroyed not_found same = stopped-IsDestroyed (λ e. cc)

  found-IsDestroyed :
      UniqueIds (λ r. r.id) db.machines
      → (m.id == "") ≡ false
      → row_of m.id db ≡ some m
      → IsDestroyed (destroy_found answer now first_event second_event db (some m))
  found-IsDestroyed unique named h = elim (Bool-cases (is_terminal m.state)) [
    | inl final ↦ rw final (was_final final)
    | inr live ↦ elim (Bool-cases (is_active m.state)) [
      | inr idle ↦
          let stays =
            transition-stays now first_event m.id (requested ∷ placing ∷ starting ∷ running ∷ [])
              stopping none db m unique h idle in
          rw (live, stays) (was_stopping (stopping_left m.state live idle))
      | inl active ↦
          let (began, hosts, row) =
            transition-moves now first_event m.id (requested ∷ placing ∷ starting ∷ running ∷ [])
              stopping none db m h active in
          elim (Bool-cases (is_unnamed m (truthy (host_address db m)))) [
            | inl pending ↦
                rw (live, began, pending)
                  (awaits_name begun.1 (moved now stopping none m) active pending hosts row
                    (refl, refl))
            | inr settled ↦
                rw (live, began, settled)
                  (answered-IsDestroyed named active hosts row
                    (host_answer answer now first_event second_event (truthy (host_address db m))
                      (truthy m.host_machine_id))
                    refl)
          ]
    ]
  ]

-- Destroying a machine that is visible to the caller leaves everything as it is if the machine is
-- stopped, failed, lost or stopping already. Otherwise the machine becomes stopped and, if it has a
-- host, its reservation is marked as released; unless the host is asked and fails, which is an error,
-- or the host has an address but no identifier of the machine is known: then the machine becomes
-- stopping, its reservation is as before, and no host has changed. Machines have distinct identifiers,
-- and that of this machine is not empty.
pub destroy-IsDestroyed :
    (answer : String → String → HostAnswer) (now : ℕ)
    (first_event second_event id organization_id : String) (project_id : Option String)
    (db : Database) (m : MachineRow)
    → UniqueIds (λ r. r.id) db.machines
    → (id == "") ≡ false
    → find (is_visible db.forks id organization_id project_id) db.machines ≡ some m
    → IsDestroyed answer now first_event second_event m db
        (destroy answer now first_event second_event id organization_id project_id db)
unfolding destroy
destroy-IsDestroyed answer now first_event second_event id organization_id project_id db m unique
      named found =
    let visible = is_visible db.forks id organization_id project_id in
    let here : (m.id == id) ≡ true = ground (arith, find-test visible db.machines found) in
    let same : m.id ≡ id = (eq_iff m.id id).0 here in
    let row = visible-row visible id db.machines m (λ r other. rw other refl) unique found here in
    rw found (
      found-IsDestroyed answer now first_event second_event m db unique (rw same named)
        (subst (λ k. row_of k db ≡ some m) (sym same) row))
