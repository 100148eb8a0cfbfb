-- ===== src/Machines/Lifecycle.antt =====
-- No call moves a machine backwards, and none moves it out of a state that is final.
use nehemiah.Base.{
  ℕ, ◌<◌, ◌≡◌, ◌⊎◌, inl, inr, refl, ap, ◌∙◌, String, Bool, true, ◌&&◌, List, [], ◌∷◌, Option, none,
  some, ok, arith, find, any, update, Bool-cases, ◌==◌, string_eq, and-eq-true, transaction-keeps,
  >>=-eq-ok, ok-injective, require,
}
use nehemiah.Database.{
  Database, MachineRow, MachineState, state_eq, state_beq_iff, requested, placing, starting,
  running, stopping, stopped, failed, lost, is_unplaced,
}
use nehemiah.Scheduler.Reserve.{Reservation}
use nehemiah.Machines.{
  HostMachine, not_assigned, event, may_claim, claimed_by, claim_create, holds_claim, unclaimed,
  release_create_claim, may_fail, failed_with, fail_prior, fail_create, may_assign, assigned_to,
  assign_work, assign, is_starting, observed, observe_event, observe_host, may_move, moved,
  move_prior, transition, is_being_created,
}

abbrev pub rank : MachineState → ℕ
rank requested = 0
rank placing = 1
rank starting = 2
rank running = 3
rank stopping = 4
rank stopped = 5
rank failed = 5
rank lost = 5

-- The same state, or a later one: of the final states none is later than another.
abbrev pub IsLater : MachineState → MachineState → Type 0
IsLater s t = (s ≡ t) ⊎ (rank s < rank t)

abbrev pub IsLaterRow : MachineRow → MachineRow → Type 0
IsLaterRow m n = (n.id ≡ m.id) × IsLater m.state n.state

-- Row for row, in the same order.
abbrev pub AllLater : List MachineRow → List MachineRow → Type 0
AllLater [] [] = Unit
AllLater [] (_ ∷ _) = ⊥
AllLater (_ ∷ _) [] = ⊥
AllLater (m ∷ ms) (n ∷ ns) = IsLaterRow m n × AllLater ms ns

pub AllLater-refl : (ms : List MachineRow) → AllLater ms ms
AllLater-refl [] = tt
AllLater-refl (m ∷ ms) = ((refl, inl refl), AllLater-refl ms)

IsLater-trans : (s t u : MachineState) → IsLater s t → IsLater t u → IsLater s u
IsLater-trans s t u (inl h) (inl k) = inl (h ∙ k)
IsLater-trans s t u (inl h) (inr k) = inr (rw h k)
IsLater-trans s t u (inr h) (inl k) = inr (rw (← k) h)
IsLater-trans s t u (inr h) (inr k) = inr (omega arith)

pub AllLater-trans : (ms ns os : List MachineRow) → AllLater ms ns → AllLater ns os → AllLater ms os
AllLater-trans [] [] [] h k = tt
AllLater-trans [] [] (_ ∷ _) h k = absurd k
AllLater-trans [] (_ ∷ _) os h k = absurd h
AllLater-trans (_ ∷ _) [] os h k = absurd h
AllLater-trans (_ ∷ _) (_ ∷ _) [] h k = absurd k
AllLater-trans (m ∷ ms) (n ∷ ns) (o ∷ os) h k = (
  (k.0.0 ∙ h.0.0, IsLater-trans m.state n.state o.state h.0.1 k.0.1),
  AllLater-trans ms ns os h.1 k.1,
)

module _ (p : MachineRow → Bool) (f : MachineRow → MachineRow) where
  pub update-AllLater :
      ((m : MachineRow) → p m ≡ true → IsLaterRow m (f m))
      → (ms : List MachineRow) → AllLater ms (update p f ms)
  update-AllLater h [] = tt
  update-AllLater h (m ∷ ms) = elim (Bool-cases (p m)) [
    | inl t ↦ rw t (h m t, update-AllLater h ms)
    | inr t ↦ rw t ((refl, inl refl), update-AllLater h ms)
  ]

-- The calls of the control plane, each with the states that it passes to `transition`.
pub data Step : Database → Database → Type 0 where
  claims : (now : ℕ) (id token : String) (db : Database) → Step db (claim_create now id token db).1
  unclaims : (id token : String) (db : Database) → Step db (release_create_claim id token db)
  fails :
      (now : ℕ) (event_id id token : String) (status : ℕ) (code message : String) (db : Database)
      → Step db (fail_create now event_id id token status code message db).1
  assigns :
      (now : ℕ) (event_id id : String) (reservation : Reservation) (db : Database)
      → Step db (assign now event_id id reservation db).1
  observes :
      (clock now : ℕ) (event_id id : String) (host : HostMachine) (db : Database)
      → Step db (observe_host clock now event_id id host db)
  -- `MachineService.create`, when the host cannot be told to destroy
  compensates :
      (now : ℕ) (event_id id : String) (db : Database)
      → Step db
          (transition now event_id id
            (starting ∷ running ∷ [])
            stopping
            (some "create persistence failed; compensation pending")
            db).1
  -- `MachineService.destroy`, before and after the host's answer
  stops :
      (now : ℕ) (event_id id : String) (db : Database)
      → Step db
          (transition now event_id id
            (requested ∷ placing ∷ starting ∷ running ∷ [])
            stopping
            none
            db).1
  finishes :
      (now : ℕ) (event_id id : String) (db : Database)
      → Step db (transition now event_id id (stopping ∷ []) stopped none db).1

pub data Steps : Database → Database → Type 0 where
  done : (db : Database) → Steps db db
  next : (db mid last : Database) → Step db mid → Steps mid last → Steps db last

same_state : (s t : MachineState) → (s == t) ≡ true → s ≡ t
same_state s t h = (state_beq_iff s t).0 h

earlier : (s : MachineState) → is_being_created s ≡ true → rank s < rank failed
earlier s h = ground arith

unplaced_earlier : (s : MachineState) → is_unplaced s ≡ true → rank s < rank starting
unplaced_earlier s h = ground arith

fail_prior-AllLater :
    (now : ℕ) (event_id id token : String) (status : ℕ) (code message : String) (db : Database)
    (prior : Option MachineRow)
    → AllLater db.machines
        (fail_prior now event_id id token status code message db prior).1.machines
unfolding event
fail_prior-AllLater now event_id id token status code message db none = AllLater-refl db.machines
fail_prior-AllLater now event_id id token status code message db (some prior) =
    update-AllLater (may_fail id token) (failed_with now status code message)
      (λ m t. (
        refl,
        inr (
            earlier m.state
              (and-eq-true (holds_claim token m) _ (and-eq-true (m.id == id) _ t).1).1),
      ))
      db.machines

assign_work-AllLater :
    (now : ℕ) (event_id id : String) (reservation : Reservation) (db : Database) (u : Unit {0})
    (db' : Database)
    → assign_work now event_id id reservation db ≡ ok (u, db')
    → AllLater db.machines db'.machines
unfolding assign_work event
assign_work-AllLater now event_id id reservation db u db' h =
    let (row, found, rest) =
      >>=-eq-ok (require (find (may_assign id) db.machines) not_assigned) _ h in
    let same = ap (λ p. p.1.machines) (ok-injective rest) in
    rw (← same) (
      update-AllLater (may_assign id) (assigned_to now reservation)
        (λ m t. (refl, inr (unplaced_earlier m.state (and-eq-true (m.id == id) _ t).1)))
        db.machines)

observe_update-AllLater :
    (clock now : ℕ) (id : String) (host : HostMachine) (ms : List MachineRow)
    → AllLater ms (update (is_starting id) (observed clock now host) ms)
observe_update-AllLater clock now id host ms =
    update-AllLater (is_starting id) (observed clock now host)
      (λ m t.
        let here : m.state ≡ starting =
          same_state m.state starting (and-eq-true (m.id == id) _ t).1 in
        (
          refl,
          rw here (elim (Bool-cases host.ready) [
            | inl up ↦ rw up (inr (omega arith))
            | inr down ↦ rw down (inl refl)
          ]),
        ))
      ms

observe_event-machines :
    (event_id id : String) (host : HostMachine) (found : Option MachineRow) (db : Database)
    → (observe_event event_id id host found db).machines ≡ db.machines
unfolding event
observe_event-machines event_id id host none db = refl
observe_event-machines event_id id host (some row) db = elim (Bool-cases host.ready) [
  | inl up ↦ rw up refl
  | inr down ↦ rw down refl
]

move_prior-AllLater :
    (now : ℕ) (event_id id : String) (from : List MachineState) (to : MachineState)
    (reason : Option String) (db : Database) (prior : Option MachineRow)
    → ((s : MachineState) → any (λ t. s == t) from ≡ true → rank s < rank to)
    → AllLater db.machines (move_prior now event_id id from to reason db prior).1.machines
unfolding event
move_prior-AllLater now event_id id from to reason db none h = AllLater-refl db.machines
move_prior-AllLater now event_id id from to reason db (some prior) h =
    update-AllLater (may_move id from) (moved now to reason)
      (λ m t. (refl, inr (h m.state (and-eq-true (m.id == id) _ t).1))) db.machines

compensated :
    (s : MachineState) → any (λ t. s == t) (starting ∷ running ∷ []) ≡ true → rank s < rank stopping
compensated s h = ground arith

destroyed :
    (s : MachineState)
    → any (λ t. s == t) (requested ∷ placing ∷ starting ∷ running ∷ []) ≡ true
    → rank s < rank stopping
destroyed s h = ground arith

finished : (s : MachineState) → any (λ t. s == t) (stopping ∷ []) ≡ true → rank s < rank stopped
finished s h = ground arith

Step-AllLater : (db db' : Database) → Step db db' → AllLater db.machines db'.machines
unfolding claim_create release_create_claim fail_create assign observe_host transition
Step-AllLater db db' (claims now id token _) =
    update-AllLater (may_claim now id) (claimed_by now token) (λ m t. (refl, inl refl)) db.machines
Step-AllLater db db' (unclaims id token _) =
    update-AllLater (λ m. m.id == id && holds_claim token m) unclaimed (λ m t. (refl, inl refl))
      db.machines
Step-AllLater db db' (fails now event_id id token status code message _) =
    fail_prior-AllLater now event_id id token status code message db
      (find (may_fail id token) db.machines)
Step-AllLater db db' (assigns now event_id id reservation _) =
    transaction-keeps (λ d. AllLater db.machines d.machines)
      (assign_work now event_id id reservation) db
      (λ u d h. assign_work-AllLater now event_id id reservation db u d h)
      (AllLater-refl db.machines)
Step-AllLater db db' (observes clock now event_id id host _) =
    rw
      (observe_event-machines event_id id host (find (is_starting id) db.machines)
        (record db { machines = update (is_starting id) (observed clock now host) db.machines }))
      (observe_update-AllLater clock now id host db.machines)
Step-AllLater db db' (compensates now event_id id _) =
    move_prior-AllLater now event_id id (starting ∷ running ∷ []) stopping _ db
      (find (may_move id (starting ∷ running ∷ [])) db.machines) compensated
Step-AllLater db db' (stops now event_id id _) =
    move_prior-AllLater now event_id id (requested ∷ placing ∷ starting ∷ running ∷ []) stopping
      none db (find (may_move id (requested ∷ placing ∷ starting ∷ running ∷ [])) db.machines)
      destroyed
Step-AllLater db db' (finishes now event_id id _) =
    move_prior-AllLater now event_id id (stopping ∷ []) stopped none db
      (find (may_move id (stopping ∷ [])) db.machines) finished

-- However the calls follow one another, and on whichever machines, every machine keeps its place
-- and its identifier, and its state stays or moves to a later one in the order requested, placing,
-- starting, running, stopping and last stopped, failed or lost, which are never left.
pub Steps-AllLater : (db last : Database) → Steps db last → AllLater db.machines last.machines
Steps-AllLater db last (done _) = AllLater-refl db.machines
Steps-AllLater db last (next _ mid _ step steps) =
    AllLater-trans db.machines mid.machines last.machines (Step-AllLater db mid step)
      (Steps-AllLater mid last steps)
