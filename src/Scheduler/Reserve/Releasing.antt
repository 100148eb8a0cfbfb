-- ===== src/Scheduler/Reserve/Releasing.antt =====
-- Releasing gives back exactly what was reserved, once.
use nehemiah.Base.{
  ℕ, ◌≡◌, ◌⊎◌, inl, inr, refl, ap, ◌∙◌, String, Bool, true, false, List, [], ◌∷◌, Option, none,
  some, ok, arith, update, ◌==◌, string_eq, Bool-cases, any,
}
use nehemiah.Base.Int.{ℤ}
use nehemiah.Base.Number.{Number}
use nehemiah.Base.Unique.{UniqueIds-update, All-update, update-update}
use nehemiah.Billing.Admission.{BillingAdmissionPolicy}
use nehemiah.Scheduler.Capacity.{Resources}
use nehemiah.Base.Text.{truthy}
use nehemiah.Scheduler.Quota.{ScheduleRequest}
use nehemiah.Scheduler.Reserve.{
  Reservation, sized, reserve_on, reserve, release_on, release_host, is_unreleased, release_claimed,
  release,
}
use nehemiah.Scheduler.Reserve.Capacity.{
  RowWithin, IsWithin, release_on-RowWithin, reserve-IsReserved, assign_machine-hosts,
}
use nehemiah.Database.{Database, HostRow, MachineRow}

release_host-IsWithin :
    (host_id : String) (n : Resources) (db : Database)
    → IsWithin db.hosts
    → IsWithin (release_host host_id n db).hosts
release_host-IsWithin host_id n db w = record {
  unique =
      UniqueIds-update (λ h. h.id) (λ h. h.id == host_id) (release_on n) (λ h. refl) db.hosts
        w.unique;
  within =
      All-update RowWithin (λ h. h.id == host_id) (release_on n) db.hosts
        (λ h m t old. release_on-RowWithin n h old) w.within;
}

release_claimed-IsWithin :
    (now : ℕ) (host_id : String) (n : Resources) (machine_id : Option String) (db : Database)
    → IsWithin db.hosts
    → IsWithin (release_claimed now host_id n machine_id db).hosts
unfolding release_claimed
release_claimed-IsWithin now host_id n none db w = release_host-IsWithin host_id n db w
release_claimed-IsWithin now host_id n (some k) db w =
    elim (Bool-cases (any (is_unreleased k) db.machines)) [
      | inl h ↦ rw h (release_host-IsWithin host_id n db w)
      | inr h ↦ rw h w
    ]

-- Releasing, for whatever host, sizes and machine, leaves every host with no more reserved than it
-- has, if that held before.
release-IsWithin :
    (now : ℕ) (host_id : String) (n : Resources) (machine_id : Option String) (db : Database)
    → IsWithin db.hosts
    → IsWithin (release now host_id n machine_id db).hosts
unfolding release
release-IsWithin now host_id n machine_id db w =
    release_claimed-IsWithin now host_id n (truthy machine_id) db w

any-update :
    (k : String) (now : ℕ) (machines : List MachineRow)
    → any
        (is_unreleased k)
        (update (is_unreleased k) (λ m. record m { reservation_released_at = some now }) machines)
      ≡ false
any-update k now [] = refl
any-update k now (m ∷ machines) = elim (Bool-cases (is_unreleased k m)) [
  | inl h ↦ ground (arith, any-update k now machines)
  | inr h ↦ rw h (rw h (any-update k now machines))
]

release_claimed_twice :
    (now later : ℕ) (host_id : String) (n : Resources) (machine_id : String) (db : Database)
    → release_claimed later host_id n
        (some machine_id)
        (release_claimed now host_id n (some machine_id) db)
      ≡ release_claimed now host_id n (some machine_id) db
unfolding release_claimed
release_claimed_twice now later host_id n k db =
    elim (Bool-cases (any (is_unreleased k) db.machines)) [
      | inl h ↦ rw h (rw (any-update k now db.machines) refl)
      | inr h ↦ rw h (rw h refl)
    ]

-- The reservation of a machine is given back once: a second release for the same machine, at any
-- later time, changes nothing.
pub release_twice :
    (now later : ℕ) (host_id : String) (n : Resources) (machine_id k : String) (db : Database)
    → truthy (some machine_id) ≡ some k
    → release later host_id n (some machine_id) (release now host_id n (some machine_id) db)
      ≡ release now host_id n (some machine_id) db
unfolding release
release_twice now later host_id n machine_id k db h =
    rw h (release_claimed_twice now later host_id n k db)

release_on-reserve_on : (n : Resources) (h : HostRow) → release_on n (reserve_on n h) ≡ h
release_on-reserve_on n h = ground arith

restored :
    (host_id : String) (n : Resources) (hosts : List HostRow)
    → update
        (λ h. h.id == host_id)
        (release_on n)
        (update (λ h. h.id == host_id) (reserve_on n) hosts)
      ≡ hosts
restored host_id n hosts =
    update-update (λ h. h.id == host_id) (λ h. h.id == host_id) (reserve_on n) (release_on n) hosts
      (λ h t. t) (λ h t. t) (λ h t. release_on-reserve_on n h)

-- The machine that the reservation was made for, if any, is not yet released.
abbrev pub IsHeld : Option String → Database → Type 0
IsHeld machine_id db =
    (truthy machine_id ≡ none)
    ⊎ ((k : String) × (truthy machine_id ≡ some k) × (any (is_unreleased k) db.machines ≡ true))

release-hosts :
    (now : ℕ) (host_id : String) (n : Resources) (machine_id : Option String) (db : Database)
    → IsHeld machine_id db
    → (release now host_id n machine_id db).hosts
      ≡ update (λ h. h.id == host_id) (release_on n) db.hosts
unfolding release
release-hosts now host_id n machine_id db (inl h) = rw (h, release_claimed) refl
release-hosts now host_id n machine_id db (inr (k, h, held)) =
    rw (h, release_claimed) (rw held refl)

-- A reservation that succeeded and is released again, its machine not having been released before,
-- leaves the hosts as they were.
pub release-reserve :
    (strip_prefix : String → String) (compare_ids : String → String → ℤ)
    (policy : BillingAdmissionPolicy) (now statement_now : ℕ) (locked : String → Bool)
    (request : ScheduleRequest Number) (db db' : Database) (r : Reservation) (later : ℕ)
    → reserve strip_prefix compare_ids policy now statement_now locked request db ≡ (ok r, db')
    → IsHeld request.machine_id db'
    → (release later r.host_id (sized request).resources request.machine_id db').hosts ≡ db.hosts
release-reserve strip_prefix compare_ids policy now statement_now locked request db db' r later h
      held =
    let done =
      reserve-IsReserved strip_prefix compare_ids policy now statement_now locked request db db' r
        h in
    release-hosts later r.host_id (sized request).resources request.machine_id db' held
    ∙ ap (update (λ x. x.id == r.host_id) (release_on (sized request).resources)) (
        assign_machine-hosts now done.host done.source (truthy request.machine_id) _ db'
          done.assigned)
    ∙ rw done.host_named (restored done.host.id (sized request).resources db.hosts)
