-- ===== src/Scheduler/Reserve/Capacity.antt =====
-- Reserving never overcommits a host, releasing gives back what was reserved, and a transaction
-- that fails changes nothing.
use mathlib.Core.Path.{subst}
use nehemiah.Base.{
  ℕ, ◌≤◌, ◌<◌, ◌≡◌, refl, sym, ap, ◌∙◌, String, Bool, ◌&&◌, List, Option, none, some, Result, ok,
  err, >>=-eq-ok, require, require-eq-ok, ok-injective, transaction-keeps, transaction-eq-ok, arith,
  All, find, update, ◌==◌, string_eq, eq_iff,
}
use nehemiah.Base.Int.{ℤ}
use nehemiah.Base.Number.{Number}
use nehemiah.Base.Unique.{UniqueIds, UniqueIds-update, row_unique, All-update}
use nehemiah.Billing.Admission.{BillingAdmissionPolicy}
use nehemiah.Scheduler.Capacity.{Resources, ResourcesOf, validate_resources, ResourceError}
use nehemiah.Scheduler.Capacity.Validity.{validate_resources-HasSize}
use nehemiah.Base.Text.{truthy}
use nehemiah.Scheduler.Quota.{
  ScheduleRequest, enforce_quota, capacity_unavailable, machine_not_assignable,
}
use nehemiah.Scheduler.Reserve.{
  Reservation, sized, size_of, select_host, source_sha256, reserve_on, assign_machine, reserve_at,
  candidate_of, reserve_work, reserve, reserve_checked, release_on,
}
use nehemiah.Scheduler.Reserve.Selection.{RowHasRoom, select_host-IsSelected}
use nehemiah.Database.{Database, HostRow, MachineRow, is_unplaced}

-- No more is reserved on a host than it has.
pub record RowWithin (h : HostRow) : Type 0 where
  pub vcpus_within : h.reserved_vcpus ≤ h.total_vcpus
  pub memory_within : h.reserved_memory_mb ≤ h.total_memory_mb
  pub disk_within : h.reserved_disk_mb ≤ h.total_disk_mb

-- The primary key of the hosts, and the bound on each of them.
pub record IsWithin (hosts : List HostRow) : Type 0 where
  pub unique : UniqueIds (λ h. h.id) hosts
  pub within : All RowWithin hosts

reserve_on-RowWithin : (n : Resources) (h : HostRow) → RowHasRoom h n → RowWithin (reserve_on n h)
reserve_on-RowWithin n h room = ground arith

pub release_on-RowWithin : (n : Resources) (h : HostRow) → RowWithin h → RowWithin (release_on n h)
release_on-RowWithin n h w = ground arith

pub assign_machine-hosts :
    (now : ℕ) (host : HostRow) (source machine_id : Option String) (db db' : Database)
    → assign_machine now host source machine_id db ≡ ok db'
    → db'.hosts ≡ db.hosts
unfolding assign_machine
assign_machine-hosts now host source none db db' h = ap (λ d. d.hosts) (sym (ok-injective h))
assign_machine-hosts now host source (some machine_id) db db' h =
    let (machine, found, rest) =
      >>=-eq-ok
        (require (find (λ (m : MachineRow). m.id == machine_id && is_unplaced m.state) db.machines)
          machine_not_assignable)
        _ h in
    ap (λ d. d.hosts) (sym (ok-injective rest))

module _ (strip_prefix : String → String) (compare_ids : String → String → ℤ)
    (policy : BillingAdmissionPolicy) (now statement_now : ℕ) (locked : String → Bool) where
  -- What a reservation that succeeds has done.
  pub record IsReserved (request : ScheduleRequest ℕ) (db : Database) (r : Reservation)
      (db' : Database) : Type 0 where
    pub host : HostRow
    pub selected : select_host strip_prefix compare_ids now locked db request ≡ some host
    pub admitted : enforce_quota policy statement_now db request ≡ ok tt
    pub host_named : r.host_id ≡ host.id
    pub source : Option String
    pub assigned :
        assign_machine now host source (truthy request.machine_id) (record db {
          hosts = update (λ h. h.id == host.id) (reserve_on request.resources) db.hosts;
        })
        ≡ ok db'

  reserve_at-assigned :
      (request : ScheduleRequest ℕ) (db db' : Database) (r : Reservation) (host : HostRow)
      → reserve_at strip_prefix compare_ids now request db host ≡ ok (r, db')
      → (source : Option String) × (r.host_id ≡ host.id)
        × (assign_machine now host source (truthy request.machine_id) (record db {
          hosts = update (λ h. h.id == host.id) (reserve_on request.resources) db.hosts;
        })
            ≡ ok db')
  unfolding reserve_at
  reserve_at-assigned request db db' r host h =
      let source =
        source_sha256 strip_prefix compare_ids db
          (candidate_of strip_prefix compare_ids db request.machine_id) host in
      let (after, assigned, rest) =
        >>=-eq-ok
          (assign_machine now host source (truthy request.machine_id) (record db {
            hosts = update (λ h. h.id == host.id) (reserve_on request.resources) db.hosts;
          }))
          _ h in
      let same = ok-injective rest in
      (source, sym (ap (λ p. p.0.host_id) same), assigned ∙ ap ok (ap (λ p. p.1) same))

  reserve_work-IsReserved :
      (request : ScheduleRequest ℕ) (db db' : Database) (r : Reservation)
      → reserve_work strip_prefix compare_ids policy now statement_now locked request db
        ≡ ok (r, db')
      → IsReserved request db r db'
  unfolding reserve_work
  reserve_work-IsReserved request db db' r h =
      let (u, admitted, k1) = >>=-eq-ok (enforce_quota policy statement_now db request) _ h in
      let (host, selected, k2) =
        >>=-eq-ok
          (require (select_host strip_prefix compare_ids now locked db request)
            capacity_unavailable)
          _ k1 in
      let (source, named, assigned) = reserve_at-assigned request db db' r host k2 in
      record {
        host = host;
        selected = require-eq-ok _ _ selected;
        admitted = admitted;
        host_named = named;
        source = source;
        assigned = assigned;
      }

  -- The sizes that are asked for are positive after validation.
  abbrev AllPositive : ScheduleRequest ℕ → Type 0
  AllPositive request =
      (0 < request.resources.vcpus)
      × (0 < request.resources.memory_mb)
      × (0 < request.resources.disk_mb)

  IsReserved-IsWithin :
      (request : ScheduleRequest ℕ) (db db' : Database) (r : Reservation)
      → AllPositive request
      → IsReserved request db r db'
      → IsWithin db.hosts
      → IsWithin db'.hosts
  IsReserved-IsWithin request db db' r positive done w =
      let chosen =
        select_host-IsSelected strip_prefix compare_ids now locked db request done.host positive
          done.selected in
      let n = request.resources in
      subst IsWithin
        (sym (
          assign_machine-hosts now done.host done.source (truthy request.machine_id) _ db'
            done.assigned))
        (record {
          unique =
              UniqueIds-update (λ h. h.id) (λ h. h.id == done.host.id) (reserve_on n) (λ h. refl)
                db.hosts w.unique;
          within =
              All-update RowWithin (λ h. h.id == done.host.id) (reserve_on n) db.hosts
                (λ h m t old.
                  let same : done.host ≡ h =
                    row_unique (λ x. x.id) db.hosts w.unique chosen.listed m
                      (sym ((eq_iff h.id done.host.id).0 t)) in
                  reserve_on-RowWithin n h (subst (λ x. RowHasRoom x n) same chosen.room))
                w.within;
        })

  checked_positive :
      (r : ResourcesOf Number)
      → validate_resources r ≡ ok tt
      → (0 < size_of r.vcpus) × (0 < size_of r.memory_mb) × (0 < size_of r.disk_mb)
  checked_positive r h =
      let (n, same, s) = (validate_resources-HasSize r).0 h in rw same (ground arith)

  reserve_checked-IsWithin :
      (request : ScheduleRequest Number) (db : Database) (checked : Result ResourceError (Unit {0}))
      → validate_resources request.resources ≡ checked
      → IsWithin db.hosts
      → IsWithin
          (reserve_checked strip_prefix compare_ids policy now statement_now locked request db
            checked).1.hosts
  reserve_checked-IsWithin request db (err e) valid w = w
  reserve_checked-IsWithin request db (ok u) valid w =
      transaction-keeps (λ d. IsWithin d.hosts)
        (reserve_work strip_prefix compare_ids policy now statement_now locked (sized request)) db
        (λ r db' done.
          IsReserved-IsWithin (sized request) db db' r (checked_positive request.resources valid)
            (reserve_work-IsReserved (sized request) db db' r done) w)
        w

  -- Whatever is asked for and whether or not it succeeds, reserving leaves every host with no more
  -- reserved than it has, if that held before (the hosts having distinct identifiers).
  pub reserve-IsWithin :
      (request : ScheduleRequest Number) (db : Database)
      → IsWithin db.hosts
      → IsWithin
          (reserve strip_prefix compare_ids policy now statement_now locked request db).1.hosts
  unfolding reserve
  reserve-IsWithin request db w = reserve_checked-IsWithin request db _ refl w

  reserve_checked-done :
      (request : ScheduleRequest Number) (db db' : Database) (r : Reservation)
      (checked : Result ResourceError (Unit {0}))
      → reserve_checked strip_prefix compare_ids policy now statement_now locked request db checked
        ≡ (ok r, db')
      → IsReserved (sized request) db r db'
  reserve_checked-done request db db' r (err e) h = cc
  reserve_checked-done request db db' r (ok u) h =
      reserve_work-IsReserved (sized request) db db' r (transaction-eq-ok _ db h)

  pub reserve-IsReserved :
      (request : ScheduleRequest Number) (db db' : Database) (r : Reservation)
      → reserve strip_prefix compare_ids policy now statement_now locked request db ≡ (ok r, db')
      → IsReserved (sized request) db r db'
  unfolding reserve
  reserve-IsReserved request db db' r h =
      reserve_checked-done request db db' r (validate_resources request.resources) h
