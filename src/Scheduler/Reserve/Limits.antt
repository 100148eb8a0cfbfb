-- ===== src/Scheduler/Reserve/Limits.antt =====
-- After a machine is placed, its organization and its project are within their limits.
use nehemiah.Base.{
  ℕ, ◌+◌, ◌*◌, ◌≤◌, ◌≡◌, refl, sym, ap, ◌∙◌, String, Bool, true, false, ◌&&◌, List, [], ◌∷◌, Option,
  none, some, ok, >>=-eq-ok, require, require-eq-ok, ok-injective, throw_if, arith, find, find-test,
  select, sum, length, update, ◌==◌, string_eq, and-eq-true, if◌then◌else◌,
}
use nehemiah.Base.Int.{ℤ, pos}
use nehemiah.Base.Number.{Number}
use nehemiah.Base.Unique.{UniqueIds, IsUnique-of_id, sum-update, sum-select}
use nehemiah.Billing.Admission.{BillingAdmissionPolicy, enforce}
use nehemiah.Scheduler.Capacity.{Resources}
use nehemiah.Base.Text.{truthy}
use nehemiah.Scheduler.Quota.{
  ScheduleRequest, ScheduleError, quota_exceeded, no_organization, no_project, organization_quota,
  project_quota, machine_not_assignable, ProjectUsage, usage_of, over_limits, billed,
  candidate_seconds, enforce_quota,
}
use nehemiah.Scheduler.Reserve.{Reservation, sized, place_on, assign_machine, reserve}
use nehemiah.Scheduler.Reserve.Capacity.{reserve-IsReserved}
use nehemiah.Database.{
  Database, Limits, OrganizationRow, ProjectRow, HostRow, MachineRow, MachineState, is_unplaced,
  is_charged,
}

pub record WithinLimits (usage : ProjectUsage) (limits : Limits) : Type 0 where
  pub machines_within : usage.machines ≤ limits.max_machines
  pub vcpus_within : usage.vcpus ≤ limits.max_vcpus
  pub memory_within : usage.memory_mb ≤ limits.max_memory_mb
  pub disk_within : usage.disk_mb ≤ limits.max_disk_mb

-- What the quota check has found when it lets a request through.
pub record IsAdmitted (db : Database) (request : ScheduleRequest ℕ) : Type 0 where
  pub organization : OrganizationRow
  pub organization_found :
      find (λ o. o.id == request.organization_id) db.organizations ≡ some organization
  pub project : ProjectRow
  pub project_found :
      find
        (λ p. p.id == request.project_id && p.organization_id == request.organization_id)
        db.projects
      ≡ some project
  pub organization_room :
      over_limits
        (usage_of (λ m. m.organization_id == request.organization_id) db.machines)
        request.resources
        organization.limits
      ≡ false
  pub project_room :
      over_limits
        (usage_of (λ m. m.project_id == request.project_id) db.machines)
        request.resources
        project.limits
      ≡ false

throw_if-eq-ok : (b : Bool) (e : ScheduleError) {u : Unit {0}} → throw_if b e ≡ ok u → b ≡ false
throw_if-eq-ok true e h = cc
throw_if-eq-ok false e h = refl

pub enforce_quota-IsAdmitted :
    (policy : BillingAdmissionPolicy) (now : ℕ) (db : Database) (request : ScheduleRequest ℕ)
    → enforce_quota policy now db request ≡ ok tt
    → IsAdmitted db request
unfolding enforce_quota
enforce_quota-IsAdmitted policy now db request h =
    let (organization, k0, h1) =
      >>=-eq-ok
        (require (find (λ o. o.id == request.organization_id) db.organizations)
          (quota_exceeded no_organization))
        _ h in
    let seconds = candidate_seconds now db request in
    let (u, k1, h2) =
      >>=-eq-ok
        (billed (
          enforce policy (db.ledger request.organization_id) (record {
            vcpu_seconds = some (pos (seconds * request.resources.vcpus));
            memory_mebibyte_seconds = some (pos (seconds * request.resources.memory_mb));
            storage_byte_seconds = none;
          })))
        _ h1 in
    let (project, k2, h3) =
      >>=-eq-ok
        (require
          (find (λ p. p.id == request.project_id && p.organization_id == request.organization_id)
            db.projects)
          (quota_exceeded no_project))
        _ h2 in
    let (v, k3, h4) =
      >>=-eq-ok
        (throw_if
          (over_limits (usage_of (λ m. m.organization_id == request.organization_id) db.machines)
            request.resources organization.limits)
          (quota_exceeded organization_quota))
        _ h3 in
    let (w, k4, h5) =
      >>=-eq-ok
        (throw_if
          (over_limits (usage_of (λ m. m.project_id == request.project_id) db.machines)
            request.resources project.limits)
          (quota_exceeded project_quota))
        _ h4 in
    record {
      organization = organization;
      organization_found = require-eq-ok _ _ k0;
      project = project;
      project_found = require-eq-ok _ _ k2;
      organization_room = throw_if-eq-ok _ _ k3;
      project_room = throw_if-eq-ok _ _ k4;
    }

abbrev matches : String → MachineRow → Bool
matches k m = m.id == k && is_unplaced m.state

unplaced_uncharged : (s : MachineState) → is_unplaced s ≡ true → is_charged s ≡ false
unplaced_uncharged s h = ground arith

-- The row was sized for the request.
pub record HasSizes (m : MachineRow) (n : Resources) : Type 0 where
  pub same_vcpus : m.vcpus ≡ n.vcpus
  pub same_memory : m.memory_mb ≡ n.memory_mb
  pub same_disk : m.disk_mb ≡ n.disk_mb

-- What `over_limits` has compared when it answers no.
record HasHeadroom (usage : ProjectUsage) (n : Resources) (limits : Limits) : Type 0 where
  machines_room : usage.machines + 1 ≤ limits.max_machines
  vcpus_room : usage.vcpus + n.vcpus ≤ limits.max_vcpus
  memory_room : usage.memory_mb + n.memory_mb ≤ limits.max_memory_mb
  disk_room : usage.disk_mb + n.disk_mb ≤ limits.max_disk_mb

over_limits-HasHeadroom :
    (usage : ProjectUsage) (n : Resources) (limits : Limits)
    → over_limits usage n limits ≡ false
    → HasHeadroom usage n limits
unfolding over_limits
over_limits-HasHeadroom usage n limits h = ground arith

length-sum : (rows : List MachineRow) → length rows ≡ sum (λ x. 1) rows
length-sum [] = refl
length-sum (x ∷ rows) = omega (arith, length-sum rows)

no_weight : (b c : Bool) (n : ℕ) → c ≡ false → (if b && c then n else 0) ≡ 0
no_weight b c n h = ground arith

one_weight : (b : Bool) (n : ℕ) → (if b && true then n else 0) ≤ n
one_weight b n = ground arith

module _ (owned : MachineRow → Bool) (k : String) (now : ℕ) (host : HostRow)
    (source : Option String)
    (same : (m : MachineRow) → owned (place_on now host source m) ≡ owned m) where
  -- One more machine counts, with its own weight.
  charged-update :
      (w : MachineRow → ℕ)
      → ((m : MachineRow) → w (place_on now host source m) ≡ w m)
      → (machines : List MachineRow) (m : MachineRow) → UniqueIds (λ x. x.id) machines
      → find (matches k) machines ≡ some m
      → sum w (
          select
            (λ x. owned x && is_charged x.state)
            (update (matches k) (place_on now host source) machines))
        ≤ sum w (select (λ x. owned x && is_charged x.state) machines) + w m
  charged-update w keeps machines m unique found =
      let p = λ (x : MachineRow). owned x && is_charged x.state in
      let g = λ (x : MachineRow). if p x then w x else 0 in
      let old =
        unplaced_uncharged m.state
          (and-eq-true (m.id == k) (is_unplaced m.state)
            (find-test (matches k) machines found)).1 in
      let before : g m ≡ 0 = no_weight (owned m) (is_charged m.state) (w m) old in
      let after : g (place_on now host source m) ≤ w m =
        rw (keeps m) (one_weight (owned (place_on now host source m)) (w m)) in
      omega (
        arith,
        sum-select w p (update (matches k) (place_on now host source) machines),
        sum-select w p machines,
        sum-update g (matches k) (place_on now host source) machines m
            (IsUnique-of_id (λ x. x.id) k (λ x. is_unplaced x.state) machines unique) found,
        before,
        after,
      )

  -- The usage after the assignment is within the limits that one more machine of its size fits.
  usage-WithinLimits :
      (machines : List MachineRow) (m : MachineRow) (n : Resources) (limits : Limits)
      → UniqueIds (λ x. x.id) machines
      → find (matches k) machines ≡ some m
      → HasSizes m n
      → over_limits (usage_of owned machines) n limits ≡ false
      → WithinLimits
          (usage_of owned (update (matches k) (place_on now host source) machines))
          limits
  unfolding usage_of
  usage-WithinLimits machines m n limits unique found sizes room =
      let p = λ (x : MachineRow). owned x && is_charged x.state in
      let rows = select p machines in
      let after = update (matches k) (place_on now host source) machines in
      let count = charged-update (λ x. 1) (λ x. refl) machines m unique found in
      let vcpus = charged-update (λ x. x.vcpus) (λ x. refl) machines m unique found in
      let memory = charged-update (λ x. x.memory_mb) (λ x. refl) machines m unique found in
      let disk = charged-update (λ x. x.disk_mb) (λ x. refl) machines m unique found in
      let head = over_limits-HasHeadroom (usage_of owned machines) n limits room in
      record {
        machines_within = omega (arith, count, head, length-sum rows, length-sum (select p after));
        vcpus_within = omega (arith, vcpus, head, sizes);
        memory_within = omega (arith, memory, head, sizes);
        disk_within = omega (arith, disk, head, sizes);
      }

assign_machine-machines :
    (now : ℕ) (host : HostRow) (source named : Option String) (k : String) (db db' : Database)
    → named ≡ some k
    → assign_machine now host source named db ≡ ok db'
    → db'.machines ≡ update (matches k) (place_on now host source) db.machines
unfolding assign_machine
assign_machine-machines now host source none k db db' e h = cc
assign_machine-machines now host source (some j) k db db' e h =
    let same : j ≡ k = cc in
    let (machine, found, rest) =
      >>=-eq-ok (require (find (matches j) db.machines) machine_not_assignable) _ h in
    ap (λ d. d.machines) (sym (ok-injective rest))
    ∙ ap (λ i. update (matches i) (place_on now host source) db.machines) same

-- The owner's row, and its usage after the reservation.
abbrev pub WithinOrganization : ScheduleRequest ℕ → Database → Database → Type 0
WithinOrganization request db db' =
    (organization : OrganizationRow) × (find (λ o. o.id == request.organization_id) db.organizations
      ≡ some organization)
    × WithinLimits (usage_of (λ m. m.organization_id == request.organization_id) db'.machines)
        organization.limits

abbrev pub WithinProject : ScheduleRequest ℕ → Database → Database → Type 0
WithinProject request db db' =
    (project : ProjectRow) × (find
        (λ p. p.id == request.project_id && p.organization_id == request.organization_id)
        db.projects
      ≡ some project)
    × WithinLimits (usage_of (λ m. m.project_id == request.project_id) db'.machines) project.limits

-- After a reservation that placed a machine, the machines that count for the organization are within
-- its limits in number, processors, memory and disk, and so are those that count for the project;
-- provided that machines have distinct identifiers and that the row of the machine, not yet placed,
-- has the sizes that are asked for.
pub reserve-WithinLimits :
    (strip_prefix : String → String) (compare_ids : String → String → ℤ)
    (policy : BillingAdmissionPolicy) (now statement_now : ℕ) (locked : String → Bool)
    (request : ScheduleRequest Number) (db db' : Database) (r : Reservation) (k : String)
    (m : MachineRow)
    → reserve strip_prefix compare_ids policy now statement_now locked request db ≡ (ok r, db')
    → truthy request.machine_id ≡ some k
    → UniqueIds (λ x. x.id) db.machines
    → find (λ x. x.id == k && is_unplaced x.state) db.machines ≡ some m
    → HasSizes m (sized request).resources
    → WithinOrganization (sized request) db db' × WithinProject (sized request) db db'
reserve-WithinLimits strip_prefix compare_ids policy now statement_now locked request db db' r k m h
      named unique found sizes =
    let done =
      reserve-IsReserved strip_prefix compare_ids policy now statement_now locked request db db' r
        h in
    let admitted = enforce_quota-IsAdmitted policy statement_now db (sized request) done.admitted in
    let after =
      assign_machine-machines now done.host done.source (truthy request.machine_id) k _ db' named
        done.assigned in
    (
      (
        admitted.organization,
        admitted.organization_found,
        rw after (
            usage-WithinLimits (λ x. x.organization_id == request.organization_id) k now done.host
              done.source (λ x. refl) db.machines m (sized request).resources
              admitted.organization.limits unique found sizes admitted.organization_room),
      ),
      (
        admitted.project,
        admitted.project_found,
        rw after (
            usage-WithinLimits (λ x. x.project_id == request.project_id) k now done.host done.source
              (λ x. refl) db.machines m (sized request).resources admitted.project.limits unique
              found sizes admitted.project_room),
      ),
    )
