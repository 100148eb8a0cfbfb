-- ===== src/Scheduler/Reserve.antt =====
-- apps/nehemiah/src/scheduler/scheduler.ts, `Scheduler.reserve` and `Scheduler.release`: the choice
-- of a host row, the counters of what is reserved on it, and the assignment of the machine.
pub mod Selection
pub mod Capacity
pub mod Limits
pub mod Releasing
use Prim.Native.String
use nehemiah.Base.{
  ℕ, ◌+◌, ◌-◌, ◌*◌, ◌≤◌, String, Bool, true, false, ◌&&◌, ◌||◌, not, List, [], ◌∷◌, Option, none,
  some, Result, ok, err, ◌>>=◌, ◌>>◌, throw_if, require, transaction, if◌then◌else◌, ◌==◌,
  string_eq, nat_eq, find, first, select, update, is_some, leb, ltb, any,
}
use nehemiah.Base.Int.{ℤ, pos, negsuc, sub_ℕ, leb_ℤ, ◌-ℤ◌}
use nehemiah.Base.Number.{Number, integer, fraction}
use nehemiah.Base.Text.{is_digest}
use nehemiah.Billing.Admission.{BillingAdmissionPolicy}
use nehemiah.Scheduler.Capacity.{
  Resources, ResourcesOf, architecture_eq, is_ready, validate_resources, ResourceError,
}
use nehemiah.Scheduler.Placement.{sort, is_zero}
use nehemiah.Base.Text.{truthy}
use nehemiah.Scheduler.Quota.{
  ScheduleRequest, ScheduleError, invalid_resources, capacity_unavailable, machine_not_assignable,
  enforce_quota,
}
use nehemiah.Database.{
  Database, HostRow, MachineRow, TemplateRow, EventRow, requested, starting, is_unplaced,
  insert_event, second,
}

-- The sizes of a request that `validateResources` has accepted.
abbrev pub size_of : Number → ℕ
size_of (integer (pos n)) = n
size_of (integer (negsuc n)) = 0
size_of fraction = 0

abbrev pub sized : ScheduleRequest Number → ScheduleRequest ℕ
sized r = record {
  organization_id = r.organization_id;
  project_id = r.project_id;
  region = r.region;
  architecture = r.architecture;
  resources = record {
    vcpus = size_of r.resources.vcpus;
    memory_mb = size_of r.resources.memory_mb;
    disk_mb = size_of r.resources.disk_mb;
  };
  template_id = r.template_id;
  machine_id = r.machine_id;
}

pub record Reservation : Type 0 where
  pub host_id : String
  pub address : String
  pub cached_template : Bool
  pub runtime_cohort_id : Option String
  pub source_sha256 : Option String
  pub assignment_committed : Bool

-- LEAST(total - reserved, COALESCE(reported, total - reserved)) >= needed
abbrev pub has_free : ℕ → ℕ → Option ℕ → ℕ → Bool
has_free total reserved none needed = leb_ℤ (pos needed) (sub_ℕ total reserved)
has_free total reserved (some reported) needed =
    leb_ℤ (pos needed) (sub_ℕ total reserved) && leb needed reported

-- `requested_template.id IS NOT NULL AND tr.state = 'ready'`
unfoldable pub is_replica_ready : Database → String → HostRow → Bool
is_replica_ready db template_id host =
    any (λ t. t.id == template_id && not t.deleted) db.templates
    && any (λ r. r.host_id == host.id && r.template_id == template_id && r.state == "ready")
        db.replicas

-- COALESCE(tr.state = 'ready', false)
abbrev pub is_cached_template : Database → Option String → HostRow → Bool
is_cached_template db none host = false
is_cached_template db (some template_id) host = is_replica_ready db template_id host

-- `$6 IS NULL OR …`
abbrev pub serves_template : Database → Option String → HostRow → Bool
serves_template db none host = true
serves_template db (some template_id) host = is_replica_ready db template_id host

abbrev pub is_source : Option String → Bool
is_source none = false
is_source (some digest) = is_digest digest

abbrev pub reserve_on : Resources → HostRow → HostRow
reserve_on resources h = record h {
  reserved_vcpus = h.reserved_vcpus + resources.vcpus;
  reserved_memory_mb = h.reserved_memory_mb + resources.memory_mb;
  reserved_disk_mb = h.reserved_disk_mb + resources.disk_mb;
}

abbrev pub place_on : ℕ → HostRow → Option String → MachineRow → MachineRow
place_on now host source m = record m {
  host_id = some host.id;
  runtime_cohort_id = host.runtime_cohort_id;
  source_sha256 = source;
  state = starting;
  placed_at = some now;
  startup_deadline_at = some (now + 120 * second);
}

-- UPDATE machines … WHERE id = $1 AND state IN ('requested', 'placing') RETURNING organization_id,
-- and the event of the assignment
unfoldable pub assign_machine :
    ℕ → HostRow → Option String → Option String → Database → Result ScheduleError Database
assign_machine now host source none db = ok db
assign_machine now host source (some machine_id) db = do
  let matches = λ (m : MachineRow). m.id == machine_id && is_unplaced m.state
  machine ← require (find matches db.machines) machine_not_assignable
  let event : EventRow = record {
    event_key = String.◌++◌ machine_id ":assigned";
    machine_id = machine_id;
    organization_id = machine.organization_id;
    from_state = some requested;
    to_state = starting;
    reason = none;
  }
  ok (record db {
    machines = update matches (place_on now host source) db.machines;
    events = insert_event event db.events;
  })

-- The calls of PostgreSQL: the text without the prefix that a regular expression names, and the
-- order of identifiers.
module _ (strip_prefix : String → String) (compare_ids : String → String → ℤ) where
  -- the digest of the root file system that the candidate machine starts from
  unfoldable pub source_sha256 : Database → Option MachineRow → HostRow → Option String
  source_sha256 db none host = none
  source_sha256 db (some machine) host = elim machine.template_id [
    | some template_id ↦ elim (find (λ t. t.id == template_id && not t.deleted) db.templates) [
      | none ↦ none
      | some template ↦ some (strip_prefix template.checksum)
    ]
    | none ↦ elim machine.template_name [
      | none ↦ none
      | some name ↦
          if name == "python"
          then host.runtime_python_rootfs_sha256
          else (if name == "desktop" then host.runtime_desktop_rootfs_sha256 else none)
    ]
  ]

  -- `$7 IS NULL OR …`
  abbrev pub serves_machine : Database → Option String → HostRow → Bool
  serves_machine db none host = true
  serves_machine db (some machine_id) host =
      let candidate = find (λ m. m.id == machine_id) db.machines in
      is_some candidate
      && is_some host.runtime_cohort_id
      && is_source (source_sha256 db candidate host)

  -- the WHERE clause over the hosts
  unfoldable pub is_placeable : ℕ → Database → ScheduleRequest ℕ → HostRow → Bool
  is_placeable now db request h =
      h.region_id == request.region
      && h.architecture == request.architecture
      && is_ready h.state
      && h.desired_state == "active"
      && h.credential_status == "active"
      && ltb now (h.last_heartbeat_at + 30 * second)
      && has_free h.total_vcpus h.reserved_vcpus h.reported_available_vcpus request.resources.vcpus
      && has_free h.total_memory_mb h.reserved_memory_mb h.reported_available_memory_mb
          request.resources.memory_mb
      && has_free h.total_disk_mb h.reserved_disk_mb h.reported_available_disk_mb
          request.resources.disk_mb
      && serves_template db request.template_id h
      && serves_machine db request.machine_id h

  -- the ORDER BY clause; the size that is subtracted on both sides of a comparison cancels
  unfoldable pub compare_rows : Database → ScheduleRequest ℕ → HostRow → HostRow → ℤ
  compare_rows db request left right =
      let left_cached = is_cached_template db request.template_id left in
      let right_cached = is_cached_template db request.template_id right in
      let memory =
        sub_ℕ left.total_memory_mb left.reserved_memory_mb
        -ℤ sub_ℕ right.total_memory_mb right.reserved_memory_mb in
      let cpu =
        sub_ℕ left.total_vcpus left.reserved_vcpus
        -ℤ sub_ℕ right.total_vcpus right.reserved_vcpus in
      if left_cached && not right_cached
      then negsuc 0
      else (if right_cached && not left_cached
          then pos 1
          else (if not (is_zero memory)
              then memory
              else (if not (is_zero cpu) then cpu else compare_ids left.id right.id)))

  -- FOR UPDATE OF h SKIP LOCKED LIMIT 1: rows that other transactions hold are passed over.
  unfoldable pub select_host : ℕ → (String → Bool) → Database → ScheduleRequest ℕ → Option HostRow
  select_host now locked db request = first (
      sort (compare_rows db request)
        (select (λ h. is_placeable now db request h && not (locked h.id)) db.hosts))

  -- the row that `$7` names
  abbrev pub candidate_of : Database → Option String → Option MachineRow
  candidate_of db none = none
  candidate_of db (some machine_id) = find (λ m. m.id == machine_id) db.machines

  -- the statements that follow the choice of a host
  unfoldable pub reserve_at :
      ℕ → ScheduleRequest ℕ → Database → HostRow → Result ScheduleError (Reservation × Database)
  reserve_at now request db host =
      let source = source_sha256 db (candidate_of db request.machine_id) host in
      let reserved : Database = record db {
        hosts = update (λ h. h.id == host.id) (reserve_on request.resources) db.hosts;
      } in
      do
        db' ← assign_machine now host source (truthy request.machine_id) reserved
        ok (
          record {
            host_id = host.id;
            address = host.address;
            cached_template = is_cached_template db request.template_id host;
            runtime_cohort_id = host.runtime_cohort_id;
            source_sha256 = source;
            assignment_committed = is_some (truthy request.machine_id);
          },
          db',
        )

  module _ (policy : BillingAdmissionPolicy) where
    -- the work of the transaction
    unfoldable pub reserve_work :
        ℕ
        → ℕ
        → (String → Bool)
        → ScheduleRequest ℕ
        → Database
        → Result ScheduleError (Reservation × Database)
    reserve_work now statement_now locked request db = do
      enforce_quota policy statement_now db request
      host ← require (select_host now locked db request) capacity_unavailable
      reserve_at now request db host

    abbrev pub reserve_checked :
        ℕ
        → ℕ
        → (String → Bool)
        → ScheduleRequest Number
        → Database
        → Result ResourceError (Unit {0})
        → Result ScheduleError Reservation × Database
    reserve_checked now statement_now locked request db (err e) = (err (invalid_resources e), db)
    reserve_checked now statement_now locked request db (ok _) =
        transaction (reserve_work now statement_now locked (sized request)) db

    -- `validateResources`, and then the transaction
    unfoldable pub reserve :
        ℕ
        → ℕ
        → (String → Bool)
        → ScheduleRequest Number
        → Database
        → Result ScheduleError Reservation × Database
    reserve now statement_now locked request db =
        reserve_checked now statement_now locked request db (validate_resources request.resources)

-- GREATEST(0, reserved - released) is the subtraction that stops at 0.
abbrev pub release_on : Resources → HostRow → HostRow
release_on resources h = record h {
  reserved_vcpus = h.reserved_vcpus - resources.vcpus;
  reserved_memory_mb = h.reserved_memory_mb - resources.memory_mb;
  reserved_disk_mb = h.reserved_disk_mb - resources.disk_mb;
}

abbrev pub release_host : String → Resources → Database → Database
release_host host_id resources db = record db {
  hosts = update (λ h. h.id == host_id) (release_on resources) db.hosts;
}

abbrev pub is_unreleased : String → MachineRow → Bool
is_unreleased machine_id m = m.id == machine_id && not (is_some m.reservation_released_at)

unfoldable pub release_claimed : ℕ → String → Resources → Option String → Database → Database
release_claimed now host_id resources none db = release_host host_id resources db
release_claimed now host_id resources (some machine_id) db =
    if any (is_unreleased machine_id) db.machines
    then (release_host host_id resources (record db {
      machines =
          update (is_unreleased machine_id) (λ m. record m { reservation_released_at = some now })
            db.machines;
    }))
    else db

unfoldable pub release : ℕ → String → Resources → Option String → Database → Database
unfolding release_claimed
release now host_id resources machine_id db =
    release_claimed now host_id resources (truthy machine_id) db
