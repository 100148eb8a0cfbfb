-- ===== src/Scheduler/Reserve/Selection.antt =====
-- The host row that `reserve` selects is free, fresh and has the room that is asked for.
use nehemiah.Base.{
  ℕ, ◌+◌, ◌*◌, ◌≤◌, ◌<◌, ◌≡◌, String, Bool, true, false, ◌&&◌, not, Option, none, some, arith, Memᴰ,
  select, string_eq, eq_iff,
}
use nehemiah.Base.Int.{ℤ}
use nehemiah.Scheduler.Capacity.{Resources, ready, architecture_eq, architecture_beq_iff}
use nehemiah.Scheduler.Placement.Sorting.{All-sort, All-select, All-of_Memᴰ, All-first, select-test}
use nehemiah.Scheduler.Quota.{ScheduleRequest}
use nehemiah.Scheduler.Reserve.{has_free, is_placeable, compare_rows, select_host}
use nehemiah.Database.{Database, HostRow, second}

-- The row has the resources unreserved.
pub record RowHasRoom (h : HostRow) (n : Resources) : Type 0 where
  pub vcpus_room : h.reserved_vcpus + n.vcpus ≤ h.total_vcpus
  pub memory_room : h.reserved_memory_mb + n.memory_mb ≤ h.total_memory_mb
  pub disk_room : h.reserved_disk_mb + n.disk_mb ≤ h.total_disk_mb

has_free-le :
    (total reserved : ℕ) (reported : Option ℕ) (needed : ℕ)
    → 0 < needed
    → has_free total reserved reported needed ≡ true
    → reserved + needed ≤ total
has_free-le total reserved none needed p h = ground arith
has_free-le total reserved (some r) needed p h = ground arith

module _ (strip_prefix : String → String) (compare_ids : String → String → ℤ) where
  pub record IsSelected (now : ℕ) (locked : String → Bool) (db : Database)
      (request : ScheduleRequest ℕ) (h : HostRow) : Type 0 where
    pub listed : Memᴰ h db.hosts
    pub unlocked : locked h.id ≡ false
    pub in_region : h.region_id ≡ request.region
    pub of_architecture : h.architecture ≡ request.architecture
    pub is_ready : h.state ≡ ready
    pub is_active : h.desired_state ≡ "active"
    pub has_credential : h.credential_status ≡ "active"
    pub is_fresh : now < h.last_heartbeat_at + 30 * second
    pub room : RowHasRoom h request.resources

  placeable_parts :
      (now : ℕ) (locked : String → Bool) (db : Database) (request : ScheduleRequest ℕ) (h : HostRow)
      → (0 < request.resources.vcpus)
        × (0 < request.resources.memory_mb)
        × (0 < request.resources.disk_mb)
      → Memᴰ h db.hosts
      → (is_placeable strip_prefix compare_ids now db request h && not (locked h.id)) ≡ true
      → IsSelected now locked db request h
  unfolding is_placeable
  placeable_parts now locked db request h positive m t = record {
    listed = m;
    unlocked = ground arith;
    in_region = ground (arith, eq_iff h.region_id request.region);
    of_architecture = ground (arith, architecture_beq_iff h.architecture request.architecture);
    is_ready = ground arith;
    is_active = ground (arith, eq_iff h.desired_state "active");
    has_credential = ground (arith, eq_iff h.credential_status "active");
    is_fresh = ground arith;
    room = record {
      vcpus_room = has_free-le _ _ h.reported_available_vcpus _ positive.0 (ground arith);
      memory_room = has_free-le _ _ h.reported_available_memory_mb _ positive.1 (ground arith);
      disk_room = has_free-le _ _ h.reported_available_disk_mb _ positive.2 (ground arith);
    };
  }

  -- A host row that is selected is a listed row that no other transaction holds, in the region and
  -- of the architecture asked for, ready, active, with an active credential and a heartbeat of the
  -- last 30 seconds, and the sizes asked for are unreserved on it (each size being positive).
  pub select_host-IsSelected :
      (now : ℕ) (locked : String → Bool) (db : Database) (request : ScheduleRequest ℕ) (h : HostRow)
      → (0 < request.resources.vcpus)
        × (0 < request.resources.memory_mb)
        × (0 < request.resources.disk_mb)
      → select_host strip_prefix compare_ids now locked db request ≡ some h
      → IsSelected now locked db request h
  unfolding select_host
  select_host-IsSelected now locked db request h positive e =
      let p = λ (x : HostRow).
        is_placeable strip_prefix compare_ids now db request x && not (locked x.id) in
      let compare = compare_rows strip_prefix compare_ids db request in
      let listed =
        All-select (λ x. Memᴰ x db.hosts) p db.hosts
          (All-of_Memᴰ (λ x. Memᴰ x db.hosts) db.hosts (λ x m. m)) in
      placeable_parts now locked db request h positive
        (All-first (λ x. Memᴰ x db.hosts) _
          (All-sort (λ x. Memᴰ x db.hosts) compare (select p db.hosts) listed) e)
        (All-first (λ x. p x ≡ true) _
          (All-sort (λ x. p x ≡ true) compare (select p db.hosts) (select-test p db.hosts)) e)
