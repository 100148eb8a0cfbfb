-- ===== src/Scheduler/Capacity/Validity.antt =====
-- Which sizes `validateResources` accepts, and what `fits` promises.
use nehemiah.Base.{◌≡◌, ◌+◌, ◌≤◌, ◌↔◌, true, refl, arith, ok}
use nehemiah.Base.Int.{pos, negsuc}
use nehemiah.Base.Number.{Number, integer, fraction}
use nehemiah.Scheduler.Capacity.{
  ResourcesOf, Resources, HostCapacity, ready, fits, validate_resources,
}

-- The sizes that a machine may have.
pub record IsSized (n : Resources) : Type 0 where
  pub vcpus_range : (1 ≤ n.vcpus) × (n.vcpus ≤ 4)
  pub memory_range : (1 ≤ n.memory_mb) × (n.memory_mb ≤ 4096)
  pub disk_range : (1 ≤ n.disk_mb) × (n.disk_mb ≤ 20480)

abbrev pub unchecked : Resources → ResourcesOf Number
unchecked n = record {
  vcpus = integer (pos n.vcpus);
  memory_mb = integer (pos n.memory_mb);
  disk_mb = integer (pos n.disk_mb);
}

abbrev pub HasSize : ResourcesOf Number → Type 0
HasSize r = (n : Resources) × (r ≡ unchecked n) × IsSized n

sized_accepted : (n : Resources) → IsSized n → validate_resources (unchecked n) ≡ ok tt
unfolding validate_resources
sized_accepted n s = ground arith

accepted_sized :
    (v m d : Number)
    → validate_resources (record { vcpus = v; memory_mb = m; disk_mb = d }) ≡ ok tt
    → HasSize (record { vcpus = v; memory_mb = m; disk_mb = d })
unfolding validate_resources
accepted_sized (integer (pos v)) (integer (pos m)) (integer (pos d)) h =
    (record { vcpus = v; memory_mb = m; disk_mb = d }, refl, ground arith)
accepted_sized (integer (pos v)) (integer (pos m)) (integer (negsuc d)) h = absurd (ground arith)
accepted_sized (integer (pos v)) (integer (pos m)) fraction h = absurd (ground arith)
accepted_sized (integer (pos v)) (integer (negsuc m)) d h = absurd (ground arith)
accepted_sized (integer (pos v)) fraction d h = absurd (ground arith)
accepted_sized (integer (negsuc v)) m d h = absurd (ground arith)
accepted_sized fraction m d h = absurd (ground arith)

-- Validation accepts exactly the integer sizes from 1 to 4 virtual processors, 4096 MB of memory
-- and 20480 MB of disk: no fraction, no negative number and no zero.
pub validate_resources-HasSize :
    (r : ResourcesOf Number) → (validate_resources r ≡ ok tt) ↔ HasSize r
validate_resources-HasSize r =
    (accepted_sized r.vcpus r.memory_mb r.disk_mb, λ h. rw h.1 (sized_accepted h.0 h.2))

-- A host that fits has the resources unreserved.
pub record HasRoom (host : HostCapacity) (n : Resources) : Type 0 where
  pub is_ready : host.state ≡ ready
  pub vcpus_room : host.reserved_vcpus + n.vcpus ≤ host.vcpus
  pub memory_room : host.reserved_memory_mb + n.memory_mb ≤ host.memory_mb
  pub disk_room : host.reserved_disk_mb + n.disk_mb ≤ host.disk_mb

pub fits-HasRoom : (host : HostCapacity) (n : Resources) → (fits host n ≡ true) ↔ HasRoom host n
unfolding fits
fits-HasRoom host n = ground arith
