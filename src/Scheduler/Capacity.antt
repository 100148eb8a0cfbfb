-- ===== src/Scheduler/Capacity.antt =====
-- apps/nehemiah/src/scheduler/capacity.ts: the capacity of a host and the size of a machine.
pub mod Validity
use nehemiah.Base.{
  ℕ, ◌≡◌, ◌↔◌, String, Bool, true, false, not, ◌&&◌, ◌||◌, List, arith, Result, ok, ◌>>◌, throw_if,
  Eq,
}
use nehemiah.Base.Int.{ℤ, pos, leb_ℤ, sub_ℕ}
use nehemiah.Base.Number.{Number, is_safe_integer, is_at_most_zero, exceeds}

-- `Resources` over the numbers that stand in its fields: unchecked ones, sizes, or differences.
pub record ResourcesOf (N : Type 0) : Type 0 where
  pub vcpus : N
  pub memory_mb : N
  pub disk_mb : N

abbrev pub Resources : Type 0
Resources = ResourcesOf ℕ

pub data Architecture : Type 0 where
  x86_64 aarch64 : Architecture

pub data HostState : Type 0 where
  ready draining unhealthy stale : HostState

abbrev pub is_ready : HostState → Bool
is_ready ready = true
is_ready _ = false

abbrev pub architecture_beq : Architecture → Architecture → Bool
architecture_beq x86_64 x86_64 = true
architecture_beq aarch64 aarch64 = true
architecture_beq _ _ = false

pub architecture_beq_iff : (a b : Architecture) → (architecture_beq a b ≡ true) ↔ (a ≡ b)
architecture_beq_iff a b = ground arith

instance abbrev pub architecture_eq : Eq Architecture
architecture_eq = record { same = architecture_beq; same_iff = architecture_beq_iff }

pub record HostCapacity : Type 0 where
  pub id : String
  pub region : String
  pub architecture : Architecture
  pub state : HostState
  pub vcpus : ℕ
  pub memory_mb : ℕ
  pub disk_mb : ℕ
  pub reserved_vcpus : ℕ
  pub reserved_memory_mb : ℕ
  pub reserved_disk_mb : ℕ
  pub cached_templates : List String

-- The differences are negative where a host is overcommitted.
unfoldable pub available : HostCapacity → ResourcesOf ℤ
available host = record {
  vcpus = sub_ℕ host.vcpus host.reserved_vcpus;
  memory_mb = sub_ℕ host.memory_mb host.reserved_memory_mb;
  disk_mb = sub_ℕ host.disk_mb host.reserved_disk_mb;
}

unfoldable pub fits : HostCapacity → Resources → Bool
unfolding available
fits host resources =
    let free = available host in
    is_ready host.state
    && leb_ℤ (pos resources.vcpus) free.vcpus
    && leb_ℤ (pos resources.memory_mb) free.memory_mb
    && leb_ℤ (pos resources.disk_mb) free.disk_mb

pub data ResourceField : Type 0 where
  vcpus_field memory_mb_field disk_mb_field : ResourceField

pub data ResourceError : Type 0 where
  must_be_positive : ResourceField → ResourceError
  must_not_exceed : ResourceField → ℕ → ResourceError

abbrev positive : ResourceField → Number → Result ResourceError (Unit {0})
positive key value =
    throw_if (not (is_safe_integer value) || is_at_most_zero value) (must_be_positive key)

-- The entries in the order in which the callers write the object's keys.
unfoldable pub validate_resources : ResourcesOf Number → Result ResourceError (Unit {0})
validate_resources r = do
  positive vcpus_field r.vcpus
  positive memory_mb_field r.memory_mb
  positive disk_mb_field r.disk_mb
  throw_if (exceeds r.vcpus 4) (must_not_exceed vcpus_field 4)
  throw_if (exceeds r.memory_mb 4096) (must_not_exceed memory_mb_field 4096)
  throw_if (exceeds r.disk_mb 20480) (must_not_exceed disk_mb_field 20480)
  ok tt
