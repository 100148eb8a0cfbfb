-- ===== src/Scheduler/Placement.antt =====
-- apps/nehemiah/src/scheduler/placement.ts: the deterministic best fit over a snapshot of hosts.
pub mod BestFit
pub mod Sorting
use nehemiah.Base.{
  nat_eq, String, Bool, true, false, ◌&&◌, not, List, [], ◌∷◌, Option, none, some, any, select,
  first, if◌then◌else◌, ◌==◌, string_eq, bool_eq,
}
use nehemiah.Base.Int.{ℤ, pos, negsuc, leb_ℤ, ◌-ℤ◌}
use nehemiah.Scheduler.Capacity.{
  Architecture, architecture_eq, Resources, HostCapacity, available, fits,
}

pub record PlacementRequest : Type 0 where
  pub region : String
  pub architecture : Architecture
  pub resources : Resources
  pub template_id : Option String

-- `Array.prototype.sort` and `[0]`: the insertion sort by a comparison function is stable.
module _ {ℓ} {A : Type ℓ} (compare : A → A → ℤ) where
  abbrev pub insert_sorted : A → List A → List A
  insert_sorted x [] = x ∷ []
  insert_sorted x (y ∷ ys) =
      if leb_ℤ (compare x y) (pos 0) then x ∷ y ∷ ys else y ∷ insert_sorted x ys

  unfoldable pub sort : List A → List A
  sort [] = []
  sort (x ∷ xs) = insert_sorted x (sort xs)

unfoldable pub eligible : PlacementRequest → HostCapacity → Bool
eligible request host =
    host.region == request.region
    && host.architecture == request.architecture
    && fits host request.resources

-- `templateId ? cachedTemplates.has(templateId) : true`; the empty text is falsy
abbrev pub is_cached : Option String → HostCapacity → Bool
is_cached none host = true
is_cached (some template_id) host =
    if template_id == "" then true else any (λ cached. cached == template_id) host.cached_templates

abbrev pub is_zero : ℤ → Bool
is_zero (pos n) = n == 0
is_zero (negsuc n) = false

-- `left.id.localeCompare(right.id)` is the collation of the runtime.
module _ (locale_compare : String → String → ℤ) where
  -- the comparison function that `chooseHost` sorts by
  unfoldable pub compare_hosts : PlacementRequest → HostCapacity → HostCapacity → ℤ
  unfolding available
  compare_hosts request left right =
      let left_cached = is_cached request.template_id left in
      let right_cached = is_cached request.template_id right in
      let memory =
        (available left).memory_mb
        -ℤ pos request.resources.memory_mb
        -ℤ ((available right).memory_mb -ℤ pos request.resources.memory_mb) in
      let cpu =
        (available left).vcpus
        -ℤ pos request.resources.vcpus
        -ℤ ((available right).vcpus -ℤ pos request.resources.vcpus) in
      if not (left_cached == right_cached)
      then (if left_cached then negsuc 0 else pos 1)
      else (if not (is_zero memory)
          then memory
          else (if not (is_zero cpu) then cpu else locale_compare left.id right.id))

  unfoldable pub choose_host : List HostCapacity → PlacementRequest → Option HostCapacity
  choose_host hosts request = first (sort (compare_hosts request) (select (eligible request) hosts))
