-- ===== src/Scheduler/Placement/BestFit.antt =====
-- What `chooseHost` promises: the host is listed, has room, and none comes before it.
use mathlib.Core.Bool.{false≢true}
use nehemiah.Base.{
  ℕ, ◌+◌, String, ◌≡◌, ◌<◌, ◌↔◌, ◌⊎◌, inl, inr, refl, sym, ◌∙◌, Bool, true, false, not, ◌&&◌, List,
  none, some, arith, select, Memᴰ, All, if◌then◌else◌, ◌==◌, bool_eq, eq_iff, string_eq,
  and-eq-true, All-Memᴰ,
}
use nehemiah.Base.Int.{ℤ, pos, negsuc, ◌≤ℤ◌, ◌-ℤ◌, sub_ℕ_parts, -ℤ_parts, pos_part, neg_part}
use nehemiah.Scheduler.Capacity.{
  HostCapacity, architecture_eq, architecture_beq_iff, available, fits,
}
use nehemiah.Scheduler.Capacity.Validity.{HasRoom, fits-HasRoom}
use nehemiah.Scheduler.Placement.{
  PlacementRequest, sort, eligible, is_cached, is_zero, compare_hosts, choose_host,
}
use nehemiah.Scheduler.Placement.Sorting.{
  IsComparison, All-sort, All-select, All-of_Memᴰ, All-first, select-test, sort-eq-nil,
  first-sort-IsLeast, Memᴰ-select, select-eq-nil, first-eq-none, All-map, not-true,
}

-- The comparison once its keys are computed: cache hits, then three differences.
rank : Bool → Bool → ℤ → ℤ → ℤ → ℤ
rank left_cached right_cached memory cpu name =
    if not (left_cached == right_cached)
    then (if left_cached then negsuc 0 else pos 1)
    else (if not (is_zero memory) then memory else (if not (is_zero cpu) then cpu else name))

abbrev IsNegative : ℤ → Type 0
IsNegative a = pos_part a < neg_part a

abbrev IsNull : ℤ → Type 0
IsNull a = pos_part a ≡ neg_part a

abbrev Tie : ℤ → ℤ → ℤ → Type 0
Tie memory cpu name =
    IsNegative memory ⊎ (IsNull memory × (IsNegative cpu ⊎ (IsNull cpu × (name ≤ℤ pos 0))))

abbrev Before : Bool → Bool → ℤ → ℤ → ℤ → Type 0
Before true false memory cpu name = Unit {0}
Before false true memory cpu name = ⊥
Before _ _ memory cpu name = Tie memory cpu name

rank-Before : (l r : Bool) (m k z : ℤ) → (rank l r m k z ≤ℤ pos 0) ↔ Before l r m k z
unfolding rank
rank-Before true true m k z = ground arith
rank-Before false false m k z = ground arith
rank-Before true false m k z = ground arith
rank-Before false true m k z = ground arith

-- `c` is the sum of the differences `a` and `b`.
abbrev Adds : ℤ → ℤ → ℤ → Type 0
Adds a b c = pos_part c + neg_part a + neg_part b ≡ neg_part c + pos_part a + pos_part b

abbrev IsFlip : ℤ → ℤ → Type 0
IsFlip a b = pos_part a + pos_part b ≡ neg_part a + neg_part b

Before-total :
    (l r : Bool) (a b d e x y : ℤ)
    → IsFlip a b
    → IsFlip d e
    → (x ≤ℤ pos 0) ⊎ (y ≤ℤ pos 0)
    → Before l r a d x ⊎ Before r l b e y
Before-total true true a b d e x y s t o = ground arith
Before-total true false a b d e x y s t o = inl tt
Before-total false true a b d e x y s t o = inr tt
Before-total false false a b d e x y s t o = ground arith

Before-trans :
    (l m r : Bool) (a b c d e f x y z : ℤ)
    → Adds a b c
    → Adds d e f
    → (x ≤ℤ pos 0 → y ≤ℤ pos 0 → z ≤ℤ pos 0)
    → Before l m a d x
    → Before m r b e y
    → Before l r c f z
Before-trans true true true a b c d e f x y z s t n p q = omega arith
Before-trans true true false a b c d e f x y z s t n p q = tt
Before-trans true false true a b c d e f x y z s t n p q = absurd q
Before-trans true false false a b c d e f x y z s t n p q = tt
Before-trans false true true a b c d e f x y z s t n p q = absurd p
Before-trans false true false a b c d e f x y z s t n p q = absurd p
Before-trans false false true a b c d e f x y z s t n p q = absurd q
Before-trans false false false a b c d e f x y z s t n p q = omega arith

module _ (locale_compare : String → String → ℤ) (collates : IsComparison locale_compare)
    (request : PlacementRequest) where
  memory_gap : HostCapacity → HostCapacity → ℤ
  memory_gap left right =
      (available left).memory_mb
      -ℤ pos request.resources.memory_mb
      -ℤ ((available right).memory_mb -ℤ pos request.resources.memory_mb)

  cpu_gap : HostCapacity → HostCapacity → ℤ
  cpu_gap left right =
      (available left).vcpus
      -ℤ pos request.resources.vcpus
      -ℤ ((available right).vcpus -ℤ pos request.resources.vcpus)

  abbrev Precedes : HostCapacity → HostCapacity → Type 0
  Precedes left right =
      Before (is_cached request.template_id left) (is_cached request.template_id right)
        (memory_gap left right) (cpu_gap left right) (locale_compare left.id right.id)

  compare_hosts-Precedes :
      (left right : HostCapacity)
      → (compare_hosts locale_compare request left right ≤ℤ pos 0) ↔ Precedes left right
  unfolding compare_hosts rank memory_gap cpu_gap
  compare_hosts-Precedes left right =
      rank-Before (is_cached request.template_id left) (is_cached request.template_id right)
        (memory_gap left right) (cpu_gap left right) (locale_compare left.id right.id)

  memory_gap-Adds : (a b c : HostCapacity) → Adds (memory_gap a b) (memory_gap b c) (memory_gap a c)
  unfolding memory_gap
  memory_gap-Adds a b c = omega (arith, -ℤ_parts)

  cpu_gap-Adds : (a b c : HostCapacity) → Adds (cpu_gap a b) (cpu_gap b c) (cpu_gap a c)
  unfolding cpu_gap
  cpu_gap-Adds a b c = omega (arith, -ℤ_parts)

  memory_gap-IsFlip : (a b : HostCapacity) → IsFlip (memory_gap a b) (memory_gap b a)
  unfolding memory_gap
  memory_gap-IsFlip a b = omega (arith, -ℤ_parts)

  cpu_gap-IsFlip : (a b : HostCapacity) → IsFlip (cpu_gap a b) (cpu_gap b a)
  unfolding cpu_gap
  cpu_gap-IsFlip a b = omega (arith, -ℤ_parts)

  compare_hosts-IsComparison : IsComparison (compare_hosts locale_compare request)
  compare_hosts-IsComparison = record {
    total = λ x y.
        elim (Before-total (is_cached request.template_id x) (is_cached request.template_id y)
          (memory_gap x y) (memory_gap y x) (cpu_gap x y) (cpu_gap y x) (locale_compare x.id y.id)
          (locale_compare y.id x.id) (memory_gap-IsFlip x y) (cpu_gap-IsFlip x y)
          (collates.total x.id y.id)) [
            | inl h ↦ inl ((compare_hosts-Precedes x y).1 h)
            | inr h ↦ inr ((compare_hosts-Precedes y x).1 h)
          ];
    transitive = λ x y z p q. (compare_hosts-Precedes x z).1 (
        Before-trans (is_cached request.template_id x) (is_cached request.template_id y)
          (is_cached request.template_id z) (memory_gap x y) (memory_gap y z) (memory_gap x z)
          (cpu_gap x y) (cpu_gap y z) (cpu_gap x z) (locale_compare x.id y.id)
          (locale_compare y.id z.id) (locale_compare x.id z.id) (memory_gap-Adds x y z)
          (cpu_gap-Adds x y z) (collates.transitive x.id y.id z.id)
          ((compare_hosts-Precedes x y).0 p) ((compare_hosts-Precedes y z).0 q));
  }

-- Less memory, or as much and fewer processors, or as many and a name that is not later.
abbrev pub HasTighterFit : ℕ → ℕ → ℕ → ℕ → ℤ → Type 0
HasTighterFit memory other_memory vcpus other_vcpus name =
    (memory < other_memory)
    ⊎ ((memory ≡ other_memory)
        × ((vcpus < other_vcpus) ⊎ ((vcpus ≡ other_vcpus) × (name ≤ℤ pos 0))))

-- One host is at least as good a choice as another: cached templates first, then the least memory
-- left, then the fewest processors left, then the collation of the identifiers.
-- Memory and processors are compared as sums, since what is left may be negative.
abbrev pub IsAtLeastAsGood :
    (String → String → ℤ) → PlacementRequest → HostCapacity → HostCapacity → Type 0
IsAtLeastAsGood locale_compare request chosen other =
    ((is_cached request.template_id chosen ≡ true) × (is_cached request.template_id other ≡ false))
    ⊎ ((is_cached request.template_id chosen ≡ is_cached request.template_id other)
        × HasTighterFit (chosen.memory_mb + other.reserved_memory_mb)
            (other.memory_mb + chosen.reserved_memory_mb) (chosen.vcpus + other.reserved_vcpus)
            (other.vcpus + chosen.reserved_vcpus) (locale_compare chosen.id other.id))

-- The hosts that the request may go to.
pub record MayHost (request : PlacementRequest) (host : HostCapacity) : Type 0 where
  pub same_region : host.region ≡ request.region
  pub same_architecture : host.architecture ≡ request.architecture
  pub room : HasRoom host request.resources

eligible-MayHost :
    (request : PlacementRequest) (host : HostCapacity)
    → (eligible request host ≡ true) ↔ MayHost request host
unfolding eligible
eligible-MayHost request host = (
  λ h.
      let (both, fit) =
        and-eq-true (host.region == request.region && host.architecture == request.architecture)
          (fits host request.resources) h in
      let (region, architecture) =
        and-eq-true (host.region == request.region) (host.architecture == request.architecture)
          both in
      record {
        same_region = (eq_iff _ _).0 region;
        same_architecture = (architecture_beq_iff _ _).0 architecture;
        room = (fits-HasRoom host request.resources).0 fit;
      },
  λ h.
      rw
        (
          (eq_iff host.region request.region).1 h.same_region,
          (architecture_beq_iff _ _).1 h.same_architecture,
        )
        ((fits-HasRoom host request.resources).1 h.room),
)

-- What `Tie` says of the two sums behind each difference.
Tie-HasTighterFit :
    (m k z : ℤ) (a b c d : ℕ)
    → pos_part m + b ≡ neg_part m + a
    → pos_part k + d ≡ neg_part k + c
    → Tie m k z
    → HasTighterFit a b c d z
Tie-HasTighterFit m k z a b c d s t (inl h) = inl (omega arith)
Tie-HasTighterFit m k z a b c d s t (inr (h, inl g)) = inr (omega arith, inl (omega arith))
Tie-HasTighterFit m k z a b c d s t (inr (h, inr (g, e))) = inr (omega arith, inr (omega arith, e))

Before-good :
    (cached_h cached_g : Bool) (m k z : ℤ) (a b c d : ℕ)
    → pos_part m + b ≡ neg_part m + a
    → pos_part k + d ≡ neg_part k + c
    → Before cached_h cached_g m k z
    → ((cached_h ≡ true) × (cached_g ≡ false)) ⊎ ((cached_h ≡ cached_g) × HasTighterFit a b c d z)
Before-good true true m k z a b c d s t p = inr (refl, Tie-HasTighterFit m k z a b c d s t p)
Before-good false false m k z a b c d s t p = inr (refl, Tie-HasTighterFit m k z a b c d s t p)
Before-good true false m k z a b c d s t p = inl (refl, refl)
Before-good false true m k z a b c d s t p = absurd p

module _ (locale_compare : String → String → ℤ) (collates : IsComparison locale_compare) where
  Precedes-IsAtLeastAsGood :
      (request : PlacementRequest) (h g : HostCapacity)
      → Precedes locale_compare collates request h g
      → IsAtLeastAsGood locale_compare request h g
  unfolding memory_gap cpu_gap available
  Precedes-IsAtLeastAsGood request h g p =
      Before-good (is_cached request.template_id h) (is_cached request.template_id g)
        (memory_gap locale_compare collates request h g)
        (cpu_gap locale_compare collates request h g) (locale_compare h.id g.id)
        (h.memory_mb + g.reserved_memory_mb) (g.memory_mb + h.reserved_memory_mb)
        (h.vcpus + g.reserved_vcpus) (g.vcpus + h.reserved_vcpus)
        (omega (arith, -ℤ_parts, sub_ℕ_parts)) (omega (arith, -ℤ_parts, sub_ℕ_parts)) p

  -- If the collation of the runtime is a total order, the host that is chosen is at least as good a
  -- choice as every listed host in the region and of the architecture asked for that is ready and
  -- has room for the machine.
  pub choose_host-best :
      (hosts : List HostCapacity) (request : PlacementRequest) (chosen other : HostCapacity)
      → choose_host locale_compare hosts request ≡ some chosen
      → Memᴰ other hosts
      → MayHost request other
      → IsAtLeastAsGood locale_compare request chosen other
  unfolding choose_host
  choose_host-best hosts request chosen other e m may =
      let compare = compare_hosts locale_compare request in
      let candidates = select (eligible request) hosts in
      let least =
        first-sort-IsLeast (compare_hosts-IsComparison locale_compare collates request) candidates
          chosen e in
      Precedes-IsAtLeastAsGood request chosen other (
        (compare_hosts-Precedes locale_compare collates request chosen other).0 (
          All-Memᴰ (λ h. compare chosen h ≤ℤ pos 0) candidates least
            (Memᴰ-select (eligible request) hosts m ((eligible-MayHost request other).1 may))))

-- The host that is chosen is one of the hosts, in the region and of the architecture asked for,
-- ready and with room for the machine.
pub choose_host-MayHost :
    (locale_compare : String → String → ℤ) (hosts : List HostCapacity) (request : PlacementRequest)
    (chosen : HostCapacity)
    → choose_host locale_compare hosts request ≡ some chosen
    → Memᴰ chosen hosts × MayHost request chosen
unfolding choose_host
choose_host-MayHost locale_compare hosts request chosen e =
    let compare = compare_hosts locale_compare request in
    let candidates = select (eligible request) hosts in
    let listed =
      All-select (λ h. Memᴰ h hosts) (eligible request) hosts
        (All-of_Memᴰ (λ h. Memᴰ h hosts) hosts (λ h m. m)) in
    (
      All-first (λ h. Memᴰ h hosts) _ (All-sort (λ h. Memᴰ h hosts) compare candidates listed) e,
      (eligible-MayHost request chosen).0 (
          All-first (λ h. eligible request h ≡ true) _
            (All-sort (λ h. eligible request h ≡ true) compare candidates
              (select-test (eligible request) hosts))
            e),
    )

-- No host is chosen exactly when none of the hosts may take the machine.
pub choose_host-none :
    (locale_compare : String → String → ℤ) (hosts : List HostCapacity) (request : PlacementRequest)
    → (choose_host locale_compare hosts request ≡ none) ↔ All (λ host. ¬ MayHost request host) hosts
unfolding choose_host sort
choose_host-none locale_compare hosts request = (
  λ e.
      All-map (λ h f may. false≢true (sym f ∙ (eligible-MayHost request h).1 may)) hosts
        ((select-eq-nil (eligible request) hosts).0
          (sort-eq-nil (compare_hosts locale_compare request) _ (first-eq-none _ e))),
  λ all.
      rw
        ((select-eq-nil (eligible request) hosts).1
          (All-map (λ h no. not-true (λ f. no ((eligible-MayHost request h).0 f))) hosts all))
        refl,
)
