-- ===== src/Streams/Quota.antt =====
-- The streams that are held stay within the limits of the organization and of the project.
use nehemiah.Base.{
  ℕ, ◌+◌, ◌≤◌, ◌≡◌, inl, inr, refl, ap, Bool, true, false, not, any, ◌&&◌, List, [], ◌∷◌, ◌++◌,
  Option, none, some, arith, select, sum, length, update, delete, All, Bool-cases, ◌==◌, string_eq,
  nat_eq, is_some, if◌then◌else◌,
}
use nehemiah.Base.Unique.{sum-select}
use nehemiah.Streams.{
  StreamAdmissionRequest, GatewayLimits, LeaseRow, StreamUsage, is_same_identity, is_expired_of,
  is_active_of, stream_usage, is_over, lease_row, refresh, upsert, additional_streams,
  additional_bandwidth,
}

-- Usage within both limits.
pub record IsWithinQuota (usage : StreamUsage) (organization project : GatewayLimits) : Type 0 where
  pub organization_streams_within : usage.organization_streams ≤ organization.max_gateway_streams
  pub project_streams_within : usage.project_streams ≤ project.max_gateway_streams
  pub organization_bandwidth_within :
      usage.organization_bandwidth ≤ organization.max_gateway_bandwidth_bps
  pub project_bandwidth_within : usage.project_bandwidth ≤ project.max_gateway_bandwidth_bps

-- Every lease of the organization with the identifier is active.
abbrev pub AllActive : ℕ → StreamAdmissionRequest → List LeaseRow → Type 0
AllActive now request leases =
    All (λ row. (row.id == request.id && is_expired_of now request.organization_id row) ≡ false)
      leases

-- A lease with the identifier that expires between the two times.
abbrev pub is_lapsing : ℕ → ℕ → StreamAdmissionRequest → LeaseRow → Bool
is_lapsing deleted counted request row =
    row.id == request.id
    && (not (is_expired_of deleted request.organization_id row)
        && is_expired_of counted request.organization_id row)

any-cons-false :
    (p : LeaseRow → Bool) (row : LeaseRow) (leases : List LeaseRow)
    → any p (row ∷ leases) ≡ false
    → (p row ≡ false) × (any p leases ≡ false)
any-cons-false p row leases h = elim (Bool-cases (p row)) [
  | inl t ↦ absurd (ground arith)
  | inr f ↦ (f, ground arith)
]

pub delete-AllActive :
    (deleted counted : ℕ) (request : StreamAdmissionRequest) (leases : List LeaseRow)
    → any (is_lapsing deleted counted request) leases ≡ false
    → AllActive counted request (delete (is_expired_of deleted request.organization_id) leases)
delete-AllActive deleted counted request [] kept = tt
delete-AllActive deleted counted request (row ∷ leases) kept =
    let (first, others) = any-cons-false (is_lapsing deleted counted request) row leases kept in
    elim (Bool-cases (is_expired_of deleted request.organization_id row)) [
      | inl h ↦ rw h (delete-AllActive deleted counted request leases others)
      | inr h ↦ rw h (ground (arith, first), delete-AllActive deleted counted request leases others)
    ]

-- What `is_over` has compared when it answers no.
record HasHeadroom (usage : StreamUsage) (streams bandwidth : ℕ)
    (organization project : GatewayLimits) : Type 0 where
  organization_streams_room :
      usage.organization_streams + streams ≤ organization.max_gateway_streams
  project_streams_room : usage.project_streams + streams ≤ project.max_gateway_streams
  organization_bandwidth_room :
      usage.organization_bandwidth + bandwidth ≤ organization.max_gateway_bandwidth_bps
  project_bandwidth_room : usage.project_bandwidth + bandwidth ≤ project.max_gateway_bandwidth_bps

is_over-HasHeadroom :
    (usage : StreamUsage) (streams bandwidth : ℕ) (organization project : GatewayLimits)
    → is_over usage streams bandwidth organization project ≡ false
    → HasHeadroom usage streams bandwidth organization project
unfolding is_over
is_over-HasHeadroom usage streams bandwidth organization project h = ground arith

module _ (counted now : ℕ) (request : StreamAdmissionRequest) where
  -- A weight that counts active leases of the organization only, in a scope that the identity decides.
  abbrev weigh : (LeaseRow → Bool) → (LeaseRow → ℕ) → LeaseRow → ℕ
  weigh scope w row =
      if is_active_of counted request.organization_id row && scope row then w row else 0

  refresh_weight :
      (scope : LeaseRow → Bool) (w : LeaseRow → ℕ)
      → ((row : LeaseRow) → scope (refresh now row) ≡ scope row)
      → ((row : LeaseRow) → w (refresh now row) ≡ w row)
      → (leases : List LeaseRow) → AllActive counted request leases
      → sum (weigh scope w) (
          update (λ row. row.id == request.id && is_same_identity request row) (refresh now) leases)
        ≤ sum (weigh scope w) leases
  refresh_weight scope w same_scope same_weight [] active = omega arith
  refresh_weight scope w same_scope same_weight (row ∷ leases) active =
      elim (Bool-cases (row.id == request.id && is_same_identity request row)) [
        | inr h ↦
            rw h (omega (arith, refresh_weight scope w same_scope same_weight leases active.1))
        | inl h ↦ rw h (
            ground (
              arith,
              active.0,
              same_scope row,
              same_weight row,
              refresh_weight scope w same_scope same_weight leases active.1,
            ))
      ]

  sum-append : (g : LeaseRow → ℕ) (xs ys : List LeaseRow) → sum g (xs ++ ys) ≡ sum g xs + sum g ys
  sum-append g [] ys = omega arith
  sum-append g (x ∷ xs) ys = omega (arith, sum-append g xs ys)

  -- What `upsert` adds to a weight: that of the new lease, if there was none.
  upsert_weight :
      (scope : LeaseRow → Bool) (w : LeaseRow → ℕ)
      → ((row : LeaseRow) → scope (refresh now row) ≡ scope row)
      → ((row : LeaseRow) → w (refresh now row) ≡ w row)
      → (current : Option LeaseRow) (leases : List LeaseRow) → AllActive counted request leases
      → sum (weigh scope w) (upsert now request current leases)
        ≤ sum (weigh scope w) leases + (if is_some current then 0 else w (lease_row now request))
  unfolding upsert
  upsert_weight scope w same_scope same_weight none leases active =
      rw (sum-append (weigh scope w) leases (lease_row now request ∷ [])) (ground arith)
  upsert_weight scope w same_scope same_weight (some current) leases active =
      omega (arith, refresh_weight scope w same_scope same_weight leases active)

  sum-organization :
      (w : LeaseRow → ℕ) (leases : List LeaseRow)
      → sum w (select (is_active_of counted request.organization_id) leases)
        ≡ sum (weigh (λ row. true) w) leases
  sum-organization w [] = refl
  sum-organization w (row ∷ leases) =
      elim (Bool-cases (is_active_of counted request.organization_id row)) [
        | inl h ↦ rw h (ap (λ s. w row + s) (sum-organization w leases))
        | inr h ↦ rw h (omega (arith, sum-organization w leases))
      ]

  in_project : LeaseRow → Bool
  in_project row = row.project_id == request.project_id

  length-sum : (leases : List LeaseRow) → length leases ≡ sum (λ row. 1) leases
  length-sum [] = refl
  length-sum (row ∷ leases) = omega (arith, length-sum leases)

  abbrev usage : List LeaseRow → StreamUsage
  usage leases = stream_usage counted request.organization_id request.project_id leases

  abbrev added : Option LeaseRow → ℕ → ℕ
  added current n = if is_some current then 0 else n

  pub upsert-usage :
      (current : Option LeaseRow) (leases : List LeaseRow) (organization project : GatewayLimits)
      → AllActive counted request leases
      → is_over
          (usage leases)
          (additional_streams current)
          (additional_bandwidth request current)
          organization
          project
        ≡ false
      → IsWithinQuota (usage (upsert now request current leases)) organization project
  unfolding stream_usage in_project
  upsert-usage current leases organization project active room =
      let everywhere = λ (row : LeaseRow). true in
      let one = λ (row : LeaseRow). let n : ℕ = 1 in n in
      let bandwidth = λ (row : LeaseRow). row.bandwidth in
      let after = upsert now request current leases in
      let o_count =
        upsert_weight everywhere one (λ row. refl) (λ row. refl) current leases active in
      let o_width =
        upsert_weight everywhere bandwidth (λ row. refl) (λ row. refl) current leases active in
      let p_count =
        upsert_weight in_project one (λ row. refl) (λ row. refl) current leases active in
      let p_width =
        upsert_weight in_project bandwidth (λ row. refl) (λ row. refl) current leases active in
      let p =
        λ (row : LeaseRow). is_active_of counted request.organization_id row && in_project row in
      let q = is_active_of counted request.organization_id in
      let fit =
        is_over-HasHeadroom (usage leases) (additional_streams current)
          (additional_bandwidth request current) organization project room in
      record {
        organization_streams_within = omega (
          arith,
          fit,
          o_count,
          length-sum (select q after),
          sum-organization one after,
          length-sum (select q leases),
          sum-organization one leases,
        );
        project_streams_within = omega (
          arith,
          fit,
          p_count,
          length-sum (select p after),
          sum-select one p after,
          length-sum (select p leases),
          sum-select one p leases,
        );
        organization_bandwidth_within = omega (
          arith,
          fit,
          o_width,
          sum-organization bandwidth after,
          sum-organization bandwidth leases,
        );
        project_bandwidth_within =
            omega
              (arith, fit, p_width, sum-select bandwidth p after, sum-select bandwidth p leases);
      }
