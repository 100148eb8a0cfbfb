-- ===== src/Billing/Admission/Projection.antt =====
-- The projected cost is the sum of exact prices rounded up, and stays within the cap.
use nehemiah.Base.{
  ℕ, ◌+◌, ◌*◌, ◌≤◌, ◌≡◌, refl, ap, List, [], ◌∷◌, some, Result, ok, err, >>=-eq-ok, arith, inl, inr,
}
use nehemiah.Base.Int.{pos}
use nehemiah.Billing.Rates.{MeterDimension, vcpu_seconds, gib_seconds, storage_gib_hours}
use nehemiah.Billing.Price.{PriceError, Quantity, text, bigint}
use nehemiah.Billing.Price.Ceiling.{ceiling_price-IsPriced, IsPriced}
use nehemiah.Billing.Admission.{
  BillingAdmissionPolicy, BillingCommitmentDelta, BillingAccount, Ledger, UsageRow, rate_of,
  price_at, price_usage, project_cost, enforce, known_rate, or_zero, micros_per_cent,
  mebibytes_per_gibibyte, bytes_per_gibibyte_hour, priced,
}
use nehemiah.Billing.Admission.SpendCap.{MayCommit, enforce-MayCommit}

priced-eq-ok : (r : Result PriceError ℕ) (price : ℕ) → priced r ≡ ok price → r ≡ ok price
priced-eq-ok (ok p) price h = cc
priced-eq-ok (err e) price h = cc

module _ (policy : BillingAdmissionPolicy) where
  -- A price charged at the policy's rate for the dimension.
  abbrev pub IsCharged : MeterDimension → Quantity → ℕ → ℕ → Type 0
  IsCharged dimension quantity divisor price =
      IsPriced quantity (known_rate (rate_of dimension policy.rates)) (pos divisor) price

  price_at-IsCharged :
      (dimension : MeterDimension) (quantity : Quantity) (divisor price : ℕ)
      → price_at policy dimension quantity divisor ≡ ok price
      → IsCharged dimension quantity divisor price
  unfolding price_at
  price_at-IsCharged dimension quantity divisor price h =
      ceiling_price-IsPriced quantity _ (pos divisor) price (priced-eq-ok _ price h)

  -- Each row of usage is charged, and the charges add up.
  abbrev pub UsageCharged : List UsageRow → ℕ → Type 0
  UsageCharged [] total = total ≡ 0
  UsageCharged (row ∷ rows) total =
      (price : ℕ) × (rest : ℕ) × IsCharged row.dimension (text row.quantity) 1 price
      × UsageCharged rows rest
      × (total ≡ price + rest)

  price_usage-UsageCharged :
      (start : ℕ) (rows : List UsageRow) (result : ℕ)
      → price_usage policy start rows ≡ ok result
      → (total : ℕ) × UsageCharged rows total × (result ≡ start + total)
  unfolding price_usage
  price_usage-UsageCharged start [] result h =
      let same : start ≡ result = cc in (0, refl, omega arith)
  price_usage-UsageCharged start (row ∷ rows) result h =
      let (price, charged, rest) =
        >>=-eq-ok (price_at policy row.dimension (text row.quantity) 1) _ h in
      let (total, charges, sum) = price_usage-UsageCharged (start + price) rows result rest in
      (
        price + total,
        (
          price,
          total,
          price_at-IsCharged row.dimension (text row.quantity) 1 price charged,
          charges,
          refl,
        ),
        omega arith,
      )

  -- The parts of a projection: past usage, durable commitments, and what is asked for.
  pub record IsProjection (ledger : Ledger) (additional : BillingCommitmentDelta) (projected : ℕ)
      : Type 0 where
    pub used : ℕ
    pub used_charged : UsageCharged ledger.usage used
    pub durable_vcpu : ℕ
    pub durable_vcpu_charged :
        IsCharged vcpu_seconds (text ledger.durable.vcpu_seconds) 1 durable_vcpu
    pub durable_memory : ℕ
    pub durable_memory_charged :
        IsCharged gib_seconds
          (text ledger.durable.memory_mebibyte_seconds)
          mebibytes_per_gibibyte
          durable_memory
    pub durable_storage : ℕ
    pub durable_storage_charged :
        IsCharged storage_gib_hours
          (text ledger.durable.storage_byte_seconds)
          bytes_per_gibibyte_hour
          durable_storage
    pub vcpu : ℕ
    pub vcpu_charged : IsCharged vcpu_seconds (bigint (or_zero additional.vcpu_seconds)) 1 vcpu
    pub memory : ℕ
    pub memory_charged :
        IsCharged gib_seconds
          (bigint (or_zero additional.memory_mebibyte_seconds))
          mebibytes_per_gibibyte
          memory
    pub storage : ℕ
    pub storage_charged :
        IsCharged storage_gib_hours
          (bigint (or_zero additional.storage_byte_seconds))
          bytes_per_gibibyte_hour
          storage
    pub total :
        projected ≡ used + durable_vcpu + durable_memory + durable_storage + vcpu + memory + storage

  project_cost-IsProjection :
      (ledger : Ledger) (additional : BillingCommitmentDelta) (projected : ℕ)
      → project_cost policy ledger additional ≡ ok projected
      → IsProjection ledger additional projected
  unfolding project_cost
  project_cost-IsProjection ledger additional projected h =
      let (u, hu, k1) = >>=-eq-ok (price_usage policy 0 ledger.usage) _ h in
      let (a, ha, k2) =
        >>=-eq-ok (price_at policy vcpu_seconds (text ledger.durable.vcpu_seconds) 1) _ k1 in
      let (b, hb, k3) =
        >>=-eq-ok
          (price_at policy gib_seconds (text ledger.durable.memory_mebibyte_seconds)
            mebibytes_per_gibibyte)
          _ k2 in
      let (c, hc, k4) =
        >>=-eq-ok
          (price_at policy storage_gib_hours (text ledger.durable.storage_byte_seconds)
            bytes_per_gibibyte_hour)
          _ k3 in
      let (x, hx, k5) =
        >>=-eq-ok (price_at policy vcpu_seconds (bigint (or_zero additional.vcpu_seconds)) 1) _
          k4 in
      let (y, hy, k6) =
        >>=-eq-ok
          (price_at policy gib_seconds (bigint (or_zero additional.memory_mebibyte_seconds))
            mebibytes_per_gibibyte)
          _ k5 in
      let (z, hz, k7) =
        >>=-eq-ok
          (price_at policy storage_gib_hours (bigint (or_zero additional.storage_byte_seconds))
            bytes_per_gibibyte_hour)
          _ k6 in
      let (used, charges, sum) = price_usage-UsageCharged 0 ledger.usage u hu in
      let same : u + a + b + c + x + y + z ≡ projected = cc in
      record {
        used = used;
        used_charged = charges;
        durable_vcpu = a;
        durable_vcpu_charged = price_at-IsCharged _ _ _ _ ha;
        durable_memory = b;
        durable_memory_charged = price_at-IsCharged _ _ _ _ hb;
        durable_storage = c;
        durable_storage_charged = price_at-IsCharged _ _ _ _ hc;
        vcpu = x;
        vcpu_charged = price_at-IsCharged _ _ _ _ hx;
        memory = y;
        memory_charged = price_at-IsCharged _ _ _ _ hy;
        storage = z;
        storage_charged = price_at-IsCharged _ _ _ _ hz;
        total = omega arith;
      }

  -- When a commitment is admitted for an account with a spend cap, the cap covers the past usage,
  -- the durable commitments and the new commitment, each charged at its exact price rounded up.
  pub enforce-within_cap :
      (ledger : Ledger) (additional : BillingCommitmentDelta) (account : BillingAccount) (cents : ℕ)
      → ledger.account ≡ some account
      → account.spend_cap_cents ≡ some (pos cents)
      → enforce policy ledger additional ≡ ok tt
      → (projected : ℕ) × IsProjection ledger additional projected
        × (projected ≤ cents * micros_per_cent)
  enforce-within_cap ledger additional account cents there capped h =
      within_cap ((enforce-MayCommit policy ledger additional).0 h)
    where
      within_cap :
          MayCommit policy ledger additional
          → (projected : ℕ) × IsProjection ledger additional projected
            × (projected ≤ cents * micros_per_cent)
      within_cap (inl missing) = cc
      within_cap (inr (found, same, current, plan, inl uncapped)) =
          let one : account ≡ found = cc in cc (ap (λ a. a.spend_cap_cents) one)
      within_cap (inr (found, same, current, plan, inr (c, projected, cap, cost, within))) =
          let one : account ≡ found = cc in
          let caps : c ≡ cents = cc (ap (λ a. a.spend_cap_cents) one) in
          (projected, project_cost-IsProjection ledger additional projected cost, omega arith)
