-- ===== src/Billing/Admission/SpendCap.antt =====
-- What the billing admission guarantees: the policy prices every dimension, and nothing is admitted
-- past the spend cap.
use nehemiah.Base.{
  ℕ, ◌*◌, ◌≤◌, ◌≡◌, ◌↔◌, ◌⊎◌, inl, inr, refl, ap, ◌∙◌, String, true, false, ◌||◌, List, [], ◌∷◌,
  Option, none, some, ok, >>=-eq-ok, ◌==◌, string_eq, is_some, arith, Bool-cases, eq_iff, All,
}
use nehemiah.Base.Int.{ℤ, pos, negsuc}
use nehemiah.Billing.Rates.{
  MeterDimension, vcpu_seconds, gib_seconds, storage_gib_hours, egress_bytes, inference_units,
  dimension_eq, Rate,
}
use nehemiah.Billing.Price.{is_negative}
use nehemiah.Billing.Admission.{
  Rates, BillingAdmissionPolicy, BillingCommitmentDelta, BillingAccount, Ledger, rate_of, configure,
  require_dimensions, meter_dimensions, enforce_cap, enforce_account, make_policy, project_cost,
  enforce, micros_per_cent,
}

-- The policy has one price that is not negative for the dimension.
abbrev pub IsCovered : Rates → MeterDimension → Type 0
IsCovered rates dimension = (price : ℕ) × (rate_of dimension rates ≡ some (pos price))

abbrev HasNoNegative : Rates → Type 0
HasNoNegative rates = All (λ entry. is_negative entry.1 ≡ false) rates

configure-HasNoNegative :
    (configured : Rates) (rates : List Rate) (result : Rates)
    → HasNoNegative configured
    → configure configured rates ≡ ok result
    → HasNoNegative result
configure-HasNoNegative configured [] result h e =
    let same : configured ≡ result = cc in rw same at h
configure-HasNoNegative configured (rate ∷ rates) result h e =
    elim (Bool-cases
      (is_some (rate_of rate.dimension configured) || is_negative rate.unit_price_micros)) [
        | inl bad ↦ absurd (ground arith)
        | inr good ↦
            configure-HasNoNegative ((rate.dimension, rate.unit_price_micros) ∷ configured) rates
              result (ground arith, h) (rw good at e)
      ]

covered_here :
    (price : ℤ)
    → is_negative price ≡ false
    → (p : ℕ) × (◌≡◌ {A = Option ℤ} (some price) (some (pos p)))
covered_here (pos p) h = (p, refl)
covered_here (negsuc p) h = cc

covered :
    (rates : Rates) (dimension : MeterDimension)
    → HasNoNegative rates
    → is_some (rate_of dimension rates) ≡ true
    → IsCovered rates dimension
covered [] dimension h e = cc
covered ((d, price) ∷ rates) dimension h e = elim (Bool-cases (d == dimension)) [
  | inl same ↦ rw same (covered_here price h.0)
  | inr other ↦ rw other (covered rates dimension h.1 (rw other at e))
]

required :
    (rates : Rates) (dimensions : List MeterDimension)
    → require_dimensions rates dimensions ≡ ok tt
    → All (λ dimension. is_some (rate_of dimension rates) ≡ true) dimensions
required rates [] h = tt
required rates (dimension ∷ dimensions) h = elim (Bool-cases (is_some (rate_of dimension rates))) [
  | inl there ↦ (there, required rates dimensions (rw there at h))
  | inr missing ↦ absurd (ground arith)
]

make_policy-parts :
    (rates : List Rate) (plan : String) (policy : BillingAdmissionPolicy)
    → make_policy rates plan ≡ ok policy
    → (configure [] rates ≡ ok policy.rates)
      × (require_dimensions policy.rates meter_dimensions ≡ ok tt)
      × (policy.plan ≡ plan)
unfolding make_policy
make_policy-parts rates plan policy h =
    let (configured, first, rest) = >>=-eq-ok (configure [] rates) _ h in
    let (done, second, last) = >>=-eq-ok (require_dimensions configured meter_dimensions) _ rest in
    let same : configured ≡ policy.rates = cc in (first ∙ ap ok same, rw (← same) (second ∙ cc), cc)

-- A policy that the constructor accepts has, for every dimension, a price that is not negative.
pub make_policy-IsCovered :
    (rates : List Rate) (plan : String) (policy : BillingAdmissionPolicy)
    → make_policy rates plan ≡ ok policy
    → (dimension : MeterDimension) → IsCovered policy.rates dimension
make_policy-IsCovered rates plan policy h dimension =
    let (configured, there, same) = make_policy-parts rates plan policy h in
    let all = required policy.rates meter_dimensions there in
    covered policy.rates dimension (configure-HasNoNegative [] rates policy.rates tt configured)
      (every dimension all)
  where
    every :
        (d : MeterDimension)
        → All (λ d. is_some (rate_of d policy.rates) ≡ true) meter_dimensions
        → is_some (rate_of d policy.rates) ≡ true
    every vcpu_seconds a = a.0
    every gib_seconds a = a.1.0
    every storage_gib_hours a = a.1.1.0
    every egress_bytes a = a.1.1.1.0
    every inference_units a = a.1.1.1.1.0

module _ (policy : BillingAdmissionPolicy) where
  -- An organization may commit to more: it has no account, or it is not delinquent, its plan is
  -- the policy's, and it has no cap or the projected cost is within it.
  abbrev pub MayCommit : Ledger → BillingCommitmentDelta → Type 0
  MayCommit ledger additional =
      (ledger.account ≡ none)
      ⊎ ((account : BillingAccount) × (ledger.account ≡ some account)
          × (account.delinquent ≡ false)
          × (account.plan ≡ policy.plan)
          × ((account.spend_cap_cents ≡ none)
              ⊎ ((cents : ℕ) × (projected : ℕ) × (account.spend_cap_cents ≡ some (pos cents))
                  × (project_cost policy ledger additional ≡ ok projected)
                  × (projected ≤ cents * micros_per_cent))))

  cap_parts :
      (ledger : Ledger) (additional : BillingCommitmentDelta) (cap : Option ℤ)
      → enforce_cap policy ledger additional cap ≡ ok tt
      → (cap ≡ none)
        ⊎ ((cents : ℕ) × (projected : ℕ) × (cap ≡ some (pos cents))
            × (project_cost policy ledger additional ≡ ok projected)
            × (projected ≤ cents * micros_per_cent))
  cap_parts ledger additional none h = inl refl
  cap_parts ledger additional (some (pos cents)) h =
      let (projected, cost, within) = >>=-eq-ok (project_cost policy ledger additional) _ h in
      inr (cents, projected, refl, cost, ground arith)
  cap_parts ledger additional (some (negsuc cents)) h =
      let (projected, cost, within) = >>=-eq-ok (project_cost policy ledger additional) _ h in
      absurd (ground arith)

  account_parts :
      (ledger : Ledger) (additional : BillingCommitmentDelta) (account : BillingAccount)
      → enforce_account policy ledger additional (some account) ≡ ok tt
      → (account.delinquent ≡ false)
        × (account.plan ≡ policy.plan)
        × (enforce_cap policy ledger additional account.spend_cap_cents ≡ ok tt)
  account_parts ledger additional account h = elim (Bool-cases account.delinquent) [
    | inl late ↦ absurd (ground arith)
    | inr current ↦ elim (Bool-cases (account.plan == policy.plan)) [
      | inl same ↦ (current, (eq_iff _ _).0 same, rw (current, same) at h)
      | inr other ↦ absurd (ground arith)
    ]
  ]

  enforce_sound_at :
      (ledger : Ledger) (additional : BillingCommitmentDelta) (account : Option BillingAccount)
      → ledger.account ≡ account
      → enforce_account policy ledger additional account ≡ ok tt
      → MayCommit ledger additional
  enforce_sound_at ledger additional none there h = inl there
  enforce_sound_at ledger additional (some account) there h =
      let (current, plan, cap) = account_parts ledger additional account h in
      inr (account, there, current, plan, cap_parts ledger additional account.spend_cap_cents cap)

  enforce_complete :
      (ledger : Ledger) (additional : BillingCommitmentDelta)
      → MayCommit ledger additional
      → enforce policy ledger additional ≡ ok tt
  unfolding enforce
  enforce_complete ledger additional (inl none_there) = rw (none_there, enforce) refl
  enforce_complete ledger additional (inr (account, there, current, plan, inl uncapped)) =
      ground (arith, eq_iff account.plan policy.plan)
  enforce_complete ledger additional
        (inr (account, there, current, plan, inr (cents, projected, cap, cost, within))) =
      ground (arith, eq_iff account.plan policy.plan)

  -- The admission lets a commitment through exactly when the organization has no billing account,
  -- or its account is not delinquent, is on the policy's plan, and has no spend cap or one that is
  -- not negative and that the projected cost does not pass.
  pub enforce-MayCommit :
      (ledger : Ledger) (additional : BillingCommitmentDelta)
      → (enforce policy ledger additional ≡ ok tt) ↔ MayCommit ledger additional
  unfolding enforce
  enforce-MayCommit ledger additional =
      (enforce_sound_at ledger additional ledger.account refl, enforce_complete ledger additional)
