-- ===== src/Billing/Tests.antt =====
-- A policy and an account on which the theorems about prices and admission are applied.
use nehemiah.Base.{ℕ, ◌*◌, ◌≤◌, ◌≡◌, ◌↔◌, refl, false, [], ◌∷◌, none, some, ok}
use nehemiah.Base.Int.{pos}
use nehemiah.Base.Text.{codes}
use nehemiah.Billing.Rates.{
  private_beta_rates, vcpu_seconds, gib_seconds, storage_gib_hours, egress_bytes, inference_units,
}
use nehemiah.Billing.Price.{text, decimal, decimal_codes, divide_up, ceiling_price}
use nehemiah.Billing.Price.Decimals.{Denotes, decimal-Denotes}
use nehemiah.Billing.Price.Ceiling.{IsPriced, ceiling_price-IsPriced}
use nehemiah.Billing.Admission.{
  BillingAdmissionPolicy, BillingAccount, BillingCommitmentDelta, Ledger, make_policy, price_at,
  price_usage, project_cost, enforce, micros_per_cent,
}
use nehemiah.Billing.Admission.SpendCap.{
  IsCovered, make_policy-IsCovered, MayCommit, enforce-MayCommit,
}
use nehemiah.Billing.Admission.Projection.{IsProjection, enforce-within_cap}

decimal-Denotes_example :
    (decimal "12.50" ≡ ok (record { numerator = pos 1250; denominator = 100 }))
    ↔ Denotes (codes "12.50") (record { numerator = pos 1250; denominator = 100 })
decimal-Denotes_example =
    decimal-Denotes "12.50" (record { numerator = pos 1250; denominator = 100 })

-- 12.5 units at 3 micro-dollars for 10 units
priced_run : ceiling_price (text "12.50") (pos 3) (pos 10) ≡ ok 4
unfolding ceiling_price decimal decimal_codes divide_up
priced_run = refl

ceiling_price-IsPriced_example : IsPriced (text "12.50") (pos 3) (pos 10) 4
ceiling_price-IsPriced_example = ceiling_price-IsPriced (text "12.50") (pos 3) (pos 10) 4 priced_run

abbrev beta : BillingAdmissionPolicy
beta = record {
  rates =
      (inference_units, pos 0)
      ∷ (egress_bytes, pos 0)
      ∷ (storage_gib_hours, pos 0)
      ∷ (gib_seconds, pos 0)
      ∷ (vcpu_seconds, pos 0)
      ∷ [];
  plan = "beta";
}

beta_run : make_policy private_beta_rates "beta" ≡ ok beta
unfolding make_policy
beta_run = refl

make_policy-IsCovered_example : IsCovered beta.rates vcpu_seconds
make_policy-IsCovered_example =
    make_policy-IsCovered private_beta_rates "beta" beta beta_run vcpu_seconds

-- A cap of one cent, of which 2 micro-dollars for each second are used.
abbrev paid : BillingAdmissionPolicy
paid = record beta { rates = (vcpu_seconds, pos 2) ∷ beta.rates }

abbrev account : BillingAccount
account = record { plan = "beta"; spend_cap_cents = some (pos 1); delinquent = false }

abbrev ledger : Ledger
ledger = record {
  account = some account;
  usage = record { dimension = vcpu_seconds; quantity = "1000.5" } ∷ [];
  durable = record {
    vcpu_seconds = "100";
    memory_mebibyte_seconds = "0";
    storage_byte_seconds = "0";
  };
}

abbrev hour : BillingCommitmentDelta
hour = record {
  vcpu_seconds = some (pos 3600);
  memory_mebibyte_seconds = some (pos 7372800);
  storage_byte_seconds = none;
}

enforce_run : enforce paid ledger hour ≡ ok tt
unfolding enforce project_cost price_usage price_at ceiling_price decimal decimal_codes divide_up
enforce_run = refl

enforce-MayCommit_example : (enforce paid ledger hour ≡ ok tt) ↔ MayCommit paid ledger hour
enforce-MayCommit_example = enforce-MayCommit paid ledger hour

enforce-within_cap_example :
    (projected : ℕ) × IsProjection paid ledger hour projected × (projected ≤ 1 * micros_per_cent)
enforce-within_cap_example = enforce-within_cap paid ledger hour account 1 refl refl enforce_run
