-- ===== src/ApiAdmission/Limits.antt =====
-- How many requests of a principal are let through in a window.
use mathlib.Core.Path.{subst}
use nehemiah.Base.{
  ℕ, ◌+◌, ◌≤◌, ◌<◌, ◌≡◌, inl, inr, refl, ap, ◌∙◌, String, Bool, true, false, ◌&&◌, ◌||◌, List, [],
  ◌∷◌, ◌++◌, Result, ok, err, map, arith, Bool-cases, if◌then◌else◌, ◌==◌, string_eq, nat_eq,
  eq_iff, beq_refl, any, all, All,
}
use nehemiah.Base.Int.{ℤ, leb_ℤ, pos}
use nehemiah.Scheduler.Placement.{sort, insert_sorted}
use nehemiah.Base.Text.{truthy}
use nehemiah.Windows.{Bucket, WindowRow, maximum_stored_count, current_window, apply_all, is_within}
use nehemiah.Windows.Bounds.{same_key, passes, passes-le-limit, passes-append, passes-all_within}
use nehemiah.ApiAdmission.{
  ApiRateLimitConfig, AdmissionIdentity, AdmissionBucket, bucket_for, identity_buckets, slotted,
  compare_buckets, requested_rows, outcome, consume, authenticate,
}

module _ {ℓ} {A : Type ℓ} (compare : A → A → ℤ) (p : A → Bool) where
  any-insert : (x : A) (ys : List A) → p x ≡ true → any p (insert_sorted compare x ys) ≡ true
  any-insert x [] h = ground arith
  any-insert x (y ∷ ys) h = elim (Bool-cases (leb_ℤ (compare x y) (pos 0))) [
    | inl before ↦ rw before (ground arith)
    | inr after ↦ rw after (ground (arith, any-insert x ys h))
  ]

  any-insert_later :
      (x : A) (ys : List A) → any p ys ≡ true → any p (insert_sorted compare x ys) ≡ true
  any-insert_later x [] h = cc
  any-insert_later x (y ∷ ys) h = elim (Bool-cases (leb_ℤ (compare x y) (pos 0))) [
    | inl before ↦ rw before (ground arith)
    | inr after ↦ rw after (elim (Bool-cases (p y)) [
      | inl here ↦ ground arith
      | inr there ↦ ground (arith, any-insert_later x ys (rw there at h))
    ])
  ]

  any-sort_first : (x : A) (xs : List A) → p x ≡ true → any p (sort compare (x ∷ xs)) ≡ true
  unfolding sort
  any-sort_first x xs h = any-insert x (sort compare xs) h

abbrev pub is_ok {ℓ κ} : {E : Type ℓ} {A : Type κ} → Result E A → Bool
is_ok (ok a) = true
is_ok (err e) = false

module _ (slot_for : String → String → ℕ) (locale_compare : String → String → ℤ)
    (credential_digest : String → String) (config : ApiRateLimitConfig) where
  -- Of the identities that arrive one after the other, how many of a principal are let through.
  unfoldable pub admissions : String → List (ℕ × AdmissionIdentity) → List WindowRow → ℕ
  admissions principal_id [] rows = 0
  admissions principal_id ((now, identity) ∷ arrivals) rows =
      let (result, rows') =
        authenticate credential_digest slot_for locale_compare config now true identity rows in
      (if identity.principal_id == principal_id && is_ok result then 1 else 0)
      + admissions principal_id arrivals rows'

  abbrev pub principal_bucket : String → Bucket
  principal_bucket principal_id =
      slotted credential_digest slot_for locale_compare (record {
        scope = "principal";
        identifier = principal_id;
        limit = config.principal_requests;
      })

  abbrev requested_by : AdmissionIdentity → List Bucket
  requested_by identity =
      requested_rows credential_digest slot_for locale_compare (identity_buckets config identity)

  abbrev requested_in : List (ℕ × AdmissionIdentity) → List Bucket
  requested_in [] = []
  requested_in ((now, identity) ∷ arrivals) = requested_by identity ++ requested_in arrivals

  any-slotted :
      (b : Bucket) (buckets : List AdmissionBucket)
      → any
          (λ c. same_key b c && c.limit == b.limit)
          (map (slotted credential_digest slot_for locale_compare) buckets)
        ≡ any
            (λ c.
              same_key b (slotted credential_digest slot_for locale_compare c)
              && c.limit == b.limit)
            buckets
  any-slotted b [] = refl
  any-slotted b (c ∷ buckets) =
      ap
        (λ t.
          (same_key b (slotted credential_digest slot_for locale_compare c) && c.limit == b.limit)
          || t)
        (any-slotted b buckets)

  principal_requested :
      (identity : AdmissionIdentity)
      → any
          (λ c.
            same_key (principal_bucket identity.principal_id) c
            && c.limit == config.principal_requests)
          (requested_by identity)
        ≡ true
  unfolding requested_rows identity_buckets
  principal_requested identity =
      let rest =
        bucket_for "organization" config.organization_requests (truthy identity.organization_id)
        ++ bucket_for "project" config.project_requests (truthy identity.project_id) in
      let own : AdmissionBucket = record {
        scope = "principal";
        identifier = identity.principal_id;
        limit = config.principal_requests;
      } in
      let slot = slot_for "principal" identity.principal_id in
      let slots : (slot == slot) ≡ true = ground arith in
      let limits : (config.principal_requests == config.principal_requests) ≡ true = ground arith in
      any-slotted (principal_bucket identity.principal_id)
        (sort (compare_buckets credential_digest slot_for locale_compare) (own ∷ rest))
      ∙ any-sort_first (compare_buckets credential_digest slot_for locale_compare)
          (λ c.
            same_key (principal_bucket identity.principal_id)
              (slotted credential_digest slot_for locale_compare c)
            && c.limit == config.principal_requests)
          own rest (rw (beq_refl "principal", slots, limits) refl)

  -- What a request does once its window is known.
  authenticate-parts :
      (window now : ℕ) (identity : AdmissionIdentity) (rows : List WindowRow)
      → config.enabled ≡ true
      → current_window config.window_seconds now ≡ window
      → (is_ok
            (authenticate credential_digest slot_for locale_compare config now true identity rows).0
          ≡ all is_within (apply_all window (requested_by identity) rows).0)
        × ((authenticate credential_digest slot_for locale_compare config now true identity rows).1
            ≡ (apply_all window (requested_by identity) rows).1)
  unfolding authenticate consume identity_buckets
  authenticate-parts window now identity rows on same = rw (on, same) (result, refl)
    where
      result :
          is_ok (
            outcome credential_digest slot_for locale_compare config now
              (apply_all window (requested_by identity) rows).0)
          ≡ all is_within (apply_all window (requested_by identity) rows).0
      result = elim (Bool-cases (all is_within (apply_all window (requested_by identity) rows).0)) [
        | inl h ↦ rw h refl
        | inr h ↦ rw h refl
      ]

  admissions-passes :
      (window : ℕ) (principal_id : String) (arrivals : List (ℕ × AdmissionIdentity))
      (rows : List WindowRow)
      → config.enabled ≡ true
      → All (λ a. current_window config.window_seconds a.0 ≡ window) arrivals
      → admissions principal_id arrivals rows
        ≤ passes window (principal_bucket principal_id) (requested_in arrivals) rows
  unfolding admissions
  admissions-passes window principal_id [] rows on same = omega arith
  admissions-passes window principal_id ((now, identity) ∷ arrivals) rows on same =
      let (answer, after) = authenticate-parts window now identity rows on same.0 in
      let rows' = (apply_all window (requested_by identity) rows).1 in
      let rest = admissions-passes window principal_id arrivals rows' on same.1 in
      let split =
        passes-append window (principal_bucket principal_id) (requested_by identity)
          (requested_in arrivals) rows in
      let hit =
        passes-all_within window (principal_bucket identity.principal_id) (requested_by identity)
          rows (principal_requested identity) in
      rw (after, answer)
        (elim (Bool-cases (identity.principal_id == principal_id)) [
          | inr other ↦ rw other (omega (arith, rest, split))
          | inl mine ↦
              elim (Bool-cases (all is_within (apply_all window (requested_by identity) rows).0)) [
                | inr over ↦ rw (mine, over) (omega (arith, rest, split))
                | inl within ↦
                    let own : identity.principal_id ≡ principal_id =
                      (eq_iff identity.principal_id principal_id).0 mine in
                    let passed : 1
                        ≤ passes window (principal_bucket principal_id) (requested_by identity)
                            rows =
                      subst
                        (λ k. 1 ≤ passes window (principal_bucket k) (requested_by identity) rows)
                        own (hit within) in
                    rw (mine, within) (omega (arith, rest, split, passed))
              ]
        ])

  -- Whoever else's requests come between, and whatever the table of windows holds before, at most
  -- `principalRequests` requests of a principal are let through in one window, while admission is
  -- enabled and the database answers, if the limit is below the count at which storing stops.
  pub admissions-le-limit :
      (window : ℕ) (principal_id : String) (arrivals : List (ℕ × AdmissionIdentity))
      (rows : List WindowRow)
      → config.enabled ≡ true
      → All (λ a. current_window config.window_seconds a.0 ≡ window) arrivals
      → config.principal_requests < maximum_stored_count
      → admissions principal_id arrivals rows ≤ config.principal_requests
  admissions-le-limit window principal_id arrivals rows on same small = omega (
    arith,
    admissions-passes window principal_id arrivals rows on same,
    passes-le-limit window (principal_bucket principal_id) (requested_in arrivals) rows small,
  )
