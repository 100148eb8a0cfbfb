-- ===== src/Devices/Access/Lockout.antt =====
-- When a refresh token is used twice, its login is closed.
use mathlib.Core.Path.{subst}
use nehemiah.Base.{
  ℕ, ◌≡◌, refl, sym, inl, inr, String, Bool, true, false, List, [], ◌∷◌, Option, none, some, find,
  find-update, find-test, ◌==◌, string_eq, is_some, Bool-cases, if◌then◌else◌, ok, err, arith,
  transaction-ok, update,
}
use nehemiah.Devices.{
  Environment, FamilyRow, RefreshRow, AccessRow, DeviceTables, refresh_reuse_detected, token_id,
  coalesce, revoke_access,
}
use nehemiah.Devices.Exchange.{refusal}
use nehemiah.Devices.Refresh.{
  NextTokens, error, refresh_joined, is_live_refresh, refresh, refresh_work, refresh_row,
  early_error, family_identity, detect_reuse, reused_family,
}
use nehemiah.Devices.Access.{
  access_family_of, is_valid, is_live_access, authenticate_row, authenticate_access, access_joined,
}

-- The family is there, and is revoked.
abbrev IsRevoked : String → DeviceTables → Type 0
IsRevoked id db =
    (f : FamilyRow) × (find (λ f. f.id == id) db.families ≡ some f) × (is_some f.revoked_at ≡ true)

coalesce-some : (a : Option ℕ) (b : ℕ) → is_some (coalesce a b) ≡ true
coalesce-some none b = refl
coalesce-some (some a) b = refl

find-update_any :
    (id : String) (q : AccessRow → Bool) (f : AccessRow → AccessRow) (rows : List AccessRow)
    (t : AccessRow)
    → ((r : AccessRow) → (f r).id ≡ r.id)
    → find (λ r. r.id == id) rows ≡ some t
    → find (λ r. r.id == id) (update q f rows) ≡ some (if q t then f t else t)
find-update_any id q f [] t keeps h = cc
find-update_any id q f (r ∷ rows) t keeps h = elim (Bool-cases (r.id == id)) [
  | inr other ↦ elim (Bool-cases (q r)) [
    | inl hit ↦ rw (hit, keeps r, other) (find-update_any id q f rows t keeps (rw other at h))
    | inr miss ↦ rw (miss, other) (find-update_any id q f rows t keeps (rw other at h))
  ]
  | inl here ↦
      let same : r ≡ t = ground arith in
      subst (λ x. find (λ r. r.id == id) (update q f (r ∷ rows)) ≡ some (if q x then f x else x))
        same
        (elim (Bool-cases (q r)) [
          | inl hit ↦ rw (hit, keeps r, here) refl
          | inr miss ↦ rw (miss, here) refl
        ])
]

module _ (family : FamilyRow) (now clock : ℕ) (db : DeviceTables) where
  reuse-families :
      ((detect_reuse family now clock db).families
        ≡ update (λ f. f.id == family.id) (reused_family now) db.families)
      × ((detect_reuse family now clock db).access_tokens
          ≡ (revoke_access family.id now db).access_tokens)
  reuse-families = elim (Bool-cases (is_some family.reuse_detected_at)) [
    | inl again ↦ rw (detect_reuse, again) (refl, refl)
    | inr fresh ↦ rw (detect_reuse, fresh) (refl, refl)
  ]

  reuse-IsRevoked :
      find (λ f. f.id == family.id) db.families ≡ some family
      → IsRevoked family.id (detect_reuse family now clock db)
  reuse-IsRevoked found = rw (reuse-families.0) (
    reused_family now family,
    find-update (λ f. f.id == family.id) (λ f. f.id == family.id) (reused_family now) db.families
        (λ f other. other) (λ f. refl) found (find-test (λ f. f.id == family.id) db.families found),
    coalesce-some family.revoked_at now,
  )

module _ (env : Environment) where
  row-locked :
      (raw : String) (now clock : ℕ) (id : String) (db : DeviceTables) (t : AccessRow)
      → find (λ r. r.id == id) db.access_tokens ≡ some t
      → IsRevoked t.family_id db
      → authenticate_row env raw now clock db (access_joined id db) ≡ (none, db)
  row-locked raw now clock id db t found (f, there, revoked) =
      let dead : is_live_access now (t, f) ≡ false = rw revoked (ground arith) in
      rw (access_joined, found, access_family_of, there, dead) refl

  -- No access token of a family that is revoked authenticates, whatever the tables were when it was
  -- looked up.
  access-locked :
      (raw : String) (now clock : ℕ) (seen db : DeviceTables) (id : String) (t : AccessRow)
      → token_id "access" raw ≡ some id
      → find (λ r. r.id == id) db.access_tokens ≡ some t
      → IsRevoked t.family_id db
      → authenticate_access env raw now clock seen db ≡ (none, db)
  unfolding authenticate_access
  access-locked raw now clock seen db id t named found revoked =
      elim (Bool-cases (is_valid env now raw (access_joined id seen))) [
        | inr unknown ↦ rw (authenticate_access, named, unknown) refl
        | inl known ↦
            rw (authenticate_access, named, known) (row-locked raw now clock id db t found revoked)
      ]

  -- A refresh token that was used before, presented again while its login lasts, is answered with
  -- the error on reuse, and from then on no access token of the login authenticates, at any time.
  pub reuse-locks :
      (raw raw' id a : String) (now clock later clock' : ℕ) (next : NextTokens)
      (seen seen' db : DeviceTables) (token : RefreshRow) (family : FamilyRow) (t : AccessRow)
      → token_id "refresh" raw ≡ some id
      → early_error env now raw (refresh_joined id seen) ≡ none
      → refresh_joined id db ≡ some (token, family)
      → is_live_refresh now (token, family) ≡ true
      → is_some (family_identity family db) ≡ true
      → is_some token.used_at ≡ true
      → find (λ f. f.id == family.id) db.families ≡ some family
      → token_id "access" raw' ≡ some a
      → find (λ r. r.id == a) db.access_tokens ≡ some t
      → t.family_id ≡ family.id
      → (end : DeviceTables) × (refresh env raw now clock next seen db
          ≡ (err (refusal refresh_reuse_detected), end))
        × (authenticate_access env raw' later clock' seen' end ≡ (none, end))
  unfolding refresh
  reuse-locks raw raw' id a now clock later clock' next seen seen' db token family t named checked
        read live known used there named' found member =
      let end = detect_reuse family now clock db in
      let worked : refresh_work env id now clock next db
          ≡ ok (error refresh_reuse_detected none, end) =
        rw (refresh_work, read, refresh_row, live, known, used) refl in
      let revoked = λ (r : AccessRow). record r { revoked_at = coalesce r.revoked_at now } in
      let row = if t.family_id == family.id then revoked t else t in
      let found' : find (λ r. r.id == a) end.access_tokens ≡ some row =
        rw ((reuse-families family now clock db).1) (
          find-update_any a (λ r. r.family_id == family.id) revoked db.access_tokens t (λ r. refl)
            found) in
      let same : row.family_id ≡ family.id = elim (Bool-cases (t.family_id == family.id)) [
        | inl hit ↦ rw hit member
        | inr miss ↦ rw miss member
      ] in
      (
        end,
        rw (refresh, named, checked, transaction-ok (refresh_work env id now clock next) db worked)
            refl,
        access_locked' later clock' seen' end row found' same
            (reuse-IsRevoked family now clock db there),
      )
    where
      access_locked' :
          (later clock' : ℕ) (seen' end : DeviceTables) (row : AccessRow)
          → find (λ r. r.id == a) end.access_tokens ≡ some row
          → row.family_id ≡ family.id
          → IsRevoked family.id end
          → authenticate_access env raw' later clock' seen' end ≡ (none, end)
      access_locked' later clock' seen' end row found' same revoked =
          access-locked raw' later clock' seen' end a row named' found'
            (subst (λ k. IsRevoked k end) (sym same) revoked)
