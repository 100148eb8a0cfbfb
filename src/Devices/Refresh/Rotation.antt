-- ===== src/Devices/Refresh/Rotation.antt =====
-- A refresh token is used once.
use mathlib.Core.Path.{subst}
use nehemiah.Base.{
  ℕ, ◌+◌, ◌≡◌, refl, sym, ap, ◌∙◌, inl, inr, String, Bool, true, false, not, ◌||◌, [], ◌∷◌, ◌++◌,
  Option, none, some, find, find-update, find-append, find-test, leb, ltb, ◌==◌, string_eq, eq_iff,
  is_some, Bool-cases, Option-cases, Result, ok, err, ok-injective, arith, transaction-eq-ok,
  transaction-ok,
}
use nehemiah.Devices.{
  Environment, ErrorCode, DeviceError, FamilyRow, RefreshRow, DeviceTables, invalid_grant,
  refresh_reuse_detected, token_id,
}
use nehemiah.Devices.Exchange.{Tokens, refusal}
use nehemiah.Devices.Refresh.{
  NextTokens, RefreshOutcome, error, refreshed, refresh, refresh_work, refresh_row, refresh_unused,
  rotate, replaced, next_refresh, refresh_answer, early_error, refresh_joined, refresh_family_of,
  family_identity, is_live_refresh, detect_reuse, minimum_refresh_interval_ms,
  maximum_refresh_generation,
}

abbrev token_for : String → DeviceTables → Option RefreshRow
token_for id db = find (λ t. t.id == id) db.refresh_tokens

-- A refresh token that has been used.
abbrev IsUsed : String → DeviceTables → Type 0
IsUsed id db = (t : RefreshRow) × (token_for id db ≡ some t) × (is_some t.used_at ≡ true)

refresh_family_of-token :
    (db : DeviceTables) (o : Option RefreshRow) {token : RefreshRow} {family : FamilyRow}
    → refresh_family_of db o ≡ some (token, family)
    → o ≡ some token
refresh_family_of-token db none h = cc
refresh_family_of-token db (some t) {token} {family} h =
    elim (Option-cases (find (λ f. f.id == t.family_id) db.families)) [
      | inl missing ↦ let h' = rw (refresh_family_of, missing) at h in cc
      | inr (f, found) ↦ let h' = rw (refresh_family_of, found) at h in cc
    ]

module _ (env : Environment) where
  module _ (id : String) (now clock : ℕ) (next : NextTokens) (db db' : DeviceTables) (f : FamilyRow)
      (a r : ℕ) where
    rotate-IsUsed :
        (token : RefreshRow) (family : FamilyRow)
        → token_for id db ≡ some token
        → IsUsed id (rotate env token family now next db).1
    rotate-IsUsed token family found =
        let here = find-test (λ t. t.id == id) db.refresh_tokens found in
        let same : token.id ≡ id = ground (arith, eq_iff token.id id) in
        (
          replaced now next.refresh_id token,
          find-update (λ t. t.id == id) (λ t. t.id == token.id) (replaced now next.refresh_id)
              (db.refresh_tokens ++ next_refresh env token family now next ∷ [])
              (λ t other. rw same other) (λ t. refl)
              (find-append (λ t. t.id == id) db.refresh_tokens _ found)
              (ground (arith, eq_iff token.id token.id)),
          refl,
        )

    unused-IsUsed :
        (token : RefreshRow) (family : FamilyRow) (permits : Option Bool)
        → token_for id db ≡ some token
        → refresh_unused env token family now clock next db permits ≡ (refreshed f a r, db')
        → IsUsed id db'
    unused-IsUsed token family none found h = cc
    unused-IsUsed token family (some false) found h = cc
    unused-IsUsed token family (some true) found h =
        elim (Bool-cases (ltb now (token.created_at + minimum_refresh_interval_ms))) [
          | inl soon ↦ let h' = rw soon at h in cc
          | inr due ↦ elim (Bool-cases (leb maximum_refresh_generation token.generation)) [
            | inl last ↦ let h' = rw (due, last) at h in cc
            | inr more ↦ elim (Bool-cases (env.has_capacity db)) [
              | inr full ↦ let h' = rw (due, more, full) at h in cc
              | inl room ↦
                  subst (IsUsed id) (ap (λ x. x.1) (rw (due, more, room) at h))
                    (rotate-IsUsed token family found)
            ]
          ]
        ]

    -- A rotation that succeeds marks the token.
    row-IsUsed :
        (pair : Option (RefreshRow × FamilyRow))
        → refresh_joined id db ≡ pair
        → refresh_row env now clock next db pair ≡ (refreshed f a r, db')
        → IsUsed id db'
    row-IsUsed none read h = cc
    row-IsUsed (some (token, family)) read h =
        let found = refresh_family_of-token db (token_for id db) read in
        elim (Bool-cases (
          not (is_live_refresh now (token, family)) || not (is_some (family_identity family db)))) [
            | inl dead ↦ let h' = rw dead at h in cc
            | inr live ↦ elim (Bool-cases (is_some token.used_at)) [
              | inl used ↦ let h' = rw (live, used) at h in cc
              | inr unused ↦
                  unused-IsUsed token family (family_identity family db) found
                    (rw (live, unused) at h)
            ]
          ]

  used-refused :
      (id : String) (now clock : ℕ) (next : NextTokens) (db : DeviceTables)
      (pair : Option (RefreshRow × FamilyRow))
      → refresh_joined id db ≡ pair
      → IsUsed id db
      → (code : ErrorCode) × (end : DeviceTables) × (refresh_row env now clock next db pair
          ≡ (error code none, end))
  used-refused id now clock next db none read used = (invalid_grant, db, refl)
  used-refused id now clock next db (some (token, family)) read (t, found, used) =
      let same : ◌≡◌ {A = Option RefreshRow} (some t) (some token) =
        sym found ∙ refresh_family_of-token db (token_for id db) read in
      let equal : t ≡ token = cc in
      let used' = subst (λ x. is_some x.used_at ≡ true) equal used in
      elim (Bool-cases
        (not (is_live_refresh now (token, family)) || not (is_some (family_identity family db)))) [
          | inl dead ↦ (invalid_grant, db, rw dead refl)
          | inr live ↦
              (refresh_reuse_detected, detect_reuse family now clock db, rw (live, used') refl)
        ]

  refreshed-by :
      (next : NextTokens) (call : Result DeviceError RefreshOutcome × DeviceTables)
      {tokens : Tokens} {db' : DeviceTables}
      → refresh_answer env next call ≡ (ok tokens, db')
      → (f : FamilyRow) × (a : ℕ) × (r : ℕ) × (call ≡ (ok (refreshed f a r), db'))
  refreshed-by next (err e, db) h = cc
  refreshed-by next (ok (error code after), db) h = cc
  refreshed-by next (ok (refreshed f a r), db) h =
      (f, a, r, ap (λ d. (ok (refreshed f a r), d)) (ap (λ x. x.1) h))

  -- A refresh token yields tokens once: after a rotation that succeeded, each later one of the same
  -- token fails, at whatever time, and whatever the tables were when the token was looked up.
  pub refresh-once :
      (raw : String) (now later clock clock' : ℕ) (next other : NextTokens)
      (seen seen' db db' : DeviceTables) (tokens : Tokens)
      → refresh env raw now clock next seen db ≡ (ok tokens, db')
      → (e : DeviceError) × (end : DeviceTables) × (refresh env raw later clock' other seen' db'
          ≡ (err e, end))
  unfolding refresh
  refresh-once raw now later clock clock' next other seen seen' db db' tokens h =
      elim (Option-cases (token_id "refresh" raw)) [
        | inl no_token ↦ let h' = rw no_token at h in cc
        | inr (id, token) ↦ elim (Option-cases (early_error env now raw (refresh_joined id seen))) [
          | inr (code, wrong) ↦ let h' = rw (token, wrong) at h in cc
          | inl right ↦
              let (f, a, r, ended) = refreshed-by next _ (rw (token, right) at h) in
              let worked = transaction-eq-ok (refresh_work env id now clock next) db ended in
              let used =
                row-IsUsed id now clock next db db' f a r (refresh_joined id db) refl
                  (ok-injective worked) in
              elim (Option-cases (early_error env later raw (refresh_joined id seen'))) [
                | inr (code, early) ↦ (refusal code, db', rw (refresh, token, early) refl)
                | inl checked ↦
                    let (code, end, refused) =
                      used-refused id later clock' other db' (refresh_joined id db') refl used in
                    let worked' : refresh_work env id later clock' other db'
                        ≡ ok (error code none, end) =
                      ap (λ x. ok x) refused in
                    (
                      refusal code,
                      end,
                      rw
                          (
                            refresh,
                            token,
                            checked,
                            transaction-ok (refresh_work env id later clock' other) db' worked',
                          )
                          refl,
                    )
              ]
        ]
      ]
