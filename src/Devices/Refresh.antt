-- ===== src/Devices/Refresh.antt =====
-- apps/nehemiah/src/auth/device.ts, `refresh` and `revoke`. The tables as they were when the hash was
-- read, before the transaction, are an argument of their own; `clock` is `statement_timestamp()`.
pub mod Rotation
use nehemiah.Base.{
  ℕ, ◌+◌, ◌-◌, ◌*◌, ◌/◌, max, min, String, Bool, true, false, not, ◌&&◌, ◌||◌, List, [], ◌∷◌, ◌++◌,
  all, any, Option, none, some, find, update, leb, ltb, ◌==◌, string_eq, is_some, if◌then◌else◌,
  Result, ok, err, transaction,
}
use nehemiah.Devices.{
  Environment, rate_limited, Scope, MembershipRole, ErrorCode, DeviceError, DeviceRow, FamilyRow,
  RefreshRow, AccessRow, UserRow, DeviceOrganizationRow, DeviceTables, invalid_grant, slow_down,
  expired_token, refresh_reuse_detected, token_id, role_permits, is_member_of, audit, coalesce,
  revoked_family, revoke_access, revoke_grants, revoke_family, revoke_family_for_identity,
}
use nehemiah.Devices.Exchange.{Tokens, refusal, equal_digest, access_lifetime_ms, new_access}

abbrev pub minimum_refresh_interval_ms : ℕ
minimum_refresh_interval_ms = 10 * 60 * 1000

abbrev pub maximum_refresh_generation : ℕ
maximum_refresh_generation = 4095

-- a token with its family
abbrev pub refresh_family_of : DeviceTables → Option RefreshRow → Option (RefreshRow × FamilyRow)
refresh_family_of db none = none
refresh_family_of db (some token) = elim (find (λ f. f.id == token.family_id) db.families) [
  | none ↦ none
  | some family ↦ some (token, family)
]

abbrev pub refresh_joined : String → DeviceTables → Option (RefreshRow × FamilyRow)
refresh_joined id db = refresh_family_of db (find (λ t. t.id == id) db.refresh_tokens)

-- What the approver's row, the organization's and the membership say of a family: nothing if one of
-- the rows that the statement joins is missing.
abbrev pub identity_permits : FamilyRow → UserRow → DeviceOrganizationRow → DeviceTables → Bool
identity_permits family user organization db =
    not (is_some user.disabled_at)
    && not (is_some organization.disabled_at)
    && (elim (find (is_member_of user.id family.organization_id) db.members) [
      | none ↦ false
      | some m ↦ all (role_permits m.role) family.scopes
    ])

abbrev pub approver : FamilyRow → DeviceTables → Option String
approver family db = elim (find (λ d. d.id == family.device_authorization_id) db.devices) [
  | none ↦ none
  | some device ↦ device.approved_by
]

abbrev pub family_identity : FamilyRow → DeviceTables → Option Bool
family_identity family db = elim (approver family db) [
  | none ↦ none
  | some by ↦ elim (find (λ u. u.id == by) db.users) [
    | none ↦ none
    | some user ↦ elim (find (λ o. o.id == family.organization_id) db.organizations) [
      | none ↦ none
      | some organization ↦ some (identity_permits family user organization db)
    ]
  ]
]

pub data RefreshOutcome : Type 0 where
  error : ErrorCode → Option ℕ → RefreshOutcome
  -- with the seconds that the access token and the refresh token last
  refreshed : FamilyRow → ℕ → ℕ → RefreshOutcome

abbrev pub reused_family : ℕ → FamilyRow → FamilyRow
reused_family now f = record f {
  revoked_at = coalesce f.revoked_at now;
  reuse_detected_at = coalesce f.reuse_detected_at now;
}

-- a token that was used before
abbrev pub detect_reuse : FamilyRow → ℕ → ℕ → DeviceTables → DeviceTables
detect_reuse family now clock db =
    let db1 = record db {
      families = update (λ f. f.id == family.id) (reused_family now) db.families;
    } in
    let db2 = revoke_grants family clock (revoke_access family.id now db1) in
    if is_some family.reuse_detected_at
    then db2
    else audit "device_authorization.refresh_reuse_detected" "denied"
        (some "refresh_reuse_detected") family.id db2

-- Math.max(1, Math.ceil(ms / 1000))
abbrev pub seconds_up : ℕ → ℕ
seconds_up ms = max 1 ((ms + 999) / 1000)

-- Math.max(1, Math.floor(ms / 1000))
abbrev pub seconds_down : ℕ → ℕ
seconds_down ms = max 1 (ms / 1000)

abbrev pub exhaust : FamilyRow → ℕ → ℕ → DeviceTables → DeviceTables
exhaust family now clock db =
    audit "device_authorization.refresh_generation_exhausted" "denied"
      (some "refresh_generation_exhausted") family.id
      (revoke_grants family clock (revoke_access family.id now (revoke_family family.id now db)))

-- What is drawn at random for a rotation.
pub record NextTokens : Type 0 where
  pub refresh_id : String
  pub refresh_token : String
  pub access_id : String
  pub access_token : String

abbrev pub replaced : ℕ → String → RefreshRow → RefreshRow
replaced now next_id t = record t { used_at = some now; replaced_by = some next_id }

-- the conditions under which the family is locked
abbrev pub is_live_refresh : ℕ → RefreshRow × FamilyRow → Bool
is_live_refresh now pair =
    ltb now pair.0.expires_at && ltb now pair.1.expires_at && not (is_some pair.1.revoked_at)

module _ (env : Environment) where
  abbrev pub next_refresh : RefreshRow → FamilyRow → ℕ → NextTokens → RefreshRow
  next_refresh token family now next = record {
    id = next.refresh_id;
    family_id = family.id;
    generation = token.generation + 1;
    token_hash = env.digest next.refresh_token;
    created_at = now;
    expires_at = family.expires_at;
    used_at = none;
    replaced_by = none;
  }

  abbrev pub rotate :
      RefreshRow → FamilyRow → ℕ → NextTokens → DeviceTables → RefreshOutcome × DeviceTables
  rotate token family now next db =
      let access_expires_at = min (now + access_lifetime_ms) family.expires_at in
      let access = new_access env now next.access_id next.access_token family access_expires_at in
      let db1 = record db {
        refresh_tokens =
            update (λ t. t.id == token.id) (replaced now next.refresh_id)
              (db.refresh_tokens ++ next_refresh token family now next ∷ []);
        access_tokens = db.access_tokens ++ access ∷ [];
      } in
      (
        refreshed family (seconds_down (access_expires_at - now))
            (seconds_down (family.expires_at - now)),
        audit "device_authorization.refreshed" "succeeded" none family.id db1,
      )

  -- A token that was not used before. Where there is no room for a rotation the transaction fails
  -- before it has written anything.
  abbrev pub refresh_unused :
      RefreshRow
      → FamilyRow
      → ℕ
      → ℕ
      → NextTokens
      → DeviceTables
      → Option Bool
      → RefreshOutcome × DeviceTables
  refresh_unused token family now clock next db none = (error invalid_grant none, db)
  refresh_unused token family now clock next db (some false) =
      (error invalid_grant none, revoke_family_for_identity family now clock db)
  refresh_unused token family now clock next db (some true) =
      let next_at = token.created_at + minimum_refresh_interval_ms in
      if ltb now next_at
      then (error slow_down (some (seconds_up (next_at - now))), db)
      else (if leb maximum_refresh_generation token.generation
          then (error expired_token none, exhaust family now clock db)
          else (if env.has_capacity db
              then rotate token family now next db
              else (error rate_limited (some 60), db)))

  -- With the token and the family that the transaction reads. Its statement finds no row where it
  -- finds no family_identity.
  abbrev pub refresh_row :
      ℕ
      → ℕ
      → NextTokens
      → DeviceTables
      → Option (RefreshRow × FamilyRow)
      → RefreshOutcome × DeviceTables
  refresh_row now clock next db none = (error invalid_grant none, db)
  refresh_row now clock next db (some (token, family)) =
      if not (is_live_refresh now (token, family)) || not (is_some (family_identity family db))
      then (error invalid_grant none, db)
      else (if is_some token.used_at
          then (error refresh_reuse_detected none, detect_reuse family now clock db)
          else refresh_unused token family now clock next db (family_identity family db))

  abbrev pub refresh_work :
      String
      → ℕ
      → ℕ
      → NextTokens
      → DeviceTables
      → Result DeviceError (RefreshOutcome × DeviceTables)
  refresh_work id now clock next db = ok (refresh_row now clock next db (refresh_joined id db))

  abbrev pub refresh_answer :
      NextTokens
      → Result DeviceError RefreshOutcome × DeviceTables
      → Result DeviceError Tokens × DeviceTables
  refresh_answer next (err e, db) = (err e, db)
  refresh_answer next (ok (error code after), db) =
      (err (record { code = code; retry_after_seconds = after }), db)
  refresh_answer next (ok (refreshed family access_seconds refresh_seconds), db) = (
    ok (record {
      access_token = next.access_token;
      expires_in = access_seconds;
      refresh_token = next.refresh_token;
      refresh_expires_in = refresh_seconds;
      organization_id = family.organization_id;
      project_id = family.project_id;
      scopes = family.scopes;
    }),
    db,
  )

  -- the checks before the transaction
  abbrev pub early_error : ℕ → String → Option (RefreshRow × FamilyRow) → Option ErrorCode
  early_error now raw none = some invalid_grant
  early_error now raw (some (token, family)) =
      if not (token.token_hash == env.digest raw)
      then some invalid_grant
      else (if is_some family.reuse_detected_at
          then some refresh_reuse_detected
          else (if is_live_refresh now (token, family) then none else some invalid_grant))

  abbrev pub refresh_checked :
      String
      → ℕ
      → ℕ
      → NextTokens
      → DeviceTables
      → Option ErrorCode
      → Result DeviceError Tokens × DeviceTables
  refresh_checked id now clock next db (some code) = (err (refusal code), db)
  refresh_checked id now clock next db none =
      refresh_answer next (transaction (refresh_work id now clock next) db)

  abbrev pub refresh_found :
      String
      → ℕ
      → ℕ
      → NextTokens
      → DeviceTables
      → DeviceTables
      → Option String
      → Result DeviceError Tokens × DeviceTables
  refresh_found raw now clock next seen db none = (err (refusal invalid_grant), db)
  refresh_found raw now clock next seen db (some id) =
      refresh_checked id now clock next db (early_error now raw (refresh_joined id seen))

  unfoldable pub refresh :
      String
      → ℕ
      → ℕ
      → NextTokens
      → DeviceTables
      → DeviceTables
      → Result DeviceError Tokens × DeviceTables
  refresh raw now clock next seen db =
      refresh_found raw now clock next seen db (token_id "refresh" raw)

  abbrev pub revoke_row :
      ℕ → ℕ → DeviceTables → Option (RefreshRow × FamilyRow) → Bool × DeviceTables
  revoke_row now clock db none = (false, db)
  revoke_row now clock db (some (token, family)) =
      if is_live_refresh now (token, family)
      then (
        true,
        audit "device_authorization.revoked" "succeeded" none family.id (
            revoke_grants family clock
              (revoke_access family.id now (revoke_family family.id now db))),
      )
      else (false, db)

  abbrev pub may_revoke : ℕ → String → Option (RefreshRow × FamilyRow) → Bool
  may_revoke now raw none = false
  may_revoke now raw (some (token, family)) =
      is_live_refresh now (token, family) && token.token_hash == env.digest raw

  abbrev pub revoke_found :
      String → ℕ → ℕ → DeviceTables → DeviceTables → Option String → Bool × DeviceTables
  revoke_found raw now clock seen db none = (false, db)
  revoke_found raw now clock seen db (some id) =
      if may_revoke now raw (refresh_joined id seen)
      then revoke_row now clock db (refresh_joined id db)
      else (false, db)

  unfoldable pub revoke : String → ℕ → ℕ → DeviceTables → DeviceTables → Bool × DeviceTables
  revoke raw now clock seen db = revoke_found raw now clock seen db (token_id "refresh" raw)
