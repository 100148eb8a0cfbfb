-- ===== src/Devices/Exchange.antt =====
-- apps/nehemiah/src/auth/device.ts, `exchange`: a device code for the first tokens. The tables as they
-- were when the hash was read, before the transaction, are an argument of their own.
pub mod Once
use nehemiah.Base.{
  ℕ, ◌+◌, ◌*◌, min, String, Bool, true, false, not, ◌&&◌, ◌||◌, List, [], ◌∷◌, ◌++◌, all, Option,
  none, some, find, update, leb, ltb, ◌==◌, string_eq, nat_eq, if◌then◌else◌, Result, ok, err,
  ◌>>=◌, ◌>>◌, require, throw_if, transaction,
}
use nehemiah.Devices.{
  Scope, MembershipRole, ErrorCode, DeviceError, DeviceRow, FamilyRow, RefreshRow, AccessRow,
  DeviceTables, invalid_grant, authorization_pending, slow_down, access_denied, expired_token,
  missing_binding, pending, approved, denied, consumed, DeviceStatus, token_id, role_permits,
  current_role, audit, Environment, rate_limited,
}

abbrev pub access_lifetime_ms : ℕ
access_lifetime_ms = 15 * 60 * 1000

abbrev pub refresh_lifetime_ms : ℕ
refresh_lifetime_ms = 30 * 24 * 60 * 60 * 1000

-- What is drawn at random for a new login.
pub record NewTokens : Type 0 where
  pub family_id : String
  pub access_id : String
  pub access_token : String
  pub refresh_id : String
  pub refresh_token : String

pub record Tokens : Type 0 where
  pub access_token : String
  pub expires_in : ℕ
  pub refresh_token : String
  pub refresh_expires_in : ℕ
  pub organization_id : String
  pub project_id : String
  pub scopes : List Scope

-- what the transaction returns
pub data ExchangeOutcome : Type 0 where
  error : ErrorCode → Option ℕ → ExchangeOutcome
  granted : String → String → List Scope → ExchangeOutcome

abbrev pub set_device : String → (DeviceRow → DeviceRow) → DeviceTables → DeviceTables
set_device id f db = record db { devices = update (λ d. d.id == id) f db.devices }

abbrev pub polled_early : ℕ → ℕ → DeviceRow → DeviceRow
polled_early now interval d = record d {
  poll_interval_seconds = interval;
  next_poll_at = now + interval * 1000;
  poll_violations = d.poll_violations + 1;
}

abbrev pub poll : String → ℕ → DeviceRow → DeviceTables → ExchangeOutcome × DeviceTables
poll id now row db =
    if ltb now row.next_poll_at
    then (let interval = min 60 (row.poll_interval_seconds + 5) in
        (error slow_down (some interval), set_device id (polled_early now interval) db))
    else (
      error authorization_pending (some row.poll_interval_seconds),
      set_device id (λ d. record d { next_poll_at = now + row.poll_interval_seconds * 1000 }) db,
    )

abbrev pub invalidated : ℕ → DeviceRow → DeviceRow
invalidated now d = record d {
  status = denied;
  project_id = none;
  approved_scopes = none;
  authorized_at = none;
  denied_at = some now;
}

abbrev pub used_up : ℕ → DeviceRow → DeviceRow
used_up now d = record d { status = consumed; consumed_at = some now }

-- the tenant that an approved row is bound to
abbrev pub binding : DeviceRow → Option ((String × String) × (String × List Scope))
binding row = elim row.organization_id [
  | none ↦ none
  | some o ↦ elim row.project_id [
    | none ↦ none
    | some p ↦ elim row.approved_by [
      | none ↦ none
      | some by ↦ elim row.approved_scopes [
        | none ↦ none
        | some scopes ↦ some ((o, p), (by, scopes))
      ]
    ]
  ]
]

abbrev pub may_grant : Option MembershipRole → List Scope → Bool
may_grant none scopes = false
may_grant (some role) scopes = all (role_permits role) scopes

-- `equalDigest`, where hashes have the length of a digest
abbrev pub equal_digest : (String → String) → Option String → String → Bool
equal_digest digest none raw = false
equal_digest digest (some hash) raw = hash == digest raw

abbrev pub refusal : ErrorCode → DeviceError
refusal code = record { code = code; retry_after_seconds = none }

module _ (env : Environment) where
  abbrev pub new_family : String → ℕ → NewTokens → String → String → List Scope → FamilyRow
  new_family id now new organization_id project_id scopes = record {
    id = new.family_id;
    device_authorization_id = id;
    organization_id = organization_id;
    project_id = project_id;
    scopes = scopes;
    created_at = now;
    expires_at = now + refresh_lifetime_ms;
    revoked_at = none;
    reuse_detected_at = none;
  }

  abbrev pub first_refresh : ℕ → NewTokens → RefreshRow
  first_refresh now new = record {
    id = new.refresh_id;
    family_id = new.family_id;
    generation = 0;
    token_hash = env.digest new.refresh_token;
    created_at = now;
    expires_at = now + refresh_lifetime_ms;
    used_at = none;
    replaced_by = none;
  }

  abbrev pub new_access : ℕ → String → String → FamilyRow → ℕ → AccessRow
  new_access now access_id access_token family expires_at = record {
    id = access_id;
    family_id = family.id;
    organization_id = family.organization_id;
    project_id = family.project_id;
    scopes = family.scopes;
    token_hash = env.digest access_token;
    created_at = now;
    expires_at = expires_at;
    revoked_at = none;
    last_used_at = none;
  }

  abbrev pub grant :
      String
      → ℕ
      → NewTokens
      → String
      → String
      → List Scope
      → DeviceTables
      → ExchangeOutcome × DeviceTables
  grant id now new organization_id project_id scopes db =
      let family = new_family id now new organization_id project_id scopes in
      let access =
        new_access now new.access_id new.access_token family (now + access_lifetime_ms) in
      let db1 = record db {
        families = db.families ++ family ∷ [];
        refresh_tokens = db.refresh_tokens ++ first_refresh now new ∷ [];
        access_tokens = db.access_tokens ++ access ∷ [];
      } in
      (
        granted organization_id project_id scopes,
        audit "device_authorization.exchanged" "succeeded" none id
            (set_device id (used_up now) db1),
      )

  -- Where there is no room the transaction fails before it has written anything.
  abbrev pub exchange_approved :
      String
      → ℕ
      → NewTokens
      → DeviceTables
      → Option ((String × String) × (String × List Scope))
      → Result DeviceError (ExchangeOutcome × DeviceTables)
  exchange_approved id now new db none = err (refusal missing_binding)
  exchange_approved id now new db (some ((organization_id, project_id), (by, scopes))) =
      if may_grant (current_role by organization_id db) scopes
      then (if env.has_capacity db
          then ok (grant id now new organization_id project_id scopes db)
          else ok (error rate_limited (some 60), db))
      else ok (
        error access_denied none,
        audit "device_authorization.identity_invalidated" "denied" (some "identity_inactive") id
            (set_device id (invalidated now) db),
      )

  abbrev pub exchange_status :
      String
      → ℕ
      → NewTokens
      → DeviceTables
      → DeviceRow
      → DeviceStatus
      → Result DeviceError (ExchangeOutcome × DeviceTables)
  exchange_status id now new db row denied = ok (error access_denied none, db)
  exchange_status id now new db row consumed = ok (error invalid_grant none, db)
  exchange_status id now new db row pending = ok (poll id now row db)
  exchange_status id now new db row approved = exchange_approved id now new db (binding row)

  abbrev pub exchange_row :
      String
      → ℕ
      → NewTokens
      → DeviceTables
      → Option DeviceRow
      → Result DeviceError (ExchangeOutcome × DeviceTables)
  exchange_row id now new db none = ok (error expired_token none, db)
  exchange_row id now new db (some row) =
      if leb row.expires_at now
      then ok (error expired_token none, db)
      else exchange_status id now new db row row.status

  abbrev pub exchange_work :
      String → ℕ → NewTokens → DeviceTables → Result DeviceError (ExchangeOutcome × DeviceTables)
  exchange_work id now new db = exchange_row id now new db (find (λ d. d.id == id) db.devices)

  -- what follows the transaction
  abbrev pub exchange_answer :
      NewTokens
      → Result DeviceError ExchangeOutcome × DeviceTables
      → Result DeviceError Tokens × DeviceTables
  exchange_answer new (err e, db) = (err e, db)
  exchange_answer new (ok (error code interval), db) =
      (err (record { code = code; retry_after_seconds = interval }), db)
  exchange_answer new (ok (granted organization_id project_id scopes), db) = (
    ok (record {
      access_token = new.access_token;
      expires_in = 900;
      refresh_token = new.refresh_token;
      refresh_expires_in = 2592000;
      organization_id = organization_id;
      project_id = project_id;
      scopes = scopes;
    }),
    db,
  )

  abbrev pub device_hash : String → DeviceTables → Option String
  device_hash id seen = elim (find (λ d. d.id == id) seen.devices) [
    | none ↦ none
    | some d ↦ some d.device_token_hash
  ]

  abbrev pub exchange_found :
      String
      → ℕ
      → NewTokens
      → DeviceTables
      → DeviceTables
      → Option String
      → Result DeviceError Tokens × DeviceTables
  exchange_found raw now new seen db none = (err (refusal invalid_grant), db)
  exchange_found raw now new seen db (some id) =
      if equal_digest env.digest (device_hash id seen) raw
      then exchange_answer new (transaction (exchange_work id now new) db)
      else (err (refusal invalid_grant), db)

  unfoldable pub exchange :
      String
      → ℕ
      → NewTokens
      → DeviceTables
      → DeviceTables
      → Result DeviceError Tokens × DeviceTables
  exchange raw now new seen db = exchange_found raw now new seen db (token_id "device" raw)
