-- ===== src/Devices.antt =====
-- apps/nehemiah/src/auth/device.ts: authorization of a device, and the tokens that it yields. Dates are
-- milliseconds. Hashes are texts, of the length that the digest has. A token that `randomUUID` and
-- `randomBytes` make is an argument.
pub mod Attempts
pub mod Issue
pub mod Approval
pub mod Exchange
pub mod Refresh
pub mod Access
pub mod Tests
use Prim.Native.String
use nehemiah.Base.{
  ℕ, zero, suc, ◌+◌, ◌*◌, String, Bool, true, false, not, ◌&&◌, ◌||◌, List, [], ◌∷◌, ◌++◌, all, any,
  length, replicate, Option, none, some, find, update, select, leb, ltb, ◌==◌, string_eq, nat_eq,
  is_some, if◌then◌else◌,
}
use nehemiah.Base.Text.{
  codes, is_hex, is_dash, is_uuid_version, is_uuid_variant, is_alphanumeric, matches_classes,
}

pub data Scope : Type 0 where
  machines_read machines_write templates_read templates_write volumes_read volumes_write
        billing_read :
      Scope

abbrev pub scope_beq : Scope → Scope → Bool
scope_beq machines_read machines_read = true
scope_beq machines_write machines_write = true
scope_beq templates_read templates_read = true
scope_beq templates_write templates_write = true
scope_beq volumes_read volumes_read = true
scope_beq volumes_write volumes_write = true
scope_beq billing_read billing_read = true
scope_beq _ _ = false

pub data MembershipRole : Type 0 where
  owner admin member billing : MembershipRole

pub data ErrorCode : Type 0 where
  invalid_request invalid_scope invalid_grant authorization_pending slow_down : ErrorCode
  access_denied expired_token refresh_reuse_detected invalid_client rate_limited : ErrorCode
  -- the exception of PostgreSQL on a code that is taken
  unique_violation : ErrorCode
  -- the exception on an approved row without its tenant
  missing_binding : ErrorCode

-- the code and the interval to retry after
pub record DeviceError : Type 0 where
  pub code : ErrorCode
  pub retry_after_seconds : Option ℕ

pub data DeviceStatus : Type 0 where
  pending approved denied consumed : DeviceStatus

pub record DeviceRow : Type 0 where
  pub id : String
  pub device_token_hash : String
  pub user_code_hash : String
  pub client_id : String
  pub requested_scopes : List Scope
  pub approved_scopes : Option (List Scope)
  pub status : DeviceStatus
  pub organization_id : Option String
  pub project_id : Option String
  pub approved_by : Option String
  pub expires_at : ℕ
  pub poll_interval_seconds : ℕ
  pub next_poll_at : ℕ
  pub poll_violations : ℕ
  pub authorized_at : Option ℕ
  pub denied_at : Option ℕ
  pub consumed_at : Option ℕ

pub record FamilyRow : Type 0 where
  pub id : String
  pub device_authorization_id : String
  pub organization_id : String
  pub project_id : String
  pub scopes : List Scope
  pub created_at : ℕ
  pub expires_at : ℕ
  pub revoked_at : Option ℕ
  pub reuse_detected_at : Option ℕ

pub record RefreshRow : Type 0 where
  pub id : String
  pub family_id : String
  pub generation : ℕ
  pub token_hash : String
  pub created_at : ℕ
  pub expires_at : ℕ
  pub used_at : Option ℕ
  pub replaced_by : Option String

pub record AccessRow : Type 0 where
  pub id : String
  pub family_id : String
  pub organization_id : String
  pub project_id : String
  pub scopes : List Scope
  pub token_hash : String
  pub created_at : ℕ
  pub expires_at : ℕ
  pub revoked_at : Option ℕ
  pub last_used_at : Option ℕ

pub record GrantRow : Type 0 where
  pub issuer_type : String
  pub issuer_id : String
  pub organization_id : String
  pub expires_at : ℕ
  pub revoked_at : Option ℕ

pub record UserRow : Type 0 where
  pub id : String
  pub clerk_user_id : String
  pub disabled_at : Option ℕ

pub record DeviceOrganizationRow : Type 0 where
  pub id : String
  pub disabled_at : Option ℕ

pub record MemberRow : Type 0 where
  pub user_id : String
  pub organization_id : String
  pub role : MembershipRole

pub record DeviceProjectRow : Type 0 where
  pub id : String
  pub organization_id : String

pub record DeviceAuditRow : Type 0 where
  pub action : String
  pub outcome : String
  pub reason_code : Option String
  pub resource_id : String

pub record DeviceTables : Type 0 where
  pub devices : List DeviceRow
  pub families : List FamilyRow
  pub refresh_tokens : List RefreshRow
  pub access_tokens : List AccessRow
  pub grants : List GrantRow
  pub users : List UserRow
  pub organizations : List DeviceOrganizationRow
  pub members : List MemberRow
  pub projects : List DeviceProjectRow
  pub audit_events : List DeviceAuditRow

-- SHA-256, and whether the triggers of the database leave room for the rows of a login.
pub record Environment : Type 0 where
  pub digest : String → String
  pub has_capacity : DeviceTables → Bool

abbrev pub audit : String → String → Option String → String → DeviceTables → DeviceTables
audit action outcome reason_code resource_id db = record db {
  audit_events =
      db.audit_events
      ++ record {
        action = action;
        outcome = outcome;
        reason_code = reason_code;
        resource_id = resource_id;
      }
        ∷ [];
}

abbrev pub role_permits : MembershipRole → Scope → Bool
role_permits owner scope = true
role_permits admin scope = true
role_permits billing scope = scope_beq scope billing_read
role_permits member scope =
    scope_beq scope machines_read
    || scope_beq scope machines_write
    || scope_beq scope templates_read
    || scope_beq scope volumes_read
    || scope_beq scope volumes_write

-- [A-Za-z0-9_-]
abbrev is_token_code : ℕ → Bool
is_token_code c = is_alphanumeric c || c == b'_' || is_dash c

abbrev pub drop_text : ℕ → String → String
drop_text zero text = text
drop_text (suc n) String.[] = String.[]
drop_text (suc n) (String.◌∷◌ c text) = drop_text n text

abbrev pub take_text : ℕ → String → String
take_text zero text = String.[]
take_text (suc n) String.[] = String.[]
take_text (suc n) (String.◌∷◌ c text) = String.◌∷◌ c (take_text n text)

abbrev uuid_classes : List (ℕ → Bool)
uuid_classes =
    replicate 8 is_hex
    ++ is_dash ∷ replicate 4 is_hex
    ++ is_dash ∷ is_uuid_version ∷ replicate 3 is_hex
    ++ is_dash ∷ is_uuid_variant ∷ replicate 3 is_hex
    ++ is_dash ∷ replicate 12 is_hex

-- a letter under the flag i, given in lower case
abbrev is_letter : ℕ → ℕ → Bool
is_letter letter c = c == letter || c + 32 == letter

abbrev literal_classes : List ℕ → List (ℕ → Bool)
literal_classes [] = []
literal_classes (c ∷ cs) =
    (if c == b'_' then (λ d. d == b'_') else is_letter c) ∷ literal_classes cs

-- The identifier in a token of the form bc_<kind>_<identifier>_<secret>.
unfoldable pub token_id : String → String → Option String
token_id kind raw =
    let prefix = String.◌++◌ "bc_" (String.◌++◌ kind "_") in
    let classes =
      literal_classes (codes prefix)
      ++ uuid_classes
      ++ (λ c. c == b'_') ∷ replicate 43 is_token_code in
    if matches_classes classes (codes raw)
    then some (take_text 36 (drop_text (length (codes prefix)) raw))
    else none

-- membership of a user that is not disabled in an organization that is not
abbrev pub is_member_of : String → String → MemberRow → Bool
is_member_of user_id organization_id m =
    m.user_id == user_id && m.organization_id == organization_id

abbrev pub active_user : String → DeviceTables → Bool
active_user user_id db = any (λ u. u.id == user_id && not (is_some u.disabled_at)) db.users

abbrev pub active_organization : String → DeviceTables → Bool
active_organization organization_id db =
    any (λ o. o.id == organization_id && not (is_some o.disabled_at)) db.organizations

-- The role of a user in an organization, while neither is disabled.
abbrev pub current_role : String → String → DeviceTables → Option MembershipRole
current_role user_id organization_id db =
    if active_user user_id db && active_organization organization_id db
    then (elim (find (is_member_of user_id organization_id) db.members) [
      | none ↦ none
      | some m ↦ some m.role
    ])
    else none

abbrev pub coalesce : Option ℕ → ℕ → Option ℕ
coalesce (some a) b = some a
coalesce none b = some b

abbrev pub revoked_family : ℕ → FamilyRow → FamilyRow
revoked_family now f = record f { revoked_at = coalesce f.revoked_at now }

abbrev pub revoke_access : String → ℕ → DeviceTables → DeviceTables
revoke_access family_id now db = record db {
  access_tokens =
      update (λ t. t.family_id == family_id)
        (λ t. record t { revoked_at = coalesce t.revoked_at now }) db.access_tokens;
}

-- WHERE issuer_type = 'device_family' AND issuer_id = … AND organization_id = …
abbrev pub is_family_grant : FamilyRow → GrantRow → Bool
is_family_grant family g =
    g.issuer_type == "device_family"
    && g.issuer_id == family.id
    && g.organization_id == family.organization_id

abbrev pub revoked_grant : ℕ → GrantRow → GrantRow
revoked_grant clock g = record g { revoked_at = coalesce g.revoked_at clock }

-- AND expires_at > statement_timestamp()
abbrev pub revoke_grants : FamilyRow → ℕ → DeviceTables → DeviceTables
revoke_grants family clock db = record db {
  grants =
      update (λ g. is_family_grant family g && ltb clock g.expires_at) (revoked_grant clock)
        db.grants;
}

abbrev pub revoke_family : String → ℕ → DeviceTables → DeviceTables
revoke_family id now db = record db {
  families = update (λ f. f.id == id) (revoked_family now) db.families;
}

unfoldable pub revoke_family_for_identity : FamilyRow → ℕ → ℕ → DeviceTables → DeviceTables
revoke_family_for_identity family now clock db =
    let open_families = select (λ f. f.id == family.id && not (is_some f.revoked_at)) db.families in
    let db1 = revoke_access family.id now (revoke_family family.id now db) in
    let db2 = record db1 {
      grants =
          update (λ g. is_family_grant family g && not (is_some g.revoked_at)) (revoked_grant clock)
            db1.grants;
    } in
    elim open_families [
      | [] ↦ db2
      | f ∷ fs ↦
          audit "device_authorization.identity_invalidated" "denied" (some "identity_inactive")
            family.id db2
    ]
