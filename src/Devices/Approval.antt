-- ===== src/Devices/Approval.antt =====
-- apps/nehemiah/src/auth/device.ts, `authorize`. The user code is an argument as
-- `normalizeUserCode` returns it, and so is the keyed hash of `#lookupDigest`.
pub mod Scopes
use nehemiah.Base.{
  ℕ, String, Bool, true, false, not, ◌&&◌, ◌||◌, List, [], ◌∷◌, ◌++◌, any, all, length, Option,
  none, some, find, update, leb, ltb, ◌==◌, string_eq, nat_eq, is_some, if◌then◌else◌, Result, ok,
  err, ◌>>=◌, ◌>>◌, require, throw_if, transaction,
}
use nehemiah.Base.Text.{is_uuid}
use nehemiah.Devices.{
  Scope, scope_beq, MembershipRole, ErrorCode, DeviceError, DeviceRow, DeviceTables, DeviceStatus,
  pending, approved, denied, consumed, invalid_request, invalid_grant, invalid_scope, access_denied,
  expired_token, rate_limited, role_permits, current_role, audit,
}
use nehemiah.Devices.Exchange.{set_device, refusal}
use nehemiah.Devices.Attempts.{AttemptRow, consume_actor}

pub record Authorization : Type 0 where
  pub code : Option String
  pub decision : String
  pub organization_id : String
  pub project_id : Option String
  -- `none` stands for a list that is missing, and for a member that is no scope
  pub scopes : Option (List Scope)
  pub clerk_user_id : String

abbrev pub includes : List Scope → Scope → Bool
includes scopes scope = any (scope_beq scope) scopes

-- [...new Set(scopes)], which keeps the first of each
abbrev pub unique_from : List Scope → List Scope → List Scope
unique_from seen [] = []
unique_from seen (s ∷ scopes) =
    if includes seen s then unique_from seen scopes else s ∷ unique_from (s ∷ seen) scopes

abbrev pub unique_scopes : List Scope → List Scope
unique_scopes = unique_from []

-- the lengths that `validScopes` tests; there are seven scopes
abbrev pub valid_scopes : Option (List Scope) → Option (List Scope)
valid_scopes none = none
valid_scopes (some scopes) =
    if ltb 0 (length scopes) && leb (length scopes) 7 then some scopes else none

-- the user of the membership, and its role
abbrev pub membership : String → String → DeviceTables → Option (String × MembershipRole)
membership clerk_user_id organization_id db =
    elim (find (λ u. u.clerk_user_id == clerk_user_id) db.users) [
      | none ↦ none
      | some user ↦ elim (current_role user.id organization_id db) [
        | none ↦ none
        | some role ↦ some (user.id, role)
      ]
    ]

abbrev pub denied_by : String → String → ℕ → DeviceRow → DeviceRow
denied_by organization_id member_id now d = record d {
  status = denied;
  organization_id = some organization_id;
  approved_by = some member_id;
  denied_at = some now;
}

abbrev pub approved_by_member : String → String → String → List Scope → ℕ → DeviceRow → DeviceRow
approved_by_member organization_id project_id member_id scopes now d = record d {
  status = approved;
  organization_id = some organization_id;
  project_id = some project_id;
  approved_by = some member_id;
  approved_scopes = some scopes;
  authorized_at = some now;
}

abbrev pub is_pending_device : DeviceStatus → Bool
is_pending_device pending = true
is_pending_device _ = false

-- a scope that was not requested, or that the role does not permit
abbrev pub exceeds_request : MembershipRole → DeviceRow → List Scope → Bool
exceeds_request role row =
    any (λ scope. not (includes row.requested_scopes scope) || not (role_permits role scope))

abbrev pub approve_with :
    Authorization
    → ℕ
    → DeviceTables
    → String × MembershipRole
    → DeviceRow
    → Option String
    → Option (List Scope)
    → Result DeviceError (Unit {0} × DeviceTables)
approve_with input now db member row (some project_id) (some given) =
    let scopes = unique_scopes given in
    throw_if (exceeds_request member.1 row scopes) (refusal invalid_scope)
    >> throw_if
        (not
          (any (λ p. p.id == project_id && p.organization_id == input.organization_id) db.projects))
        (refusal access_denied)
    >> ok (
      tt,
      audit "device_authorization.approved" "succeeded" none row.id (
          set_device row.id
            (approved_by_member input.organization_id project_id member.0 scopes now) db),
    )
approve_with input now db member row _ _ = err (refusal invalid_scope)

abbrev pub deny :
    Authorization → ℕ → DeviceTables → String × MembershipRole → DeviceRow → DeviceTables
deny input now db member row =
    audit "device_authorization.denied" "denied" (some "user_denied") row.id
      (set_device row.id (denied_by input.organization_id member.0 now) db)

module _ (lookup : String → String) where
  abbrev pub authorize_work :
      Authorization → String → ℕ → DeviceTables → Result DeviceError (Unit {0} × DeviceTables)
  authorize_work input code now db =
      require (membership input.clerk_user_id input.organization_id db) (refusal access_denied)
      >>= λ member.
          require (find (λ d. d.user_code_hash == lookup code) db.devices) (refusal expired_token)
          >>= λ row.
              throw_if (leb row.expires_at now) (refusal expired_token)
              >> throw_if (not (is_pending_device row.status)) (refusal invalid_grant)
              >> (if input.decision == "deny"
                  then ok (tt, deny input now db member row)
                  else approve_with input now db member row input.project_id
                      (valid_scopes input.scopes))

  abbrev pub lacks_project : Option String → Bool
  lacks_project none = true
  lacks_project (some project_id) = not (is_uuid project_id)

  unfoldable pub authorize :
      Authorization → ℕ → DeviceTables → Result DeviceError (Unit {0}) × DeviceTables
  authorize input now db = elim input.code [
    | none ↦ (err (refusal invalid_request), db)
    | some code ↦
        if not (input.decision == "approve" || input.decision == "deny")
          || (input.decision == "approve" && lacks_project input.project_id)
        then (err (refusal invalid_request), db)
        else transaction (authorize_work input code now) db
  ]

  -- The whole of `authorize`: an attempt of the actor is counted first.
  unfoldable pub authorize_limited :
      (AttemptRow → Bool)
      → Authorization
      → ℕ
      → List AttemptRow
      → DeviceTables
      → Result DeviceError (Unit {0}) × (List AttemptRow × DeviceTables)
  authorize_limited is_chosen input now attempts db =
      let (wait, attempts1) = consume_actor lookup is_chosen input.clerk_user_id now attempts in
      elim wait [
        | some seconds ↦ (
          err (record { code = rate_limited; retry_after_seconds = some seconds }),
          (attempts1, db),
        )
        | none ↦ let (answer, db1) = authorize input now db in (answer, (attempts1, db1))
      ]
