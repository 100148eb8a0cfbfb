-- ===== src/Devices/Issue.antt =====
-- apps/nehemiah/src/auth/device.ts, `issue` and `inspect`. The identifier and the codes that an attempt
-- draws are arguments.
use nehemiah.Base.{
  ℕ, ◌+◌, ◌*◌, String, Bool, not, ◌||◌, List, [], ◌∷◌, ◌++◌, any, Option, none, some, find, leb,
  ◌==◌, string_eq, if◌then◌else◌, Result, ok, err,
}
use nehemiah.Devices.{
  Environment, Scope, DeviceError, DeviceRow, DeviceTables, pending, audit, invalid_request,
  invalid_client, invalid_scope, invalid_grant, expired_token, rate_limited, unique_violation,
}
use nehemiah.Devices.Exchange.{refusal}
use nehemiah.Devices.Approval.{valid_scopes, unique_scopes, is_pending_device}
use nehemiah.Devices.Attempts.{AttemptRow, consume_issue, consume_actor}

pub record IssueRequest : Type 0 where
  pub client_id : String
  -- `none` stands for a member that is no scope
  pub scopes : Option (List Scope)
  pub source : String

-- What an attempt draws: the user code is normalised.
pub record Draw : Type 0 where
  pub id : String
  pub device_code : String
  pub user_code : String

-- the response, but for the addresses
pub record DeviceCode : Type 0 where
  pub device_code : String
  pub user_code : String
  pub expires_in : ℕ
  pub interval : ℕ
  pub scopes : List Scope

abbrev pub limited : ℕ → DeviceError
limited seconds = record { code = rate_limited; retry_after_seconds = some seconds }

module _ (env : Environment) (lookup : String → String) where
  abbrev pub new_device : IssueRequest → List Scope → Draw → ℕ → DeviceRow
  new_device request scopes draw now = record {
    id = draw.id;
    device_token_hash = env.digest draw.device_code;
    user_code_hash = lookup draw.user_code;
    client_id = request.client_id;
    requested_scopes = scopes;
    approved_scopes = none;
    status = pending;
    organization_id = none;
    project_id = none;
    approved_by = none;
    expires_at = now + 10 * 60 * 1000;
    poll_interval_seconds = 5;
    next_poll_at = now + 5 * 1000;
    poll_violations = 0;
    authorized_at = none;
    denied_at = none;
    consumed_at = none;
  }

  -- a unique constraint that the row breaks
  abbrev pub is_taken : DeviceRow → DeviceRow → Bool
  is_taken row d =
      d.id == row.id
      || d.device_token_hash == row.device_token_hash
      || d.user_code_hash == row.user_code_hash

  abbrev pub device_code : List Scope → Draw → DeviceCode
  device_code scopes draw = record {
    device_code = draw.device_code;
    user_code = draw.user_code;
    expires_in = 600;
    interval = 5;
    scopes = scopes;
  }

  -- The attempts, one for each draw; only a code that is taken is drawn again.
  unfoldable pub issue_attempts :
      IssueRequest
      → List Scope
      → ℕ
      → DeviceTables
      → List Draw
      → Result DeviceError DeviceCode × DeviceTables
  issue_attempts request scopes now db [] = (err (refusal unique_violation), db)
  issue_attempts request scopes now db (draw ∷ draws) =
      let row = new_device request scopes draw now in
      let rest = issue_attempts request scopes now db draws in
      if not (env.has_capacity db)
      then (err (limited 60), db)
      else (if any (is_taken row) db.devices then rest else (
        ok (device_code scopes draw),
        audit "device_authorization.requested" "requested" none draw.id
            (record db { devices = db.devices ++ row ∷ [] }),
      ))

  abbrev pub issue_checked :
      IssueRequest → ℕ → DeviceTables → List Draw → Result DeviceError DeviceCode × DeviceTables
  issue_checked request now db draws =
      if not (request.client_id == "nehemiah-cli")
      then (err (refusal invalid_client), db)
      else (elim (valid_scopes request.scopes) [
        | none ↦ (err (refusal invalid_scope), db)
        | some scopes ↦ issue_attempts request (unique_scopes scopes) now db draws
      ])

  -- with the five draws that the attempts make
  unfoldable pub issue :
      (AttemptRow → Bool)
      → IssueRequest
      → ℕ
      → List Draw
      → List AttemptRow
      → DeviceTables
      → Result DeviceError DeviceCode × (List AttemptRow × DeviceTables)
  issue is_chosen request now draws attempts db =
      let (wait, attempts1) = consume_issue lookup is_chosen request.source now attempts in
      elim wait [
        | some seconds ↦ (err (limited seconds), (attempts1, db))
        | none ↦
            let (answer, db1) = issue_checked request now db draws in (answer, (attempts1, db1))
      ]

module _ (lookup : String → String) where
  abbrev pub inspect_row : ℕ → Option DeviceRow → Result DeviceError DeviceRow
  inspect_row now none = err (refusal expired_token)
  inspect_row now (some row) =
      if leb row.expires_at now
      then err (refusal expired_token)
      else (if is_pending_device row.status then ok row else err (refusal invalid_grant))

  -- The row of a pending request, of which the client, the scopes and the expiry are returned. The
  -- user code is as `normalizeUserCode` returns it.
  unfoldable pub inspect :
      (AttemptRow → Bool)
      → Option String
      → String
      → ℕ
      → List AttemptRow
      → DeviceTables
      → Result DeviceError DeviceRow × List AttemptRow
  inspect is_chosen code actor_id now attempts db =
      let (wait, attempts1) = consume_actor lookup is_chosen actor_id now attempts in
      elim wait [
        | some seconds ↦ (err (limited seconds), attempts1)
        | none ↦ elim code [
          | none ↦ (err (refusal invalid_request), attempts1)
          | some code ↦
              (inspect_row now (find (λ d. d.user_code_hash == lookup code) db.devices), attempts1)
        ]
      ]
