-- ===== src/Devices/Access.antt =====
-- apps/nehemiah/src/auth/device.ts, `authenticateAccess`. The tables as they were when the hash was
-- read, before the transaction, are an argument of their own; `clock` is `statement_timestamp()`.
pub mod Lockout
use nehemiah.Base.{
  ℕ, String, Bool, true, false, not, ◌&&◌, ◌||◌, List, [], ◌∷◌, Option, none, some, find, update,
  ltb, ◌==◌, string_eq, is_some, if◌then◌else◌,
}
use nehemiah.Devices.{
  Environment, Scope, FamilyRow, AccessRow, DeviceTables, token_id, revoke_family_for_identity,
}
use nehemiah.Devices.Refresh.{family_identity}

pub record DevicePrincipal : Type 0 where
  pub access_id : String
  pub device_family_id : String
  pub organization_id : String
  pub project_id : String
  pub scopes : List Scope

abbrev pub access_family_of : DeviceTables → Option AccessRow → Option (AccessRow × FamilyRow)
access_family_of db none = none
access_family_of db (some token) = elim (find (λ f. f.id == token.family_id) db.families) [
  | none ↦ none
  | some family ↦ some (token, family)
]

abbrev pub access_joined : String → DeviceTables → Option (AccessRow × FamilyRow)
access_joined id db = access_family_of db (find (λ t. t.id == id) db.access_tokens)

abbrev pub is_live_access : ℕ → AccessRow × FamilyRow → Bool
is_live_access now pair =
    ltb now pair.0.expires_at
    && not (is_some pair.0.revoked_at)
    && ltb now pair.1.expires_at
    && not (is_some pair.1.revoked_at)

abbrev pub principal : AccessRow → FamilyRow → DevicePrincipal
principal token family = record {
  access_id = token.id;
  device_family_id = family.id;
  organization_id = token.organization_id;
  project_id = token.project_id;
  scopes = token.scopes;
}

abbrev pub last_used : String → ℕ → DeviceTables → DeviceTables
last_used id now db = record db {
  access_tokens =
      update (λ t. t.id == id) (λ t. record t { last_used_at = some now }) db.access_tokens;
}

module _ (env : Environment) where
  abbrev pub is_valid : ℕ → String → Option (AccessRow × FamilyRow) → Bool
  is_valid now raw none = false
  is_valid now raw (some (token, family)) =
      is_live_access now (token, family) && token.token_hash == env.digest raw

  abbrev pub authenticate_identity :
      AccessRow
      → FamilyRow
      → ℕ
      → ℕ
      → DeviceTables
      → Option Bool
      → Option DevicePrincipal × DeviceTables
  authenticate_identity token family now clock db none = (none, db)
  authenticate_identity token family now clock db (some false) =
      (none, revoke_family_for_identity family now clock db)
  authenticate_identity token family now clock db (some true) =
      (some (principal token family), last_used token.id now db)

  abbrev pub authenticate_row :
      String
      → ℕ
      → ℕ
      → DeviceTables
      → Option (AccessRow × FamilyRow)
      → Option DevicePrincipal × DeviceTables
  authenticate_row raw now clock db none = (none, db)
  authenticate_row raw now clock db (some (token, family)) =
      if is_valid now raw (some (token, family))
      then authenticate_identity token family now clock db (family_identity family db)
      else (none, db)

  abbrev pub authenticate_found :
      String
      → ℕ
      → ℕ
      → DeviceTables
      → DeviceTables
      → Option String
      → Option DevicePrincipal × DeviceTables
  authenticate_found raw now clock seen db none = (none, db)
  authenticate_found raw now clock seen db (some id) =
      if is_valid now raw (access_joined id seen)
      then authenticate_row raw now clock db (access_joined id db)
      else (none, db)

  unfoldable pub authenticate_access :
      String → ℕ → ℕ → DeviceTables → DeviceTables → Option DevicePrincipal × DeviceTables
  authenticate_access raw now clock seen db =
      authenticate_found raw now clock seen db (token_id "access" raw)
