-- ===== src/Devices/Approval/Scopes.antt =====
-- What an approval grants.
use nehemiah.Base.{
  ℕ, ◌<◌, ◌≡◌, refl, sym, ap, Memᴰ, find-Memᴰ, Option-cases, require-eq-ok, transaction-eq-ok, ◌>>◌,
  leb, inl, inr, String, Bool, true, false, not, ◌&&◌, ◌||◌, List, [], ◌∷◌, any, Option, none, some,
  find, update, ◌==◌, string_eq, Bool-cases, if◌then◌else◌, Result, ok, >>=-eq-ok, ok-injective,
  require, throw_if, arith, All,
}
use nehemiah.Devices.{
  DeviceError, DeviceStatus, pending, approved, denied, consumed, expired_token, invalid_grant,
  Scope, MembershipRole, DeviceRow, DeviceTables, role_permits, invalid_scope, access_denied,
}
use nehemiah.Devices.Exchange.{refusal}
use nehemiah.Devices.Approval.{
  Authorization, includes, unique_scopes, exceeds_request, approve_with, approved_by_member,
  membership, is_pending_device, valid_scopes, authorize, authorize_work, lacks_project,
}

-- Each scope was requested and is permitted to the role.
abbrev pub AreWithin : MembershipRole → DeviceRow → List Scope → Type 0
AreWithin role row =
    All (λ scope. (includes row.requested_scopes scope ≡ true) × (role_permits role scope ≡ true))

within :
    (role : MembershipRole) (row : DeviceRow) (scopes : List Scope)
    → exceeds_request role row scopes ≡ false
    → AreWithin role row scopes
within role row [] h = tt
within role row (s ∷ scopes) h =
    ((ground arith, ground arith), within role row scopes (ground arith))

-- What an approval that succeeds has found and written.
pub record IsApproved (input : Authorization) (now : ℕ) (before after : DeviceTables) : Type 0 where
  pub member : String × MembershipRole
  pub row : DeviceRow
  pub project_id : String
  pub scopes : List Scope
  pub is_member : membership input.clerk_user_id input.organization_id before ≡ some member
  pub is_listed : Memᴰ row before.devices
  pub was_pending : row.status ≡ pending
  pub was_current : now < row.expires_at
  pub are_within : AreWithin member.1 row scopes
  pub written :
      after.devices
      ≡ update
          (λ d. d.id == row.id)
          (approved_by_member input.organization_id project_id member.0 scopes now)
          before.devices

throw_if-passed :
    (test : Bool) (e : DeviceError) {u : Unit {0}}
    → ◌≡◌ {A = Result DeviceError (Unit {0})} (throw_if test e) (ok u)
    → test ≡ false
throw_if-passed true e h = cc
throw_if-passed false e h = refl

otherwise :
    {A : Type 0} (test : Bool) (one other : A) {result : A}
    → test ≡ false
    → (if test then one else other) ≡ result
    → other ≡ result
otherwise true one other fails h = cc
otherwise false one other fails h = h

pending-status : (s : DeviceStatus) → not (is_pending_device s) ≡ false → s ≡ pending
pending-status pending h = refl
pending-status approved h = cc
pending-status denied h = cc
pending-status consumed h = cc

module _ (input : Authorization) (now : ℕ) (db db' : DeviceTables) where
  approve-IsApproved :
      (member : String × MembershipRole) (row : DeviceRow) (project : Option String)
      (given : Option (List Scope)) {u : Unit {0}}
      → membership input.clerk_user_id input.organization_id db ≡ some member
      → Memᴰ row db.devices
      → row.status ≡ pending
      → now < row.expires_at
      → approve_with input now db member row project given ≡ ok (u, db')
      → IsApproved input now db db'
  approve-IsApproved member row none given is_member listed was current h = cc
  approve-IsApproved member row (some p) none is_member listed was current h = cc
  approve-IsApproved member row (some p) (some given) is_member listed was current h =
      let scopes = unique_scopes given in
      let known = any (λ q. q.id == p && q.organization_id == input.organization_id) db.projects in
      let (u, checked, done) =
        >>=-eq-ok
          (throw_if (exceeds_request member.1 row scopes) (refusal invalid_scope)
            >> throw_if (not known) (refusal access_denied))
          _ h in
      let (u', scoped, rest) =
        >>=-eq-ok (throw_if (exceeds_request member.1 row scopes) (refusal invalid_scope)) _
          checked in
      record {
        member = member;
        row = row;
        project_id = p;
        scopes = scopes;
        is_member = is_member;
        is_listed = listed;
        was_pending = was;
        was_current = current;
        are_within =
            within member.1 row scopes
              (throw_if-passed (exceeds_request member.1 row scopes) _ scoped);
        written = sym (ap (λ r. r.1.devices) (ok-injective done));
      }

  module _ (lookup : String → String) where
    work-IsApproved :
        (code : String) {u : Unit {0}}
        → (input.decision == "deny") ≡ false
        → authorize_work lookup input code now db ≡ ok (u, db')
        → IsApproved input now db db'
    work-IsApproved code approves h =
        let (member, joined, h1) =
          >>=-eq-ok
            (require (membership input.clerk_user_id input.organization_id db)
              (refusal access_denied))
            _ h in
        let (row, found, h2) =
          >>=-eq-ok
            (require (find (λ d. d.user_code_hash == lookup code) db.devices)
              (refusal expired_token))
            _ h1 in
        let (u, tested, h3) =
          >>=-eq-ok
            (throw_if (leb row.expires_at now) (refusal expired_token)
              >> throw_if (not (is_pending_device row.status)) (refusal invalid_grant))
            _ h2 in
        let (u', current, waiting) =
          >>=-eq-ok (throw_if (leb row.expires_at now) (refusal expired_token)) _ tested in
        let going = throw_if-passed (leb row.expires_at now) _ current in
        approve-IsApproved member row input.project_id (valid_scopes input.scopes)
          (require-eq-ok _ _ joined)
          (find-Memᴰ (λ d. d.user_code_hash == lookup code) db.devices (require-eq-ok _ _ found))
          (pending-status row.status
            (throw_if-passed (not (is_pending_device row.status)) _ waiting))
          (ground (arith, going)) (otherwise (input.decision == "deny") _ _ approves h3)

    -- An approval that succeeds is by a user whose membership is active, decides a request that was
    -- pending and had not expired, and grants only scopes that were requested and that the role of
    -- the user permits.
    pub authorize-IsApproved :
        (input.decision == "deny") ≡ false
        → authorize lookup input now db ≡ (ok tt, db')
        → IsApproved input now db db'
    unfolding authorize
    authorize-IsApproved approves h = elim (Option-cases input.code) [
      | inl no_code ↦ let h' = rw no_code at h in cc
      | inr (code, given) ↦
          let refused =
            not (input.decision == "approve" || input.decision == "deny")
            || (input.decision == "approve" && lacks_project lookup input.project_id) in
          elim (Bool-cases refused) [
            | inl bad ↦ let h' = rw (given, bad) at h in cc
            | inr fine ↦ work-IsApproved code approves (
                transaction-eq-ok (authorize_work lookup input code now) db (rw (given, fine) at h))
          ]
    ]
