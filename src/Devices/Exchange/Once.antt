-- ===== src/Devices/Exchange/Once.antt =====
-- A device code is exchanged once.
use mathlib.Core.Path.{subst}
use nehemiah.Base.{
  ℕ, ◌≡◌, refl, ap, inl, inr, String, List, Option, none, some, find, find-update, find-test, leb,
  ltb, ok-injective, ◌==◌, string_eq, Bool-cases, Option-cases, Result, ok, err, transaction,
  transaction-eq-ok, transaction-ok,
}
use nehemiah.Devices.{
  Environment, Scope, DeviceError, DeviceRow, DeviceStatus, DeviceTables, pending, approved, denied,
  consumed, token_id, current_role, invalid_grant, expired_token,
}
use nehemiah.Devices.Exchange.{
  refusal, NewTokens, Tokens, ExchangeOutcome, error, granted, poll, exchange, exchange_work,
  exchange_status, exchange_approved, binding, may_grant, used_up, exchange_answer, equal_digest,
  device_hash,
}

abbrev device_for : String → DeviceTables → Option DeviceRow
device_for id db = find (λ d. d.id == id) db.devices

-- A row that has yielded tokens.
abbrev IsConsumed : String → DeviceTables → Type 0
IsConsumed id db = (row : DeviceRow) × (device_for id db ≡ some row) × (row.status ≡ consumed)

module _ (env : Environment) where
  poll-refused :
      (id : String) (now : ℕ) (row : DeviceRow) (db : DeviceTables) {o p : String}
      {scopes : List Scope} {db' : DeviceTables} {P : Type 0}
      → ◌≡◌ {A = Result DeviceError (ExchangeOutcome × DeviceTables)}
          (ok (poll id now row db))
          (ok (granted o p scopes, db'))
      → P
  poll-refused id now row db {o} {p} {scopes} h = elim (Bool-cases (ltb now row.next_poll_at)) [
    | inl early ↦ let h' = rw early at h in cc
    | inr due ↦ let h' = rw due at h in cc
  ]

  module _ (id : String) (now : ℕ) (new : NewTokens) (db db' : DeviceTables) (o p : String)
      (scopes : List Scope) where
    approved-IsConsumed :
        (row : DeviceRow) (bound : Option ((String × String) × (String × List Scope)))
        → device_for id db ≡ some row
        → exchange_approved env id now new db bound ≡ ok (granted o p scopes, db')
        → IsConsumed id db'
    approved-IsConsumed row none found h = cc
    approved-IsConsumed row (some ((o', p'), (by, scopes'))) found h =
        elim (Bool-cases (may_grant (current_role by o' db) scopes')) [
          | inl may ↦ elim (Bool-cases (env.has_capacity db)) [
            | inr full ↦ let h' = rw (may, full) at h in cc
            | inl room ↦
                let granting = ok-injective (rw (may, room) at h) in
                subst (IsConsumed id) (ap (λ r. r.1) granting) (
                  used_up now row,
                  find-update (λ d. d.id == id) (λ d. d.id == id) (used_up now) db.devices
                      (λ d other. other) (λ d. refl) found
                      (find-test (λ d. d.id == id) db.devices found),
                  refl,
                )
          ]
          | inr may_not ↦ let h' = rw may_not at h in cc
        ]

    status-IsConsumed :
        (row : DeviceRow) (status : DeviceStatus)
        → device_for id db ≡ some row
        → exchange_status env id now new db row status ≡ ok (granted o p scopes, db')
        → IsConsumed id db'
    status-IsConsumed row denied found h = cc
    status-IsConsumed row consumed found h = cc
    status-IsConsumed row pending found h = poll-refused id now row db h
    status-IsConsumed row approved found h = approved-IsConsumed row (binding row) found h

    -- A transaction that grants tokens leaves the row consumed.
    work-IsConsumed :
        exchange_work env id now new db ≡ ok (granted o p scopes, db') → IsConsumed id db'
    work-IsConsumed h = elim (Option-cases (device_for id db)) [
      | inl missing ↦ let h' = rw missing at h in cc
      | inr (row, found) ↦ elim (Bool-cases (leb row.expires_at now)) [
        | inl over ↦ let h' = rw (found, over) at h in cc
        | inr going ↦ status-IsConsumed row row.status found (rw (found, going) at h)
      ]
    ]

  consumed-refused :
      (id : String) (now : ℕ) (new : NewTokens) (db : DeviceTables)
      → IsConsumed id db
      → (e : DeviceError) × (exchange_answer env new (transaction (exchange_work env id now new) db)
          ≡ (err e, db))
  consumed-refused id now new db (row, found, done) = elim (Bool-cases (leb row.expires_at now)) [
    | inl over ↦
        let worked : exchange_work env id now new db ≡ ok (error expired_token none, db) =
          rw (found, over) refl in
        (refusal expired_token, rw (transaction-ok (exchange_work env id now new) db worked) refl)
    | inr going ↦
        let worked : exchange_work env id now new db ≡ ok (error invalid_grant none, db) =
          rw (found, going, done) refl in
        (refusal invalid_grant, rw (transaction-ok (exchange_work env id now new) db worked) refl)
  ]

  granted-by :
      (new : NewTokens) (call : Result DeviceError ExchangeOutcome × DeviceTables) {tokens : Tokens}
      {db' : DeviceTables}
      → exchange_answer env new call ≡ (ok tokens, db')
      → (o : String) × (p : String) × (scopes : List Scope) × (call
          ≡ (ok (granted o p scopes), db'))
  granted-by new (err e, db) h = cc
  granted-by new (ok (error code interval), db) h = cc
  granted-by new (ok (granted o p scopes), db) h =
      (o, p, scopes, ap (λ d. (ok (granted o p scopes), d)) (ap (λ r. r.1) h))

  -- A device code yields tokens once: after an exchange that succeeded, each later one fails and
  -- changes nothing, at whatever time, and whatever the tables were when the code was looked up.
  pub exchange-once :
      (raw : String) (now later : ℕ) (new other : NewTokens) (seen seen' db db' : DeviceTables)
      (tokens : Tokens)
      → exchange env raw now new seen db ≡ (ok tokens, db')
      → (e : DeviceError) × (exchange env raw later other seen' db' ≡ (err e, db'))
  unfolding exchange
  exchange-once raw now later new other seen seen' db db' tokens h =
      elim (Option-cases (token_id "device" raw)) [
        | inl no_token ↦ let h' = rw no_token at h in cc
        | inr (id, token) ↦
            elim (Bool-cases (equal_digest env.digest (device_hash env id seen) raw)) [
              | inr wrong ↦ let h' = rw (token, wrong) at h in cc
              | inl right ↦
                  let (o, p, scopes, ended) = granted-by new _ (rw (token, right) at h) in
                  let worked = transaction-eq-ok (exchange_work env id now new) db ended in
                  let used = work-IsConsumed id now new db db' o p scopes worked in
                  elim (Bool-cases (equal_digest env.digest (device_hash env id seen') raw)) [
                    | inr unknown ↦ (refusal invalid_grant, rw (exchange, token, unknown) refl)
                    | inl known ↦
                        let (e, refused) = consumed-refused id later other db' used in
                        (e, rw (exchange, token, known) refused)
                  ]
            ]
      ]
