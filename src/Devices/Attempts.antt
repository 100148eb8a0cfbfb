-- ===== src/Devices/Attempts.antt =====
-- apps/nehemiah/src/auth/device.ts, `rateLimit`, `cleanupRateLimits` and the two methods that consume
-- attempts. The keyed hash of `#lookupDigest` is an argument.
use nehemiah.Base.{
  ℕ, ◌+◌, ◌-◌, ◌*◌, ◌/◌, max, String, Bool, true, false, ◌&&◌, List, [], ◌∷◌, ◌++◌, Option, none,
  some, find, update, delete, ltb, ◌==◌, string_eq, nat_eq, if◌then◌else◌,
}

pub data AttemptKind : Type 0 where
  issue_source issue_global approve_actor : AttemptKind

abbrev pub kind_beq : AttemptKind → AttemptKind → Bool
kind_beq issue_source issue_source = true
kind_beq issue_global issue_global = true
kind_beq approve_actor approve_actor = true
kind_beq _ _ = false

-- a row of device_authorization_rate_limits
pub record AttemptRow : Type 0 where
  pub kind : AttemptKind
  pub key_hash : String
  pub window_started_at : ℕ
  pub attempts : ℕ

abbrev pub is_attempt : AttemptKind → String → ℕ → AttemptRow → Bool
is_attempt kind key_hash start r =
    kind_beq r.kind kind && r.key_hash == key_hash && r.window_started_at == start

-- INSERT … ON CONFLICT DO UPDATE … RETURNING attempts
abbrev pub count_attempt :
    AttemptKind → String → ℕ → List AttemptRow → Option AttemptRow → ℕ × List AttemptRow
count_attempt kind key_hash start rows none = (
  1,
  rows ++ record { kind = kind; key_hash = key_hash; window_started_at = start; attempts = 1 } ∷ [],
)
count_attempt kind key_hash start rows (some row) = (
  row.attempts + 1,
  update (is_attempt kind key_hash start) (λ r. record r { attempts = r.attempts + 1 }) rows,
)

-- the seconds to wait, if the limit is passed
unfoldable pub rate_limit :
    AttemptKind → String → ℕ → ℕ → ℕ → List AttemptRow → Option ℕ × List AttemptRow
rate_limit kind key_hash limit now window_seconds rows =
    let window_ms = window_seconds * 1000 in
    let start = now / window_ms * window_ms in
    let (attempts, rows1) =
      count_attempt kind key_hash start rows (find (is_attempt kind key_hash start) rows) in
    (
      if ltb limit attempts then some (max 1 ((start + window_ms - now + 999) / 1000)) else none,
      rows1,
    )

-- Which 256 of the rows of an hour ago go is the choice of the statement.
abbrev pub cleanup_rate_limits : (AttemptRow → Bool) → ℕ → List AttemptRow → List AttemptRow
cleanup_rate_limits is_chosen now =
    delete (λ r. ltb (r.window_started_at + 3600000) now && is_chosen r)

-- Math.max(global ?? 0, perSource ?? 0) || undefined
abbrev pub longest : Option ℕ → Option ℕ → Option ℕ
longest none none = none
longest (some a) none = some a
longest none (some b) = some b
longest (some a) (some b) = some (max a b)

module _ (lookup : String → String) (is_chosen : AttemptRow → Bool) where
  unfoldable pub consume_issue : String → ℕ → List AttemptRow → Option ℕ × List AttemptRow
  consume_issue source now rows =
      let (global, rows1) =
        rate_limit issue_global (lookup "global") 300 now 60
          (cleanup_rate_limits is_chosen now rows) in
      let named = if source == "" then "unknown" else source in
      let (per_source, rows2) = rate_limit issue_source (lookup named) 10 now 60 rows1 in
      (longest global per_source, rows2)

  unfoldable pub consume_actor : String → ℕ → List AttemptRow → Option ℕ × List AttemptRow
  consume_actor actor_id now rows =
      rate_limit approve_actor (lookup actor_id) 30 now 300 (cleanup_rate_limits is_chosen now rows)
