-- ===== src/ApiAdmission.antt =====
-- apps/nehemiah/src/auth/api-admission.ts, `PostgresApiAdmission`: the buckets that a request consumes
-- before and after it is authenticated. The hash, the coarse address of the client and the collation
-- are parameters; times are microseconds.
pub mod Limits
mod Tests
use Prim.Native.String
use Prim.Native.Char.{code}
use nehemiah.Base.{
  ℕ, zero, suc, ◌+◌, ◌-◌, String, Bool, true, false, not, ◌&&◌, ◌||◌, List, [], ◌∷◌, ◌++◌, Option,
  none, some, Result, ok, err, map, if◌then◌else◌, ◌==◌, string_eq, nat_eq, leb, ltb, all, length,
  drop, take,
}
use nehemiah.Base.Int.{ℤ}
use nehemiah.Base.Text.{codes, is_lower_hex, is_alphanumeric, matches_classes}
use nehemiah.Scheduler.Placement.{sort, is_zero}
use nehemiah.Base.Text.{truthy}
use nehemiah.Windows.{Bucket, WindowRow, current_window, apply_all, is_within, retry_after}

pub record ApiRateLimitConfig : Type 0 where
  pub enabled : Bool
  pub window_seconds : ℕ
  pub pre_auth_ip_requests : ℕ
  pub pre_auth_api_key_requests : ℕ
  pub principal_requests : ℕ
  pub organization_requests : ℕ
  pub project_requests : ℕ
  pub fail_closed : Bool

pub record AdmissionIdentity : Type 0 where
  pub principal_id : String
  pub organization_id : Option String
  pub project_id : Option String

pub data ApiAdmissionError : Type 0 where
  rate_limit_exceeded : ℕ → ApiAdmissionError
  api_admission_unavailable : ApiAdmissionError

pub record AdmissionBucket : Type 0 where
  pub scope : String
  pub identifier : String
  pub limit : ℕ

-- apps/nehemiah/src/auth/api-key.ts, `parse`: the classes of `bc_(?:live|test)_[a-f0-9]{12}_`
abbrev is_code : ℕ → ℕ → Bool
is_code c d = d == c

abbrev exactly : List ℕ → List (ℕ → Bool)
exactly cs = map is_code cs

abbrev twelve : (ℕ → Bool) → List (ℕ → Bool)
twelve p = p ∷ p ∷ p ∷ p ∷ p ∷ p ∷ p ∷ p ∷ p ∷ p ∷ p ∷ p ∷ []

abbrev is_key_code : ℕ → Bool
is_key_code c = is_alphanumeric c || c == b'_' || c == b'-'

abbrev take_text : ℕ → String → String
take_text zero s = String.[]
take_text (suc n) String.[] = String.[]
take_text (suc n) (String.◌∷◌ c s) = String.◌∷◌ c (take_text n s)

-- `apiKeyPublicPrefix`
unfoldable pub api_key_public_prefix : String → Option String
api_key_public_prefix raw =
    let cs = codes raw in
    let prefix = take 21 cs in
    let secret = drop 21 cs in
    if leb (length cs) 512
      && (matches_classes (exactly (codes "bc_live_") ++ twelve is_lower_hex ++ exactly (codes "_"))
            prefix
          || matches_classes
              (exactly (codes "bc_test_") ++ twelve is_lower_hex ++ exactly (codes "_")) prefix)
      && leb 32 (length secret)
      && all is_key_code secret
    then some (take_text 20 raw)
    else none

-- what an optional bucket adds
abbrev pub bucket_for : String → ℕ → Option String → List AdmissionBucket
bucket_for scope limit none = []
bucket_for scope limit (some identifier) =
    record { scope = scope; identifier = identifier; limit = limit } ∷ []

-- the buckets of `authenticate`
unfoldable pub identity_buckets : ApiRateLimitConfig → AdmissionIdentity → List AdmissionBucket
identity_buckets config identity =
    record {
      scope = "principal";
      identifier = identity.principal_id;
      limit = config.principal_requests;
    }
    ∷ (bucket_for "organization" config.organization_requests (truthy identity.organization_id)
        ++ bucket_for "project" config.project_requests (truthy identity.project_id))

-- `sha256` in hexadecimal of a text after the label of the credential, the slot that `slotFor`
-- computes from a hash, and `localeCompare`.
module _ (credential_digest : String → String) (slot_for : String → String → ℕ)
    (locale_compare : String → String → ℤ) where
  -- the buckets of `preAuthenticate`; `source` is the coarse address of the client
  unfoldable pub request_buckets :
      ApiRateLimitConfig → String → Option String → List AdmissionBucket
  request_buckets config source token =
      let limit = config.pre_auth_api_key_requests in
      record { scope = "preauth_ip"; identifier = source; limit = config.pre_auth_ip_requests }
      ∷ (elim (truthy token) [
        | none ↦ []
        | some presented ↦
            record {
              scope = "preauth_credential";
              identifier = credential_digest presented;
              limit = limit;
            }
            ∷ (elim (api_key_public_prefix presented) [
              | none ↦ []
              | some prefix ↦
                  bucket_for "preauth_api_key" limit
                    (some (String.◌++◌ source (String.◌++◌ "\0" prefix)))
            ])
      ])

  unfoldable pub compare_buckets : AdmissionBucket → AdmissionBucket → ℤ
  compare_buckets left right =
      let by_scope = locale_compare left.scope right.scope in
      if is_zero by_scope then locale_compare left.identifier right.identifier else by_scope

  abbrev pub slotted : AdmissionBucket → Bucket
  slotted bucket = record {
    scope = bucket.scope;
    slot = slot_for bucket.scope bucket.identifier;
    limit = bucket.limit;
  }

  -- the rows that are requested
  unfoldable pub requested_rows : List AdmissionBucket → List Bucket
  requested_rows buckets = map slotted (sort compare_buckets buckets)

  abbrev pub outcome :
      ApiRateLimitConfig → ℕ → List (WindowRow × ℕ) → Result ApiAdmissionError (Unit {0})
  outcome config now applied =
      if all is_within applied
      then ok tt
      else err (rate_limit_exceeded (retry_after config.window_seconds now applied))

  -- `answers`: whether the database answers the query
  unfoldable pub consume :
      ApiRateLimitConfig
      → ℕ
      → Bool
      → List AdmissionBucket
      → List WindowRow
      → Result ApiAdmissionError (Unit {0}) × List WindowRow
  consume config now answers buckets rows =
      let (applied, rows') =
        apply_all (current_window config.window_seconds now) (requested_rows buckets) rows in
      if not config.enabled
      then (ok tt, rows)
      else (if answers
          then (outcome config now applied, rows')
          else (if config.fail_closed
              then (err api_admission_unavailable, rows)
              else (ok tt, rows)))

  unfoldable pub pre_authenticate :
      ApiRateLimitConfig
      → ℕ
      → Bool
      → String
      → Option String
      → List WindowRow
      → Result ApiAdmissionError (Unit {0}) × List WindowRow
  pre_authenticate config now answers source token rows =
      consume config now answers (request_buckets config source token) rows

  unfoldable pub authenticate :
      ApiRateLimitConfig
      → ℕ
      → Bool
      → AdmissionIdentity
      → List WindowRow
      → Result ApiAdmissionError (Unit {0}) × List WindowRow
  authenticate config now answers identity rows =
      consume config now answers (identity_buckets config identity) rows
