-- ===== src/Streams/Requests.antt =====
-- apps/nehemiah/src/domain/stream-admission.ts, `StreamAdmissionService`: the constructor, the request
-- windows in front of a route lookup, and the deletion of expired leases.
pub mod Reaping
use Prim.Native.String
use nehemiah.Base.{
  ℕ, zero, suc, ◌+◌, String, Bool, true, false, not, ◌&&◌, ◌||◌, List, [], ◌∷◌, Option, none, some,
  Result, ok, err, ◌>>=◌, ◌>>◌, throw_if, if◌then◌else◌, ◌==◌, string_eq, nat_eq, any, all, leb,
  ltb, length, take, select, delete,
}
use nehemiah.Base.Int.{ℤ, ◌-ℤ◌, pos}
use nehemiah.Base.Number.{Number, is_safe_integer, is_below, exceeds}
use nehemiah.Scheduler.Placement.{sort, is_zero}
use nehemiah.Streams.{
  StreamAdmissionRequest, StreamError, StreamTables, LeaseRow, invalid_limit, is_same_identity,
  validate, bandwidth_of,
}
use nehemiah.Windows.{Bucket, WindowRow, current_window, apply_all, is_within, retry_after}

pub record StreamRequestRateConfig (N : Type 0) : Type 0 where
  pub window_seconds : N
  pub authority_requests : N
  pub project_requests : N
  pub organization_requests : N

abbrev pub is_bad_limit : Number → Bool
is_bad_limit limit = not (is_safe_integer limit) || is_below limit 1 || exceeds limit 1000000

-- the check of the constructor
unfoldable pub validate_rate : StreamRequestRateConfig Number → Result StreamError (Unit {0})
validate_rate rate =
    throw_if
      (not (is_safe_integer rate.window_seconds)
        || is_below rate.window_seconds 10
        || exceeds rate.window_seconds 3600
        || any is_bad_limit
            (rate.authority_requests ∷ rate.project_requests ∷ rate.organization_requests ∷ []))
      invalid_limit

pub data RouteError : Type 0 where
  invalid_request : StreamError → RouteError
  request_rate_exceeded : ℕ → RouteError

-- A lease of the request with all of its fields that has not expired.
abbrev pub is_exact_lease : ℕ → StreamAdmissionRequest → LeaseRow → Bool
is_exact_lease now request row =
    row.id == request.id && is_same_identity request row && ltb now row.expires_at

-- `requestSlot` computes a slot from a hash.
module _ (slot_for : String → String → ℕ) where
  unfoldable pub route_buckets : StreamRequestRateConfig ℕ → StreamAdmissionRequest → List Bucket
  route_buckets rate request =
      let authority = String.◌++◌ request.organization_id (
        String.◌++◌ "\0"
          (String.◌++◌ request.authority_kind (String.◌++◌ "\0" request.authority_id))) in
      let project = String.◌++◌ request.organization_id (String.◌++◌ "\0" request.project_id) in
      record {
        scope = "authority";
        slot = slot_for "authority" authority;
        limit = rate.authority_requests;
      }
      ∷ record {
        scope = "project";
        slot = slot_for "project" project;
        limit = rate.project_requests;
      }
      ∷ record {
        scope = "organization";
        slot = slot_for "organization" request.organization_id;
        limit = rate.organization_requests;
      }
      ∷ []

  abbrev pub route_outcome :
      StreamRequestRateConfig ℕ → ℕ → List (WindowRow × ℕ) → Result RouteError (Unit {0})
  route_outcome rate now applied =
      if all is_within applied
      then ok tt
      else err (request_rate_exceeded (retry_after rate.window_seconds now applied))

  abbrev pub route_checked :
      StreamRequestRateConfig ℕ
      → ℕ
      → StreamAdmissionRequest
      → List LeaseRow
      → List WindowRow
      → Result StreamError (Unit {0})
      → Result RouteError (Unit {0}) × List WindowRow
  route_checked rate now request leases rows (err e) = (err (invalid_request e), rows)
  route_checked rate now request leases rows (ok _) =
      let (applied, rows') =
        apply_all (current_window rate.window_seconds now) (route_buckets rate request) rows in
      if any (is_exact_lease now request) leases
      then (ok tt, rows)
      else (route_outcome rate now applied, rows')

  unfoldable pub admit_route_request :
      StreamRequestRateConfig ℕ
      → ℕ
      → StreamAdmissionRequest
      → List LeaseRow
      → List WindowRow
      → Result RouteError (Unit {0}) × List WindowRow
  admit_route_request rate now request leases rows =
      route_checked rate now request leases rows (validate request)

abbrev pub is_expired : ℕ → LeaseRow → Bool
is_expired now row = leb row.expires_at now

-- ORDER BY expires_at, id; the order of identifiers is PostgreSQL's
unfoldable pub compare_leases : (String → String → ℤ) → LeaseRow → LeaseRow → ℤ
compare_leases compare_ids left right =
    let by_time = pos left.expires_at -ℤ pos right.expires_at in
    if is_zero by_time then compare_ids left.id right.id else by_time

-- SELECT id … LIMIT $1 FOR UPDATE SKIP LOCKED: rows that others hold are passed over.
unfoldable pub reapable :
    (String → String → ℤ) → ℕ → (String → Bool) → ℕ → List LeaseRow → List LeaseRow
reapable compare_ids now locked limit leases = take limit (
    sort (compare_leases compare_ids)
      (select (λ row. is_expired now row && not (locked row.id)) leases))

abbrev pub is_listed : List LeaseRow → LeaseRow → Bool
is_listed rows row = any (λ chosen. chosen.id == row.id) rows

-- `reapExpired`, given a limit that is an integer
unfoldable pub reap_expired :
    (String → String → ℤ)
    → ℕ
    → (String → Bool)
    → Number
    → StreamTables
    → Result StreamError ℕ × StreamTables
reap_expired compare_ids now locked limit tables =
    let chosen = reapable compare_ids now locked (bandwidth_of limit) tables.leases in
    if not (is_safe_integer limit) || is_below limit 1 || exceeds limit 10000
    then (err invalid_limit, tables)
    else (
      ok (length (select (is_listed chosen) tables.leases)),
      record tables { leases = delete (is_listed chosen) tables.leases },
    )
