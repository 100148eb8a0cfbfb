-- ===== src/Streams.antt =====
-- apps/nehemiah/src/domain/stream-admission.ts, leases: the streams that gateways hold, bounded per
-- organization and per project. Times are microseconds. Each statement has
-- a time of its own: `deleted`, `counted` and `now` are those of the DELETE, of the sum over the
-- active leases, and of the INSERT.
pub mod Quota
pub mod Leases
pub mod Requests
mod Tests
use nehemiah.Base.{
  ℕ, zero, suc, ◌+◌, ◌*◌, String, Bool, true, false, not, ◌&&◌, ◌||◌, List, [], ◌∷◌, ◌++◌, Option,
  none, some, Result, ok, err, ◌>>=◌, ◌>>◌, throw_if, require, transaction, if◌then◌else◌, ◌==◌,
  string_eq, nat_eq, find, first, select, update, delete, sum, length, take, any, is_some, leb, ltb,
}
use nehemiah.Base.Int.{ℤ, pos, negsuc}
use nehemiah.Base.Number.{Number, integer, fraction, is_safe_integer, is_below, exceeds}
use nehemiah.Base.Text.{codes, is_uuid, stored_uuid, is_identity_codes}
use nehemiah.Database.{second}

pub record StreamAdmissionRequest : Type 0 where
  pub id : String
  pub organization_id : String
  pub project_id : String
  pub authority_kind : String
  pub authority_id : String
  pub instance_id : String
  pub bandwidth_bytes_per_second : Number

pub record StreamLease : Type 0 where
  pub id : String
  pub bandwidth_bytes_per_second : ℕ
  pub expires_at : ℕ

pub data StreamError : Type 0 where
  invalid_identities invalid_fields unknown_tenant replayed_identity invalid_release invalid_limit :
      StreamError
  quota_exhausted : StreamError

abbrev pub identity : String → Bool
identity text = is_identity_codes 127 (codes text)

abbrev pub authority_identity : String → Bool
authority_identity text = is_identity_codes 254 (codes text)

abbrev pub is_authority_kind : String → Bool
is_authority_kind kind = kind == "machine_capability" || kind == "volume_capability"

abbrev pub maximum_bandwidth : ℕ
maximum_bandwidth = 1073741824

unfoldable pub validate : StreamAdmissionRequest → Result StreamError (Unit {0})
validate request = do
  throw_if
      (not (is_uuid request.id)
        || not (is_uuid request.organization_id)
        || not (is_uuid request.project_id))
      invalid_identities
  throw_if
      (not (identity request.instance_id)
        || not (authority_identity request.authority_id)
        || not (is_authority_kind request.authority_kind)
        || not (is_safe_integer request.bandwidth_bytes_per_second)
        || is_below request.bandwidth_bytes_per_second 1
        || exceeds request.bandwidth_bytes_per_second maximum_bandwidth)
      invalid_fields

-- The bandwidth of a request that `validate` has accepted.
abbrev pub bandwidth_of : Number → ℕ
bandwidth_of (integer (pos n)) = n
bandwidth_of (integer (negsuc n)) = 0
bandwidth_of fraction = 0

pub record GatewayLimits : Type 0 where
  pub max_gateway_streams : ℕ
  pub max_gateway_bandwidth_bps : ℕ

pub record TenantRow : Type 0 where
  pub id : String
  pub organization_id : String
  pub limits : GatewayLimits

pub record LeaseRow : Type 0 where
  pub id : String
  pub organization_id : String
  pub project_id : String
  pub authority_kind : String
  pub authority_id : String
  pub gateway_instance_id : String
  pub bandwidth : ℕ
  pub heartbeat_at : ℕ
  pub expires_at : ℕ

pub record StreamTables : Type 0 where
  pub organizations : List TenantRow
  pub projects : List TenantRow
  pub leases : List LeaseRow

abbrev pub lease_seconds : ℕ
lease_seconds = 15

-- the comparison of a stored lease with a request, field by field
abbrev pub is_same_identity : StreamAdmissionRequest → LeaseRow → Bool
is_same_identity request row =
    row.organization_id == request.organization_id
    && row.project_id == request.project_id
    && row.authority_kind == request.authority_kind
    && row.authority_id == request.authority_id
    && row.gateway_instance_id == request.instance_id
    && row.bandwidth == bandwidth_of request.bandwidth_bytes_per_second

abbrev pub is_expired_of : ℕ → String → LeaseRow → Bool
is_expired_of now organization_id row =
    row.organization_id == organization_id && leb row.expires_at now

-- WHERE organization_id = $1 AND expires_at > statement_timestamp()
abbrev pub is_active_of : ℕ → String → LeaseRow → Bool
is_active_of now organization_id row =
    row.organization_id == organization_id && ltb now row.expires_at

pub record StreamUsage : Type 0 where
  pub organization_streams : ℕ
  pub organization_bandwidth : ℕ
  pub project_streams : ℕ
  pub project_bandwidth : ℕ

unfoldable pub stream_usage : ℕ → String → String → List LeaseRow → StreamUsage
stream_usage now organization_id project_id leases =
    let organization_rows = select (is_active_of now organization_id) leases in
    let project_rows =
      select (λ row. is_active_of now organization_id row && row.project_id == project_id) leases in
    record {
      organization_streams = length organization_rows;
      organization_bandwidth = sum (λ row. row.bandwidth) organization_rows;
      project_streams = length project_rows;
      project_bandwidth = sum (λ row. row.bandwidth) project_rows;
    }

unfoldable pub is_over : StreamUsage → ℕ → ℕ → GatewayLimits → GatewayLimits → Bool
is_over consumed streams bandwidth organization project =
    ltb organization.max_gateway_streams (consumed.organization_streams + streams)
    || ltb project.max_gateway_streams (consumed.project_streams + streams)
    || ltb organization.max_gateway_bandwidth_bps (consumed.organization_bandwidth + bandwidth)
    || ltb project.max_gateway_bandwidth_bps (consumed.project_bandwidth + bandwidth)

abbrev pub lease_row : ℕ → StreamAdmissionRequest → LeaseRow
lease_row now request = record {
  id = request.id;
  organization_id = request.organization_id;
  project_id = request.project_id;
  authority_kind = request.authority_kind;
  authority_id = request.authority_id;
  gateway_instance_id = request.instance_id;
  bandwidth = bandwidth_of request.bandwidth_bytes_per_second;
  heartbeat_at = now;
  expires_at = now + lease_seconds * second;
}

abbrev pub refresh : ℕ → LeaseRow → LeaseRow
refresh now row = record row { heartbeat_at = now; expires_at = now + lease_seconds * second }

-- INSERT … ON CONFLICT (id) DO UPDATE … WHERE …
unfoldable pub upsert : ℕ → StreamAdmissionRequest → Option LeaseRow → List LeaseRow → List LeaseRow
upsert now request none leases = leases ++ lease_row now request ∷ []
upsert now request (some current) leases =
    update (λ row. row.id == request.id && is_same_identity request row) (refresh now) leases

-- `current` with another identity
abbrev pub is_replayed : StreamAdmissionRequest → Option LeaseRow → Bool
is_replayed request none = false
is_replayed request (some current) = not (is_same_identity request current)

abbrev pub additional_streams : Option LeaseRow → ℕ
additional_streams current = if is_some current then 0 else 1

abbrev pub additional_bandwidth : StreamAdmissionRequest → Option LeaseRow → ℕ
additional_bandwidth request current =
    if is_some current then 0 else bandwidth_of request.bandwidth_bytes_per_second

-- A request with its uuids as the columns hold them.
unfoldable pub as_stored : StreamAdmissionRequest → StreamAdmissionRequest
as_stored request = record request {
  id = stored_uuid request.id;
  organization_id = stored_uuid request.organization_id;
  project_id = stored_uuid request.project_id;
}

-- the transaction once the limits are read and the expired leases of the organization are deleted. The
-- statements compare uuids, whatever their case, and so take the request as it is stored; the code
-- compares the texts of the request with those of the row.
unfoldable pub acquire_with :
    ℕ
    → ℕ
    → StreamAdmissionRequest
    → StreamAdmissionRequest
    → GatewayLimits
    → GatewayLimits
    → StreamTables
    → Result StreamError (StreamLease × StreamTables)
acquire_with counted now request sql organization project tables = do
  let current = find (λ row. row.id == sql.id) tables.leases
  throw_if (is_replayed request current) replayed_identity
  let consumed = stream_usage counted sql.organization_id sql.project_id tables.leases
  throw_if
      (is_over consumed (additional_streams current) (additional_bandwidth request current)
        organization project)
      quota_exhausted
  let leases = upsert now sql current tables.leases
  persisted ← require (find (λ row. row.id == sql.id) leases) replayed_identity
  ok (
    record {
      id = persisted.id;
      bandwidth_bytes_per_second = persisted.bandwidth;
      expires_at = persisted.expires_at;
    },
    record tables { leases = leases },
  )

unfoldable pub acquire_work :
    ℕ
    → ℕ
    → ℕ
    → StreamAdmissionRequest
    → StreamAdmissionRequest
    → StreamTables
    → Result StreamError (StreamLease × StreamTables)
acquire_work deleted counted now request sql tables = do
  organization ←
      require (find (λ o. o.id == sql.organization_id) tables.organizations) unknown_tenant
  project ←
      require
        (find (λ p. p.id == sql.project_id && p.organization_id == sql.organization_id)
          tables.projects)
        unknown_tenant
  acquire_with counted now request sql organization.limits project.limits
      (record tables { leases = delete (is_expired_of deleted sql.organization_id) tables.leases })

abbrev pub acquire_checked :
    ℕ
    → ℕ
    → ℕ
    → StreamAdmissionRequest
    → StreamTables
    → Result StreamError (Unit {0})
    → Result StreamError StreamLease × StreamTables
acquire_checked deleted counted now request tables (err e) = (err e, tables)
acquire_checked deleted counted now request tables (ok _) =
    transaction (acquire_work deleted counted now request (as_stored request)) tables

unfoldable pub acquire :
    ℕ
    → ℕ
    → ℕ
    → StreamAdmissionRequest
    → StreamTables
    → Result StreamError StreamLease × StreamTables
acquire deleted counted now request tables =
    acquire_checked deleted counted now request tables (validate request)

unfoldable pub release :
    String → String → StreamTables → Result StreamError (Unit {0}) × StreamTables
release id instance_id tables =
    if not (is_uuid id) || not (identity instance_id) then (err invalid_release, tables) else (
      ok tt,
      record tables {
        leases =
            delete (λ row. row.id == stored_uuid id && row.gateway_instance_id == instance_id)
              tables.leases;
      },
    )
