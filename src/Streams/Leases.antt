-- ===== src/Streams/Leases.antt =====
-- What an acquisition grants, and when it is refused.
use nehemiah.Base.{
  ℕ, ◌+◌, ◌*◌, ◌≡◌, Bool, ◌&&◌, List, Option, some, find, delete, ◌==◌, string_eq, nat_eq,
}
use nehemiah.Streams.{
  StreamAdmissionRequest, StreamLease, GatewayLimits, TenantRow, LeaseRow, StreamTables,
  is_expired_of, stream_usage, is_over, additional_streams, additional_bandwidth, bandwidth_of,
  lease_seconds,
}
use nehemiah.Streams.Quota.{IsWithinQuota}
use nehemiah.Database.{second}

module _ (now : ℕ) (request : StreamAdmissionRequest) where
  -- The row grants what is asked for, for the next 15 seconds.
  pub record IsGranted (row : LeaseRow) : Type 0 where
    pub same_id : row.id ≡ request.id
    pub same_bandwidth : row.bandwidth ≡ bandwidth_of request.bandwidth_bytes_per_second
    pub expiry : row.expires_at ≡ now + lease_seconds * second

  abbrev found_in : List LeaseRow → Option LeaseRow
  found_in leases = find (λ row. row.id == request.id) leases

module _ (deleted counted now : ℕ) (request : StreamAdmissionRequest) where
  abbrev stored_in : List LeaseRow → Option LeaseRow
  stored_in leases = find (λ row. row.id == request.id) leases

  -- what the DELETE leaves
  abbrev live_rows : StreamTables → List LeaseRow
  live_rows tables = delete (is_expired_of deleted request.organization_id) tables.leases

  -- What a lease that was granted has gone through.
  pub record IsAcquired (tables : StreamTables) (lease : StreamLease) (tables' : StreamTables)
      : Type 0 where
    pub organization : TenantRow
    pub organization_found :
        find (λ o. o.id == request.organization_id) tables.organizations ≡ some organization
    pub project : TenantRow
    pub project_found :
        find
          (λ p. p.id == request.project_id && p.organization_id == request.organization_id)
          tables.projects
        ≡ some project
    pub quota :
        IsWithinQuota
          (stream_usage counted request.organization_id request.project_id tables'.leases)
          organization.limits
          project.limits
    pub row : LeaseRow
    pub row_stored : stored_in tables'.leases ≡ some row
    pub row_granted : IsGranted now request row
    pub lease_bandwidth :
        lease.bandwidth_bytes_per_second ≡ bandwidth_of request.bandwidth_bytes_per_second
    pub lease_expiry : lease.expires_at ≡ now + lease_seconds * second

  module _ (organization project : GatewayLimits) (tables : StreamTables) where
    abbrev limits_reached : Bool
    limits_reached =
        is_over (stream_usage counted request.organization_id request.project_id tables.leases)
          (additional_streams (stored_in tables.leases))
          (additional_bandwidth request (stored_in tables.leases)) organization project
