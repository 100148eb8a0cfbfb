-- ===== src/Streams/Tests.antt =====
-- A gateway's stream on which the theorems about leases are applied.
use nehemiah.Base.{arith, eq_iff, ◌≢◌, Memᴰ, refl, String, false, [], ◌∷◌}
use nehemiah.Base.Int.{ℤ, pos}
use nehemiah.Base.Number.{integer}
use nehemiah.Streams.{StreamAdmissionRequest, StreamLease, GatewayLimits, TenantRow, StreamTables}
use nehemiah.Streams.{LeaseRow}
use nehemiah.Streams.Requests.{reap_expired}
use nehemiah.Streams.Requests.Reaping.{reap_expired-keeps}

abbrev organization_id : String
organization_id = "11111111-1111-4111-8111-111111111111"

abbrev project_id : String
project_id = "22222222-2222-4222-9222-222222222222"

abbrev request : StreamAdmissionRequest
request = record {
  id = "33333333-3333-4333-a333-333333333333";
  organization_id = organization_id;
  project_id = project_id;
  authority_kind = "machine_capability";
  authority_id = "capability:1";
  instance_id = "gateway-1";
  bandwidth_bytes_per_second = integer (pos 1000);
}

abbrev limits : GatewayLimits
limits = record { max_gateway_streams = 1; max_gateway_bandwidth_bps = 1000 }

abbrev tenant : TenantRow
tenant = record { id = organization_id; organization_id = organization_id; limits = limits }

abbrev project_row : TenantRow
project_row = record { id = project_id; organization_id = organization_id; limits = limits }

-- One lease, which has expired.
abbrev tables : StreamTables
tables = record {
  organizations = tenant ∷ [];
  projects = project_row ∷ [];
  leases =
      record {
        id = "44444444-4444-4444-b444-444444444444";
        organization_id = organization_id;
        project_id = project_id;
        authority_kind = "machine_capability";
        authority_id = "capability:1";
        gateway_instance_id = "gateway-1";
        bandwidth = 1000;
        heartbeat_at = 0;
        expires_at = 15000000;
      }
      ∷ [];
}

abbrev lease : StreamLease
lease = record { id = request.id; bandwidth_bytes_per_second = 1000; expires_at = 35000002 }

abbrev live : LeaseRow
live = record {
  id = "55555555-5555-4555-8555-555555555555";
  organization_id = organization_id;
  project_id = project_id;
  authority_kind = "machine_capability";
  authority_id = "capability:1";
  gateway_instance_id = "gateway-1";
  bandwidth = 1000;
  heartbeat_at = 0;
  expires_at = 30000000;
}

abbrev expired_id : String
expired_id = "44444444-4444-4444-b444-444444444444"

abbrev live_id : String
live_id = "55555555-5555-4555-8555-555555555555"

ids_differ : expired_id ≢ live_id
ids_differ = ground (arith, eq_iff expired_id live_id)

abbrev mixed : StreamTables
mixed = record tables { leases = live ∷ tables.leases }

abbrev same_text : String → String → ℤ
same_text a b = pos 0

reap_expired-keeps_example :
    Memᴰ live (reap_expired same_text 20000000 (λ id. false) (integer (pos 10)) mixed).1.leases
reap_expired-keeps_example =
    reap_expired-keeps same_text 20000000 (λ id. false) (integer (pos 10)) mixed live
      ((ids_differ, tt), (tt, tt)) (Memᴰ.head refl) refl
