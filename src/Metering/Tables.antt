-- ===== src/Metering/Tables.antt =====
-- The tables of apps/nehemiah/src/billing/metering.ts and the statements that several of its functions
-- share: `exception`, `setQuarantined`, `quarantineHost`. Keys that are texts joined by colons are
-- lists of their parts, which have no colons.
use nehemiah.Base.{
  ℕ, String, Bool, true, false, ◌&&◌, not, List, [], ◌∷◌, Option, none, some, any, update,
  if◌then◌else◌, ◌+◌, ◌==◌, string_eq, nat_eq,
}
use nehemiah.Metering.{MachineIdentityRow, MeterStateRow, StoredObservationRow}

pub data KeyPart : Type 0 where
  text : String → KeyPart
  number : ℕ → KeyPart

abbrev pub part_beq : KeyPart → KeyPart → Bool
part_beq (text s) (text t) = s == t
part_beq (number m) (number n) = m == n
part_beq _ _ = false

abbrev pub Key : Type 0
Key = List KeyPart

abbrev pub key_beq : Key → Key → Bool
key_beq [] [] = true
key_beq (a ∷ k) (b ∷ l) = part_beq a b && key_beq k l
key_beq _ _ = false

pub data Dimension : Type 0 where
  compute memory egress : Dimension

pub data UsageUnit : Type 0 where
  vcpu_nanosecond byte_nanosecond byte : UsageUnit

-- a row of meter_raw_usage_events
pub record RawUsageEvent : Type 0 where
  pub event_key : Key
  pub observation_id : ℕ
  pub organization_id : String
  pub project_id : String
  pub machine_id : String
  pub lease_id : String
  pub lease_generation : ℕ
  pub dimension : Dimension
  pub unit : UsageUnit
  pub quantity : ℕ
  pub period_start : ℕ
  pub period_end : ℕ

-- A row of usage_events. Its quantity is the quotient that PostgreSQL computes of the two numbers.
-- `UsageLedger` writes rows here too, under keys that do not begin with "raw".
pub record UsageEvent : Type 0 where
  pub event_key : Key
  pub organization_id : String
  pub project_id : String
  pub machine_id : String
  pub dimension : String
  pub quantity : ℕ
  pub divisor : ℕ
  pub period_start : ℕ
  pub period_end : ℕ
  pub source : String

pub record OutboxRow : Type 0 where
  pub event_key : Key
  pub organization_id : String
  pub project_id : String
  pub machine_id : String
  pub vcpus : ℕ
  pub memory_mb : ℕ
  pub period_start : ℕ
  pub period_end : ℕ

pub record MeteringException : Type 0 where
  pub exception_key : Key
  pub host_id : String
  pub machine_id : String
  pub lease_id : String
  pub lease_generation : ℕ
  pub host_boot_id : Option String
  pub sequence : Option ℕ
  pub reason : String

pub record MeteringHostRow : Type 0 where
  pub id : String
  pub desired_state : String
  pub state : String
  pub credential_generation : ℕ
  pub credential_status : String
  pub credential_hash : Option String
  pub control_credential_ciphertext : Option String
  pub gateway_credential_ciphertext : Option String
  pub credential_revoked_at : Option ℕ
  pub reported_available_vcpus : ℕ
  pub reported_available_memory_mb : ℕ
  pub reported_available_disk_mb : ℕ
  pub reported_machine_count : ℕ
  pub lifecycle_reason : Option String
  pub lifecycle_updated_at : ℕ
  pub last_metering_batch_at : Option ℕ
  pub metering_quarantined_at : Option ℕ

pub record AuditRow : Type 0 where
  pub event_key : Key
  pub resource_id : String
  pub reason : String

pub record MeteringTables : Type 0 where
  pub hosts : List MeteringHostRow
  pub machines : List MachineIdentityRow
  pub states : List MeterStateRow
  pub observations : List StoredObservationRow
  pub raw_events : List RawUsageEvent
  pub usage_events : List UsageEvent
  pub outbox : List OutboxRow
  pub exceptions : List MeteringException
  -- the keys of the exceptions that metering_exception_resolutions names
  pub resolutions : List Key
  pub audit_events : List AuditRow

-- INSERT INTO … ON CONFLICT (event_key) DO NOTHING
module _ {ℓ} {A : Type ℓ} (key : A → Key) where
  abbrev pub insert_new : A → List A → List A
  insert_new row rows = if any (λ r. key_beq (key r) (key row)) rows then rows else row ∷ rows

abbrev pub exception : MeteringException → MeteringTables → MeteringTables
exception row db = record db { exceptions = insert_new (λ e. e.exception_key) row db.exceptions }

abbrev pub coalesce {ℓ} : {A : Type ℓ} → Option A → A → Option A
coalesce (some a) b = some a
coalesce none b = some b

abbrev pub quarantined_state : String → ℕ → MeterStateRow → MeterStateRow
quarantined_state reason now s = record s {
  quarantined_at = coalesce s.quarantined_at now;
  quarantine_reason = coalesce s.quarantine_reason reason;
}

abbrev pub set_quarantined : String → String → ℕ → MeteringTables → MeteringTables
set_quarantined machine_id reason now db = record db {
  states = update (λ s. s.machine_id == machine_id) (quarantined_state reason now) db.states;
}

abbrev pub quarantined_host : String → ℕ → ℕ → MeteringHostRow → MeteringHostRow
quarantined_host reason now clock h = record h {
  desired_state = "quarantined";
  state = "stale";
  credential_generation = h.credential_generation + 1;
  credential_status = "revoked";
  credential_hash = none;
  control_credential_ciphertext = none;
  gateway_credential_ciphertext = none;
  credential_revoked_at = coalesce h.credential_revoked_at clock;
  reported_available_vcpus = 0;
  reported_available_memory_mb = 0;
  reported_available_disk_mb = 0;
  reported_machine_count = 0;
  lifecycle_reason = some reason;
  lifecycle_updated_at = now;
  metering_quarantined_at = coalesce h.metering_quarantined_at now;
}

abbrev pub may_quarantine : String → MeteringHostRow → Bool
may_quarantine host_id h =
    h.id == host_id && not (h.desired_state == "quarantined") && not (h.desired_state == "revoked")

abbrev pub quarantine_host : String → String → ℕ → ℕ → MeteringTables → MeteringTables
quarantine_host host_id reason now clock db =
    let row : AuditRow = record {
      event_key = text "host" ∷ text host_id ∷ text "metering-integrity-quarantine" ∷ [];
      resource_id = host_id;
      reason = reason;
    } in
    record db {
      hosts = update (may_quarantine host_id) (quarantined_host reason now clock) db.hosts;
      audit_events = insert_new (λ e. e.event_key) row db.audit_events;
    }
