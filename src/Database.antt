-- ===== src/Database.antt =====
-- The tables that the control plane's statements read and write, one record for each row type
-- (apps/nehemiah/src/db/schema.ts and the columns of apps/nehemiah/src/db/migrations that the
-- modelled SQL names). Timestamps are microseconds, `NULL` is `none`. PostgreSQL is not modelled:
-- a statement is read as a function on the list of rows.

use nehemiah.Base.{
  ℕ, ◌≡◌, ◌↔◌, String, Bool, true, false, List, [], ◌∷◌, ◌++◌, Option, arith, Eq, ◌==◌, string_eq,
  any, if◌then◌else◌,
}
use nehemiah.Scheduler.Capacity.{Architecture, HostState}
use nehemiah.Billing.Admission.{Ledger}

pub data MachineState : Type 0 where
  requested placing starting running stopping stopped failed lost : MachineState

abbrev pub state_beq : MachineState → MachineState → Bool
state_beq requested requested = true
state_beq placing placing = true
state_beq starting starting = true
state_beq running running = true
state_beq stopping stopping = true
state_beq stopped stopped = true
state_beq failed failed = true
state_beq lost lost = true
state_beq _ _ = false

pub state_beq_iff : (a b : MachineState) → (state_beq a b ≡ true) ↔ (a ≡ b)
state_beq_iff a b = ground arith

instance abbrev pub state_eq : Eq MachineState
state_eq = record { same = state_beq; same_iff = state_beq_iff }

-- state IN ('requested', 'placing')
abbrev pub is_unplaced : MachineState → Bool
is_unplaced requested = true
is_unplaced placing = true
is_unplaced _ = false

-- state IN ('stopped', 'failed', 'lost')
abbrev pub is_terminal : MachineState → Bool
is_terminal stopped = true
is_terminal failed = true
is_terminal lost = true
is_terminal _ = false

-- state NOT IN ('requested', 'placing', 'stopped', 'failed', 'lost')
abbrev pub is_charged : MachineState → Bool
is_charged starting = true
is_charged running = true
is_charged stopping = true
is_charged _ = false

pub record Limits : Type 0 where
  pub max_machines : ℕ
  pub max_vcpus : ℕ
  pub max_memory_mb : ℕ
  pub max_disk_mb : ℕ

pub record OrganizationRow : Type 0 where
  pub id : String
  pub limits : Limits

pub record ProjectRow : Type 0 where
  pub id : String
  pub organization_id : String
  pub limits : Limits

pub record HostRow : Type 0 where
  pub id : String
  pub address : String
  pub region_id : String
  pub architecture : Architecture
  pub state : HostState
  pub desired_state : String
  pub credential_status : String
  pub last_heartbeat_at : ℕ
  pub total_vcpus : ℕ
  pub total_memory_mb : ℕ
  pub total_disk_mb : ℕ
  pub reserved_vcpus : ℕ
  pub reserved_memory_mb : ℕ
  pub reserved_disk_mb : ℕ
  pub reported_available_vcpus : Option ℕ
  pub reported_available_memory_mb : Option ℕ
  pub reported_available_disk_mb : Option ℕ
  pub runtime_cohort_id : Option String
  pub runtime_python_rootfs_sha256 : Option String
  pub runtime_desktop_rootfs_sha256 : Option String

pub record TemplateRow : Type 0 where
  pub id : String
  pub checksum : String
  pub deleted : Bool

pub record ReplicaRow : Type 0 where
  pub host_id : String
  pub template_id : String
  pub state : String

pub record MachineRow : Type 0 where
  pub id : String
  pub organization_id : String
  pub project_id : String
  pub state : MachineState
  pub state_reason : Option String
  pub template_id : Option String
  pub template_name : Option String
  pub vcpus : ℕ
  pub memory_mb : ℕ
  pub disk_mb : ℕ
  pub host_id : Option String
  pub host_machine_id : Option String
  pub runtime_cohort_id : Option String
  pub source_sha256 : Option String
  pub ready : Bool
  pub ready_at : Option ℕ
  pub placed_at : Option ℕ
  pub startup_deadline_at : Option ℕ
  pub started_at : Option ℕ
  pub stopping_at : Option ℕ
  pub stopped_at : Option ℕ
  pub expires_at : ℕ
  pub reservation_released_at : Option ℕ
  pub create_claim_token : Option String
  pub create_claimed_until : Option ℕ
  pub create_failure_status : Option ℕ
  pub create_failure_code : Option String
  pub create_failure_message : Option String
  pub fork_operation_id : Option String

-- a row of machine_fork_operations
pub record ForkRow : Type 0 where
  pub id : String
  pub state : String

pub record EventRow : Type 0 where
  pub event_key : String
  pub machine_id : String
  pub organization_id : String
  pub from_state : Option MachineState
  pub to_state : MachineState
  pub reason : Option String

pub record Database : Type 0 where
  pub organizations : List OrganizationRow
  pub projects : List ProjectRow
  pub hosts : List HostRow
  pub templates : List TemplateRow
  pub replicas : List ReplicaRow
  pub machines : List MachineRow
  pub forks : List ForkRow
  pub events : List EventRow
  -- what the queries of the billing admission return for an organization
  pub ledger : String → Ledger

-- INSERT INTO machine_events … ON CONFLICT (event_key) DO NOTHING
abbrev pub insert_event : EventRow → List EventRow → List EventRow
insert_event event events =
    if any (λ e. e.event_key == event.event_key) events then events else events ++ event ∷ []

abbrev pub second : ℕ
second = 1000000
