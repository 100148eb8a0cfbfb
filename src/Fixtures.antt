-- ===== src/Fixtures.antt =====
-- Rows that the modules of tests share.
use nehemiah.Base.{String, false, [], ◌∷◌, none, some}
use nehemiah.Billing.Admission.{BillingAdmissionPolicy, Ledger}
use nehemiah.Scheduler.Capacity.{ready, x86_64}
use nehemiah.Database.{Database, Limits, HostRow, MachineRow, placing}

abbrev pub digest : String
digest = "aaaaaaaaaaaaaaaaaaaaaaaaaaaaaaaabbbbbbbbbbbbbbbbbbbbbbbbbbbbbbbb"

abbrev pub small : Limits
small = record { max_machines = 2; max_vcpus = 4; max_memory_mb = 4096; max_disk_mb = 20480 }

abbrev pub host_row : HostRow
host_row = record {
  id = "h";
  address = "10.0.0.1";
  region_id = "eu";
  architecture = x86_64;
  state = ready;
  desired_state = "active";
  credential_status = "active";
  last_heartbeat_at = 1000;
  total_vcpus = 8;
  total_memory_mb = 8192;
  total_disk_mb = 40960;
  reserved_vcpus = 1;
  reserved_memory_mb = 1024;
  reserved_disk_mb = 1024;
  reported_available_vcpus = some 6;
  reported_available_memory_mb = none;
  reported_available_disk_mb = none;
  runtime_cohort_id = some "cohort";
  runtime_python_rootfs_sha256 = some digest;
  runtime_desktop_rootfs_sha256 = none;
}

abbrev pub machine_row : MachineRow
machine_row = record {
  id = "m";
  organization_id = "o";
  project_id = "p";
  state = placing;
  state_reason = none;
  template_id = none;
  template_name = some "python";
  vcpus = 2;
  memory_mb = 2048;
  disk_mb = 4096;
  host_id = none;
  host_machine_id = none;
  runtime_cohort_id = none;
  source_sha256 = none;
  ready = false;
  ready_at = none;
  placed_at = none;
  startup_deadline_at = none;
  started_at = none;
  stopping_at = none;
  stopped_at = none;
  expires_at = 3600000000;
  reservation_released_at = none;
  create_claim_token = none;
  create_claimed_until = none;
  create_failure_status = none;
  create_failure_code = none;
  create_failure_message = none;
  fork_operation_id = none;
}

abbrev pub empty_ledger : Ledger
empty_ledger = record {
  account = none;
  usage = [];
  durable = record {
    vcpu_seconds = "0";
    memory_mebibyte_seconds = "0";
    storage_byte_seconds = "0";
  };
}

abbrev pub tables : Database
tables = record {
  organizations = record { id = "o"; limits = small } ∷ [];
  projects = record { id = "p"; organization_id = "o"; limits = small } ∷ [];
  hosts = host_row ∷ [];
  templates = [];
  replicas = [];
  machines = machine_row ∷ [];
  events = [];
  forks = [];
  ledger = λ organization_id. empty_ledger;
}

abbrev pub free_plan : BillingAdmissionPolicy
free_plan = record { rates = []; plan = "beta" }
