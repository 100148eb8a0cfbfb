-- ===== src/Metering.antt =====
-- apps/nehemiah/src/billing/metering.ts: the usage that hosts report, checked and turned into usage
-- events. Dates are milliseconds, counters nanoseconds or bytes; BigInts that were parsed as unsigned
-- decimals are natural numbers.
pub mod Split
pub mod Tables
pub mod Anomaly
pub mod Projection
pub mod Processing
pub mod Validation
pub mod Drain
pub mod Receipts
pub mod Ingest
pub mod HostLoss
pub mod Tests
use nehemiah.Base.{
  ℕ, ◌+◌, ◌-◌, ◌*◌, ◌/◌, String, Bool, true, false, not, ◌&&◌, ◌||◌, Option, none, some,
  if◌then◌else◌, ◌==◌, string_eq, nat_eq, ltb, leb,
}
use nehemiah.Database.{MachineState, stopping, stopped, failed, lost}

abbrev pub maximum_clock_lead_ms : ℕ
maximum_clock_lead_ms = 300000

abbrev pub maximum_wall_divergence_ms : ℕ
maximum_wall_divergence_ms = 300000

abbrev pub nanoseconds_per_millisecond : ℕ
nanoseconds_per_millisecond = 1000000

abbrev pub nanoseconds_per_second : ℕ
nanoseconds_per_second = 1000000000

abbrev pub bytes_per_gibibyte : ℕ
bytes_per_gibibyte = 1073741824

abbrev pub minimum_checkpoint_runtime_delta_ns : ℕ
minimum_checkpoint_runtime_delta_ns = 4 * nanoseconds_per_second

abbrev pub managed_egress_bytes_per_second : ℕ
managed_egress_bytes_per_second = 8000000

abbrev pub managed_egress_burst_bytes : ℕ
managed_egress_burst_bytes = 1048576

abbrev pub maximum_exact_final_lead_ms : ℕ
maximum_exact_final_lead_ms = 30000

pub record MachineIdentityRow : Type 0 where
  pub id : String
  pub organization_id : String
  pub project_id : String
  pub host_id : String
  pub host_machine_id : String
  pub lease_id : String
  pub lease_generation : ℕ
  pub vcpus : ℕ
  pub memory_bytes : ℕ
  pub created_at : ℕ
  pub started_at : Option ℕ
  pub usage_checkpoint_at : Option ℕ
  pub usage_finalized_at : Option ℕ
  pub state : MachineState
  pub expires_at : ℕ

pub record StoredObservationRow : Type 0 where
  pub id : ℕ
  pub host_id : String
  pub machine_id : String
  pub lease_id : String
  pub lease_generation : ℕ
  pub payload_hash : String
  pub host_boot_id : String
  pub sequence : ℕ
  pub kind : String
  pub quality : String
  pub quality_reason : String
  pub runtime_ns : ℕ
  pub egress_bytes : ℕ
  pub egress_counter_epoch : ℕ
  pub observed_monotonic_ns : ℕ
  pub observed_at : ℕ
  pub received_at : ℕ
  pub vcpus : ℕ
  pub memory_bytes : ℕ

pub record MeterStateRow : Type 0 where
  pub machine_id : String
  pub host_id : String
  pub host_machine_id : String
  pub lease_id : String
  pub lease_generation : ℕ
  pub host_boot_id : String
  pub last_sequence : ℕ
  pub last_runtime_ns : ℕ
  pub projected_runtime_ns : ℕ
  pub start_monotonic_ns : Option ℕ
  pub last_observed_monotonic_ns : Option ℕ
  pub last_egress_bytes : ℕ
  pub egress_counter_epoch : ℕ
  pub start_seen : Bool
  pub final_seen : Bool
  pub last_observed_at : Option ℕ
  pub last_period_end : Option ℕ
  pub last_received_at : Option ℕ
  pub loss_closed_at : Option ℕ
  pub quarantined_at : Option ℕ
  pub quarantine_reason : Option String

-- The part of an observation that its plausibility depends on.
pub record Reading : Type 0 where
  pub kind : String
  pub quality : String
  pub runtime_ns : ℕ
  pub egress_bytes : ℕ
  pub egress_counter_epoch : ℕ

-- ['stopping', 'stopped', 'failed', 'lost'].includes(state)
abbrev pub is_terminal_meter : MachineState → Bool
is_terminal_meter stopping = true
is_terminal_meter stopped = true
is_terminal_meter failed = true
is_terminal_meter lost = true
is_terminal_meter _ = false

abbrev pub lease_start : MachineIdentityRow → ℕ
lease_start identity = elim identity.started_at [ none ↦ identity.created_at | some at ↦ at ]

-- Math.max(0, received - start) is the subtraction that stops at 0.
abbrev pub defensible_elapsed_ns : MachineIdentityRow → ℕ → ℕ
defensible_elapsed_ns identity received_at =
    (received_at - lease_start identity + maximum_wall_divergence_ms) * nanoseconds_per_millisecond

-- what the managed network lets through in a time: the burst, and the rate rounded up
abbrev pub egress_allowance : ℕ → ℕ
egress_allowance elapsed_ns =
    managed_egress_burst_bytes
    + (elapsed_ns * managed_egress_bytes_per_second + nanoseconds_per_second - 1)
      / nanoseconds_per_second

-- the checks on an observation that follows another
abbrev pub delta_reason : MachineIdentityRow → MeterStateRow → Reading → ℕ → Option String
delta_reason identity state reading received_at =
    let runtime_delta = reading.runtime_ns - state.last_runtime_ns in
    let egress_delta = reading.egress_bytes - state.last_egress_bytes in
    let allowed = if runtime_delta == 0 then 0 else egress_allowance runtime_delta in
    if reading.kind == "checkpoint" && ltb runtime_delta minimum_checkpoint_runtime_delta_ns
    then some "observation_rate_exceeded"
    else (if reading.egress_counter_epoch == state.egress_counter_epoch && ltb allowed egress_delta
        then some "egress_plausibility_exceeded"
        else (if reading.kind == "final"
              && not (is_terminal_meter identity.state)
              && (not (reading.quality == "exact")
                  || ltb (received_at + maximum_exact_final_lead_ms) identity.expires_at)
            then some "premature_final"
            else none))

unfoldable pub observation_integrity_reason :
    MachineIdentityRow → MeterStateRow → Reading → ℕ → Option String
observation_integrity_reason identity state reading received_at =
    let elapsed = defensible_elapsed_ns identity received_at in
    if ltb elapsed reading.runtime_ns
    then some "observation_rate_exceeded"
    else (if ltb (egress_allowance elapsed) reading.egress_bytes
        then some "egress_plausibility_exceeded"
        else (if not state.start_seen
            then none
            else (if ltb reading.runtime_ns state.last_runtime_ns
                  || ltb reading.egress_bytes state.last_egress_bytes
                then none
                else delta_reason identity state reading received_at)))

-- Messages are named by the field they are about.
pub data MeteringError : Type 0 where
  invalid : String → MeteringError
  not_unsigned exceeds_uint64 not_positive exceeds_bigint : String → MeteringError
  batch_size : MeteringError
  host_lifecycle : MeteringError
  batch_cadence : MeteringError
  lease_mismatch : MeteringError
  -- an error of the database: process_id is not an integer of 32 bits
  integer_out_of_range : MeteringError
  missing_period_boundary : MeteringError
  missing_state : MeteringError
  out_of_fuel : MeteringError
