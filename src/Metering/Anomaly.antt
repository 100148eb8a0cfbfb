-- ===== src/Metering/Anomaly.antt =====
-- apps/nehemiah/src/billing/metering.ts, `processObservation`: the reason to refuse an observation.
pub mod Regular
use nehemiah.Base.{
  ℕ, ◌+◌, ◌-◌, ◌/◌, String, Bool, true, false, not, ◌&&◌, ◌||◌, Option, none, some, if◌then◌else◌,
  ◌==◌, string_eq, nat_eq, ltb, is_some,
}
use nehemiah.Base.Text.{truthy}
use nehemiah.Metering.{
  MachineIdentityRow, StoredObservationRow, MeterStateRow, Reading, observation_integrity_reason,
  maximum_clock_lead_ms, maximum_wall_divergence_ms, nanoseconds_per_millisecond,
}

abbrev pub reading_of : StoredObservationRow → Reading
reading_of observation = record {
  kind = observation.kind;
  quality = observation.quality;
  runtime_ns = observation.runtime_ns;
  egress_bytes = observation.egress_bytes;
  egress_counter_epoch = observation.egress_counter_epoch;
}

-- The monotonic clock went back, or does not measure the runtime since the start. A difference that
-- is negative is no runtime.
abbrev pub is_off_clock : Option ℕ → Option ℕ → ℕ → ℕ → Bool
is_off_clock none _ monotonic runtime = true
is_off_clock (some start) none monotonic runtime = true
is_off_clock (some start) (some before) monotonic runtime =
    ltb monotonic before || not (monotonic == start + runtime)

abbrev pub is_counter_reset : MeterStateRow → StoredObservationRow → Bool
is_counter_reset state observation =
    ltb observation.runtime_ns state.last_runtime_ns
    || ltb observation.egress_bytes state.last_egress_bytes
    || not (observation.egress_counter_epoch == state.egress_counter_epoch)
    || (state.start_seen
        && is_off_clock state.start_monotonic_ns state.last_observed_monotonic_ns
            observation.observed_monotonic_ns observation.runtime_ns)

abbrev pub is_start_missing : MeterStateRow → StoredObservationRow → Bool
is_start_missing state observation =
    not state.start_seen
    && (not (observation.sequence == 1)
        || not (observation.kind == "start")
        || not (observation.runtime_ns == 0))

unfoldable pub first_anomaly :
    MachineIdentityRow → MeterStateRow → StoredObservationRow → Option String
first_anomaly identity state observation =
    if is_some state.quarantined_at
    then state.quarantine_reason
    else (if not (state.host_boot_id == observation.host_boot_id)
        then some "boot_id_changed"
        else (if is_some state.loss_closed_at
            then some "observation_after_final"
            else (if is_start_missing state observation
                then some "start_missing"
                else (if state.start_seen && observation.kind == "start"
                    then some "start_repeated"
                    else (if state.final_seen
                        then some "observation_after_final"
                        else (if is_counter_reset state observation
                            then some "counter_reset"
                            else observation_integrity_reason identity state
                                (reading_of observation) observation.received_at))))))

-- | (observed - before) - runtime | > maximum, all of them integers
abbrev pub diverges : Option ℕ → ℕ → ℕ → Bool
diverges none observed runtime_ms = false
diverges (some before) observed runtime_ms =
    ltb (before + runtime_ms + maximum_wall_divergence_ms) observed
    || ltb (observed + maximum_wall_divergence_ms) (before + runtime_ms)

abbrev pub is_clock_skewed : MachineIdentityRow → MeterStateRow → StoredObservationRow → Bool
is_clock_skewed identity state observation =
    ltb (observation.received_at + maximum_clock_lead_ms) observation.observed_at
    || (observation.kind == "start"
        && ltb (observation.observed_at + maximum_clock_lead_ms) identity.created_at)
    || diverges state.last_observed_at observation.observed_at
        ((observation.runtime_ns - state.last_runtime_ns) / nanoseconds_per_millisecond)

abbrev pub clock_anomaly :
    Option String → MachineIdentityRow → MeterStateRow → StoredObservationRow → Option String
clock_anomaly (some reason) identity state observation = some reason
clock_anomaly none identity state observation =
    if is_clock_skewed identity state observation then some "clock_skew" else none

unfoldable pub anomaly : MachineIdentityRow → MeterStateRow → StoredObservationRow → Option String
anomaly identity state observation =
    clock_anomaly (truthy (first_anomaly identity state observation)) identity state observation
