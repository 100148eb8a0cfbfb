-- ===== src/Metering/Receipts.antt =====
-- apps/nehemiah/src/billing/metering.ts, `receiptFor` and `ingest`: the exceptions that inputs raise,
-- the quarantine of a machine and its host, and what follows the loop. The times are those of the
-- transaction and, for each input, of the statement that reads the machine, of the one that stores
-- the observation, and of the one that quarantines the host.
use nehemiah.Base.{
  ℕ, String, Bool, true, false, not, ◌&&◌, [], ◌∷◌, ◌++◌, map, any, select, none, some, ltb, leb,
  ◌==◌, string_eq, nat_eq, Result, ok, ◌>>=◌, require, if◌then◌else◌,
}
use nehemiah.Base.Text.{stored_uuid}
use nehemiah.Metering.{MachineIdentityRow, MeteringError, missing_state}
use nehemiah.Metering.Tables.{
  Key, text, number, key_beq, MeteringException, MeteringTables, exception, set_quarantined,
  quarantine_host,
}
use nehemiah.Metering.Processing.{Outcome, accepted, duplicate, pending_gap, quarantined}
use nehemiah.Metering.Validation.{HostUsageObservation, big_int}
use nehemiah.Metering.Drain.{Progress, state_of}

pub record Receipt : Type 0 where
  pub lease_id : String
  pub lease_generation : String
  pub host_boot_id : String
  pub sequence : String
  pub outcome : Outcome
  pub acknowledged : Bool

unfoldable pub receipt_for : HostUsageObservation → Outcome → Receipt
receipt_for observation outcome = record {
  lease_id = observation.lease_id;
  lease_generation = observation.lease_generation;
  host_boot_id = observation.host_boot_id;
  sequence = observation.sequence;
  outcome = outcome;
  acknowledged = true;
}

pub record Times : Type 0 where
  pub now : ℕ
  pub admitted : ℕ
  pub received : ℕ
  pub revoked : ℕ

abbrev pub input_exception :
    MachineIdentityRow → HostUsageObservation → Key → String → MeteringException
input_exception identity input rest reason = record {
  exception_key = text "meter" ∷ text identity.id ∷ number identity.lease_generation ∷ rest;
  host_id = identity.host_id;
  machine_id = identity.id;
  lease_id = identity.lease_id;
  lease_generation = identity.lease_generation;
  host_boot_id = some (stored_uuid input.host_boot_id);
  sequence = some (big_int input.sequence);
  reason = reason;
}

-- the three calls that follow a violation, in their order
abbrev pub quarantine_both :
    MachineIdentityRow
    → MeteringException
    → String
    → String
    → Times
    → MeteringTables
    → MeteringTables
quarantine_both identity row reason lifecycle_reason times db =
    quarantine_host identity.host_id lifecycle_reason times.now times.revoked
      (set_quarantined identity.id reason times.now (exception row db))

abbrev pub sequenced_key : HostUsageObservation → String → Key
sequenced_key input reason =
    text input.host_boot_id ∷ number (big_int input.sequence) ∷ text reason ∷ []

-- INSERT INTO metering_exception_resolutions
abbrev pub resolve_gaps : MachineIdentityRow → ℕ → MeteringTables → MeteringTables
resolve_gaps identity last_sequence db =
    let arrived : MeteringException → Bool = λ e.
      e.machine_id == identity.id
      && e.lease_generation == identity.lease_generation
      && e.reason == "sequence_gap"
      && (elim e.sequence [ none ↦ false | some sequence ↦ leb sequence last_sequence ])
      && not (any (λ k. key_beq k e.exception_key) db.resolutions) in
    record db {
      resolutions = db.resolutions ++ map (λ e. e.exception_key) (select arrived db.exceptions);
    }

abbrev pub input_outcome : Progress → Bool → ℕ → ℕ → Outcome
input_outcome progress is_duplicate sequence last_sequence =
    if progress.input_quarantined
    then quarantined
    else (if progress.processed_input
        then (if is_duplicate then duplicate else accepted)
        else (if leb sequence last_sequence then duplicate else pending_gap))

-- what follows the loop, with the state that it left
abbrev pub settle_input :
    MachineIdentityRow
    → HostUsageObservation
    → Bool
    → Times
    → Progress
    → MeteringTables
    → Result MeteringError ((Receipt × Bool) × MeteringTables)
settle_input identity input is_duplicate times progress db =
    let quarantined_db =
      if progress.input_quarantined
      then quarantine_host identity.host_id "metering observation integrity violated" times.now
          times.revoked db
      else db in
    let sequence = big_int input.sequence in
    require (state_of identity quarantined_db) missing_state >>= λ state.
    let noted_db =
      if ltb state.last_sequence sequence
      then exception
          (input_exception identity input (sequenced_key input "sequence_gap") "sequence_gap")
          quarantined_db
      else quarantined_db in
    ok (
      (
        receipt_for input (input_outcome progress is_duplicate sequence state.last_sequence),
        progress.input_quarantined,
      ),
      resolve_gaps identity state.last_sequence noted_db,
    )
