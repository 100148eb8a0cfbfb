-- ===== src/Metering/HostLoss.antt =====
-- apps/nehemiah/src/billing/metering.ts, `closeHostLoss`: the meter of a machine whose host is lost.
pub mod Final
use nehemiah.Base.{
  ℕ, String, Bool, true, false, ◌&&◌, List, [], ◌∷◌, Option, none, some, find, update,
  if◌then◌else◌, ◌==◌, string_eq,
}
use nehemiah.Metering.{MachineIdentityRow, MeterStateRow}
use nehemiah.Metering.Tables.{
  Key, KeyPart, text, number, MeteringException, MeteringTables, exception, coalesce,
}

abbrev pub loss_reason : Option ℕ → String
loss_reason (some at) = "host_lost_without_final"
loss_reason none = "host_lost_without_observation"

abbrev pub loss_exception : MachineIdentityRow → String → MeteringException
loss_exception machine reason = record {
  exception_key =
      text "meter"
      ∷ text machine.id
      ∷ number machine.lease_generation
      ∷ text "host_loss"
      ∷ text reason
      ∷ [];
  host_id = machine.host_id;
  machine_id = machine.id;
  lease_id = machine.lease_id;
  lease_generation = machine.lease_generation;
  host_boot_id = none;
  sequence = none;
  reason = reason;
}

abbrev pub lost_state : ℕ → MeterStateRow → MeterStateRow
lost_state now s = record s { loss_closed_at = coalesce s.loss_closed_at now }

abbrev pub note_loss : MachineIdentityRow → String → ℕ → MeteringTables → MeteringTables
note_loss machine reason now db =
    let noted = exception (loss_exception machine reason) db in
    record noted {
      states =
          update (λ s. s.machine_id == machine.id && s.lease_id == machine.lease_id)
            (lost_state now) db.states;
    }

-- COALESCE($3, usage_checkpoint_at)
abbrev pub prefer : Option ℕ → Option ℕ → Option ℕ
prefer (some a) b = some a
prefer none b = b

abbrev pub finalized : Option ℕ → ℕ → MachineIdentityRow → MachineIdentityRow
finalized period_end now m = record m {
  usage_checkpoint_at = prefer period_end m.usage_checkpoint_at;
  usage_finalized_at = coalesce m.usage_finalized_at now;
}

abbrev pub finalize : MachineIdentityRow → Option ℕ → ℕ → MeteringTables → MeteringTables
finalize machine period_end now db = record db {
  machines =
      update (λ m. m.id == machine.id && m.lease_id == machine.lease_id) (finalized period_end now)
        db.machines;
}

abbrev pub close_meter :
    MachineIdentityRow → MeterStateRow → ℕ → MeteringTables → Option ℕ × MeteringTables
close_meter machine state now db =
    let reason = loss_reason state.last_period_end in
    if state.start_seen
    then (if state.final_seen
        then (state.last_period_end, finalize machine state.last_period_end now db)
        else (
          state.last_period_end,
          finalize machine state.last_period_end now (note_loss machine reason now db),
        ))
    else (none, exception (loss_exception machine reason) db)

abbrev pub close_found : Option MachineIdentityRow → ℕ → MeteringTables → Option ℕ × MeteringTables
close_found none now db = (none, db)
close_found (some machine) now db = elim (find (λ s. s.machine_id == machine.id) db.states) [
  | none ↦ (none, db)
  | some state ↦ close_meter machine state now db
]

unfoldable pub close_host_loss : String → String → ℕ → MeteringTables → Option ℕ × MeteringTables
close_host_loss machine_id lease_id now db =
    close_found (find (λ m. m.id == machine_id && m.lease_id == lease_id) db.machines) now db
