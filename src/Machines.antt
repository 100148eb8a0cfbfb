-- ===== src/Machines.antt =====
-- apps/nehemiah/src/domain/machines.ts, `PostgresMachineRepository`: the statements that move a
-- machine through its states. The identifiers that `randomUUID` returns are arguments, and so is
-- the time of the statement, in microseconds.
pub mod Lifecycle
pub mod Claims
pub mod Failure
pub mod Service
pub mod Extension
mod Tests
use Prim.Native.String
use nehemiah.Base.{
  ℕ, ◌+◌, ◌*◌, String, Bool, true, false, not, ◌&&◌, ◌||◌, List, [], ◌∷◌, Option, none, some,
  Result, ok, err, ◌>>=◌, require, transaction, if◌then◌else◌, ◌==◌, string_eq, find, update, any,
  is_some, leb,
}
use nehemiah.Database.{
  Database, MachineRow, MachineState, EventRow, state_eq, requested, placing, starting, running,
  stopping, stopped, failed, lost, is_unplaced, is_terminal, insert_event, second,
}
use nehemiah.Scheduler.Reserve.{Reservation}

pub data MachineError : Type 0 where
  not_assigned : MachineError

abbrev pub state_name : MachineState → String
state_name requested = "requested"
state_name placing = "placing"
state_name starting = "starting"
state_name running = "running"
state_name stopping = "stopping"
state_name stopped = "stopped"
state_name failed = "failed"
state_name lost = "lost"

-- The event of a change, with a fresh identifier in its key.
unfoldable pub event :
    String
    → String
    → String
    → Option MachineState
    → MachineState
    → Option String
    → Database
    → Database
event event_id machine_id organization_id from to reason db = record db {
  events =
      insert_event
        (record {
          event_key =
              String.◌++◌ machine_id
                (String.◌++◌ ":" (String.◌++◌ (state_name to) (String.◌++◌ ":" event_id)));
          machine_id = machine_id;
          organization_id = organization_id;
          from_state = from;
          to_state = to;
          reason = reason;
        })
        db.events;
}

-- `create_claim_token = $2`
abbrev pub holds_claim : String → MachineRow → Bool
holds_claim token m = elim m.create_claim_token [ none ↦ false | some held ↦ held == token ]

-- `create_claim_token IS NULL OR create_claimed_until <= now()`
abbrev pub is_claimable : ℕ → MachineRow → Bool
is_claimable now m =
    not (is_some m.create_claim_token)
    || (elim m.create_claimed_until [ none ↦ false | some until ↦ leb until now ])

abbrev pub may_claim : ℕ → String → MachineRow → Bool
may_claim now machine_id m =
    m.id == machine_id
    && (m.state == requested && not (is_some m.create_failure_status) && is_claimable now m)

abbrev pub claimed_by : ℕ → String → MachineRow → MachineRow
claimed_by now token m = record m {
  create_claim_token = some token;
  create_claimed_until = some (now + 300 * second);
}

unfoldable pub claim_create : ℕ → String → String → Database → Option String × Database
claim_create now machine_id token db = (
  if any (may_claim now machine_id) db.machines then some token else none,
  record db { machines = update (may_claim now machine_id) (claimed_by now token) db.machines },
)

abbrev pub unclaimed : MachineRow → MachineRow
unclaimed m = record m { create_claim_token = none; create_claimed_until = none }

unfoldable pub release_create_claim : String → String → Database → Database
release_create_claim machine_id token db = record db {
  machines = update (λ m. m.id == machine_id && holds_claim token m) unclaimed db.machines;
}

-- state IN ('requested', 'placing', 'starting')
abbrev pub is_being_created : MachineState → Bool
is_being_created requested = true
is_being_created placing = true
is_being_created starting = true
is_being_created _ = false

abbrev pub may_fail : String → String → MachineRow → Bool
may_fail machine_id token m =
    m.id == machine_id && (holds_claim token m && is_being_created m.state)

abbrev pub failed_with : ℕ → ℕ → String → String → MachineRow → MachineRow
failed_with now status code message m = record m {
  state = failed;
  state_reason = some message;
  stopped_at = some now;
  ready = false;
  ready_at = none;
  create_failure_status = some status;
  create_failure_code = some code;
  create_failure_message = some message;
  create_claim_token = none;
  create_claimed_until = none;
}

-- the statements of the transaction, given the row that was found
abbrev pub fail_prior :
    ℕ
    → String
    → String
    → String
    → ℕ
    → String
    → String
    → Database
    → Option MachineRow
    → Bool × Database
fail_prior now event_id machine_id token status code message db none = (false, db)
fail_prior now event_id machine_id token status code message db (some prior) = (
  true,
  event event_id machine_id prior.organization_id (some prior.state) failed (some message)
      (record db {
        machines =
            update (may_fail machine_id token) (failed_with now status code message) db.machines;
      }),
)

unfoldable pub fail_create :
    ℕ → String → String → String → ℕ → String → String → Database → Bool × Database
fail_create now event_id machine_id token status code message db =
    fail_prior now event_id machine_id token status code message db
      (find (may_fail machine_id token) db.machines)

abbrev pub may_assign : String → MachineRow → Bool
may_assign machine_id m = m.id == machine_id && is_unplaced m.state

abbrev pub assigned_to : ℕ → Reservation → MachineRow → MachineRow
assigned_to now reservation m = record m {
  host_id = some reservation.host_id;
  runtime_cohort_id = reservation.runtime_cohort_id;
  source_sha256 = reservation.source_sha256;
  state = starting;
  placed_at = some now;
  startup_deadline_at = some (now + 120 * second);
}

unfoldable pub assign_work :
    ℕ → String → String → Reservation → Database → Result MachineError (Unit {0} × Database)
assign_work now event_id machine_id reservation db = do
  row ← require (find (may_assign machine_id) db.machines) not_assigned
  ok (
    tt,
    event event_id machine_id row.organization_id (some requested) starting none (record db {
      machines = update (may_assign machine_id) (assigned_to now reservation) db.machines;
    }),
  )

unfoldable pub assign :
    ℕ → String → String → Reservation → Database → Result MachineError (Unit {0}) × Database
assign now event_id machine_id reservation db =
    transaction (assign_work now event_id machine_id reservation) db

-- What a host says of a machine; its times are parsed.
pub record HostMachine : Type 0 where
  pub id : String
  pub ready : Bool
  pub started_at : Option ℕ
  pub ready_at : Option ℕ

abbrev pub is_starting : String → MachineRow → Bool
is_starting machine_id m = m.id == machine_id && m.state == starting

abbrev pub or_else {ℓ} : {A : Type ℓ} → Option A → Option A → Option A
or_else none other = other
or_else (some a) other = some a

-- `clock` is the time of the control plane, `now` that of the database.
abbrev pub observed : ℕ → ℕ → HostMachine → MachineRow → MachineRow
observed clock now host m = record m {
  host_machine_id = some host.id;
  state = if host.ready then running else starting;
  ready = host.ready;
  started_at = or_else host.started_at (or_else m.started_at (some now));
  ready_at = if host.ready then or_else host.ready_at (some clock) else none;
  state_reason = none;
  create_claim_token = none;
  create_claimed_until = none;
}

-- the event that follows the update, if the machine is ready and was found
abbrev pub observe_event : String → String → HostMachine → Option MachineRow → Database → Database
observe_event event_id machine_id host none db = db
observe_event event_id machine_id host (some row) db =
    if host.ready
    then event event_id machine_id row.organization_id (some starting) running none db
    else db

unfoldable pub observe_host : ℕ → ℕ → String → String → HostMachine → Database → Database
observe_host clock now event_id machine_id host db =
    observe_event event_id machine_id host (find (is_starting machine_id) db.machines) (record db {
      machines = update (is_starting machine_id) (observed clock now host) db.machines;
    })

abbrev pub may_move : String → List MachineState → MachineRow → Bool
may_move machine_id from m = m.id == machine_id && any (λ s. m.state == s) from

abbrev pub moved : ℕ → MachineState → Option String → MachineRow → MachineRow
moved now to reason m = record m {
  state = to;
  state_reason = reason;
  stopping_at = if to == stopping then some now else m.stopping_at;
  stopped_at = if is_terminal to then some now else m.stopped_at;
  ready = if to == running then m.ready else false;
  ready_at = if to == running then m.ready_at else none;
  create_claim_token = if is_terminal to then none else m.create_claim_token;
  create_claimed_until = if is_terminal to then none else m.create_claimed_until;
}

-- the statements of the transaction, given the row that was found
abbrev pub move_prior :
    ℕ
    → String
    → String
    → List MachineState
    → MachineState
    → Option String
    → Database
    → Option MachineRow
    → Bool × Database
move_prior now event_id machine_id from to reason db none = (false, db)
move_prior now event_id machine_id from to reason db (some prior) = (
  true,
  event event_id machine_id prior.organization_id (some prior.state) to reason (record db {
    machines = update (may_move machine_id from) (moved now to reason) db.machines;
  }),
)

unfoldable pub transition :
    ℕ
    → String
    → String
    → List MachineState
    → MachineState
    → Option String
    → Database
    → Bool × Database
transition now event_id machine_id from to reason db =
    move_prior now event_id machine_id from to reason db
      (find (may_move machine_id from) db.machines)
