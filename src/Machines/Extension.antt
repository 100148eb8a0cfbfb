-- ===== src/Machines/Extension.antt =====
-- apps/nehemiah/src/domain/machines.ts, `beginExtend` and `completeExtend`: the operations that
-- prolong a machine's life, each recorded under the caller's idempotency key.
pub mod Replay
pub mod Targets
pub mod Completion
use nehemiah.Base.{
  ℕ, ◌+◌, ◌-◌, ◌*◌, ◌/◌, max, String, Bool, true, false, not, ◌&&◌, ◌||◌, List, [], ◌∷◌, ◌++◌,
  Option, none, some, Result, ok, err, ◌>>=◌, ◌>>◌, require, transaction, if◌then◌else◌, ◌==◌,
  string_eq, nat_eq, find, update, any, is_some,
}
use nehemiah.Base.Int.{pos}
use nehemiah.Billing.Price.{divide_up}
use nehemiah.Billing.Admission.{BillingAdmissionPolicy, BillingError, enforce}
use nehemiah.Database.{
  Database, MachineRow, MachineState, state_eq, starting, running, is_terminal, second,
}
use nehemiah.Base.Text.{truthy}

pub record ExtensionRow : Type 0 where
  pub id : ℕ
  pub organization_id : String
  pub project_id : String
  pub machine_id : String
  pub idempotency_key : String
  pub request_hash : String
  pub target_expires_at : ℕ
  pub result_expires_at : Option ℕ
  pub completed_at : Option ℕ

pub record ExtendOperation : Type 0 where
  pub id : ℕ
  pub request_hash : String
  pub target_expires_at : ℕ
  pub result_expires_at : Option ℕ
  pub replayed : Bool

pub record ExtendTables : Type 0 where
  pub database : Database
  pub extensions : List ExtensionRow

pub data ExtendError : Type 0 where
  unpaid : BillingError → ExtendError
  machine_disappeared operation_disappeared : ExtendError

-- `fromExtendOperationRow`
unfoldable pub from_row : ExtensionRow → Bool → ExtendOperation
from_row row replayed = record {
  id = row.id;
  request_hash = row.request_hash;
  target_expires_at = row.target_expires_at;
  result_expires_at = row.result_expires_at;
  replayed = replayed;
}

-- The arguments of `beginExtend`.
pub record ExtendRequest : Type 0 where
  pub machine_id : String
  pub organization_id : String
  pub project_id : String
  pub idempotency_key : String
  pub request_hash : String
  pub ttl_seconds : ℕ

abbrev pub is_machine : ExtendRequest → MachineRow → Bool
is_machine request m =
    m.id == request.machine_id
    && m.organization_id == request.organization_id
    && m.project_id == request.project_id

abbrev pub is_prior : ExtendRequest → ExtensionRow → Bool
is_prior request row =
    row.organization_id == request.organization_id
    && row.machine_id == request.machine_id
    && row.idempotency_key == request.idempotency_key

abbrev pub is_extensible : MachineRow → Bool
is_extensible m =
    (m.state == starting || m.state == running)
    && is_some (truthy m.host_id)
    && is_some (truthy m.host_machine_id)

-- GREATEST($1, COALESCE(MAX(target_expires_at), '-infinity')) over the operations of the machine
unfoldable pub committed_until : ExtendRequest → ℕ → List ExtensionRow → ℕ
committed_until request expires_at [] = expires_at
committed_until request expires_at (row ∷ rows) =
    let rest = committed_until request expires_at rows in
    if row.organization_id == request.organization_id && row.machine_id == request.machine_id
    then max row.target_expires_at rest
    else rest

abbrev pub target_of : ℕ → ExtendRequest → ℕ → ℕ
target_of now request committed = max committed (now + request.ttl_seconds * second)

-- A time that passes through a Date of JavaScript is a whole number of milliseconds; the targets and
-- results that are stored are such times.
unfoldable pub to_date : ℕ → ℕ
to_date t = t / 1000 * 1000

-- CEIL(GREATEST(EXTRACT(EPOCH FROM (target - GREATEST(committed_until, admitted_at))), 0))
unfoldable pub additional_seconds : ℕ → ℕ → ℕ → ℕ
additional_seconds now target committed = divide_up (target - max committed now) second

abbrev pub paid {ℓ} : {A : Type ℓ} → Result BillingError A → Result ExtendError A
paid (ok a) = ok a
paid (err e) = err (unpaid e)

module _ (policy : BillingAdmissionPolicy) (now generated_id : ℕ) (request : ExtendRequest) where
  abbrev pub new_row : ℕ → ExtensionRow
  new_row target = record {
    id = generated_id;
    organization_id = request.organization_id;
    project_id = request.project_id;
    machine_id = request.machine_id;
    idempotency_key = request.idempotency_key;
    request_hash = request.request_hash;
    target_expires_at = target;
    result_expires_at = none;
    completed_at = none;
  }

  -- the statements for an operation that is new
  unfoldable pub extend_new :
      ExtendTables → MachineRow → Result ExtendError (Option ExtendOperation × ExtendTables)
  extend_new tables m = do
    let committed = committed_until request (to_date m.expires_at) tables.extensions
    let target = target_of now request committed
    let seconds = additional_seconds now target committed
    paid (
        enforce policy (tables.database.ledger request.organization_id) (record {
          vcpu_seconds = some (pos (seconds * m.vcpus));
          memory_mebibyte_seconds = some (pos (seconds * m.memory_mb));
          storage_byte_seconds = none;
        }))
    let row = new_row (to_date target)
    ok (some (from_row row false), record tables { extensions = tables.extensions ++ row ∷ [] })

  abbrev pub extend_machine :
      ExtendTables
      → MachineRow
      → Option ExtensionRow
      → Result ExtendError (Option ExtendOperation × ExtendTables)
  extend_machine tables m (some prior) = ok (some (from_row prior true), tables)
  extend_machine tables m none =
      let extended = extend_new tables m in if is_extensible m then extended else ok (none, tables)

  abbrev pub extend_locked :
      ExtendTables → Option MachineRow → Result ExtendError (Option ExtendOperation × ExtendTables)
  extend_locked tables none = ok (none, tables)
  extend_locked tables (some m) =
      extend_machine tables m (find (is_prior request) tables.extensions)

  unfoldable pub extend_work :
      ExtendTables → Result ExtendError (Option ExtendOperation × ExtendTables)
  extend_work tables =
      let locked = extend_locked tables (find (is_machine request) tables.database.machines) in
      if any (λ o. o.id == request.organization_id) tables.database.organizations
      then locked
      else ok (none, tables)

  unfoldable pub begin_extend :
      ExtendTables → Result ExtendError (Option ExtendOperation) × ExtendTables
  begin_extend tables = transaction extend_work tables

abbrev pub is_operation : ℕ → String → String → ExtensionRow → Bool
is_operation id machine_id organization_id row =
    row.id == id && row.machine_id == machine_id && row.organization_id == organization_id

abbrev pub is_pending : ℕ → String → String → ExtensionRow → Bool
is_pending id machine_id organization_id row =
    is_operation id machine_id organization_id row && not (is_some row.completed_at)

abbrev pub is_completed : ℕ → String → String → ExtensionRow → Bool
is_completed id machine_id organization_id row =
    is_operation id machine_id organization_id row && is_some row.completed_at

abbrev pub completed_with : ℕ → ℕ → ExtensionRow → ExtensionRow
completed_with now result row = record row {
  result_expires_at = some result;
  completed_at = some now;
}

abbrev pub is_live_machine : String → String → MachineRow → Bool
is_live_machine machine_id organization_id m =
    m.id == machine_id && m.organization_id == organization_id && not (is_terminal m.state)

-- GREATEST(expires_at, $3) passes over a NULL
abbrev pub prolonged : Option ℕ → MachineRow → MachineRow
prolonged none m = m
prolonged (some result) m = record m { expires_at = max m.expires_at result }

-- what is recorded: this result, or that of the operation that was completed before
abbrev pub recorded_result : ℕ → String → String → ℕ → List ExtensionRow → Option (Option ℕ)
recorded_result id machine_id organization_id result rows =
    if any (is_pending id machine_id organization_id) rows
    then some (some result)
    else (elim (find (is_completed id machine_id organization_id) rows) [
      | none ↦ none
      | some row ↦ some row.result_expires_at
    ])

unfoldable pub complete_work :
    ℕ → ℕ → String → String → ℕ → ExtendTables → Result ExtendError (Option ℕ × ExtendTables)
complete_work now id machine_id organization_id result tables = do
  machine ←
      require
        (find (λ m. m.id == machine_id && m.organization_id == organization_id)
          tables.database.machines)
        machine_disappeared
  recorded ←
      require (recorded_result id machine_id organization_id result tables.extensions)
        operation_disappeared
  ok (
    recorded,
    record {
      database = record tables.database {
        machines =
            update (is_live_machine machine_id organization_id) (prolonged recorded)
              tables.database.machines;
      };
      extensions =
          update (is_pending id machine_id organization_id) (completed_with now result)
            tables.extensions;
    },
  )

unfoldable pub complete_extend :
    ℕ → ℕ → String → String → ℕ → ExtendTables → Result ExtendError (Option ℕ) × ExtendTables
complete_extend now id machine_id organization_id result tables =
    transaction (complete_work now id machine_id organization_id result) tables
