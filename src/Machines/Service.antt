-- ===== src/Machines/Service.antt =====
-- apps/nehemiah/src/domain/machines.ts, `MachineService`: the checks at the start of `create`, and
-- `destroy`. What the host answers is a parameter.
pub mod Destroying
use nehemiah.Base.{
  ℕ, ◌+◌, String, Bool, true, false, not, ◌&&◌, ◌||◌, List, [], ◌∷◌, Option, none, some, Result, ok,
  err, ◌>>=◌, ◌>>◌, throw_if, if◌then◌else◌, ◌==◌, string_eq, nat_eq, find, is_some, leb, length,
  all, any,
}
use nehemiah.Base.Number.{Number, is_safe_integer, is_below, exceeds}
use nehemiah.Base.Text.{codes, is_identity_code}
use nehemiah.Scheduler.Capacity.{ResourcesOf, Resources, ResourceError, validate_resources}
use nehemiah.Base.Text.{truthy}
use nehemiah.Scheduler.Reserve.{release}
use nehemiah.Database.{
  Database, MachineRow, ForkRow, HostRow, requested, placing, starting, running, stopping, stopped,
  is_terminal,
}
use nehemiah.Machines.{transition}

pub record CreateMachine : Type 0 where
  pub idempotency_key : String
  pub template : Option String
  pub template_id : Option String
  pub oci_reference : Option String
  pub resources : ResourcesOf Number
  pub ttl_seconds : Number

pub data InvalidMachineRequest : Type 0 where
  invalid_key ambiguous_image oci_unavailable unknown_template invalid_ttl : InvalidMachineRequest
  invalid_size : ResourceError → InvalidMachineRequest

-- /^[A-Za-z0-9._:-]{1,128}$/
abbrev pub is_idempotency_key : String → Bool
is_idempotency_key key =
    let cs = codes key in leb 1 (length cs) && leb (length cs) 128 && all is_identity_code cs

abbrev pub count_given : List (Option String) → ℕ
count_given [] = 0
count_given (source ∷ sources) = (if is_some (truthy source) then 1 else 0) + count_given sources

abbrev pub is_built_in : Option String → Bool
is_built_in none = true
is_built_in (some template) = template == "python" || template == "desktop"

abbrev pub checked_size : Result ResourceError (Unit {0}) → Result InvalidMachineRequest (Unit {0})
checked_size (ok _) = ok tt
checked_size (err e) = err (invalid_size e)

-- the checks of `create` up to the network policy
unfoldable pub validate_create : CreateMachine → Result InvalidMachineRequest (Unit {0})
validate_create input = do
  throw_if (not (is_idempotency_key input.idempotency_key)) invalid_key
  throw_if (not (count_given (input.template ∷ input.template_id ∷ input.oci_reference ∷ []) == 1))
      ambiguous_image
  throw_if (is_some (truthy input.oci_reference)) oci_unavailable
  throw_if (not (is_built_in (truthy input.template))) unknown_template
  throw_if
      (not (is_safe_integer input.ttl_seconds)
        || is_below input.ttl_seconds 15
        || exceeds input.ttl_seconds 86400)
      invalid_ttl
  checked_size (validate_resources input.resources)

-- The host deletes the machine, does not know it, or fails.
pub data HostAnswer : Type 0 where
  destroyed not_found host_failed : HostAnswer

pub data HostFailure : Type 0 where
  host_failure : HostFailure

-- A machine that is no fork, or one of a fork operation that succeeded.
abbrev pub is_settled_fork : List ForkRow → Option String → Bool
is_settled_fork forks none = true
is_settled_fork forks (some operation_id) =
    any (λ (fork : ForkRow). fork.id == operation_id && fork.state == "succeeded") forks

-- `m.id = $1 AND m.organization_id = $2`, the project if one is given, and no fork that is pending
abbrev pub is_visible : List ForkRow → String → String → Option String → MachineRow → Bool
is_visible forks id organization_id project_id m =
    m.id == id
    && m.organization_id == organization_id
    && (elim project_id [ none ↦ true | some p ↦ m.project_id == p ])
    && is_settled_fork forks m.fork_operation_id

-- LEFT JOIN hosts
abbrev pub host_address : Database → MachineRow → Option String
host_address db m = elim m.host_id [
  | none ↦ none
  | some host_id ↦ elim (find (λ (h : HostRow). h.id == host_id) db.hosts) [
    | none ↦ none
    | some host ↦ some host.address
  ]
]

abbrev pub size_of_row : MachineRow → Resources
size_of_row m = record { vcpus = m.vcpus; memory_mb = m.memory_mb; disk_mb = m.disk_mb }

-- the reservation, if there is a host
abbrev pub release_from : ℕ → MachineRow → Option String → Database → Database
release_from now m none db = db
release_from now m (some host_id) db = release now host_id (size_of_row m) (some m.id) db

module _ (answer : String → String → HostAnswer) (now : ℕ) (first_event second_event : String) where
  -- Without an address or the host's identifier nothing is asked, and the code goes on as after an
  -- answer.
  abbrev pub host_answer : Option String → Option String → HostAnswer
  host_answer (some address) (some host_machine_id) = answer address host_machine_id
  host_answer none host_machine_id = destroyed
  host_answer (some address) none = destroyed

  -- what follows the host's answer
  abbrev pub destroy_answered :
      MachineRow → HostAnswer → Database → Result HostFailure Bool × Database
  destroy_answered m host_failed db = (err host_failure, db)
  destroy_answered m _ db = (
    ok true,
    release_from now m (truthy m.host_id)
        (transition now second_event m.id (stopping ∷ []) stopped none db).1,
  )

  abbrev pub destroy_found : Database → Option MachineRow → Result HostFailure Bool × Database
  destroy_found db none = (ok false, db)
  destroy_found db (some m) =
      let begun =
        transition now first_event m.id (requested ∷ placing ∷ starting ∷ running ∷ []) stopping
          none db in
      let address = truthy (host_address db m) in
      if is_terminal m.state
      then (ok true, db)
      else (if not begun.0
          then (ok true, begun.1)
          else (if is_some (truthy m.host_id)
                && is_some address
                && not (is_some (truthy m.host_machine_id))
              then (ok true, begun.1)
              else destroy_answered m (host_answer address (truthy m.host_machine_id)) begun.1))

  unfoldable pub destroy :
      String → String → Option String → Database → Result HostFailure Bool × Database
  destroy id organization_id project_id db =
      destroy_found db (find (is_visible db.forks id organization_id project_id) db.machines)
