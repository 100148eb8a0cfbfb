-- ===== src/Machines/Tests.antt =====
-- Machines on which the theorems about the repository are applied.
use nehemiah.Base.{ℕ, String, List, All, ◌≡◌, refl, true, false, [], ◌∷◌, none, some, ok, arith}
use nehemiah.Base.Outcome.{transaction}
use nehemiah.Billing.Admission.{enforce}
use nehemiah.Billing.Price.{divide_up}
use nehemiah.Database.{Database, requested, placing, starting, running, stopping}
use nehemiah.Fixtures.{machine_row, tables, free_plan}
use nehemiah.Machines.{claim_create, transition}
use nehemiah.Machines.Lifecycle.{AllLater, Steps, claims, stops, next, done, Steps-AllLater}
use nehemiah.Machines.Service.{not_found, destroy}
use nehemiah.Machines.Service.Destroying.{IsDestroyed, destroy-IsDestroyed}
use nehemiah.Machines.Claims.{answers, claim_create-exclusive}
use nehemiah.Machines.Extension.{
  ExtendRequest, ExtendOperation, ExtendTables, from_row, to_date, committed_until,
  additional_seconds, extend_new, extend_work, begin_extend, complete_work, complete_extend,
}
use nehemiah.Machines.Extension.Replay.{begin_extend-replay}
use nehemiah.Machines.Extension.Targets.{ReachesTarget, begin_extend-ReachesTarget}
use nehemiah.Machines.Extension.Completion.{complete_extend-once}

abbrev fresh : Database
fresh = record tables { machines = record machine_row { state = requested } ∷ [] }

abbrev claimed : Database
claimed = (claim_create 1000 "m" "t" fresh).1

abbrev stopped_early : Database
stopped_early =
    (transition 2000 "e" "m" (requested ∷ placing ∷ starting ∷ running ∷ []) stopping none
      claimed).1

run : Steps fresh stopped_early
run =
    next fresh claimed stopped_early (claims 1000 "m" "t" fresh)
      (next claimed stopped_early stopped_early (stops 2000 "e" "m" claimed) (done stopped_early))

Steps-AllLater_example : AllLater fresh.machines stopped_early.machines
Steps-AllLater_example = Steps-AllLater fresh stopped_early run

claimed_run : (claim_create 1000 "m" "t" fresh).0 ≡ some "t"
unfolding claim_create
claimed_run = refl

abbrev later_calls : List (ℕ × String)
later_calls = (2000, "u") ∷ (299000000, "v") ∷ []

claim_create-exclusive_example : All (λ answer. answer ≡ none) (answers "m" later_calls claimed)
claim_create-exclusive_example =
    claim_create-exclusive 1000 "m" "t" "t" fresh later_calls (tt, tt) claimed_run
      (omega arith, (omega arith, tt))

abbrev live : Database
live = record tables {
  machines =
      record machine_row { state = running; host_id = some "h"; host_machine_id = some "x" } ∷ [];
}

abbrev extendable : ExtendTables
extendable = record { database = live; extensions = [] }

abbrev request : ExtendRequest
request = record {
  machine_id = "m";
  organization_id = "o";
  project_id = "p";
  idempotency_key = "k";
  request_hash = "hash";
  ttl_seconds = 7200;
}

abbrev operation : ExtendOperation
operation = record {
  id = 7;
  request_hash = "hash";
  target_expires_at = 7201000000;
  result_expires_at = none;
  replayed = false;
}

abbrev begun : ExtendTables
begun = record {
  database = live;
  extensions =
      record {
        id = 7;
        organization_id = "o";
        project_id = "p";
        machine_id = "m";
        idempotency_key = "k";
        request_hash = "hash";
        target_expires_at = 7201000000;
        result_expires_at = none;
        completed_at = none;
      }
      ∷ [];
}

begun_run : begin_extend free_plan 1000000 7 request extendable ≡ (ok (some operation), begun)
unfolding begin_extend transaction extend_work extend_new to_date committed_until additional_seconds
    divide_up enforce from_row
begun_run = refl

begin_extend-replay_example :
    begin_extend free_plan 2000000 8
      (record request { request_hash = "other"; ttl_seconds = 60 })
      begun
    ≡ (ok (some (record operation { replayed = true })), begun)
begin_extend-replay_example =
    begin_extend-replay free_plan 1000000 7 request extendable operation begun 2000000 8 60 "other"
      begun_run

begin_extend-ReachesTarget_example : ReachesTarget 1000000 request extendable operation
begin_extend-ReachesTarget_example =
    begin_extend-ReachesTarget free_plan 1000000 7 request extendable operation begun begun_run refl

abbrev completed : ExtendTables
completed = (complete_extend 3000000 7 "m" "o" 7201000000 begun).1

completed_run :
    complete_extend 3000000 7 "m" "o" 7201000000 begun ≡ (ok (some 7201000000), completed)
unfolding complete_extend complete_work transaction
completed_run = refl

complete_extend-once_example :
    complete_extend 4000000 7 "m" "o" 1 completed ≡ (ok (some 7201000000), completed)
complete_extend-once_example =
    complete_extend-once 3000000 4000000 7 7201000000 1 "m" "o" begun completed (some 7201000000)
      (tt, tt) completed_run

destroy-IsDestroyed_example :
    IsDestroyed
      (λ address id. not_found)
      5000000
      "e"
      "f"
      (record machine_row { state = running; host_id = some "h"; host_machine_id = some "x" })
      live
      (destroy (λ address id. not_found) 5000000 "e" "f" "m" "o" (some "p") live)
destroy-IsDestroyed_example =
    destroy-IsDestroyed (λ address id. not_found) 5000000 "e" "f" "m" "o" (some "p") live
      (record machine_row { state = running; host_id = some "h"; host_machine_id = some "x" })
      (tt, tt) refl refl
