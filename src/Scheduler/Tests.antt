-- ===== src/Scheduler/Tests.antt =====
-- Small databases on which the theorems about the scheduler are applied.
use nehemiah.Base.{
  ◌≡◌, ◌↔◌, Memᴰ, All, inl, inr, refl, String, Bool, true, false, [], ◌∷◌, none, some, ok, arith,
  any,
}
use nehemiah.Base.Int.{ℤ, pos, ◌-ℤ◌}
use nehemiah.Base.Number.{Number, integer}
use nehemiah.Database.{Database}
use nehemiah.Fixtures.{digest, host_row, machine_row, tables, free_plan}
use nehemiah.Base.Outcome.{transaction}
use nehemiah.Base.Text.{is_digest}
use nehemiah.Billing.Admission.{enforce}
use nehemiah.Scheduler.Quota.{enforce_quota, over_limits, usage_of}
use nehemiah.Scheduler.Placement.{sort, eligible, compare_hosts}
use nehemiah.Scheduler.Reserve.{
  reserve_work, is_placeable, source_sha256, reserve_at, assign_machine, is_unreleased,
}
use nehemiah.Scheduler.Capacity.{HostCapacity, ready, x86_64, validate_resources, fits, available}
use nehemiah.Scheduler.Capacity.Validity.{HasSize, validate_resources-HasSize}
use nehemiah.Scheduler.Placement.{PlacementRequest, choose_host}
use nehemiah.Scheduler.Placement.Sorting.{IsComparison}
use nehemiah.Scheduler.Placement.BestFit.{
  IsAtLeastAsGood, MayHost, choose_host-best, choose_host-none,
}
use nehemiah.Scheduler.Quota.{ScheduleRequest}
use nehemiah.Scheduler.Reserve.{Reservation, reserve, release, select_host, sized}
use nehemiah.Scheduler.Reserve.Selection.{IsSelected, select_host-IsSelected}
use nehemiah.Scheduler.Reserve.Capacity.{IsWithin, reserve-IsWithin}
use nehemiah.Scheduler.Reserve.Releasing.{release_twice, release-reserve}
use nehemiah.Scheduler.Reserve.Limits.{WithinOrganization, WithinProject, reserve-WithinLimits}

-- A collation that takes all texts as equal, and a pattern that matches no prefix.
abbrev same_text : String → String → ℤ
same_text a b = pos 0

abbrev keep : String → String
keep text = text

same_text-IsComparison : IsComparison same_text
same_text-IsComparison = record {
  total = λ x y. inl (ground arith);
  transitive = λ x y z h k. ground arith;
}

abbrev request : ScheduleRequest Number
request = record {
  organization_id = "o";
  project_id = "p";
  region = "eu";
  architecture = x86_64;
  resources = record {
    vcpus = integer (pos 2);
    memory_mb = integer (pos 2048);
    disk_mb = integer (pos 4096);
  };
  template_id = none;
  machine_id = some "m";
}

abbrev unlocked : String → Bool
unlocked id = false

abbrev reserved : Database
reserved = (reserve keep same_text free_plan 2000 2000 unlocked request tables).1

abbrev reservation : Reservation
reservation = record {
  host_id = "h";
  address = "10.0.0.1";
  cached_template = false;
  runtime_cohort_id = some "cohort";
  source_sha256 = some digest;
  assignment_committed = true;
}

reserved_run :
    reserve keep same_text free_plan 2000 2000 unlocked request tables ≡ (ok reservation, reserved)
unfolding reserve validate_resources transaction reserve_work enforce_quota enforce over_limits
    usage_of select_host sort is_placeable source_sha256 is_digest reserve_at assign_machine
reserved_run = refl

tables-IsWithin : IsWithin tables.hosts
tables-IsWithin = record {
  unique = (tt, tt);
  within = (
    record { vcpus_within = omega arith; memory_within = omega arith; disk_within = omega arith },
    tt,
  );
}

reserve-IsWithin_example :
    IsWithin (reserve keep same_text free_plan 2000 2000 unlocked request tables).1.hosts
reserve-IsWithin_example =
    reserve-IsWithin keep same_text free_plan 2000 2000 unlocked request tables tables-IsWithin

reserve-WithinLimits_example :
    WithinOrganization (sized request) tables reserved
    × WithinProject (sized request) tables reserved
reserve-WithinLimits_example =
    reserve-WithinLimits keep same_text free_plan 2000 2000 unlocked request tables reserved
      reservation "m" machine_row reserved_run refl (tt, tt) refl
      (record { same_vcpus = refl; same_memory = refl; same_disk = refl })

held : any (is_unreleased "m") reserved.machines ≡ true
unfolding reserve validate_resources transaction reserve_work enforce_quota enforce over_limits
    usage_of select_host sort is_placeable source_sha256 is_digest reserve_at assign_machine
held = refl

release-reserve_example :
    (release 5000 "h" (sized request).resources (some "m") reserved).hosts ≡ tables.hosts
release-reserve_example =
    release-reserve keep same_text free_plan 2000 2000 unlocked request tables reserved reservation
      5000 reserved_run (inr ("m", refl, held))

release_twice_example :
    release 6000 "h"
      (sized request).resources
      (some "m")
      (release 5000 "h" (sized request).resources (some "m") reserved)
    ≡ release 5000 "h" (sized request).resources (some "m") reserved
release_twice_example = release_twice 5000 6000 "h" (sized request).resources "m" "m" reserved refl

selected_run : select_host keep same_text 2000 unlocked tables (sized request) ≡ some host_row
unfolding select_host sort is_placeable source_sha256 is_digest
selected_run = refl

select_host-IsSelected_example :
    IsSelected keep same_text 2000 unlocked tables (sized request) host_row
select_host-IsSelected_example =
    select_host-IsSelected keep same_text 2000 unlocked tables (sized request) host_row
      (omega arith, omega arith, omega arith) selected_run

-- Two hosts, the second of which has less to spare.
abbrev wide : HostCapacity
wide = record {
  id = "a";
  region = "eu";
  architecture = x86_64;
  state = ready;
  vcpus = 8;
  memory_mb = 8192;
  disk_mb = 40960;
  reserved_vcpus = 0;
  reserved_memory_mb = 0;
  reserved_disk_mb = 0;
  cached_templates = [];
}

abbrev tight : HostCapacity
tight = record wide { id = "b"; reserved_memory_mb = 4096 }

abbrev placement : PlacementRequest
placement = record {
  region = "eu";
  architecture = x86_64;
  resources = record { vcpus = 2; memory_mb = 2048; disk_mb = 4096 };
  template_id = none;
}

chosen_run : choose_host same_text (wide ∷ tight ∷ []) placement ≡ some tight
unfolding choose_host sort eligible fits available compare_hosts ◌-ℤ◌
chosen_run = refl

wide-MayHost : MayHost placement wide
wide-MayHost = record {
  same_region = refl;
  same_architecture = refl;
  room = record {
    is_ready = refl;
    vcpus_room = omega arith;
    memory_room = omega arith;
    disk_room = omega arith;
  };
}

choose_host-best_example : IsAtLeastAsGood same_text placement tight wide
choose_host-best_example =
    choose_host-best same_text same_text-IsComparison (wide ∷ tight ∷ []) placement tight wide
      chosen_run (Memᴰ.head refl) wide-MayHost

choose_host-none_example :
    (choose_host same_text (wide ∷ []) placement ≡ none)
    ↔ All (λ host. ¬ MayHost placement host) (wide ∷ [])
choose_host-none_example = choose_host-none same_text (wide ∷ []) placement

validate_resources-HasSize_example :
    (validate_resources request.resources ≡ ok tt) ↔ HasSize request.resources
validate_resources-HasSize_example = validate_resources-HasSize request.resources
