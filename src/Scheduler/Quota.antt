-- ===== src/Scheduler/Quota.antt =====
-- apps/nehemiah/src/scheduler/scheduler.ts, `Scheduler.enforceQuota`: the limits of the organization
-- and of the project, checked against the machines that count.
use nehemiah.Base.{
  ℕ, ◌+◌, ◌-◌, ◌*◌, String, Bool, ◌&&◌, ◌||◌, List, Option, none, some, Result, ok, err, ◌>>=◌,
  ◌>>◌, throw_if, require, ◌==◌, string_eq, find, select, sum, length, ltb,
}
use nehemiah.Base.Int.{pos}
use nehemiah.Billing.Price.{divide_up}
use nehemiah.Billing.Admission.{BillingAdmissionPolicy, BillingError, enforce}
use nehemiah.Base.Text.{truthy}
use nehemiah.Scheduler.Capacity.{Resources, ResourcesOf, Architecture, ResourceError}
use nehemiah.Database.{Database, Limits, MachineRow, is_unplaced, is_charged, second}

pub record ScheduleRequest (N : Type 0) : Type 0 where
  pub organization_id : String
  pub project_id : String
  pub region : String
  pub architecture : Architecture
  pub resources : ResourcesOf N
  pub template_id : Option String
  pub machine_id : Option String

pub data QuotaRefusal : Type 0 where
  no_organization no_project organization_quota project_quota : QuotaRefusal

pub data ScheduleError : Type 0 where
  invalid_resources : ResourceError → ScheduleError
  billing_rejected : BillingError → ScheduleError
  quota_exceeded : QuotaRefusal → ScheduleError
  capacity_unavailable : ScheduleError
  machine_not_assignable : ScheduleError

pub record ProjectUsage : Type 0 where
  pub machines : ℕ
  pub vcpus : ℕ
  pub memory_mb : ℕ
  pub disk_mb : ℕ

-- count(*) and the sums over the machines that count, of an owner
unfoldable pub usage_of : (MachineRow → Bool) → List MachineRow → ProjectUsage
usage_of owned machines =
    let rows = select (λ m. owned m && is_charged m.state) machines in
    record {
      machines = length rows;
      vcpus = sum (λ m. m.vcpus) rows;
      memory_mb = sum (λ m. m.memory_mb) rows;
      disk_mb = sum (λ m. m.disk_mb) rows;
    }

-- the four comparisons of the usage and one more machine with the limits
unfoldable pub over_limits : ProjectUsage → Resources → Limits → Bool
over_limits usage resources limits =
    ltb limits.max_machines (usage.machines + 1)
    || ltb limits.max_vcpus (usage.vcpus + resources.vcpus)
    || ltb limits.max_memory_mb (usage.memory_mb + resources.memory_mb)
    || ltb limits.max_disk_mb (usage.disk_mb + resources.disk_mb)

abbrev pub billed {ℓ} : {A : Type ℓ} → Result BillingError A → Result ScheduleError A
billed (ok a) = ok a
billed (err e) = err (billing_rejected e)

-- CEIL(GREATEST(EXTRACT(EPOCH FROM (expires_at - statement_timestamp())), 0))
unfoldable pub remaining_seconds : ℕ → ℕ → ℕ
unfolding divide_up
remaining_seconds now expires_at = divide_up (expires_at - now) second

unfoldable pub candidate_seconds : ℕ → Database → ScheduleRequest ℕ → ℕ
candidate_seconds now db request = elim (truthy request.machine_id) [
  | none ↦ 0
  | some machine_id ↦
      elim (find
        (λ m.
          m.id == machine_id
          && m.organization_id == request.organization_id
          && m.project_id == request.project_id
          && is_unplaced m.state)
        db.machines) [ none ↦ 0 | some m ↦ remaining_seconds now m.expires_at ]
]

unfoldable pub enforce_quota :
    BillingAdmissionPolicy → ℕ → Database → ScheduleRequest ℕ → Result ScheduleError (Unit {0})
enforce_quota policy now db request = do
  organization ←
      require (find (λ o. o.id == request.organization_id) db.organizations)
        (quota_exceeded no_organization)
  let seconds = candidate_seconds now db request
  billed (
      enforce policy (db.ledger request.organization_id) (record {
        vcpu_seconds = some (pos (seconds * request.resources.vcpus));
        memory_mebibyte_seconds = some (pos (seconds * request.resources.memory_mb));
        storage_byte_seconds = none;
      }))
  project ←
      require
        (find (λ p. p.id == request.project_id && p.organization_id == request.organization_id)
          db.projects)
        (quota_exceeded no_project)
  let usage = usage_of (λ m. m.project_id == request.project_id) db.machines
  let organization_usage = usage_of (λ m. m.organization_id == request.organization_id) db.machines
  throw_if (over_limits organization_usage request.resources organization.limits)
      (quota_exceeded organization_quota)
  throw_if (over_limits usage request.resources project.limits) (quota_exceeded project_quota)
  ok tt
