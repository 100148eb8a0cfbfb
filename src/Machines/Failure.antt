-- ===== src/Machines/Failure.antt =====
-- apps/nehemiah/src/domain/machines.ts, `failureForCreateError`: what is persisted for a creation that
-- failed.
use nehemiah.Base.{ℕ, String, Bool, true, false}
use nehemiah.Billing.Admission.{
  BillingError, billing_delinquent, billing_plan_unavailable, spend_cap_exceeded, unpriced,
}
use nehemiah.Scheduler.Quota.{
  ScheduleError, invalid_resources, billing_rejected, quota_exceeded, capacity_unavailable,
  machine_not_assignable,
}

pub record CreateFailure : Type 0 where
  pub status : ℕ
  pub code : String
  pub message : String

-- The errors that `create` catches; that of a host says whether its result is unknown.
pub data CreateError : Type 0 where
  not_scheduled : ScheduleError → CreateError
  host_request : Bool → CreateError
  other_error : CreateError

abbrev pub internal_error : CreateFailure
internal_error = record {
  status = 500;
  code = "internal_error";
  message = "The machine request could not be completed.";
}

abbrev pub rejected : String → String → CreateFailure
rejected code message = record { status = 429; code = code; message = message }

abbrev pub failure_for_billing : BillingError → String → CreateFailure
failure_for_billing billing_delinquent message = rejected "billing_delinquent" message
failure_for_billing billing_plan_unavailable message = rejected "billing_plan_unavailable" message
failure_for_billing spend_cap_exceeded message = rejected "spend_cap_exceeded" message
failure_for_billing (unpriced e) message = internal_error

-- `message` is that of the error.
unfoldable pub failure_for_create_error : CreateError → String → CreateFailure
failure_for_create_error (not_scheduled (quota_exceeded refusal)) message =
    rejected "quota_exceeded" message
failure_for_create_error (not_scheduled (billing_rejected e)) message =
    failure_for_billing e message
failure_for_create_error (not_scheduled capacity_unavailable) message = record {
  status = 503;
  code = "capacity_unavailable";
  message = message;
}
failure_for_create_error (not_scheduled (invalid_resources e)) message = internal_error
failure_for_create_error (not_scheduled machine_not_assignable) message = internal_error
failure_for_create_error (host_request true) message = record {
  status = 503;
  code = "host_result_pending";
  message = "The host result is not yet known; retry with the same Idempotency-Key.";
}
failure_for_create_error (host_request false) message = record {
  status = 502;
  code = "host_request_failed";
  message = "The selected host rejected the machine request.";
}
failure_for_create_error other_error message = internal_error
