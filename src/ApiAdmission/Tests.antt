-- ===== src/ApiAdmission/Tests.antt =====
-- A configuration on which the limit of a principal is applied.
use nehemiah.Base.{ℕ, ◌≤◌, ◌≡◌, refl, String, true, [], ◌∷◌, none, some, arith}
use nehemiah.Base.Int.{ℤ, pos}
use nehemiah.Windows.{current_window}
use nehemiah.ApiAdmission.{ApiRateLimitConfig, AdmissionIdentity, api_key_public_prefix}
use nehemiah.ApiAdmission.Limits.{admissions, admissions-le-limit}

abbrev config : ApiRateLimitConfig
config = record {
  enabled = true;
  window_seconds = 60;
  pre_auth_ip_requests = 10;
  pre_auth_api_key_requests = 10;
  principal_requests = 1;
  organization_requests = 5;
  project_requests = 5;
  fail_closed = true;
}

abbrev user : AdmissionIdentity
user = record { principal_id = "u"; organization_id = some "o"; project_id = none }

abbrev slot : String → String → ℕ
slot scope identifier = 5

abbrev same_text : String → String → ℤ
same_text a b = pos 0

abbrev keep : String → String
keep text = text

in_window : current_window 60 61000000 ≡ 60000000
unfolding current_window
in_window = refl

admissions-le-limit_example :
    admissions slot same_text keep config "u" ((61000000, user) ∷ (61000000, user) ∷ []) [] ≤ 1
admissions-le-limit_example =
    admissions-le-limit slot same_text keep config 60000000 "u"
      ((61000000, user) ∷ (61000000, user) ∷ []) [] refl (in_window, (in_window, tt)) (omega arith)

prefix_run :
    api_key_public_prefix "bc_live_0123456789ab_0123456789abcdefghijABCDEFGHIJ_-"
    ≡ some "bc_live_0123456789ab"
unfolding api_key_public_prefix
prefix_run = refl
