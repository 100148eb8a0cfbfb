-- ===== src/Devices/Tests.antt =====
-- A concrete login, and runs of its operations.

use nehemiah.Base.{
  ℕ, List, Option, Result, length, true, ◌≡◌, refl, String, [], ◌∷◌, none, some, ok, err, string_eq,
}
use nehemiah.Base.Outcome.{transaction}
use nehemiah.Base.Text.{is_uuid}
use nehemiah.Devices.{
  Environment, Scope, machines_read, machines_write, member, DeviceError, DeviceRow, FamilyRow,
  RefreshRow, AccessRow, DeviceTables, pending, refresh_reuse_detected, token_id,
}
use nehemiah.Devices.Attempts.{AttemptRow, rate_limit, consume_issue}
use nehemiah.Devices.Issue.{DeviceCode, issue, issue_attempts}
use nehemiah.Devices.Exchange.{NewTokens, Tokens, exchange, refusal}
use nehemiah.Devices.Exchange.Once.{exchange-once}
use nehemiah.Devices.Refresh.{NextTokens, refresh}
use nehemiah.Devices.Refresh.Rotation.{refresh-once}
use nehemiah.Devices.Access.{authenticate_access}
use nehemiah.Devices.Access.Lockout.{reuse-locks}
use nehemiah.Devices.Approval.{Authorization, authorize}
use nehemiah.Devices.Approval.Scopes.{IsApproved, authorize-IsApproved}

abbrev device_id : String
device_id = "01234567-89ab-4cde-8f01-23456789abcd"

abbrev refresh_id : String
refresh_id = "11111111-2222-4333-9444-555555555555"

abbrev access_id : String
access_id = "22222222-2222-4333-9444-555555555555"

abbrev next_id : String
next_id = "33333333-2222-4333-9444-555555555555"

abbrev raw_device : String
raw_device =
    "bc_device_01234567-89ab-4cde-8f01-23456789abcd_0123456789012345678901234567890123456789012"

abbrev raw_refresh : String
raw_refresh =
    "bc_refresh_11111111-2222-4333-9444-555555555555_0123456789012345678901234567890123456789012"

abbrev raw_access : String
raw_access =
    "bc_access_22222222-2222-4333-9444-555555555555_0123456789012345678901234567890123456789012"

abbrev same_text : String → String
same_text raw = raw

abbrev environment : Environment
environment = record { digest = same_text; has_capacity = λ db. true }

abbrev device : DeviceRow
device = record {
  id = device_id;
  device_token_hash = raw_device;
  user_code_hash = "ABCDEFGH";
  client_id = "nehemiah-cli";
  requested_scopes = machines_read ∷ machines_write ∷ [];
  approved_scopes = none;
  status = pending;
  organization_id = none;
  project_id = none;
  approved_by = none;
  expires_at = 600000;
  poll_interval_seconds = 5;
  next_poll_at = 5000;
  poll_violations = 0;
  authorized_at = none;
  denied_at = none;
  consumed_at = none;
}

abbrev tables : DeviceTables
tables = record {
  devices = device ∷ [];
  families = [];
  refresh_tokens = [];
  access_tokens = [];
  grants = [];
  users = record { id = "u1"; clerk_user_id = "clerk1"; disabled_at = none } ∷ [];
  organizations = record { id = "o1"; disabled_at = none } ∷ [];
  members = record { user_id = "u1"; organization_id = "o1"; role = member } ∷ [];
  projects = record { id = device_id; organization_id = "o1" } ∷ [];
  audit_events = [];
}

abbrev approval : Authorization
approval = record {
  code = some "ABCDEFGH";
  decision = "approve";
  organization_id = "o1";
  project_id = some device_id;
  scopes = some (machines_read ∷ machines_read ∷ []);
  clerk_user_id = "clerk1";
}

abbrev new_tokens : NewTokens
new_tokens = record {
  family_id = "f1";
  access_id = access_id;
  access_token = raw_access;
  refresh_id = refresh_id;
  refresh_token = raw_refresh;
}

abbrev next_tokens : NextTokens
next_tokens = record {
  refresh_id = next_id;
  refresh_token = "next";
  access_id = next_id;
  access_token = "next access";
}

-- after the approval, the exchange and a rotation, ten minutes later
abbrev approved_tables : DeviceTables
approved_tables = (authorize same_text approval 1000 tables).1

abbrev exchanged_tables : DeviceTables
exchanged_tables =
    (exchange environment raw_device 6000 new_tokens approved_tables approved_tables).1

abbrev rotated_tables : DeviceTables
rotated_tables =
    (refresh environment raw_refresh 606000 606000 next_tokens exchanged_tables exchanged_tables).1

abbrev first_tokens : Tokens
first_tokens = record {
  access_token = raw_access;
  expires_in = 900;
  refresh_token = raw_refresh;
  refresh_expires_in = 2592000;
  organization_id = "o1";
  project_id = device_id;
  scopes = machines_read ∷ [];
}

abbrev second_tokens : Tokens
second_tokens = record {
  access_token = "next access";
  expires_in = 900;
  refresh_token = "next";
  refresh_expires_in = 2591400;
  organization_id = "o1";
  project_id = device_id;
  scopes = machines_read ∷ [];
}

authorize_test : authorize same_text approval 1000 tables ≡ (ok tt, approved_tables)
unfolding authorize transaction is_uuid
authorize_test = refl

exchange_test :
    exchange environment raw_device 6000 new_tokens approved_tables approved_tables
    ≡ (ok first_tokens, exchanged_tables)
unfolding exchange authorize transaction token_id is_uuid
exchange_test = refl

refresh_test :
    refresh environment raw_refresh 606000 606000 next_tokens exchanged_tables exchanged_tables
    ≡ (ok second_tokens, rotated_tables)
unfolding refresh exchange authorize transaction token_id is_uuid
refresh_test = refl

authorize-IsApproved_example : IsApproved approval 1000 tables approved_tables
authorize-IsApproved_example =
    authorize-IsApproved approval 1000 tables approved_tables same_text refl authorize_test

exchange-once_example :
    (e : DeviceError) × (exchange environment raw_device 7000 new_tokens exchanged_tables
        exchanged_tables
      ≡ (err e, exchanged_tables))
exchange-once_example =
    exchange-once environment raw_device 6000 7000 new_tokens new_tokens approved_tables
      exchanged_tables approved_tables exchanged_tables first_tokens exchange_test

refresh-once_example :
    (e : DeviceError) × (end : DeviceTables) × (refresh environment raw_refresh 607000 607000
        next_tokens rotated_tables rotated_tables
      ≡ (err e, end))
refresh-once_example =
    refresh-once environment raw_refresh 606000 607000 606000 607000 next_tokens next_tokens
      exchanged_tables rotated_tables exchanged_tables rotated_tables second_tokens refresh_test

abbrev used_token : RefreshRow
used_token = record {
  id = refresh_id;
  family_id = "f1";
  generation = 0;
  token_hash = raw_refresh;
  created_at = 6000;
  expires_at = 2592006000;
  used_at = some 606000;
  replaced_by = some next_id;
}

abbrev login : FamilyRow
login = record {
  id = "f1";
  device_authorization_id = device_id;
  organization_id = "o1";
  project_id = device_id;
  scopes = machines_read ∷ [];
  created_at = 6000;
  expires_at = 2592006000;
  revoked_at = none;
  reuse_detected_at = none;
}

abbrev first_access : AccessRow
first_access = record {
  id = access_id;
  family_id = "f1";
  organization_id = "o1";
  project_id = device_id;
  scopes = machines_read ∷ [];
  token_hash = raw_access;
  created_at = 6000;
  expires_at = 906000;
  revoked_at = none;
  last_used_at = none;
}

reuse-locks_example :
    (end : DeviceTables) × (refresh environment raw_refresh 607000 607000 next_tokens rotated_tables
        rotated_tables
      ≡ (err (refusal refresh_reuse_detected), end))
    × (authenticate_access environment raw_access 608000 608000 rotated_tables end ≡ (none, end))
unfolding refresh exchange authorize transaction token_id is_uuid
reuse-locks_example =
    reuse-locks environment raw_refresh raw_access refresh_id access_id 607000 607000 608000 608000
      next_tokens rotated_tables rotated_tables rotated_tables used_token login first_access refl
      refl refl refl refl refl refl refl refl refl

abbrev issued :
    Result DeviceError DeviceCode × (List AttemptRow × DeviceTables) → Option (List Scope) × ℕ
issued (ok code, (attempts, db)) = (some code.scopes, length db.devices)
issued (err e, (attempts, db)) = (none, length db.devices)

-- The first user code is taken, and the second is not.
issue_test :
    issued (
      issue environment same_text
        (λ r. true)
        (record {
          client_id = "nehemiah-cli";
          scopes = some (machines_read ∷ machines_read ∷ []);
          source = "";
        })
        1000
        (record { id = "d1"; device_code = "c1"; user_code = "ABCDEFGH" }
          ∷ record { id = "d2"; device_code = "c2"; user_code = "BCDEFGHJ" }
          ∷ [])
        []
        tables)
    ≡ (some (machines_read ∷ []), 2)
unfolding issue issue_attempts consume_issue rate_limit
issue_test = refl
