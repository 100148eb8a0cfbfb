-- ===== src/Capabilities/Tests.antt =====
-- A token that is its payload.
use nehemiah.Base.{◌≡◌, ◌<◌, refl, String, [], ◌∷◌, none, some, ok, arith, if◌then◌else◌, ltb}
use nehemiah.Base.Text.{is_uuid}
use nehemiah.Capabilities.{
  CapabilityClaims, Payload, Jwt, payload_of, issue_capability_token, verify_capability_token,
}
use nehemiah.Capabilities.RoundTrip.{verify-issue}

abbrev plain : Jwt Payload
plain = record {
  sign = λ payload secret. payload;
  verify = λ token secret now. if ltb now token.expiration_time then some token else none;
}

abbrev claims : CapabilityClaims
claims = record {
  machine_id = "m1";
  organization_id = "o1";
  project_id = "p1";
  lease_id = "l1";
  capabilities = "vnc" ∷ "tty" ∷ [];
  port = some 8080;
}

abbrev capability_id : String
capability_id = "01234567-89ab-4cde-8f01-23456789abcd"

plain-verify :
    (payload : Payload)
    → payload.issuer ≡ "nehemiah-control-plane"
    → payload.audience ≡ "nehemiah-gateway"
    → 5 < payload.expiration_time
    → (if ltb 5 payload.expiration_time then some payload else none) ≡ some payload
plain-verify payload issued meant h = ground (arith, h)

issue_test :
    issue_capability_token plain claims "secret" 300 1000 capability_id
    ≡ ok (payload_of claims 1 300 capability_id)
unfolding issue_capability_token is_uuid
issue_test = refl

verify-issue_example :
    verify_capability_token plain (payload_of claims 1 300 capability_id) "secret" 5
    ≡ ok (record claims { capabilities = "tty" ∷ "vnc" ∷ [] })
verify-issue_example =
    verify-issue plain claims "secret" 300 1000 5 capability_id
      (payload_of claims 1 300 capability_id) plain-verify refl issue_test (omega arith)
