-- ===== src/Capabilities.antt =====
-- apps/nehemiah/src/auth/capability.ts: the tokens that admit to a machine's gateway. The signatures of
-- the library jose, and their tokens, are parameters. A capability is a text, since the code tests
-- that it is a known one.
pub mod RoundTrip
pub mod Tests
use nehemiah.Base.{
  ℕ, ◌+◌, ◌/◌, String, Bool, true, false, not, ◌||◌, List, [], ◌∷◌, any, length, select, Option,
  none, some, ltb, ◌==◌, string_eq, nat_eq, if◌then◌else◌, Result, ok, err, ◌>>=◌, ◌>>◌, require,
  throw_if,
}
use nehemiah.Base.Number.{two53}
use nehemiah.Base.Text.{is_uuid}

abbrev pub gateway_capabilities : List String
gateway_capabilities = "tty" ∷ "vnc" ∷ "agent" ∷ "files" ∷ "preview" ∷ []

abbrev pub has_capability : List String → String → Bool
has_capability capabilities capability = any (λ c. c == capability) capabilities

abbrev pub canonical_gateway_capabilities : List String → List String
canonical_gateway_capabilities capabilities =
    select (has_capability capabilities) gateway_capabilities

abbrev pub is_unknown : String → Bool
is_unknown capability = not (has_capability gateway_capabilities capability)

pub record CapabilityClaims : Type 0 where
  pub machine_id : String
  pub organization_id : String
  pub project_id : String
  pub lease_id : String
  pub capabilities : List String
  pub port : Option ℕ

-- The claims of a token: what has not the type that is tested for is `none`.
pub record Payload : Type 0 where
  pub issuer : String
  pub audience : String
  pub subject : Option String
  pub org : Option String
  pub project : Option String
  pub lease : Option String
  pub cap : Option (List String)
  pub port : Option ℕ
  pub issued_at : ℕ
  pub expiration_time : ℕ
  pub jti : String

pub data CapabilityError : Type 0 where
  ttl_out_of_range no_capability unknown_capability invalid_issued_at not_a_uuid : CapabilityError
  not_verified invalid_claims : CapabilityError

abbrev pub payload_of : CapabilityClaims → ℕ → ℕ → String → Payload
payload_of claims issued_at ttl_seconds capability_id = record {
  issuer = "nehemiah-control-plane";
  audience = "nehemiah-gateway";
  subject = some claims.machine_id;
  org = some claims.organization_id;
  project = some claims.project_id;
  lease = some claims.lease_id;
  cap = some (canonical_gateway_capabilities claims.capabilities);
  port = claims.port;
  issued_at = issued_at;
  expiration_time = issued_at + ttl_seconds;
  jti = capability_id;
}

-- !payload.sub
abbrev pub subject_of : Option String → Option String
subject_of none = none
subject_of (some subject) = if subject == "" then none else some subject

-- SignJWT and jwtVerify under HS256, for the issuer and the audience of the gateway
pub record Jwt (Token : Type 0) : Type 0 where
  pub sign : Payload → String → Token
  pub verify : Token → String → ℕ → Option Payload

module _ {Token : Type 0} (jwt : Jwt Token) where
  -- The time is in milliseconds; the identifier is the one given or drawn.
  unfoldable pub issue_capability_token :
      CapabilityClaims → String → ℕ → ℕ → String → Result CapabilityError Token
  issue_capability_token claims secret ttl_seconds now capability_id =
      let capabilities = canonical_gateway_capabilities claims.capabilities in
      let issued_at = now / 1000 in
      throw_if (ltb ttl_seconds 1 || ltb 900 ttl_seconds) ttl_out_of_range
      >> throw_if (length claims.capabilities == 0) no_capability
      >> throw_if
          (not (length capabilities == length claims.capabilities)
            || any is_unknown claims.capabilities)
          unknown_capability
      >> throw_if (not (ltb issued_at two53) || ltb issued_at 1) invalid_issued_at
      >> throw_if (not (is_uuid capability_id)) not_a_uuid
      >> ok (jwt.sign (payload_of claims issued_at ttl_seconds capability_id) secret)

  abbrev pub claims_of : Payload → Result CapabilityError CapabilityClaims
  claims_of payload = require (subject_of payload.subject) invalid_claims >>= λ machine_id.
      require payload.org invalid_claims >>= λ organization_id.
      require payload.project invalid_claims >>= λ project_id.
      require payload.lease invalid_claims >>= λ lease_id.
      require payload.cap invalid_claims >>= λ capabilities.
      throw_if (any is_unknown capabilities) invalid_claims
      >> ok (record {
        machine_id = machine_id;
        organization_id = organization_id;
        project_id = project_id;
        lease_id = lease_id;
        capabilities = capabilities;
        port = payload.port;
      })

  unfoldable pub verify_capability_token :
      Token → String → ℕ → Result CapabilityError CapabilityClaims
  verify_capability_token token secret now =
      require (jwt.verify token secret now) not_verified >>= λ payload. claims_of payload
