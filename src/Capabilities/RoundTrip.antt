-- ===== src/Capabilities/RoundTrip.antt =====
-- A token that is issued verifies as its claims.
use mathlib.Core.Path.{subst}
use nehemiah.Base.{
  ℕ, ◌+◌, ◌/◌, ◌<◌, ◌≡◌, refl, inl, inr, String, Bool, false, not, ◌||◌, List, [], ◌∷◌, any, length,
  select, some, ltb, ◌==◌, string_eq, nat_eq, Bool-cases, ok, ◌>>◌, >>=-eq-ok, ok-injective,
  throw_if, arith,
}
use nehemiah.Base.Number.{two53}
use nehemiah.Base.Text.{is_uuid}
use nehemiah.Capabilities.{
  CapabilityClaims, Payload, Jwt, gateway_capabilities, canonical_gateway_capabilities,
  has_capability, is_unknown, payload_of, issue_capability_token, verify_capability_token,
  ttl_out_of_range, no_capability, unknown_capability, invalid_issued_at, not_a_uuid,
}

any-select :
    (p q : String → Bool) (xs : List String) → any p xs ≡ false → any p (select q xs) ≡ false
any-select p q [] h = refl
any-select p q (x ∷ xs) h = elim (Bool-cases (q x)) [
  | inl kept ↦ rw kept (ground (arith, any-select p q xs))
  | inr left ↦ rw left (any-select p q xs (ground arith))
]

canonical_known :
    (capabilities : List String)
    → any is_unknown (canonical_gateway_capabilities capabilities) ≡ false
canonical_known capabilities =
    any-select is_unknown (has_capability capabilities) gateway_capabilities refl

module _ {Token : Type 0} (jwt : Jwt Token) where
  -- A token that was issued for a machine verifies, with the same secret and until it expires, as
  -- the claims that it was issued for, the capabilities in their canonical order, provided that a
  -- signature for the gateway verifies as the payload that was signed.
  pub verify-issue :
      (claims : CapabilityClaims) (secret : String) (ttl_seconds now later : ℕ)
      (capability_id : String) (token : Token)
      → ((payload : Payload)
          → payload.issuer ≡ "nehemiah-control-plane"
          → payload.audience ≡ "nehemiah-gateway"
          → later < payload.expiration_time
          → jwt.verify (jwt.sign payload secret) secret later ≡ some payload)
      → (claims.machine_id == "") ≡ false
      → issue_capability_token jwt claims secret ttl_seconds now capability_id ≡ ok token
      → later < now / 1000 + ttl_seconds
      → verify_capability_token jwt token secret later
        ≡ ok (record claims { capabilities = canonical_gateway_capabilities claims.capabilities })
  unfolding issue_capability_token verify_capability_token
  verify-issue claims secret ttl_seconds now later capability_id token verifies named issued
        current =
      let checks =
        throw_if (ltb ttl_seconds 1 || ltb 900 ttl_seconds) ttl_out_of_range
        >> throw_if (length claims.capabilities == 0) no_capability
        >> throw_if
            (not (
                length (canonical_gateway_capabilities claims.capabilities)
                == length claims.capabilities)
              || any is_unknown claims.capabilities)
            unknown_capability
        >> throw_if (not (ltb (now / 1000) two53) || ltb (now / 1000) 1) invalid_issued_at
        >> throw_if (not (is_uuid capability_id)) not_a_uuid in
      let (passed, checked, signed) = >>=-eq-ok checks _ issued in
      let payload = payload_of claims (now / 1000) ttl_seconds capability_id in
      let same : jwt.sign payload secret ≡ token = ok-injective signed in
      subst
        (λ t.
          verify_capability_token jwt t secret later
          ≡ ok
              (record claims { capabilities = canonical_gateway_capabilities claims.capabilities }))
        same
        (rw
          (
            verify_capability_token,
            verifies payload refl refl current,
            named,
            canonical_known claims.capabilities,
          )
          refl)
