-- ===== src/Metering/Validation.antt =====
-- apps/nehemiah/src/billing/metering.ts, `parseUnsigned`, `parsePositiveBigint` and
-- `validateObservation`. Messages are named by the field they are about.
use nehemiah.Base.{
  ℕ, ◌-◌, String, Bool, false, not, ◌&&◌, ◌||◌, List, [], ◌∷◌, ◌++◌, all, any, length, replicate,
  Option, ltb, leb, ◌==◌, string_eq, nat_eq, Result, ok, ◌>>=◌, ◌>>◌, throw_if, is_some,
}
use nehemiah.Metering.{
  MeteringError, invalid, not_unsigned, exceeds_uint64, not_positive, exceeds_bigint,
}
use nehemiah.Base.Number.{Number, is_safe_integer, is_below}
use nehemiah.Base.Text.{
  codes, is_digit, digits_from, is_uuid, is_lower_hex, is_alphanumeric, is_dash, matches_classes,
}

pub record HostUsageObservation : Type 0 where
  pub machine_id : String
  pub host_machine_id : String
  pub lease_id : String
  pub lease_generation : String
  pub host_boot_id : String
  pub sequence : String
  pub kind : String
  pub quality : String
  pub quality_reason : String
  pub runtime_ns : String
  pub egress_bytes : String
  pub egress_counter_epoch : String
  pub observed_monotonic_ns : String
  pub observed_at : String
  pub vcpus : Number
  pub memory_bytes : String
  pub process_id : Number

-- BigInt(text), on decimal digits
abbrev pub big_int : String → ℕ
big_int text = digits_from 0 (codes text)

-- [1-9][0-9]{0,n}
abbrev pub is_positive_codes : ℕ → List ℕ → Bool
is_positive_codes n [] = false
is_positive_codes n (c ∷ cs) = is_digit c && not (c == b'0') && leb (length cs) n && all is_digit cs

abbrev pub is_zero_codes : List ℕ → Bool
is_zero_codes (c ∷ []) = c == b'0'
is_zero_codes _ = false

-- /^(?:0|[1-9][0-9]{0,29})$/
abbrev pub is_unsigned_integer : String → Bool
is_unsigned_integer text = is_zero_codes (codes text) || is_positive_codes 29 (codes text)

-- /^[1-9][0-9]{0,18}$/
abbrev pub is_positive_integer : String → Bool
is_positive_integer text = is_positive_codes 18 (codes text)

abbrev pub max_signed_bigint : ℕ
max_signed_bigint = 9223372036854775807

abbrev pub max_unsigned_bigint : ℕ
max_unsigned_bigint = 18446744073709551615

unfoldable pub parse_unsigned : String → String → Result MeteringError ℕ
parse_unsigned value name =
    throw_if (not (is_unsigned_integer value)) (not_unsigned name)
    >> throw_if (ltb max_unsigned_bigint (big_int value)) (exceeds_uint64 name)
    >> ok (big_int value)

unfoldable pub parse_positive_bigint : String → String → Result MeteringError ℕ
parse_positive_bigint value name =
    throw_if (not (is_positive_integer value)) (not_positive name)
    >> throw_if (ltb max_signed_bigint (big_int value)) (exceeds_bigint name)
    >> ok (big_int value)

-- [A-Za-z0-9_-]
abbrev is_identifier_code : ℕ → Bool
is_identifier_code c = is_alphanumeric c || c == b'_' || is_dash c

-- /^m_[A-Za-z0-9_-]{12,}$/
abbrev pub is_machine_codes : List ℕ → Bool
is_machine_codes (m ∷ u ∷ cs) =
    m == b'm' && u == b'_' && leb 12 (length cs) && all is_identifier_code cs
is_machine_codes _ = false

-- /^m-[0-9a-f]{8}$/
abbrev pub is_host_machine_codes : List ℕ → Bool
is_host_machine_codes = matches_classes ((λ c. c == b'm') ∷ is_dash ∷ replicate 8 is_lower_hex)

abbrev pub includes : List String → String → Bool
includes names name = any (λ n. n == name) names

abbrev pub quality_reasons : List String
quality_reasons =
    "none" ∷ "terminal_monotonic_unavailable" ∷ "terminal_monotonic_regressed"
    ∷ "terminal_egress_unavailable" ∷ "invalid_or_expired_state" ∷ "runtime_unavailable"
    ∷ "host_boot_changed" ∷ "network_isolation_unavailable" ∷ []

abbrev pub is_inconsistent : HostUsageObservation → Bool
is_inconsistent observation =
    (observation.quality == "exact" && not (observation.quality_reason == "none"))
    || (observation.quality == "last_defensible"
        && (not (observation.kind == "final") || observation.quality_reason == "none"))

-- Number.isSafeInteger(n) && n >= least
abbrev pub is_at_least : ℕ → Number → Bool
is_at_least least n = is_safe_integer n && not (is_below n least)

-- (?:\.[0-9]{1,9})?Z
abbrev pub is_fraction_end : List ℕ → Bool
is_fraction_end (c ∷ []) = c == b'Z'
is_fraction_end (c ∷ d ∷ cs) = c == b'.' && is_digit d && is_fraction_rest 8 cs
  where
    is_fraction_rest : ℕ → List ℕ → Bool
    is_fraction_rest n [] = false
    is_fraction_rest n (c ∷ []) = c == b'Z'
    is_fraction_rest n (c ∷ d ∷ cs) = is_digit c && ltb 0 n && is_fraction_rest (n - 1) (d ∷ cs)
is_fraction_end [] = false

-- [0-9]{4}-[0-9]{2}-[0-9]{2}T[0-9]{2}:[0-9]{2}:[0-9]{2}
abbrev pub date_classes : List (ℕ → Bool)
date_classes =
    replicate 4 is_digit
    ++ is_dash ∷ replicate 2 is_digit
    ++ is_dash ∷ replicate 2 is_digit
    ++ (λ c. c == b'T') ∷ replicate 2 is_digit
    ++ (λ c. c == b':') ∷ replicate 2 is_digit
    ++ (λ c. c == b':') ∷ replicate 2 is_digit

-- The classes, and then what the last test says of the rest.
abbrev pub matches_prefix : List (ℕ → Bool) → (List ℕ → Bool) → List ℕ → Bool
matches_prefix [] test cs = test cs
matches_prefix (p ∷ ps) test [] = false
matches_prefix (p ∷ ps) test (c ∷ cs) = p c && matches_prefix ps test cs

abbrev pub is_canonical_utc : String → Bool
is_canonical_utc text = matches_prefix date_classes is_fraction_end (codes text)

-- The parser of dates of JavaScript: `none` where `getTime()` is not finite.
module _ (date : String → Option ℕ) where
  unfoldable pub validate_observation : HostUsageObservation → Result MeteringError (Unit {0})
  validate_observation o =
      throw_if
        (ltb 128 (length (codes o.machine_id)) || not (is_machine_codes (codes o.machine_id)))
        (invalid "machine_id")
      >> throw_if (not (is_host_machine_codes (codes o.host_machine_id)))
          (invalid "host_machine_id")
      >> throw_if (not (is_uuid o.lease_id)) (invalid "lease_id")
      >> throw_if (not (is_uuid o.host_boot_id)) (invalid "host_boot_id")
      >> (parse_positive_bigint o.lease_generation "lease_generation" >>= λ n. ok tt)
      >> (parse_positive_bigint o.sequence "sequence" >>= λ n. ok tt)
      >> (parse_unsigned o.runtime_ns "runtime_ns" >>= λ n. ok tt)
      >> (parse_unsigned o.egress_bytes "egress_bytes" >>= λ n. ok tt)
      >> (parse_positive_bigint o.egress_counter_epoch "egress_counter_epoch" >>= λ n. ok tt)
      >> (parse_unsigned o.observed_monotonic_ns "observed_monotonic_ns" >>= λ n. ok tt)
      >> (parse_positive_bigint o.memory_bytes "memory_bytes" >>= λ n. ok tt)
      >> throw_if (not (includes ("start" ∷ "checkpoint" ∷ "final" ∷ []) o.kind)) (invalid "kind")
      >> throw_if (not (includes ("exact" ∷ "last_defensible" ∷ []) o.quality)) (invalid "quality")
      >> throw_if (not (includes quality_reasons o.quality_reason)) (invalid "quality_reason")
      >> throw_if (is_inconsistent o) (invalid "quality and quality_reason")
      >> throw_if (not (is_at_least 1 o.vcpus)) (invalid "vcpus")
      >> throw_if (not (is_at_least 2 o.process_id)) (invalid "process_id")
      >> throw_if (not (is_some (date o.observed_at)) || not (is_canonical_utc o.observed_at))
          (invalid "observed_at")

  -- for (const observation of observations) validateObservation(observation)
  abbrev pub validate_all : List HostUsageObservation → Result MeteringError (Unit {0})
  validate_all [] = ok tt
  validate_all (o ∷ os) = validate_observation o >> validate_all os
