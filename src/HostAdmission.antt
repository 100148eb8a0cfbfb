-- ===== src/HostAdmission.antt =====
-- apps/nehemiah/src/auth/host-admission.ts, `HostCredentialAdmission`: the bound, within a process, on
-- verifications of host credentials. `verify` is split at its `await` into `enter` and, for its
-- `finally`, `leave`. Times are milliseconds.
pub mod Bounds
mod Tests
use nehemiah.Base.{
  ℕ, suc, ◌+◌, ◌-◌, ◌*◌, ◌/◌, ◌%◌, ◌^◌, max, String, Bool, true, false, not, ◌&&◌, ◌||◌, List, [],
  ◌∷◌, Option, none, some, Result, ok, err, if◌then◌else◌, ◌==◌, nat_eq, any, leb, ltb,
}
use nehemiah.Base.Int.{ℤ, pos, negsuc}
use nehemiah.Base.Number.{Number, is_safe_integer, is_below, exceeds}
use nehemiah.Billing.Price.{divide_up}
use nehemiah.Streams.{bandwidth_of}

pub data HostAdmissionError : Type 0 where
  invalid_slots invalid_requests invalid_concurrency verifier_busy : HostAdmissionError
  rate_limit_exceeded : ℕ → HostAdmissionError

pub record Slot : Type 0 where
  pub window : ℤ
  pub count : ℕ

pub record Shield : Type 0 where
  pub slot_count : ℕ
  pub slots : ℕ → Slot
  pub requests_per_second : ℕ
  pub maximum_concurrent_verifications : ℕ
  pub active_verifications : ℕ

-- `!(n & (n - 1))` on the numbers from 1 to 2 ^ 20
abbrev pub is_power_of_two : ℕ → Bool
is_power_of_two n =
    any (λ k. n == 2 ^ k)
      (0 ∷ 1 ∷ 2 ∷ 3 ∷ 4 ∷ 5 ∷ 6 ∷ 7 ∷ 8 ∷ 9 ∷ 10 ∷ 11 ∷ 12 ∷ 13 ∷ 14 ∷ 15 ∷ 16 ∷ 17 ∷ 18 ∷ 19 ∷ 20
        ∷ [])

-- the constructor
unfoldable pub make_shield : Number → Number → Number → Result HostAdmissionError Shield
make_shield slots requests concurrency =
    if not (is_safe_integer slots)
      || is_below slots 1024
      || exceeds slots 1048576
      || not (is_power_of_two (bandwidth_of slots))
    then err invalid_slots
    else (if not (is_safe_integer requests) || is_below requests 1 || exceeds requests 1000
        then err invalid_requests
        else (if not (is_safe_integer concurrency)
              || is_below concurrency 1
              || exceeds concurrency 64
            then err invalid_concurrency
            else ok (record {
              slot_count = bandwidth_of slots;
              slots = λ index. record { window = negsuc 0; count = 0 };
              requests_per_second = bandwidth_of requests;
              maximum_concurrent_verifications = bandwidth_of concurrency;
              active_verifications = 0;
            })))

abbrev pub is_window : ℕ → ℤ → Bool
is_window window (pos n) = n == window
is_window window (negsuc n) = false

-- the slot once the request is counted
abbrev pub counted : ℕ → Slot → Slot
counted window slot =
    if is_window window slot.window
    then record slot { count = slot.count + 1 }
    else record { window = pos window; count = 1 }

abbrev pub with_slot : ℕ → Slot → Shield → Shield
with_slot index slot s = record s {
  slots = λ other. if other == index then slot else s.slots other;
}

-- `hash` is the first word of the digest of the source and the host; `hash & mask` is its
-- remainder, since the number of slots is a power of two.
unfoldable pub enter : ℕ → ℕ → Shield → Result HostAdmissionError (Unit {0}) × Shield
enter now hash s =
    let window = now / 1000 in
    let index = hash % s.slot_count in
    let slot = counted window (s.slots index) in
    let s' = with_slot index slot s in
    if ltb s.requests_per_second slot.count
    then (err (rate_limit_exceeded (max 1 (divide_up ((window + 1) * 1000 - now) 1000))), s')
    else (if leb s.maximum_concurrent_verifications s.active_verifications
        then (err verifier_busy, s')
        else (ok tt, record s' { active_verifications = s.active_verifications + 1 }))

unfoldable pub leave : Shield → Shield
leave s = record s { active_verifications = s.active_verifications - 1 }
