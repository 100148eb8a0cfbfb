-- ===== src/Metering/Anomaly/Regular.antt =====
-- What an observation that is not refused satisfies.
use mathlib.Core.Path.{subst}
use nehemiah.Base.{
  ℕ, ◌≡◌, refl, inl, inr, String, Bool, true, false, not, ◌&&◌, ◌||◌, Option, none, some, arith,
  if◌then◌else◌, ◌==◌, string_eq, nat_eq, is_some, Bool-cases, and-eq-true,
}
use nehemiah.Base.Text.{truthy}
use nehemiah.Metering.{
  MachineIdentityRow, StoredObservationRow, MeterStateRow, observation_integrity_reason,
}
use nehemiah.Metering.Anomaly.{
  first_anomaly, clock_anomaly, anomaly, is_start_missing, is_counter_reset, is_clock_skewed,
  reading_of,
}

-- A reason is there exactly at a time, and is not empty.
abbrev pub is_reasoned : Option ℕ → Option String → Bool
is_reasoned none none = true
is_reasoned (some at) (some reason) = not (reason == "")
is_reasoned _ _ = false

-- A meter that has started has a period, and one that is quarantined has a reason.
unfoldable pub is_meter : MeterStateRow → Bool
is_meter s =
    (not s.start_seen || is_some s.last_period_end)
    && is_reasoned s.quarantined_at s.quarantine_reason

abbrev pub IsMeter : MeterStateRow → Type 0
IsMeter s = is_meter s ≡ true

pub record IsRegular (identity : MachineIdentityRow) (state : MeterStateRow)
    (o : StoredObservationRow) : Type 0 where
  pub not_quarantined : is_some state.quarantined_at ≡ false
  pub same_boot : (state.host_boot_id == o.host_boot_id) ≡ true
  pub not_lost : is_some state.loss_closed_at ≡ false
  pub not_missing : is_start_missing state o ≡ false
  pub not_repeated : (state.start_seen && o.kind == "start") ≡ false
  pub not_final : state.final_seen ≡ false
  pub not_reset : is_counter_reset state o ≡ false
  pub has_integrity :
      truthy (observation_integrity_reason identity state (reading_of o) o.received_at) ≡ none
  pub on_clock : is_clock_skewed identity state o ≡ false

clock_anomaly-none :
    (reason : Option String) (identity : MachineIdentityRow) (state : MeterStateRow)
    (o : StoredObservationRow)
    → clock_anomaly reason identity state o ≡ none
    → (reason ≡ none) × (is_clock_skewed identity state o ≡ false)
clock_anomaly-none (some reason) identity state o h = cc
clock_anomaly-none none identity state o h = (refl, ground arith)

-- a test that gives a reason, and the tests that follow it
chosen :
    (test : Bool) (reason : String) (rest : Option String)
    → (reason == "") ≡ false
    → truthy (if test then some reason else rest) ≡ none
    → (test ≡ false) × (truthy rest ≡ none)
chosen true reason rest named h = ground arith
chosen false reason rest named h = (refl, h)

not_held :
    {P : Type 0} (at : Option ℕ) (reason : Option String)
    → is_some at ≡ true
    → is_reasoned at reason ≡ true
    → truthy reason ≡ none
    → P
not_held none reason held reasoned h = cc
not_held (some t) none held reasoned h = cc
not_held (some t) (some r) held reasoned h = elim (Bool-cases (r == "")) [
  | inl bare ↦ let never : not true ≡ true = rw bare at reasoned in cc
  | inr named ↦ let never : some r ≡ none = rw named at h in cc
]

named_after :
    {s r : String}
    → ◌≡◌ {A = Option String} (some s) (some r)
    → (s == "") ≡ false
    → (r == "") ≡ false
named_after {s} {r} e named = let same : s ≡ r = cc in subst (λ t. (t == "") ≡ false) same named

truthy-named : (o : Option String) {r : String} → truthy o ≡ some r → (r == "") ≡ false
truthy-named none h = cc
truthy-named (some s) {r} h = elim (Bool-cases (s == "")) [
  | inl bare ↦ let never : ◌≡◌ {A = Option String} none (some r) = rw bare at h in cc
  | inr named ↦ named_after (rw named at h) named
]

clock_anomaly-named :
    (o : Option String) (identity : MachineIdentityRow) (state : MeterStateRow)
    (row : StoredObservationRow) {r : String}
    → ((s : String) → o ≡ some s → (s == "") ≡ false)
    → clock_anomaly o identity state row ≡ some r
    → (r == "") ≡ false
clock_anomaly-named (some s) identity state row {r} named h = named_after h (named s refl)
clock_anomaly-named none identity state row {r} named h =
    elim (Bool-cases (is_clock_skewed identity state row)) [
      | inl skewed ↦ named_after (rw skewed at h) refl
      | inr fine ↦ let never : ◌≡◌ {A = Option String} none (some r) = rw fine at h in cc
    ]

-- The reason of a refusal is not empty.
pub anomaly-named :
    (identity : MachineIdentityRow) (state : MeterStateRow) (o : StoredObservationRow) {r : String}
    → anomaly identity state o ≡ some r
    → (r == "") ≡ false
unfolding anomaly
anomaly-named identity state o h =
    clock_anomaly-named (truthy (first_anomaly identity state o)) identity state o
      (λ s e. truthy-named (first_anomaly identity state o) e) h

pub anomaly-IsRegular :
    (identity : MachineIdentityRow) (state : MeterStateRow) (o : StoredObservationRow)
    → IsMeter state
    → anomaly identity state o ≡ none
    → IsRegular identity state o
unfolding anomaly first_anomaly is_meter
anomaly-IsRegular identity state o meter h =
    let (calm, clock) =
      clock_anomaly-none (truthy (first_anomaly identity state o)) identity state o h in
    let reasoned =
      (and-eq-true (not state.start_seen || is_some state.last_period_end)
        (is_reasoned state.quarantined_at state.quarantine_reason) meter).1 in
    elim (Bool-cases (is_some state.quarantined_at)) [
      | inl held ↦
          not_held state.quarantined_at state.quarantine_reason held reasoned (rw held at calm)
      | inr free ↦
          let (boot, c1) =
            chosen (not (state.host_boot_id == o.host_boot_id)) "boot_id_changed" _ refl
              (rw free at calm) in
          let (lost, c2) =
            chosen (is_some state.loss_closed_at) "observation_after_final" _ refl c1 in
          let (missing, c3) = chosen (is_start_missing state o) "start_missing" _ refl c2 in
          let (repeated, c4) =
            chosen (state.start_seen && o.kind == "start") "start_repeated" _ refl c3 in
          let (final, c5) = chosen state.final_seen "observation_after_final" _ refl c4 in
          let (reset, c6) = chosen (is_counter_reset state o) "counter_reset" _ refl c5 in
          record {
            not_quarantined = free;
            same_boot = ground arith;
            not_lost = lost;
            not_missing = missing;
            not_repeated = repeated;
            not_final = final;
            not_reset = reset;
            has_integrity = c6;
            on_clock = clock;
          }
    ]
