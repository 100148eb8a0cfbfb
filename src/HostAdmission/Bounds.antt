-- ===== src/HostAdmission/Bounds.antt =====
-- How many verifications run at once, and how many of a slot are started in a second.
use mathlib.Core.Path.{subst}
use nehemiah.Base.{
  ℕ, ◌+◌, ◌/◌, ◌%◌, ◌≤◌, ◌≡◌, inl, inr, refl, min, Bool, true, false, ◌&&◌, List, [], ◌∷◌, Result,
  ok, err, arith, Bool-cases, if◌then◌else◌, ◌==◌, nat_eq, leb, ltb, All,
}
use nehemiah.HostAdmission.{
  HostAdmissionError, Slot, Shield, is_window, counted, with_slot, enter, leave,
}

-- Requests that arrive at a time with a hash, and verifications that end.
pub data Event : Type 0 where
  enters : ℕ → ℕ → Event
  leaves : Event

abbrev pub happen : Event → Shield → Shield
happen (enters now hash) s = (enter now hash s).1
happen leaves s = leave s

unfoldable pub after : List Event → Shield → Shield
after [] s = s
after (event ∷ events) s = after events (happen event s)

-- The shield keeps its configuration and its bound on what runs at once.
record IsBounded (maximum : ℕ) (s : Shield) : Type 0 where
  same_maximum : s.maximum_concurrent_verifications ≡ maximum
  bounded : s.active_verifications ≤ maximum

enter-IsBounded :
    (maximum now hash : ℕ) (s : Shield)
    → IsBounded maximum s
    → IsBounded maximum (enter now hash s).1
unfolding enter
enter-IsBounded maximum now hash s b =
    let slot = counted (now / 1000) (s.slots (hash % s.slot_count)) in
    elim (Bool-cases (ltb s.requests_per_second slot.count)) [
      | inl over ↦ rw over (record { same_maximum = b.same_maximum; bounded = b.bounded })
      | inr within ↦
          elim (Bool-cases (leb s.maximum_concurrent_verifications s.active_verifications)) [
            | inl busy ↦
                rw (within, busy) (record { same_maximum = b.same_maximum; bounded = b.bounded })
            | inr idle ↦
                rw (within, idle)
                  (record {
                    same_maximum = b.same_maximum;
                    bounded = ground (arith, b.same_maximum, idle);
                  })
          ]
    ]

happen-IsBounded :
    (maximum : ℕ) (event : Event) (s : Shield)
    → IsBounded maximum s
    → IsBounded maximum (happen event s)
unfolding leave
happen-IsBounded maximum (enters now hash) s b = enter-IsBounded maximum now hash s b
happen-IsBounded maximum leaves s b = record {
  same_maximum = b.same_maximum;
  bounded = omega (arith, b.bounded);
}

after-IsBounded :
    (maximum : ℕ) (events : List Event) (s : Shield)
    → IsBounded maximum s
    → IsBounded maximum (after events s)
unfolding after
after-IsBounded maximum [] s b = b
after-IsBounded maximum (event ∷ events) s b =
    after-IsBounded maximum events (happen event s) (happen-IsBounded maximum event s b)

-- Whatever requests arrive and whatever verifications end, in any order, no more verifications run at
-- once than the limit, if that held at first.
pub after-le-maximum :
    (events : List Event) (s : Shield)
    → s.active_verifications ≤ s.maximum_concurrent_verifications
    → (after events s).active_verifications ≤ s.maximum_concurrent_verifications
after-le-maximum events s h =
    (after-IsBounded s.maximum_concurrent_verifications events s
      (record { same_maximum = refl; bounded = h })).bounded

abbrev pub is_admitted : Result HostAdmissionError (Unit {0}) → Bool
is_admitted (ok _) = true
is_admitted (err _) = false

-- How many requests of a slot are admitted.
unfoldable pub admitted : ℕ → List Event → Shield → ℕ
admitted index [] s = 0
admitted index (leaves ∷ events) s = admitted index events (leave s)
admitted index (enters now hash ∷ events) s =
    (if hash % s.slot_count == index && is_admitted (enter now hash s).0 then 1 else 0)
    + admitted index events (enter now hash s).1

abbrev pub IsDuring : ℕ → Event → Type 0
IsDuring window leaves = Unit
IsDuring window (enters now hash) = now / 1000 ≡ window

-- The count that a slot has in the window.
abbrev live : ℕ → Slot → ℕ
live window slot = if is_window window slot.window then slot.count else 0

counted-live : (window : ℕ) (slot : Slot) → live window (counted window slot) ≡ live window slot + 1
counted-live window slot = elim (Bool-cases (is_window window slot.window)) [
  | inl same ↦ rw same (rw same refl)
  | inr other ↦ rw other (ground arith)
]

counted-count : (window : ℕ) (slot : Slot) → (counted window slot).count ≡ live window slot + 1
counted-count window slot = elim (Bool-cases (is_window window slot.window)) [
  | inl same ↦ rw same refl
  | inr other ↦ rw other (omega arith)
]

with_slot-live :
    (window place index : ℕ) (s : Shield)
    → live window ((with_slot place (counted window (s.slots place)) s).slots index)
      ≡ (if place == index then live window (s.slots index) + 1 else live window (s.slots index))
with_slot-live window place index s = elim (Bool-cases (place == index)) [
  | inl here ↦
      let same : index ≡ place = ground arith in
      let back : (place == place) ≡ true = ground arith in
      rw same (rw back (counted-live window (s.slots place)))
  | inr there ↦ let other : (index == place) ≡ false = ground arith in rw (other, there) refl
]

-- What a request does to the configuration and to a slot.
record IsCounted (window place index : ℕ) (s s' : Shield) : Type 0 where
  same_slots : s'.slot_count ≡ s.slot_count
  same_requests : s'.requests_per_second ≡ s.requests_per_second
  slot_counted :
      live window (s'.slots index)
      ≡ (if place == index then live window (s.slots index) + 1 else live window (s.slots index))

enter-IsCounted :
    (window now hash index : ℕ) (s : Shield)
    → now / 1000 ≡ window
    → IsCounted window (hash % s.slot_count) index s (enter now hash s).1
unfolding enter
enter-IsCounted window now hash index s h =
    let place = hash % s.slot_count in
    let slot = counted window (s.slots place) in
    let live_slot = with_slot-live window place index s in
    rw h (elim (Bool-cases (ltb s.requests_per_second slot.count)) [
      | inl over ↦
          rw over (record { same_slots = refl; same_requests = refl; slot_counted = live_slot })
      | inr within ↦
          elim (Bool-cases (leb s.maximum_concurrent_verifications s.active_verifications)) [
            | inl busy ↦
                rw (within, busy)
                  (record { same_slots = refl; same_requests = refl; slot_counted = live_slot })
            | inr idle ↦
                rw (within, idle)
                  (record { same_slots = refl; same_requests = refl; slot_counted = live_slot })
          ]
    ])

enter-admitted :
    (window now hash : ℕ) (s : Shield)
    → now / 1000 ≡ window
    → is_admitted (enter now hash s).0 ≡ true
    → live window (s.slots (hash % s.slot_count)) + 1 ≤ s.requests_per_second
unfolding enter
enter-admitted window now hash s h good =
    let slot = counted (now / 1000) (s.slots (hash % s.slot_count)) in
    let count = counted-count (now / 1000) (s.slots (hash % s.slot_count)) in
    elim (Bool-cases (ltb s.requests_per_second slot.count)) [
      | inl over ↦ absurd (refused (rw over at good))
      | inr within ↦ rw (← h) (ground (arith, count, within))
    ]
  where
    refused : false ≡ true → ⊥
    refused k = cc

admitted-live :
    (window index : ℕ) (events : List Event) (s : Shield)
    → All (IsDuring window) events
    → admitted index events s + min (live window (s.slots index)) s.requests_per_second
      ≤ s.requests_per_second
unfolding admitted leave
admitted-live window index [] s during = omega arith
admitted-live window index (leaves ∷ events) s during =
    admitted-live window index events (leave s) during.1
admitted-live window index (enters now hash ∷ events) s during =
    let s' = (enter now hash s).1 in
    let counts = enter-IsCounted window now hash index s during.0 in
    let rest = admitted-live window index events s' during.1 in
    let slots = counts.slot_counted in
    let requests = counts.same_requests in
    elim (Bool-cases (hash % s.slot_count == index)) [
      | inr other ↦
          let kept : live window (s'.slots index) ≡ live window (s.slots index) =
            rw other at slots in
          rw other (omega (arith, rest, kept, requests))
      | inl mine ↦
          let more : live window (s'.slots index) ≡ live window (s.slots index) + 1 =
            rw mine at slots in
          elim (Bool-cases (is_admitted (enter now hash s).0)) [
            | inr refused ↦ rw (mine, refused) (omega (arith, rest, more, requests))
            | inl passed ↦
                let place : hash % s.slot_count ≡ index = ground arith in
                let room : live window (s.slots index) + 1 ≤ s.requests_per_second =
                  subst (λ i. live window (s.slots i) + 1 ≤ s.requests_per_second) place
                    (enter-admitted window now hash s during.0 passed) in
                rw (mine, passed) (omega (arith, rest, more, requests, room))
          ]
    ]

-- In one second no more requests of a slot are admitted than the limit, whatever other slots see and
-- whatever verifications end.
pub admitted-le-requests :
    (window index : ℕ) (events : List Event) (s : Shield)
    → All (IsDuring window) events
    → admitted index events s ≤ s.requests_per_second
admitted-le-requests window index events s during =
    omega (arith, admitted-live window index events s during)
