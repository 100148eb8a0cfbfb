-- ===== src/Metering/Ingest/Answers.antt =====
-- What the receipts of a batch answer.
use mathlib.Core.Path.{subst}
use nehemiah.Base.{
  ℕ, ◌≡◌, refl, ap, ◌⊎◌, ◌>>◌, Result-cases, inl, inr, String, Bool, true, false, not, ◌||◌, List,
  [], ◌∷◌, Option, none, some, ◌==◌, string_eq, nat_eq, ltb, Option-cases, Result, ok, err, ◌>>=◌,
  >>=-eq-ok, ok-injective, require, throw_if, if◌then◌else◌, transaction-cases, map, length, find,
}
use nehemiah.Base.Number.{exceeds}
use nehemiah.Metering.{
  MachineIdentityRow, StoredObservationRow, MeteringError, lease_mismatch, host_lifecycle,
  batch_cadence, batch_size, integer_out_of_range,
}
use nehemiah.Metering.Tables.{MeteringTables}
use nehemiah.Metering.Validation.{HostUsageObservation, big_int, validate_all}
use nehemiah.Metering.Processing.{Outcome, quarantined}
use nehemiah.Metering.Drain.{Progress, drain}
use nehemiah.Metering.Receipts.{Receipt, receipt_for, Times, settle_input}
use nehemiah.Metering.Ingest.{
  ingest, ingest_work, admits_metering, is_cadence_valid, ingest_inputs, ingest_input,
  check_integrity, store_row, maximum_int4, is_same_observation, with_state, is_number,
  has_identity, is_sequence_violation, integrity_violation,
}

-- A receipt names the observation that it is for, and acknowledges it.
abbrev pub IsReceiptFor : HostUsageObservation → Receipt → Type 0
IsReceiptFor input receipt =
    (receipt.lease_id ≡ input.lease_id)
    × (receipt.lease_generation ≡ input.lease_generation)
    × (receipt.host_boot_id ≡ input.host_boot_id)
    × (receipt.sequence ≡ input.sequence)
    × (receipt.acknowledged ≡ true)

-- One receipt for each input, in their order.
abbrev pub AreReceiptsFor : List (HostUsageObservation × Times) → List Receipt → Type 0
AreReceiptsFor [] [] = Unit
AreReceiptsFor (input ∷ inputs) (receipt ∷ receipts) =
    IsReceiptFor input.0 receipt × AreReceiptsFor inputs receipts
AreReceiptsFor _ _ = ⊥

receipt_for-IsReceiptFor :
    (input : HostUsageObservation) (outcome : Outcome)
    → IsReceiptFor input (receipt_for input outcome)
unfolding receipt_for
receipt_for-IsReceiptFor input outcome = (refl, refl, refl, refl, refl)

-- A call whose receipt, if it does not fail, is for the input.
data Answers (input : HostUsageObservation)
    : Result MeteringError ((Receipt × Bool) × MeteringTables) → Type 0 where
  answered :
      (receipt : Receipt) (held : Bool) (db : MeteringTables)
      → IsReceiptFor input receipt
      → Answers input (ok ((receipt, held), db))
  failed : (e : MeteringError) → Answers input (err e)

module _ (input : HostUsageObservation) where
  after_call :
      {A : Type 0} (call : Result MeteringError A)
      (next : A → Result MeteringError ((Receipt × Bool) × MeteringTables))
      → ((a : A) → Answers input (next a))
      → Answers input (call >>= next)
  after_call (ok a) next h = h a
  after_call (err e) next h = failed e

  either_way :
      (test : Bool) (one other : Result MeteringError ((Receipt × Bool) × MeteringTables))
      → Answers input one
      → Answers input other
      → Answers input (if test then one else other)
  either_way true one other h k = h
  either_way false one other h k = k

  receives :
      (outcome : Outcome) (held : Bool) (db : MeteringTables)
      → Answers input (ok ((receipt_for input outcome, held), db))
  receives outcome held db =
      answered (receipt_for input outcome) held db (receipt_for-IsReceiptFor input outcome)

  settle-Answers :
      (identity : MachineIdentityRow) (is_duplicate : Bool) (times : Times) (progress : Progress)
      (db : MeteringTables)
      → Answers input (settle_input identity input is_duplicate times progress db)
  settle-Answers identity is_duplicate times progress db =
      after_call (require _ _) _ (λ state. receives _ _ _)

  module _ (date : String → Option ℕ) (payload_hash : HostUsageObservation → String)
      (new_id : List StoredObservationRow → ℕ) where
    row-Answers :
        (identity : MachineIdentityRow) (times : Times) (db : MeteringTables)
        → Answers input (store_row date payload_hash new_id identity input times db)
    row-Answers identity times db =
        elim (Option-cases (find (is_same_observation identity.host_id input) db.observations)) [
          | inl missing ↦
              rw (store_row, missing)
                (after_call (drain _ identity _ times.now _ _) _
                  (λ result. settle-Answers identity false times result.0 result.1))
          | inr (stored, there) ↦
              rw (store_row, there)
                (either_way (stored.payload_hash == payload_hash input) _ _
                  (after_call (drain _ identity _ times.now _ _) _
                    (λ result. settle-Answers identity true times result.0 result.1))
                  (receives _ _ _))
        ]

    check-Answers :
        (identity : MachineIdentityRow) (times : Times) (db : MeteringTables)
        (reason : Option String)
        → Answers input (check_integrity date payload_hash new_id identity input times db reason)
    check-Answers identity times db none =
        after_call (throw_if (exceeds input.process_id maximum_int4) integer_out_of_range) _
          (λ nothing. row-Answers identity times db)
    check-Answers identity times db (some reason) = receives _ _ _

    ingest_input-Answers :
        (host_id : String) (times : Times) (db : MeteringTables)
        → Answers input (ingest_input date payload_hash new_id host_id input times db)
    unfolding ingest_input
    ingest_input-Answers host_id times db =
        after_call (require (find (has_identity host_id input) db.machines) lease_mismatch) _
          (λ identity.
            let differs =
              not (is_number identity.vcpus input.vcpus)
              || not (identity.memory_bytes == big_int input.memory_bytes) in
            let state = (with_state identity input db).0 in
            let db1 = (with_state identity input db).1 in
            after_call (throw_if differs lease_mismatch) _ (λ nothing.
              either_way (is_sequence_violation host_id state input db1) _ _
                (receives quarantined true _)
                (check-Answers identity times db1
                  (integrity_violation identity state input times.admitted))))

    -- The receipt of an input, or the one for each input after the host is quarantined.
    any-Answers :
        (host_id : String) (times : Times) (host_quarantined : Bool) (db : MeteringTables)
        → Answers input (
            if host_quarantined
            then ok ((receipt_for input quarantined, true), db)
            else ingest_input date payload_hash new_id host_id input times db)
    any-Answers host_id times host_quarantined db =
        either_way host_quarantined _ _ (receives quarantined true db)
          (ingest_input-Answers host_id times db)

  the_receipt :
      {call : Result MeteringError ((Receipt × Bool) × MeteringTables)} {receipt : Receipt}
      {held : Bool} {db : MeteringTables}
      → Answers input call
      → call ≡ ok ((receipt, held), db)
      → IsReceiptFor input receipt
  the_receipt (answered r h d is_for) e =
      subst (IsReceiptFor input) (ap (λ x. x.0.0) (ok-injective e)) is_for
  the_receipt (failed e') e = cc

module _ (date : String → Option ℕ) (payload_hash : HostUsageObservation → String)
    (new_id : List StoredObservationRow → ℕ) where
  ingest_inputs-receipts :
      (host_id : String) (inputs : List (HostUsageObservation × Times)) (host_quarantined : Bool)
      (db end : MeteringTables) (receipts : List Receipt)
      → ingest_inputs date payload_hash new_id host_id inputs host_quarantined db
        ≡ ok (receipts, end)
      → AreReceiptsFor inputs receipts
  ingest_inputs-receipts host_id [] host_quarantined db end receipts h =
      subst (AreReceiptsFor []) (ap (λ x. x.0) (ok-injective h)) tt
  ingest_inputs-receipts host_id (input ∷ inputs) host_quarantined db end receipts h =
      let call : Result MeteringError ((Receipt × Bool) × MeteringTables) =
        if host_quarantined
        then ok ((receipt_for input.0 quarantined, true), db)
        else ingest_input date payload_hash new_id host_id input.0 input.1 db in
      let (((receipt, held), db1), called, more) = >>=-eq-ok call _ h in
      let ((rest, end1), later, last) =
        >>=-eq-ok (ingest_inputs date payload_hash new_id host_id inputs held db1) _ more in
      subst (AreReceiptsFor (input ∷ inputs)) (ap (λ x. x.0) (ok-injective last)) (
        the_receipt input.0
            (any-Answers input.0 date payload_hash new_id host_id input.1 host_quarantined db)
            called,
        ingest_inputs-receipts host_id inputs held db1 end1 rest later,
      )

  ingest_work-receipts :
      (interval time : ℕ) (host_id : String) (inputs : List (HostUsageObservation × Times))
      (credential_generation : Option ℕ) (db end : MeteringTables) (receipts : List Receipt)
      → ingest_work date payload_hash new_id interval time host_id inputs credential_generation db
        ≡ ok (receipts, end)
      → AreReceiptsFor inputs receipts
  ingest_work-receipts interval time host_id inputs credential_generation db end receipts h =
      let (host, found, admitted) =
        >>=-eq-ok (require (find (λ h. h.id == host_id) db.hosts) host_lifecycle) _ h in
      let checks =
        throw_if (not (admits_metering credential_generation host)) host_lifecycle
        >> throw_if (not (is_cadence_valid interval time host.last_metering_batch_at))
            batch_cadence in
      let (nothing, checked, ingested) = >>=-eq-ok checks _ admitted in
      ingest_inputs-receipts host_id inputs false _ end receipts ingested

  -- A batch that is ingested has one receipt for each observation, in their order, which names it
  -- and acknowledges it, whatever its outcome; one that is not leaves the tables as they were.
  pub ingest-receipts :
      (interval time : ℕ) (host_id : String) (inputs : List (HostUsageObservation × Times))
      (credential_generation : Option ℕ) (db : MeteringTables)
      → ((receipts : List Receipt) × (end : MeteringTables) × (ingest date payload_hash new_id
              interval time host_id inputs credential_generation db
            ≡ (ok receipts, end))
          × AreReceiptsFor inputs receipts)
        ⊎ ((e : MeteringError) × (ingest date payload_hash new_id interval time host_id inputs
                credential_generation db
              ≡ (err e, db)))
  unfolding ingest
  ingest-receipts interval time host_id inputs credential_generation db =
      let checks =
        throw_if (ltb (length inputs) 1 || ltb 256 (length inputs)) batch_size
        >> validate_all date (map (λ i. i.0) inputs) in
      let work =
        ingest_work date payload_hash new_id interval time host_id inputs credential_generation in
      elim (Result-cases checks) [
        | inl (e, refused) ↦ inr (e, rw (ingest, refused) refl)
        | inr (nothing, passed) ↦ elim (transaction-cases work db) [
          | inl (receipts, end, worked, done) ↦ inl (
            receipts,
            end,
            rw (ingest, passed) done,
            ingest_work-receipts interval time host_id inputs credential_generation db end receipts
                worked,
          )
          | inr (e, undone) ↦ inr (e, rw (ingest, passed) undone)
        ]
      ]
