-- ===== src/Machines/Extension/Replay.antt =====
-- A call that is retried with its idempotency key gets the operation of the first call.
use nehemiah.Base.{
  ℕ, ◌*◌, ◌≡◌, ◌⊎◌, inl, inr, refl, sym, ap, ◌∙◌, String, true, false, List, [], ◌∷◌, ◌++◌, Option,
  none, some, Result, ok, >>=-eq-ok, transaction-eq-ok, arith, Bool-cases, ◌==◌, string_eq, find,
  any, beq_refl,
}
use nehemiah.Base.Outcome.{transaction}
use nehemiah.Base.Int.{pos}
use nehemiah.Billing.Admission.{BillingAdmissionPolicy, enforce}
use nehemiah.Database.{MachineRow}
use nehemiah.Machines.Extension.{
  ExtensionRow, ExtendOperation, ExtendTables, ExtendRequest, ExtendError, from_row, is_machine,
  is_prior, is_extensible, committed_until, to_date, target_of, additional_seconds, paid, new_row,
  extend_new, extend_machine, extend_locked, extend_work, begin_extend,
}

module _ (policy : BillingAdmissionPolicy) (now generated_id : ℕ) (request : ExtendRequest) where
  -- The operation is an earlier one under the same key, and nothing has changed.
  pub record IsReplay (tables : ExtendTables) (op : ExtendOperation) (tables' : ExtendTables)
      : Type 0 where
    pub prior : ExtensionRow
    pub prior_found : find (is_prior request) tables.extensions ≡ some prior
    pub same_operation : op ≡ from_row prior true
    pub unchanged : tables' ≡ tables

  -- The operation is new, and it is what has been stored.
  pub record IsNew (tables : ExtendTables) (m : MachineRow) (op : ExtendOperation)
      (tables' : ExtendTables) : Type 0 where
    pub target : ℕ
    pub target_is :
        target
        ≡ to_date (
            target_of now request
              (committed_until request (to_date m.expires_at) tables.extensions))
    pub none_found : find (is_prior request) tables.extensions ≡ none
    pub same_operation : op ≡ from_row (new_row policy now generated_id request target) false
    pub stored : tables' ≡ record tables {
      extensions = tables.extensions ++ new_row policy now generated_id request target ∷ [];
    }

  -- What a call that returns an operation has gone through.
  pub record IsBegun (tables : ExtendTables) (op : ExtendOperation) (tables' : ExtendTables)
      : Type 0 where
    pub organization_found :
        any (λ o. o.id == request.organization_id) tables.database.organizations ≡ true
    pub machine : MachineRow
    pub machine_found : find (is_machine request) tables.database.machines ≡ some machine
    pub outcome : IsReplay tables op tables' ⊎ IsNew tables machine op tables'

  some-injective :
      {op op' : ExtendOperation} {t t' : ExtendTables}
      → ◌≡◌ {A = Result ExtendError (Option ExtendOperation × ExtendTables)}
          (ok (some op, t))
          (ok (some op', t'))
      → (op ≡ op') × (t ≡ t')
  some-injective h = (cc, cc)

  extend_new-IsNew :
      (tables : ExtendTables) (m : MachineRow) (op : ExtendOperation) (tables' : ExtendTables)
      → find (is_prior request) tables.extensions ≡ none
      → extend_new policy now generated_id request tables m ≡ ok (some op, tables')
      → IsNew tables m op tables'
  unfolding extend_new
  extend_new-IsNew tables m op tables' fresh h =
      let committed = committed_until request (to_date m.expires_at) tables.extensions in
      let target = target_of now request committed in
      let seconds = additional_seconds now target committed in
      let (u, charged, rest) =
        >>=-eq-ok
          (paid (
            enforce policy (tables.database.ledger request.organization_id) (record {
              vcpu_seconds = some (pos (seconds * m.vcpus));
              memory_mebibyte_seconds = some (pos (seconds * m.memory_mb));
              storage_byte_seconds = none;
            })))
          _ h in
      let (same, after) = some-injective rest in
      record {
        target = to_date target;
        target_is = refl;
        none_found = fresh;
        same_operation = sym same;
        stored = sym after;
      }

  extend_machine-outcome :
      (tables : ExtendTables) (m : MachineRow) (found : Option ExtensionRow) (op : ExtendOperation)
      (tables' : ExtendTables)
      → find (is_prior request) tables.extensions ≡ found
      → extend_machine policy now generated_id request tables m found ≡ ok (some op, tables')
      → IsReplay tables op tables' ⊎ IsNew tables m op tables'
  extend_machine-outcome tables m (some prior) op tables' there h =
      let (same, after) = some-injective h in
      inl (record {
        prior = prior;
        prior_found = there;
        same_operation = sym same;
        unchanged = sym after;
      })
  extend_machine-outcome tables m none op tables' there h = elim (Bool-cases (is_extensible m)) [
    | inl fit ↦ inr (extend_new-IsNew tables m op tables' there (rw fit at h))
    | inr unfit ↦ absurd (refused (rw unfit at h))
  ]
    where
      refused :
          ◌≡◌ {A = Result ExtendError (Option ExtendOperation × ExtendTables)}
            (ok (none, tables))
            (ok (some op, tables'))
          → ⊥
      refused k = cc

  extend_locked-IsBegun :
      (tables : ExtendTables) (found : Option MachineRow) (op : ExtendOperation)
      (tables' : ExtendTables)
      → any (λ o. o.id == request.organization_id) tables.database.organizations ≡ true
      → find (is_machine request) tables.database.machines ≡ found
      → extend_locked policy now generated_id request tables found ≡ ok (some op, tables')
      → IsBegun tables op tables'
  extend_locked-IsBegun tables none op tables' known there h = cc
  extend_locked-IsBegun tables (some m) op tables' known there h = record {
    organization_found = known;
    machine = m;
    machine_found = there;
    outcome =
        extend_machine-outcome tables m (find (is_prior request) tables.extensions) op tables' refl
          h;
  }

  extend_work-IsBegun :
      (tables : ExtendTables) (op : ExtendOperation) (tables' : ExtendTables)
      → extend_work policy now generated_id request tables ≡ ok (some op, tables')
      → IsBegun tables op tables'
  unfolding extend_work
  extend_work-IsBegun tables op tables' h =
      elim (Bool-cases (any (λ o. o.id == request.organization_id) tables.database.organizations)) [
        | inl known ↦
            extend_locked-IsBegun tables (find (is_machine request) tables.database.machines) op
              tables' known refl (rw known at h)
        | inr unknown ↦ absurd (refused (rw unknown at h))
      ]
    where
      refused :
          ◌≡◌ {A = Result ExtendError (Option ExtendOperation × ExtendTables)}
            (ok (none, tables))
            (ok (some op, tables'))
          → ⊥
      refused k = cc

  pub begin_extend-IsBegun :
      (tables : ExtendTables) (op : ExtendOperation) (tables' : ExtendTables)
      → begin_extend policy now generated_id request tables ≡ (ok (some op), tables')
      → IsBegun tables op tables'
  unfolding begin_extend
  begin_extend-IsBegun tables op tables' h =
      extend_work-IsBegun tables op tables'
        (transaction-eq-ok (extend_work policy now generated_id request) tables h)

  find-append-new :
      (rows : List ExtensionRow) (target : ℕ)
      → find (is_prior request) rows ≡ none
      → find (is_prior request) (rows ++ new_row policy now generated_id request target ∷ [])
        ≡ some (new_row policy now generated_id request target)
  find-append-new [] target h =
      rw
        (
          beq_refl request.organization_id,
          beq_refl request.machine_id,
          beq_refl request.idempotency_key,
        )
        refl
  find-append-new (row ∷ rows) target h = elim (Bool-cases (is_prior request row)) [
    | inl t ↦ absurd (ground arith)
    | inr f ↦ rw f (find-append-new rows target (rw f at h))
  ]

  -- The operation that is found afterwards under the key.
  stored_prior :
      (tables : ExtendTables) (m : MachineRow) (op : ExtendOperation) (tables' : ExtendTables)
      → IsReplay tables op tables' ⊎ IsNew tables m op tables'
      → (prior : ExtensionRow) × (find (is_prior request) tables'.extensions ≡ some prior)
        × (from_row prior true ≡ record op { replayed = true })
        × (tables'.database ≡ tables.database)
  unfolding from_row
  stored_prior tables m op tables' (inl r) = (
    r.prior,
    rw r.unchanged r.prior_found,
    rw r.same_operation refl,
    ap (λ t. t.database) r.unchanged,
  )
  stored_prior tables m op tables' (inr r) = (
    new_row policy now generated_id request r.target,
    rw r.stored (find-append-new tables.extensions r.target r.none_found),
    rw r.same_operation refl,
    ap (λ t. t.database) r.stored,
  )

-- A call that has returned an operation, repeated at any time with the same key for the same machine,
-- even with another lifetime or another hash, returns the operation again, marked as replayed, and
-- changes nothing.
pub begin_extend-replay :
    (policy : BillingAdmissionPolicy) (now generated_id : ℕ) (request : ExtendRequest)
    (tables : ExtendTables) (op : ExtendOperation) (tables' : ExtendTables)
    (later other_id other_ttl : ℕ) (other_hash : String)
    → begin_extend policy now generated_id request tables ≡ (ok (some op), tables')
    → begin_extend policy later other_id
        (record request { request_hash = other_hash; ttl_seconds = other_ttl })
        tables'
      ≡ (ok (some (record op { replayed = true })), tables')
unfolding begin_extend extend_work transaction
begin_extend-replay policy now generated_id request tables op tables' later other_id other_ttl
      other_hash h =
    let begun = begin_extend-IsBegun policy now generated_id request tables op tables' h in
    let (prior, found, same, kept) =
      stored_prior policy now generated_id request tables begun.machine op tables' begun.outcome in
    rw
      (ap (λ d. any (λ o. o.id == request.organization_id) d.organizations) kept
        ∙ begun.organization_found)
      (rw (ap (λ d. find (is_machine request) d.machines) kept ∙ begun.machine_found)
        (rw found (ap (λ o. (ok (some o), tables')) same)))
