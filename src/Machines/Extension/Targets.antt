-- ===== src/Machines/Extension/Targets.antt =====
-- How far an extension reaches.
use nehemiah.Base.{
  ℕ, ◌+◌, ◌*◌, ◌≤◌, ◌<◌, ◌≡◌, inl, inr, ap, ◌∙◌, Bool, true, false, ◌&&◌, List, [], ◌∷◌, some, ok,
  arith, Bool-cases, ◌==◌, string_eq, select, find, All, max,
}
use nehemiah.Billing.Admission.{BillingAdmissionPolicy}
use nehemiah.Database.{MachineRow, second}
use nehemiah.Machines.Extension.{
  ExtensionRow, ExtendOperation, ExtendTables, ExtendRequest, from_row, is_machine, committed_until,
  to_date, target_of, begin_extend,
}
use nehemiah.Machines.Extension.Replay.{begin_extend-IsBegun}

abbrev pub is_extension_of : ExtendRequest → ExtensionRow → Bool
is_extension_of request row =
    row.organization_id == request.organization_id && row.machine_id == request.machine_id

committed_until-expiry :
    (request : ExtendRequest) (expires_at : ℕ) (rows : List ExtensionRow)
    → expires_at ≤ committed_until request expires_at rows
unfolding committed_until
committed_until-expiry request expires_at [] = omega arith
committed_until-expiry request expires_at (row ∷ rows) =
    let rest = committed_until-expiry request expires_at rows in
    elim (Bool-cases (is_extension_of request row)) [
      | inl mine ↦ rw mine (omega (arith, rest))
      | inr other ↦ rw other rest
    ]

All-le :
    (rows : List ExtensionRow) (a b : ℕ)
    → a ≤ b
    → All (λ row. row.target_expires_at ≤ a) rows
    → All (λ row. row.target_expires_at ≤ b) rows
All-le [] a b h all = tt
All-le (row ∷ rows) a b h all = let (first, rest) = all in (omega arith, All-le rows a b h rest)

committed_until-targets :
    (request : ExtendRequest) (expires_at : ℕ) (rows : List ExtensionRow)
    → All
        (λ row. row.target_expires_at ≤ committed_until request expires_at rows)
        (select (is_extension_of request) rows)
unfolding committed_until
committed_until-targets request expires_at [] = tt
committed_until-targets request expires_at (row ∷ rows) =
    let rest = committed_until-targets request expires_at rows in
    elim (Bool-cases (is_extension_of request row)) [
      | inl mine ↦ rw mine (
        omega arith,
        All-le (select (is_extension_of request) rows) (committed_until request expires_at rows)
            (max row.target_expires_at (committed_until request expires_at rows)) (omega arith)
            rest,
      )
      | inr other ↦ rw other rest
    ]

to_date-lt : (t : ℕ) → t < to_date t + 1000
unfolding to_date
to_date-lt t = omega arith

to_date-le : (a b : ℕ) → a ≤ b → to_date a ≤ to_date b
unfolding to_date
to_date-le a b h = omega (arith, h)

to_date_idem : (t : ℕ) → to_date (to_date t) ≡ to_date t
unfolding to_date
to_date_idem t = omega arith

All-reached :
    (rows : List ExtensionRow) (a : ℕ)
    → All (λ row. row.target_expires_at ≤ a) rows
    → All (λ row. row.target_expires_at < to_date a + 1000) rows
All-reached [] a all = tt
All-reached (row ∷ rows) a all =
    let (first, rest) = all in
    (
      omega (arith, to_date-lt row.target_expires_at, to_date-le row.target_expires_at a first),
      All-reached rows a rest,
    )

-- The target is late enough for the lifetime asked for, and no earlier than what was promised, each
-- to within the millisecond, 1000 microseconds, that a Date drops.
pub record ReachesTarget (now : ℕ) (request : ExtendRequest) (tables : ExtendTables)
    (op : ExtendOperation) : Type 0 where
  pub machine : MachineRow
  pub machine_found : find (is_machine request) tables.database.machines ≡ some machine
  pub from_now : now + request.ttl_seconds * second < op.target_expires_at + 1000
  pub from_expiry : machine.expires_at < op.target_expires_at + 1000
  pub from_earlier :
      All
        (λ row. row.target_expires_at < op.target_expires_at + 1000)
        (select (is_extension_of request) tables.extensions)

-- A new operation reaches the lifetime that is asked for from now on, the time at which the machine
-- was to expire, and the target of any operation on the machine before it, or falls short of one of
-- them by less than a millisecond.
pub begin_extend-ReachesTarget :
    (policy : BillingAdmissionPolicy) (now generated_id : ℕ) (request : ExtendRequest)
    (tables : ExtendTables) (op : ExtendOperation) (tables' : ExtendTables)
    → begin_extend policy now generated_id request tables ≡ (ok (some op), tables')
    → op.replayed ≡ false
    → ReachesTarget now request tables op
unfolding from_row
begin_extend-ReachesTarget policy now generated_id request tables op tables' h fresh =
    let begun = begin_extend-IsBegun policy now generated_id request tables op tables' h in
    elim begun.outcome [
      | inl r ↦
          let again : op.replayed ≡ true = ap (λ o. o.replayed) r.same_operation in
          absurd (ground arith)
      | inr r ↦
          let m = begun.machine in
          let committed = committed_until request (to_date m.expires_at) tables.extensions in
          let exact = target_of now request committed in
          let target : op.target_expires_at ≡ to_date exact =
            ap (λ o. o.target_expires_at) r.same_operation ∙ r.target_is in
          let reached = committed_until-expiry request (to_date m.expires_at) tables.extensions in
          let late = to_date-le (to_date m.expires_at) exact (omega (arith, reached)) in
          record {
            machine = m;
            machine_found = begun.machine_found;
            from_now = rw target (omega (arith, to_date-lt exact));
            from_expiry =
                rw target (omega (arith, to_date-lt m.expires_at, late, to_date_idem m.expires_at));
            from_earlier = rw target (
                All-reached (select (is_extension_of request) tables.extensions) exact (
                  All-le (select (is_extension_of request) tables.extensions) committed exact
                    (omega arith)
                    (committed_until-targets request (to_date m.expires_at) tables.extensions)));
          }
    ]
