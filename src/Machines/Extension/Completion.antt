-- ===== src/Machines/Extension/Completion.antt =====
-- An extension is completed once: a repeated completion keeps the first result.
use nehemiah.Base.{
  ℕ, ◌≡◌, ◌≢◌, inl, inr, refl, sym, ap, ◌∙◌, String, Bool, true, false, ◌&&◌, List, [], ◌∷◌, Option,
  none, some, ok, >>=-eq-ok, require-eq-ok, ok-injective, transaction-eq-ok, arith, Bool-cases,
  ◌==◌, string_eq, nat_eq, find, any, update, All, require,
}
use nehemiah.Base.Outcome.{transaction}
use nehemiah.Database.{MachineRow}
use nehemiah.Machines.Extension.{
  ExtensionRow, ExtendTables, machine_disappeared, operation_disappeared, is_operation, is_pending,
  is_completed, completed_with, is_live_machine, prolonged, recorded_result, complete_work,
  complete_extend,
}

-- The primary key of the operations.
abbrev pub UniqueOperations : List ExtensionRow → Type 0
UniqueOperations [] = Unit
UniqueOperations (row ∷ rows) = All (λ other. other.id ≢ row.id) rows × UniqueOperations rows

module _ (id : ℕ) (machine_id organization_id : String) where
  abbrev pending : ExtensionRow → Bool
  pending = is_pending id machine_id organization_id

  abbrev completed : ExtensionRow → Bool
  completed = is_completed id machine_id organization_id

  not_pending_elsewhere :
      (row : ExtensionRow) (rows : List ExtensionRow)
      → is_operation id machine_id organization_id row ≡ true
      → All (λ other. other.id ≢ row.id) rows
      → any pending rows ≡ false
  not_pending_elsewhere row [] h others = refl
  not_pending_elsewhere row (r ∷ rows) h others =
      let (first, rest) = others in
      let other : (r.id == id) ≡ false = ground arith in
      rw other (not_pending_elsewhere row rows h rest)

  update_not_pending :
      (f : ExtensionRow → ExtensionRow) (rows : List ExtensionRow)
      → any pending rows ≡ false
      → update pending f rows ≡ rows
  update_not_pending f [] h = refl
  update_not_pending f (row ∷ rows) h = elim (Bool-cases (pending row)) [
    | inl t ↦ absurd (ground arith)
    | inr t ↦ rw t (ap (λ rest. row ∷ rest) (update_not_pending f rows (rw t at h)))
  ]

  -- After the update nothing is pending, and the completed row has the result.
  settled :
      (now result : ℕ) (rows : List ExtensionRow)
      → UniqueOperations rows
      → any pending rows ≡ true
      → (any pending (update pending (completed_with now result) rows) ≡ false)
        × (row : ExtensionRow) × (find completed (update pending (completed_with now result) rows)
            ≡ some row)
        × (row.result_expires_at ≡ some result)
  settled now result [] unique h = cc
  settled now result (row ∷ rows) unique h = elim (Bool-cases (pending row)) [
    | inl t ↦
        let op : is_operation id machine_id organization_id row ≡ true = ground arith in
        let rest = not_pending_elsewhere row rows op unique.0 in
        (
          rw (t, update_not_pending (completed_with now result) rows rest) (rw op rest),
          completed_with now result row,
          rw t (rw op refl),
          refl,
        )
    | inr t ↦ elim (Bool-cases (is_operation id machine_id organization_id row)) [
      | inl op ↦ absurd (ground (arith, not_pending_elsewhere row rows op unique.0))
      | inr other ↦
          let (none_left, found, stored, same) = settled now result rows unique.1 (rw t at h) in
          (rw t (rw other none_left), found, rw t (rw other stored), same)
    ]
  ]

  recorded_again :
      (now later result other : ℕ) (rows : List ExtensionRow) (recorded : Option ℕ)
      → UniqueOperations rows
      → recorded_result id machine_id organization_id result rows ≡ some recorded
      → (recorded_result id machine_id organization_id other
            (update pending (completed_with now result) rows)
          ≡ some recorded)
        × (update pending
              (completed_with later other)
              (update pending (completed_with now result) rows)
            ≡ update pending (completed_with now result) rows)
  recorded_again now later result other rows recorded unique h =
      elim (Bool-cases (any pending rows)) [
        | inl there ↦
            let (none_left, row, stored, same) = settled now result rows unique there in
            let first : some result ≡ recorded = cc in
            (
              rw (none_left, stored) (ap some (same ∙ first)),
              update_not_pending (completed_with later other)
                  (update pending (completed_with now result) rows) none_left,
            )
        | inr missing ↦
            let kept = update_not_pending (completed_with now result) rows missing in
            rw (kept, missing)
              (rw missing at h, update_not_pending (completed_with later other) rows missing)
      ]

  abbrev named : MachineRow → Bool
  named m = m.id == machine_id && m.organization_id == organization_id

  prolonged-named : (recorded : Option ℕ) (m : MachineRow) → named (prolonged recorded m) ≡ named m
  prolonged-named none m = refl
  prolonged-named (some r) m = refl

  still_named :
      (recorded : Option ℕ) (ms : List MachineRow) (m : MachineRow)
      → find named ms ≡ some m
      → (n : MachineRow) × (find named
            (update (is_live_machine machine_id organization_id) (prolonged recorded) ms)
          ≡ some n)
  still_named recorded [] m h = cc
  still_named recorded (x ∷ xs) m h =
      elim (Bool-cases (is_live_machine machine_id organization_id x)) [
        | inl live ↦
            let mine : named x ≡ true = ground arith in
            (prolonged recorded x, rw live (rw (prolonged-named recorded x ∙ mine) refl))
        | inr idle ↦ elim (Bool-cases (named x)) [
          | inl mine ↦ (x, rw idle (rw mine refl))
          | inr other ↦
              let (n, found) = still_named recorded xs m (rw other at h) in
              (n, rw idle (rw other found))
        ]
      ]

  prolonged_live :
      (recorded : Option ℕ) (m : MachineRow)
      → is_live_machine machine_id organization_id (prolonged recorded m)
        ≡ is_live_machine machine_id organization_id m
  prolonged_live none m = refl
  prolonged_live (some r) m = refl

  prolonged_twice :
      (recorded : Option ℕ) (m : MachineRow)
      → prolonged recorded (prolonged recorded m) ≡ prolonged recorded m
  prolonged_twice none m = refl
  prolonged_twice (some r) m = ap (λ e. record m { expires_at = e }) (omega arith)

  prolonged_again :
      (recorded : Option ℕ) (ms : List MachineRow)
      → update
          (is_live_machine machine_id organization_id)
          (prolonged recorded)
          (update (is_live_machine machine_id organization_id) (prolonged recorded) ms)
        ≡ update (is_live_machine machine_id organization_id) (prolonged recorded) ms
  prolonged_again recorded [] = refl
  prolonged_again recorded (m ∷ ms) =
      elim (Bool-cases (is_live_machine machine_id organization_id m)) [
        | inl live ↦ rw live (
            rw
              (
                prolonged_live recorded m ∙ live,
                prolonged_twice recorded m,
                prolonged_again recorded ms,
              )
              refl)
        | inr idle ↦ rw idle (rw (idle, prolonged_again recorded ms) refl)
      ]

  -- What a completion that succeeds has found and stored.
  record IsRecorded (now result : ℕ) (tables : ExtendTables) (recorded : Option ℕ)
      (tables' : ExtendTables) : Type 0 where
    machine : MachineRow
    machine_found : find named tables.database.machines ≡ some machine
    result_recorded :
        recorded_result id machine_id organization_id result tables.extensions ≡ some recorded
    stored : tables' ≡ record {
      database = record tables.database {
        machines =
            update
              (is_live_machine machine_id organization_id)
              (prolonged recorded)
              tables.database.machines;
      };
      extensions = update pending (completed_with now result) tables.extensions;
    }

  complete_work-IsRecorded :
      (now result : ℕ) (tables : ExtendTables) (recorded : Option ℕ) (tables' : ExtendTables)
      → complete_work now id machine_id organization_id result tables ≡ ok (recorded, tables')
      → IsRecorded now result tables recorded tables'
  unfolding complete_work
  complete_work-IsRecorded now result tables recorded tables' h =
      let (m, found, rest) =
        >>=-eq-ok (require (find named tables.database.machines) machine_disappeared) _ h in
      let (r, kept, last) =
        >>=-eq-ok
          (require (recorded_result id machine_id organization_id result tables.extensions)
            operation_disappeared)
          _ rest in
      let pair = ok-injective last in
      let same : r ≡ recorded = ap (λ p. p.0) pair in
      record {
        machine = m;
        machine_found = require-eq-ok _ _ found;
        result_recorded = require-eq-ok _ _ kept ∙ ap some same;
        stored =
            sym (ap (λ p. p.1) pair)
            ∙ ap
                (λ (q : Option ℕ). record {
                  database = record tables.database {
                    machines =
                        update (is_live_machine machine_id organization_id) (prolonged q)
                          tables.database.machines;
                  };
                  extensions = update pending (completed_with now result) tables.extensions;
                })
                same;
      }

-- Once an extension is completed, completing it again, at any later time and with whatever result,
-- returns the first result and changes nothing, if operations have distinct numbers.
pub complete_extend-once :
    (now later id result other : ℕ) (machine_id organization_id : String)
    (tables tables' : ExtendTables) (recorded : Option ℕ)
    → UniqueOperations tables.extensions
    → complete_extend now id machine_id organization_id result tables ≡ (ok recorded, tables')
    → complete_extend later id machine_id organization_id other tables' ≡ (ok recorded, tables')
unfolding complete_extend complete_work transaction
complete_extend-once now later id result other machine_id organization_id tables tables' recorded
      unique h =
    let work = complete_work now id machine_id organization_id result in
    let done =
      complete_work-IsRecorded id machine_id organization_id now result tables recorded tables'
        (transaction-eq-ok work tables h) in
    let (again, kept) =
      recorded_again id machine_id organization_id now later result other tables.extensions recorded
        unique done.result_recorded in
    let (m, found) =
      still_named id machine_id organization_id recorded tables.database.machines done.machine
        done.machine_found in
    let live = prolonged_again id machine_id organization_id recorded tables.database.machines in
    rw done.stored (rw found (rw again (rw (live, kept) refl)))
