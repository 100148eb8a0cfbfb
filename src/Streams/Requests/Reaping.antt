-- ===== src/Streams/Requests/Reaping.antt =====
-- Reaping touches expired leases only.
use nehemiah.Base.{
  ℕ, zero, suc, ◌≡◌, inl, inr, refl, String, Bool, true, false, not, ◌&&◌, ◌||◌, List, [], ◌∷◌,
  arith, Bool-cases, ◌==◌, string_eq, eq_iff, take, select, delete, All, Memᴰ, All-Memᴰ,
}
use nehemiah.Base.Int.{ℤ}
use nehemiah.Base.Number.{Number, is_safe_integer, is_below, exceeds}
use nehemiah.Base.Unique.{UniqueIds, row_unique}
use nehemiah.Scheduler.Placement.Sorting.{All-sort, All-select, All-of_Memᴰ, select-test}
use nehemiah.Streams.{StreamTables, LeaseRow, bandwidth_of}
use nehemiah.Streams.Requests.{is_expired, compare_leases, reapable, is_listed, reap_expired}

module _ {ℓ} (P : LeaseRow → Type ℓ) where
  All-take : (n : ℕ) (rows : List LeaseRow) → All P rows → All P (take n rows)
  All-take zero rows h = tt
  All-take (suc n) [] h = tt
  All-take (suc n) (row ∷ rows) h = (h.0, All-take n rows h.1)

  All-reapable :
      (compare_ids : String → String → ℤ) (now : ℕ) (locked : String → Bool) (limit : ℕ)
      (leases : List LeaseRow)
      → All P (select (λ row. is_expired now row && not (locked row.id)) leases)
      → All P (reapable compare_ids now locked limit leases)
  unfolding reapable
  All-reapable compare_ids now locked limit leases h =
      All-take limit _ (All-sort P (compare_leases compare_ids) _ h)

listed_row :
    (chosen : List LeaseRow) (row : LeaseRow)
    → is_listed chosen row ≡ true
    → (c : LeaseRow) × Memᴰ c chosen × (c.id ≡ row.id)
listed_row [] row h = cc
listed_row (c ∷ chosen) row h = elim (Bool-cases (c.id == row.id)) [
  | inl here ↦ (c, Memᴰ.head refl, (eq_iff c.id row.id).0 here)
  | inr later ↦ let (d, m, same) = listed_row chosen row (rw later at h) in (d, Memᴰ.tail m, same)
]

-- A lease that has not expired, or that another transaction holds, is not chosen.
not_chosen :
    (compare_ids : String → String → ℤ) (now : ℕ) (locked : String → Bool) (limit : ℕ)
    (leases : List LeaseRow) (row : LeaseRow)
    → UniqueIds (λ r. r.id) leases
    → Memᴰ row leases
    → (is_expired now row && not (locked row.id)) ≡ false
    → is_listed (reapable compare_ids now locked limit leases) row ≡ false
not_chosen compare_ids now locked limit leases row unique m live =
    elim (Bool-cases (is_listed (reapable compare_ids now locked limit leases) row)) [
      | inr no_row ↦ no_row
      | inl yes_row ↦
          let p = λ (r : LeaseRow). is_expired now r && not (locked r.id) in
          let (c, chosen, same) =
            listed_row (reapable compare_ids now locked limit leases) row yes_row in
          let expired =
            All-Memᴰ (λ r. p r ≡ true) _
              (All-reapable (λ r. p r ≡ true) compare_ids now locked limit leases
                (select-test p leases))
              chosen in
          let present =
            All-Memᴰ (λ r. Memᴰ r leases) _
              (All-reapable (λ r. Memᴰ r leases) compare_ids now locked limit leases
                (All-select (λ r. Memᴰ r leases) p leases
                  (All-of_Memᴰ (λ r. Memᴰ r leases) leases (λ r n. n))))
              chosen in
          let equal : c ≡ row = row_unique (λ r. r.id) leases unique present m same in
          let contradiction : p row ≡ true = rw equal at expired in
          absurd (ground (arith, contradiction, live))
    ]

Memᴰ-delete :
    (p : LeaseRow → Bool) (rows : List LeaseRow) {row : LeaseRow}
    → Memᴰ row rows
    → p row ≡ false
    → Memᴰ row (delete p rows)
Memᴰ-delete p [] m h = elim m [ ]
Memᴰ-delete p (x ∷ xs) (Memᴰ.head e) h = rw (← e, h) (Memᴰ.head refl)
Memᴰ-delete p (x ∷ xs) (Memᴰ.tail m) h = elim (Bool-cases (p x)) [
  | inl out ↦ rw out (Memᴰ-delete p xs m h)
  | inr kept ↦ rw kept (Memᴰ.tail (Memᴰ-delete p xs m h))
]

-- Reaping keeps every lease that has not expired and every one that another transaction holds, if
-- leases have distinct identifiers.
pub reap_expired-keeps :
    (compare_ids : String → String → ℤ) (now : ℕ) (locked : String → Bool) (limit : Number)
    (tables : StreamTables) (row : LeaseRow)
    → UniqueIds (λ r. r.id) tables.leases
    → Memᴰ row tables.leases
    → (is_expired now row && not (locked row.id)) ≡ false
    → Memᴰ row (reap_expired compare_ids now locked limit tables).1.leases
unfolding reap_expired
reap_expired-keeps compare_ids now locked limit tables row unique m live =
    let free =
      not_chosen compare_ids now locked (bandwidth_of limit) tables.leases row unique m live in
    elim (Bool-cases (not (is_safe_integer limit) || is_below limit 1 || exceeds limit 10000)) [
      | inl bad ↦ rw bad m
      | inr good ↦ rw good (Memᴰ-delete _ tables.leases m free)
    ]
