-- ===== src/RequestBodies/Accounting.antt =====
-- The counters agree with the leases that are open, whatever requests come and go.
use nehemiah.Base.{
  ℕ, zero, suc, ◌+◌, ◌-◌, ◌≤◌, ◌<◌, ◌≡◌, inl, inr, refl, ap, ◌∙◌, String, true, false, not, ◌&&◌,
  ◌||◌, List, [], ◌∷◌, ◌++◌, Option, none, some, arith, Bool-cases, Option-cases, if◌then◌else◌,
  ◌==◌, string_eq, nat_eq, eq_iff, beq_refl, leb, ltb, sum,
}
use nehemiah.RequestBodies.{
  Counts, get, or_default, set, remove, Lease, PendingBodies, make_admission, try_acquire, lease_at,
  mark_released, release_lease, release,
}

abbrev pub count_of : String → Counts → ℕ
count_of client counts = or_default 0 (get client counts)

get-set :
    (c d : String) (n : ℕ) (counts : Counts)
    → count_of d (set c n counts) ≡ (if c == d then n else count_of d counts)
get-set c d n [] = ground arith
get-set c d n ((e, m) ∷ counts) = elim (Bool-cases (e == c)) [
  | inl same ↦
      let here : e ≡ c = (eq_iff e c).0 same in
      rw (same, here) (elim (Bool-cases (c == d)) [ inl h ↦ rw h refl | inr h ↦ rw h refl ])
  | inr other ↦ elim (Bool-cases (e == d)) [
    | inl mine ↦
        let differ : (c == d) ≡ false = ground (arith, eq_iff e c, eq_iff e d, eq_iff c d) in
        rw (other, mine, differ) refl
    | inr no_key ↦ rw (other, no_key) (get-set c d n counts)
  ]
]

get-remove :
    (c d : String) (counts : Counts)
    → count_of d (remove c counts) ≡ (if c == d then 0 else count_of d counts)
get-remove c d [] = ground arith
get-remove c d ((e, m) ∷ counts) = elim (Bool-cases (e == c)) [
  | inl same ↦
      let here : e ≡ c = (eq_iff e c).0 same in
      rw (same) (
        get-remove c d counts
        ∙ rw here (elim (Bool-cases (c == d)) [ inl h ↦ rw h refl | inr h ↦ rw h refl ]))
  | inr other ↦ elim (Bool-cases (e == d)) [
    | inl mine ↦
        let differ : (c == d) ≡ false = ground (arith, eq_iff e c, eq_iff e d, eq_iff c d) in
        rw (other, mine, differ) refl
    | inr no_key ↦ rw (other, no_key) (get-remove c d counts)
  ]
]

-- The leases that are open, in all and of a client.
abbrev pub open_leases : List Lease → ℕ
open_leases leases = sum (λ l. if l.released then 0 else 1) leases

abbrev pub open_leases_of : String → List Lease → ℕ
open_leases_of client leases =
    sum (λ l. if not l.released && l.client == client then 1 else 0) leases

sum-append : (f : Lease → ℕ) (xs ys : List Lease) → sum f (xs ++ ys) ≡ sum f xs + sum f ys
sum-append f [] ys = omega arith
sum-append f (x ∷ xs) ys = omega (arith, sum-append f xs ys)

sum-mark :
    (f : Lease → ℕ) (handle : ℕ) (leases : List Lease) (lease : Lease)
    → lease_at handle leases ≡ some lease
    → sum f (mark_released handle leases) + f lease
      ≡ sum f leases + f (record lease { released = true })
sum-mark f handle [] lease h = cc
sum-mark f zero (l ∷ leases) lease h = let same : l ≡ lease = cc in rw same (omega arith)
sum-mark f (suc n) (l ∷ leases) lease h = omega (arith, sum-mark f n leases lease h)

-- What the counters say, and the two limits.
pub record IsAccounted (s : PendingBodies) : Type 0 where
  pub total_open : s.total ≡ open_leases s.leases
  pub client_open : (client : String) → count_of client s.by_client ≡ open_leases_of client s.leases
  pub total_bounded : s.total ≤ s.maximum_total
  pub client_bounded : (client : String) → count_of client s.by_client ≤ s.maximum_per_client

acquire_lem :
    (client : String) (s : PendingBodies) → IsAccounted s → IsAccounted (try_acquire client s).1
unfolding try_acquire
acquire_lem client s a =
    elim (Bool-cases
      (leb s.maximum_total s.total || leb s.maximum_per_client (count_of client s.by_client))) [
        | inl full ↦ rw full a
        | inr room ↦ rw room (record {
          total_open = omega (
            arith,
            a.total_open,
            sum-append (λ l. if l.released then 0 else 1) s.leases
                (record { client = client; released = false } ∷ []),
          );
          client_open = λ d.
              get-set client d (count_of client s.by_client + 1) s.by_client
              ∙ ground (
                arith,
                a.client_open d,
                a.client_open client,
                eq_iff client d,
                sum-append (λ l. if not l.released && l.client == d then 1 else 0) s.leases
                    (record { client = client; released = false } ∷ []),
              );
          total_bounded = ground arith;
          client_bounded = λ d. ground (
            arith,
            get-set client d (count_of client s.by_client + 1) s.by_client,
            a.client_bounded d,
          );
        })
      ]

-- The count of a client after one of its leases is released.
abbrev counts_after : String → Counts → Counts
counts_after client counts =
    let remaining = or_default 1 (get client counts) - 1 in
    if remaining == 0 then remove client counts else set client remaining counts

released_count :
    (client d : String) (counts : Counts)
    → 0 < count_of client counts
    → count_of d (counts_after client counts) + (if client == d then 1 else 0) ≡ count_of d counts
released_count client d counts positive = elim (Option-cases (get client counts)) [
  | inl missing ↦ absurd (ground arith)
  | inr (n, found) ↦
      let taken = get-remove client d counts in
      let stored = get-set client d (n - 1) counts in
      let same : client ≡ d → get client counts ≡ get d counts = λ e. ap (λ c. get c counts) e in
      rw found (ground (arith, taken, stored, same, eq_iff client d))
]

release_lease-IsAccounted :
    (handle : ℕ) (s : PendingBodies) (found : Option Lease)
    → lease_at handle s.leases ≡ found
    → IsAccounted s
    → IsAccounted (release_lease handle s found)
release_lease-IsAccounted handle s none there a = a
release_lease-IsAccounted handle s (some lease) there a = elim (Bool-cases lease.released) [
  | inl twice ↦ rw twice a
  | inr held ↦
      let all_marked = sum-mark (λ l. if l.released then 0 else 1) handle s.leases lease there in
      let marked = λ (d : String).
        sum-mark (λ l. if not l.released && l.client == d then 1 else 0) handle s.leases lease
          there in
      let here = marked lease.client in
      let mine = a.client_open lease.client in
      let one : (lease.client == lease.client) ≡ true = beq_refl lease.client in
      let positive : 0 < count_of lease.client s.by_client = ground arith in
      let counted = λ (d : String). released_count lease.client d s.by_client positive in
      rw held (record {
        total_open = ground (arith, a.total_open, all_marked);
        client_open = λ d. ground (arith, counted d, marked d, a.client_open d);
        total_bounded = omega (arith, a.total_bounded);
        client_bounded = λ d. ground (arith, counted d, a.client_bounded d);
      })
]

-- Requests that arrive from a client, and closures that are called, possibly more than once.
pub data Call : Type 0 where
  arrives : String → Call
  releases : ℕ → Call

abbrev pub step : Call → PendingBodies → PendingBodies
step (arrives client) s = (try_acquire client s).1
step (releases handle) s = release handle s

unfoldable pub run : List Call → PendingBodies → PendingBodies
run [] s = s
run (call ∷ calls) s = run calls (step call s)

step-IsAccounted : (call : Call) (s : PendingBodies) → IsAccounted s → IsAccounted (step call s)
unfolding release
step-IsAccounted (arrives client) s a = acquire_lem client s a
step-IsAccounted (releases handle) s a =
    release_lease-IsAccounted handle s (lease_at handle s.leases) refl a

run_keeps : (calls : List Call) (s : PendingBodies) → IsAccounted s → IsAccounted (run calls s)
unfolding run
run_keeps [] s a = a
run_keeps (call ∷ calls) s a = run_keeps calls (step call s) (step-IsAccounted call s a)

made-IsAccounted :
    (maximum_total maximum_per_client : ℕ) (s : PendingBodies)
    → make_admission maximum_total maximum_per_client ≡ some s
    → IsAccounted s
unfolding make_admission
made-IsAccounted maximum_total maximum_per_client s h =
    elim (Bool-cases
      (ltb maximum_total 1 || ltb maximum_per_client 1 || ltb maximum_total maximum_per_client)) [
        | inl bad ↦ absurd (ground arith)
        | inr good ↦
            let same : record {
              maximum_total = maximum_total;
              maximum_per_client = maximum_per_client;
              by_client = [];
              total = 0;
              leases = [];
            }
                ≡ s =
              ground arith in
            rw (← same) (record {
              total_open = refl;
              client_open = λ client. refl;
              total_bounded = omega arith;
              client_bounded = λ client. omega arith;
            })
      ]

-- From an admission that was just made, whatever requests arrive and whatever closures are called, in
-- any order and any number of times, the total is the number of leases that are open, each client's
-- count is the number of its own, and both stay within their limits.
pub run-IsAccounted :
    (maximum_total maximum_per_client : ℕ) (s : PendingBodies) (calls : List Call)
    → make_admission maximum_total maximum_per_client ≡ some s
    → IsAccounted (run calls s)
run-IsAccounted maximum_total maximum_per_client s calls h =
    run_keeps calls s (made-IsAccounted maximum_total maximum_per_client s h)
