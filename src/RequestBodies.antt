-- ===== src/RequestBodies.antt =====
-- apps/nehemiah/src/http/incoming-request.ts: the bound on requests whose bodies are still on their
-- way, and the checks of a body's length. A lease's closure is a row with its `released` flag, known
-- by its position. Counters are natural numbers: those that are decremented are positive.
pub mod Accounting
pub mod Lengths
mod Tests
use nehemiah.Base.{
  ℕ, zero, suc, ◌+◌, ◌-◌, String, Bool, true, false, not, ◌&&◌, ◌||◌, List, [], ◌∷◌, ◌++◌, Option,
  none, some, Result, ok, err, ◌>>=◌, ◌>>◌, throw_if, if◌then◌else◌, ◌==◌, string_eq, nat_eq, leb,
  ltb, length, all,
}
use nehemiah.Base.Number.{Number, is_safe_integer, is_below, two53}
use nehemiah.Base.Text.{codes, is_digit, digits_from}

-- A JavaScript `Map` from clients to counts.
abbrev pub Counts : Type 0
Counts = List (String × ℕ)

abbrev pub get : String → Counts → Option ℕ
get client [] = none
get client ((c, n) ∷ counts) = if c == client then some n else get client counts

abbrev pub or_default : ℕ → Option ℕ → ℕ
or_default n none = n
or_default n (some m) = m

abbrev pub set : String → ℕ → Counts → Counts
set client n [] = (client, n) ∷ []
set client n ((c, m) ∷ counts) =
    if c == client then (c, n) ∷ counts else (c, m) ∷ set client n counts

abbrev pub remove : String → Counts → Counts
remove client [] = []
remove client ((c, m) ∷ counts) =
    if c == client then remove client counts else (c, m) ∷ remove client counts

pub record Lease : Type 0 where
  pub client : String
  pub released : Bool

pub record PendingBodies : Type 0 where
  pub maximum_total : ℕ
  pub maximum_per_client : ℕ
  pub by_client : Counts
  pub total : ℕ
  pub leases : List Lease

-- the constructor, on limits that `Number.isSafeInteger` accepts
unfoldable pub make_admission : ℕ → ℕ → Option PendingBodies
make_admission maximum_total maximum_per_client =
    if ltb maximum_total 1 || ltb maximum_per_client 1 || ltb maximum_total maximum_per_client
    then none
    else some (record {
      maximum_total = maximum_total;
      maximum_per_client = maximum_per_client;
      by_client = [];
      total = 0;
      leases = [];
    })

-- The handle of the lease, if there is room.
unfoldable pub try_acquire : String → PendingBodies → Option ℕ × PendingBodies
try_acquire client s =
    let current = or_default 0 (get client s.by_client) in
    if leb s.maximum_total s.total || leb s.maximum_per_client current then (none, s) else (
      some (length s.leases),
      record s {
        total = s.total + 1;
        by_client = set client (current + 1) s.by_client;
        leases = s.leases ++ record { client = client; released = false } ∷ [];
      },
    )

abbrev pub lease_at : ℕ → List Lease → Option Lease
lease_at handle [] = none
lease_at zero (lease ∷ leases) = some lease
lease_at (suc n) (lease ∷ leases) = lease_at n leases

abbrev pub mark_released : ℕ → List Lease → List Lease
mark_released handle [] = []
mark_released zero (lease ∷ leases) = record lease { released = true } ∷ leases
mark_released (suc n) (lease ∷ leases) = lease ∷ mark_released n leases

abbrev pub release_lease : ℕ → PendingBodies → Option Lease → PendingBodies
release_lease handle s none = s
release_lease handle s (some lease) =
    let remaining = or_default 1 (get lease.client s.by_client) - 1 in
    if lease.released then s else record s {
      total = s.total - 1;
      by_client =
          if remaining == 0
          then remove lease.client s.by_client
          else set lease.client remaining s.by_client;
      leases = mark_released handle s.leases;
    }

-- the closure that `tryAcquire` returns
unfoldable pub release : ℕ → PendingBodies → PendingBodies
release handle s = release_lease handle s (lease_at handle s.leases)

unfoldable pub snapshot : PendingBodies → ℕ × ℕ
snapshot s = (s.total, length s.by_client)

pub data BodyError : Type 0 where
  invalid_length request_too_large body_not_accepted : BodyError

-- /^(0|[1-9][0-9]*)$/
abbrev pub is_declared_length : List ℕ → Bool
is_declared_length [] = false
is_declared_length (c ∷ cs) =
    (c == b'0' && leb (length cs) 0) || (leb b'1' c && leb c b'9' && all is_digit cs)

-- `Number(declared)` is a safe integer exactly when the digits denote one.
unfoldable pub validate_declared_body_length : Option String → ℕ → Result BodyError (Option ℕ)
validate_declared_body_length none maximum = ok none
validate_declared_body_length (some declared) maximum = do
  throw_if (not (is_declared_length (codes declared))) invalid_length
  let body_length = digits_from 0 (codes declared)
  throw_if (leb two53 body_length) invalid_length
  throw_if (ltb maximum body_length) request_too_large
  ok (some body_length)

-- the loop over the chunks of the body
unfoldable pub collect {ℓ} :
    {A : Type ℓ} → ℕ → ℕ → List A → List (List A) → Result BodyError (List A)
collect maximum size body [] = ok body
collect maximum size body (chunk ∷ chunks) =
    let rest = collect maximum (size + length chunk) (body ++ chunk) chunks in
    if ltb maximum (size + length chunk) then err request_too_large else rest

abbrev pub has_body : String → Bool
has_body method = not (method == "GET") && not (method == "HEAD")

-- `incomingRequest` up to the body of the request that is built
unfoldable pub incoming_body {ℓ} :
    {A : Type ℓ}
    → String
    → Option String
    → Option String
    → ℕ
    → List (List A)
    → Result BodyError (Option (List A))
incoming_body method content_length transfer_encoding maximum chunks = do
  declared_length ← validate_declared_body_length content_length maximum
  throw_if
      (not (has_body method)
        && (ltb 0 (or_default 0 declared_length)
            || (elim transfer_encoding [ none ↦ false | some _ ↦ true ])))
      body_not_accepted
  elim (has_body method) [
    | false ↦ ok none
    | true ↦ (do body ← collect maximum 0 [] chunks; ok (some body))
  ]
