-- ===== src/Windows.antt =====
-- The fixed windows in PostgreSQL that bound requests: the statement of
-- apps/nehemiah/src/auth/api-admission.ts, `PostgresApiAdmission.consume`, which
-- apps/nehemiah/src/domain/stream-admission.ts, `admitRouteRequest`, repeats. Times are microseconds.
pub mod Bounds
use nehemiah.Base.{
  ℕ, ◌+◌, ◌-◌, ◌*◌, ◌/◌, ◌%◌, min, max, String, Bool, true, false, not, ◌&&◌, List, [], ◌∷◌, Option,
  none, some, if◌then◌else◌, ◌==◌, string_eq, nat_eq, find, leb, ltb, all,
}
use nehemiah.Billing.Price.{divide_up}
use nehemiah.Database.{second}

pub record Bucket : Type 0 where
  pub scope : String
  pub slot : ℕ
  pub limit : ℕ

pub record WindowRow : Type 0 where
  pub scope : String
  pub slot : ℕ
  pub window_started_at : ℕ
  pub request_count : ℕ

abbrev pub maximum_stored_count : ℕ
maximum_stored_count = 1000001

abbrev pub bucket_slots : ℕ
bucket_slots = 1048576

-- floor(extract(epoch FROM statement_timestamp()) / window) * window
unfoldable pub current_window : ℕ → ℕ → ℕ
current_window seconds now = now / (seconds * second) * (seconds * second)

-- ON CONFLICT (scope, bucket_slot) DO UPDATE SET …
unfoldable pub hit : ℕ → WindowRow → WindowRow
hit window row = record row {
  window_started_at = max row.window_started_at window;
  request_count =
      if ltb row.window_started_at window
      then 1
      else min (row.request_count + 1) maximum_stored_count;
}

abbrev pub is_row_of : Bucket → WindowRow → Bool
is_row_of bucket row = row.scope == bucket.scope && row.slot == bucket.slot

-- The row of the bucket after the statement, and the table.
unfoldable pub apply : ℕ → Bucket → List WindowRow → WindowRow × List WindowRow
apply window bucket [] =
    let row : WindowRow = record {
      scope = bucket.scope;
      slot = bucket.slot;
      window_started_at = window;
      request_count = 1;
    } in
    (row, row ∷ [])
apply window bucket (row ∷ rows) =
    let rest = apply window bucket rows in
    if is_row_of bucket row then (hit window row, hit window row ∷ rows) else (rest.0, row ∷ rest.1)

-- The rows that the statement returns, each with the limit of its bucket.
unfoldable pub apply_all : ℕ → List Bucket → List WindowRow → List (WindowRow × ℕ) × List WindowRow
apply_all window [] rows = ([], rows)
apply_all window (bucket ∷ buckets) rows =
    let (row, rows') = apply window bucket rows in
    let (applied, rows'') = apply_all window buckets rows' in
    ((row, bucket.limit) ∷ applied, rows'')

-- bool_and(applied.request_count <= requested.request_limit) over one row or more
abbrev pub is_within : WindowRow × ℕ → Bool
is_within (row, limit) = leb row.request_count limit

-- GREATEST(1, ceil(…)) of a row that is over its limit
abbrev pub wait_of : ℕ → ℕ → WindowRow × ℕ → ℕ
wait_of seconds now (row, limit) =
    if leb row.request_count limit
    then 0
    else max 1 (divide_up (row.window_started_at + seconds * second - now) second)

abbrev pub longest_wait : ℕ → ℕ → List (WindowRow × ℕ) → ℕ
longest_wait seconds now [] = 0
longest_wait seconds now (a ∷ applied) =
    max (wait_of seconds now a) (longest_wait seconds now applied)

-- COALESCE(max(…) FILTER (…), 1), and the clamp of the caller
unfoldable pub retry_after : ℕ → ℕ → List (WindowRow × ℕ) → ℕ
retry_after seconds now applied =
    let wait = longest_wait seconds now applied in if wait == 0 then 1 else min wait seconds
