-- ===== src/Metering/HostLoss/Final.antt =====
-- Once the loss of a host is closed, the meter stays as it is.
use nehemiah.Base.{
  ℕ, ◌≡◌, refl, sym, ◌∙◌, String, true, false, ◌&&◌, Option, none, some, ◌==◌, string_eq, nat_eq,
  is_some, find, find-test, update, ok, arith,
}
use nehemiah.Metering.{MachineIdentityRow, MeterStateRow, StoredObservationRow}
use nehemiah.Metering.Anomaly.Regular.{IsMeter, is_meter}
use nehemiah.Metering.Tables.{MeteringTables, coalesce}
use nehemiah.Metering.Processing.{Outcome}
use nehemiah.Metering.Processing.Cases.{IsProcessed, refused, started, read}
use nehemiah.Metering.Processing.Advance.{after, state_for, find-update}
use nehemiah.Metering.Drain.{Progress, state_of, is_next, drain, enough_rounds}
use nehemiah.Metering.Drain.Ends.{IsDrained, over, step, drain-IsEnd, ahead-le-length}
use nehemiah.Metering.Drain.Balance.{drained-over}
use nehemiah.Metering.HostLoss.{close_host_loss, close_found, close_meter, lost_state}

-- A run of the loop that bills nothing.
abbrev IsUnbilled : MeteringTables → MeterStateRow → MeteringTables → Type 0
IsUnbilled db t end =
    (is_some t.loss_closed_at ≡ true)
    × (end.raw_events ≡ db.raw_events)
    × (end.usage_events ≡ db.usage_events)

-- After a loss an observation is refused.
after-IsUnbilled :
    (identity : MachineIdentityRow) (s : MeterStateRow) (o : StoredObservationRow) (now : ℕ)
    (db : MeteringTables) {result : Outcome × MeteringTables}
    (how : IsProcessed identity s o now db result)
    → is_some s.loss_closed_at ≡ true
    → IsUnbilled db (after identity s o now db how) result.1
after-IsUnbilled identity s o now db (refused reason found) lost = (lost, refl, refl)
after-IsUnbilled identity s o now db (started regular is_start) lost =
    let never : true ≡ false = sym lost ∙ regular.not_lost in cc
after-IsUnbilled identity s o now db (read start segments regular later tiles) lost =
    let never : true ≡ false = sym lost ∙ regular.not_lost in cc

drained-IsUnbilled :
    (identity : MachineIdentityRow) (now : ℕ) {s t : MeterStateRow} {db end : MeteringTables}
    → IsDrained identity now s db t end
    → is_some s.loss_closed_at ≡ true
    → IsUnbilled db t end
drained-IsUnbilled identity now (over nothing) lost = (lost, refl, refl)
drained-IsUnbilled identity now {s} {t} {db} (step o next how rest) lost =
    let (kept, raw, usage) = after-IsUnbilled identity s o now db how lost in
    let (at_end, raw', usage') = drained-IsUnbilled identity now rest kept in
    (at_end, raw' ∙ raw, usage' ∙ usage)

lost_time : (at : Option ℕ) (now : ℕ) → is_some (coalesce at now) ≡ true
lost_time (some at) now = refl
lost_time none now = refl

lost_meter : (now : ℕ) (s : MeterStateRow) → IsMeter s → IsMeter (lost_state now s)
unfolding is_meter
lost_meter now s meter = meter

closed_states :
    (now : ℕ) (db : MeteringTables) (m : MachineIdentityRow) (s : MeterStateRow)
    → s.start_seen ≡ true
    → s.final_seen ≡ false
    → (close_meter m s now db).1.states
      ≡ update (λ r. r.machine_id == m.id && r.lease_id == m.lease_id) (lost_state now) db.states
closed_states now db m s seen open_meter = rw (close_meter, seen, open_meter) refl

closed_state :
    (machine_id lease_id : String) (now : ℕ) (db : MeteringTables) (m : MachineIdentityRow)
    (s : MeterStateRow)
    → find (λ r. r.id == machine_id && r.lease_id == lease_id) db.machines ≡ some m
    → state_for m.id db.states ≡ some s
    → s.start_seen ≡ true
    → s.final_seen ≡ false
    → (s.lease_id == m.lease_id) ≡ true
    → state_for m.id (close_host_loss machine_id lease_id now db).1.states ≡ some (lost_state now s)
unfolding close_host_loss
closed_state machine_id lease_id now db m s there found seen open_meter leased =
    let here = find-test (λ r. r.machine_id == m.id) db.states found in
    rw (close_host_loss, there, close_found, found)
      (rw (closed_states now db m s seen open_meter) (
        find-update m.id (λ r. r.machine_id == m.id && r.lease_id == m.lease_id) (lost_state now)
          db.states s (λ r other. rw other refl) (λ r. refl) found (rw (here, leased) refl)))

-- Once the loss of the host of a machine is closed, while its meter is started, sound and not final,
-- the loop from the row that this left, over whatever observations are stored then, ends without an
-- error, bills nothing, and leaves no observation that is next; the loss stays closed.
pub close_host_loss-final :
    (machine_id lease_id : String) (now : ℕ) (db : MeteringTables) (m : MachineIdentityRow)
    (s : MeterStateRow) (identity : MachineIdentityRow) (stored_id later : ℕ) (progress : Progress)
    (db' : MeteringTables)
    → find (λ r. r.id == machine_id && r.lease_id == lease_id) db.machines ≡ some m
    → state_for m.id db.states ≡ some s
    → IsMeter s
    → s.start_seen ≡ true
    → s.final_seen ≡ false
    → (s.lease_id == m.lease_id) ≡ true
    → state_of identity db' ≡ state_for m.id (close_host_loss machine_id lease_id now db).1.states
    → (progress' : Progress) × (t : MeterStateRow) × (end : MeteringTables) × (drain
          (enough_rounds db')
          identity
          stored_id
          later
          progress
          db'
        ≡ ok (progress', end))
      × (state_of identity end ≡ some t)
      × (is_some t.loss_closed_at ≡ true)
      × (end.raw_events ≡ db'.raw_events)
      × (end.usage_events ≡ db'.usage_events)
      × (find (is_next identity t) end.observations ≡ none)
close_host_loss-final machine_id lease_id now db m s identity stored_id later progress db' there
      found meter seen open_meter leased same =
    let closed = closed_state machine_id lease_id now db m s there found seen open_meter leased in
    let last =
      drain-IsEnd identity later (enough_rounds db') stored_id progress (lost_state now s) db'
        (same ∙ closed) (lost_meter now s meter)
        (omega (arith, ahead-le-length identity (lost_state now s) db'.observations)) in
    let (lost, same_raw, same_usage) =
      drained-IsUnbilled identity later last.run (lost_time s.loss_closed_at now) in
    (
      last.progress',
      last.row,
      last.tables,
      last.returns,
      last.found,
      lost,
      same_raw,
      same_usage,
      drained-over identity later last.run,
    )
