-- ===== src/Engine/DueTimers.antt =====
-- crates/logiksmith-core/src/engine.rs: `process_next_due_timer_with_context`.
use logik_smith.Prelude.{
  Option, none, some, List, keep, leb, ◌==◌, not, if◌then◌else◌, Ordering, compare,
}
use logik_smith.Prelude.MinBy.{min_by}
use logik_smith.Prelude.Order.{list_ord, nat_ord, then_with}
use logik_smith.Prelude.Result.{Result, ok, err, map_ok}
use logik_smith.BTreeMap.{values, remove}
use logik_smith.Values.{MonotonicMs}
use logik_smith.Program.{EventError, stale_timer}
use logik_smith.Timer.{PendingTimer, Timers}
use logik_smith.Execution.{by_timer, Execution, TimeSample}
use logik_smith.Lua.{Platform, Probe}
use logik_smith.Engine.{Engine, active_logic_revision, accept_time}
use logik_smith.Engine.Run.{run_handler}

-- `(due_at, name)`, as `min_by` compares two timers
unfoldable pub timer_cmp : PendingTimer → PendingTimer → Ordering
timer_cmp left right =
    then_with (compare left.due_at right.due_at) (list_ord.cmp left.name right.name)

-- The due timers of a block, in name order.
unfoldable pub due_timers : Timers → MonotonicMs → List PendingTimer
due_timers pending now = keep (λ timer. leb timer.due_at now) (values pending)

-- The timer is taken off the pending ones before its revision is compared.
unfoldable pub fire :
    Platform
    → Engine
    → PendingTimer
    → MonotonicMs
    → TimeSample
    → Option Probe
    → Result EventError (Option Execution) × Engine
fire platform engine timer now time probe =
    let taken = record engine { pending_timers = remove timer.name engine.pending_timers } in
    let (result, engine') =
      run_handler platform taken
        (by_timer (record {
          name = timer.name;
          scheduled_at = timer.scheduled_at;
          due_at = timer.due_at;
          fired_at = now;
          scheduled_logic_revision = timer.scheduled_logic_revision;
        }))
        now time probe in
    if not (timer.scheduled_logic_revision == active_logic_revision engine)
    then (
      err (stale_timer timer.name timer.scheduled_logic_revision (active_logic_revision engine)),
      taken,
    )
    else (map_ok some result, engine')

unfoldable pub process_next_due_timer :
    Platform
    → Engine
    → MonotonicMs
    → TimeSample
    → Option Probe
    → Result EventError (Option Execution) × Engine
process_next_due_timer platform engine now time probe = elim (accept_time engine now) [
  | err e ↦ (err e, engine)
  | ok accepted ↦ elim (min_by timer_cmp (due_timers accepted.pending_timers now)) [
    | none ↦ (ok none, accepted)
    | some timer ↦ fire platform accepted timer now time probe
  ]
]
