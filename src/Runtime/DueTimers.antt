-- ===== src/Runtime/DueTimers.antt =====
-- crates/logiksmith-core/src/runtime_impl.rs: the due timer that is first over all blocks, and the turn
-- that it starts.
pub mod Earliest
pub mod Turn
use logik_smith.Prelude.{
  ℕ, suc, Bool, true, false, Option, none, some, List, [], ◌∷◌, ◌++◌, ◌&&◌, map, Ordering, compare,
  if◌then◌else◌,
}
use logik_smith.Prelude.MinBy.{min_by}
use logik_smith.Prelude.Order.{list_ord, nat_ord, then_with}
use logik_smith.Prelude.Result.{Result, ok, err}
use logik_smith.Identifiers.{BlockId}
use logik_smith.Values.{MonotonicMs}
use logik_smith.Timer.{PendingTimer}
use logik_smith.Lua.{Platform, Probe}
use logik_smith.Engine.DueTimers.{due_timers, process_next_due_timer}
use logik_smith.Block.{LogicBlock, is_active, admit_live_execution}
use logik_smith.Runtime.{
  Runtime, BlockExecution, ClockSample, BudgetClock, RuntimeEventError, nth_block, set_block,
  ensure_time,
}
use logik_smith.Runtime.Input.{finish}
use logik_smith.Runtime.Cascades.{run_cascade, root_probe}

-- A due timer, with the index and the ID of its block.
pub record Candidate : Type 0 where
  pub index : ℕ
  pub block_id : BlockId
  pub timer : PendingTimer

-- `(deadline, block ID, timer name)`
unfoldable pub candidate_cmp : Candidate → Candidate → Ordering
candidate_cmp left right =
    then_with
      (then_with (compare left.timer.due_at right.timer.due_at)
        (list_ord.cmp left.block_id right.block_id))
      (list_ord.cmp left.timer.name right.timer.name)

-- The due timers of the blocks that may run, from the index of the first block on.
unfoldable pub candidates : MonotonicMs → ℕ → List LogicBlock → List Candidate
candidates now index [] = []
candidates now index (block ∷ blocks) =
    let rest = candidates now (suc index) blocks in
    if block.config.enabled && is_active block.health
    then map (λ timer. record { index = index; block_id = block.config.id; timer = timer })
        (due_timers block.engine.pending_timers now)
      ++ rest
    else rest

unfoldable pub select_due_timer : Runtime → MonotonicMs → Option Candidate
select_due_timer runtime now = min_by candidate_cmp (candidates now 0 runtime.blocks)

-- The selected block runs its own first timer, if the execution is admitted.
unfoldable pub run_selected :
    Platform
    → Runtime
    → ℕ
    → LogicBlock
    → ClockSample
    → Option Probe
    → Result RuntimeEventError (Option BlockExecution) × Runtime
run_selected platform runtime index block sample probe =
    let now = sample.monotonic_ms in
    let (admitted, block') =
      admit_live_execution block now runtime.limits.max_live_executions_per_block_per_second in
    let (result, engine') =
      process_next_due_timer platform block'.engine now
        (record { site = runtime.site; utc_unix_ms = sample.utc_unix_ms }) probe in
    if admitted
    then finish runtime index block.config.id true (record block' { engine = engine' }) result now
    else (ok none, record (set_block runtime index block') { last_accepted_at = some now })

-- `process_next_due_timer_sampled_with_probe`
unfoldable pub process_next_due_timer_sampled :
    Platform
    → Runtime
    → ClockSample
    → Option Probe
    → Result RuntimeEventError (Option BlockExecution) × Runtime
process_next_due_timer_sampled platform runtime sample probe =
    elim (ensure_time runtime none sample.monotonic_ms) [
      | err e ↦ (err e, runtime)
      | ok _ ↦ elim (select_due_timer runtime sample.monotonic_ms) [
        | none ↦ (ok none, record runtime { last_accepted_at = some sample.monotonic_ms })
        | some candidate ↦ elim (nth_block runtime candidate.block_id candidate.index) [
          | err e ↦ (err e, runtime)
          | ok block ↦ run_selected platform runtime candidate.index block sample probe
        ]
      ]
    ]

-- What follows the root; its error is returned without a rollback.
unfoldable pub after_timer :
    Platform
    → Runtime
    → Result RuntimeEventError (Option BlockExecution) × Runtime
    → ClockSample
    → Option BudgetClock
    → Result RuntimeEventError (List BlockExecution) × Runtime
after_timer platform checkpoint (err e, runtime) sample clock = (err e, runtime)
after_timer platform checkpoint (ok none, runtime) sample clock = (ok [], runtime)
after_timer platform checkpoint (ok (some root), runtime) sample clock =
    run_cascade platform checkpoint runtime root sample clock

-- `process_next_due_timer_cascade_sampled_with_probe`
unfoldable pub process_next_due_timer_cascade :
    Platform
    → Runtime
    → ClockSample
    → Option BudgetClock
    → Result RuntimeEventError (List BlockExecution) × Runtime
process_next_due_timer_cascade platform runtime sample clock =
    after_timer platform runtime
      (process_next_due_timer_sampled platform runtime sample (root_probe clock)) sample clock
