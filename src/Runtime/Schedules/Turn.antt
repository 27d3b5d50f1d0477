-- ===== src/Runtime/Schedules/Turn.antt =====
-- crates/logiksmith-core/src/runtime_impl.rs and runtime_signals.rs: the turn that a delivered schedule
-- trigger starts.
use logik_smith.Prelude.{
  ℕ, ◌<◌, ◌≡◌, refl, Bool, true, false, Option, none, some, List, ◌&&◌, ◌==◌, find, position,
  if◌then◌else◌, Bool-cases, Option-cases, inl, inr, ap, ◌∙◌, arith,
}
use logik_smith.Prelude.Order.{list_ord, nat_ord, pair_ord, same}
use logik_smith.Prelude.Result.{Result, ok, err, map_ok, Result-cases}
use logik_smith.BTreeMap.{get}
use logik_smith.Execution.{ScheduleTrigger}
use logik_smith.Lua.{Platform, Probe}
use logik_smith.Engine.Run.{process_schedule_trigger}
use logik_smith.Block.{LogicBlock, is_active, admit_live_execution}
use logik_smith.Runtime.{
  Runtime, BlockExecution, ClockSample, BudgetClock, RuntimeEventError, out_of_fuel, nth_block,
  set_block, ensure_time,
}
use logik_smith.Runtime.Input.{finish}
use logik_smith.Runtime.Rollback.{finish_lem}
use logik_smith.Runtime.Cascades.{root_probe}
use logik_smith.Runtime.DueTimers.{after_timer}
use logik_smith.Runtime.DueTimers.Turn.{
  Roots, nth_block-fuelled, ensure_time-fuelled, IsRootedTurn, after_timer-IsRootedTurn,
}

-- The schedule is enabled, and its cursor is of the trigger's structural revision.
unfoldable pub is_current : Runtime → LogicBlock → ScheduleTrigger → Bool
is_current runtime block trigger =
    block.config.enabled
    && is_active block.health
    && elim (find (λ s. same s.name trigger.name) block.config.schedules) [
      | none ↦ false
      | some schedule ↦ schedule.enabled
    ]
    && elim (get (trigger.block_id, trigger.name) runtime.schedule_cursors) [
      | none ↦ false
      | some cursor ↦ cursor.structural_revision == trigger.structural_revision
    ]

-- The live part, on a runtime that has accepted the time
unfoldable pub run_schedule :
    Platform
    → Runtime
    → ℕ
    → LogicBlock
    → ScheduleTrigger
    → ClockSample
    → Option Probe
    → Result RuntimeEventError (Option BlockExecution) × Runtime
run_schedule platform runtime index block trigger sample probe =
    let now = sample.monotonic_ms in
    let (admitted, block') =
      admit_live_execution block now runtime.limits.max_live_executions_per_block_per_second in
    let (result, engine') =
      process_schedule_trigger platform block'.engine trigger
        (record { site = runtime.site; utc_unix_ms = some trigger.scheduled_for_utc_ms }) now
        probe in
    if admitted
    then finish runtime index block.config.id true (record block' { engine = engine' })
        (map_ok some result) now
    else (ok none, set_block runtime index block')

abbrev accepted_at : Runtime → ClockSample → Runtime
accepted_at runtime sample = record runtime { last_accepted_at = some sample.monotonic_ms }

-- `process_schedule_sampled_with_probe`
unfoldable pub process_schedule_sampled :
    Platform
    → Runtime
    → ScheduleTrigger
    → ClockSample
    → Option Probe
    → Result RuntimeEventError (Option BlockExecution) × Runtime
unfolding is_current run_schedule
process_schedule_sampled platform runtime trigger sample probe =
    let accepted = record runtime { last_accepted_at = some sample.monotonic_ms } in
    elim (ensure_time runtime none sample.monotonic_ms) [
      | err e ↦ (err e, runtime)
      | ok _ ↦ elim (position (λ block. same block.config.id trigger.block_id) runtime.blocks) [
        | none ↦ (ok none, accepted)
        | some index ↦ elim (nth_block accepted trigger.block_id index) [
          | err e ↦ (err e, accepted)
          | ok block ↦
              if is_current accepted block trigger
              then run_schedule platform accepted index block trigger sample probe
              else (ok none, accepted)
        ]
      ]
    ]

-- `process_schedule_cascade_sampled_with_probe`, whose root error is returned without a rollback
unfoldable pub process_schedule_cascade :
    Platform
    → Runtime
    → ScheduleTrigger
    → ClockSample
    → Option BudgetClock
    → Result RuntimeEventError (List BlockExecution) × Runtime
unfolding process_schedule_sampled
process_schedule_cascade platform runtime trigger sample clock =
    after_timer platform runtime
      (process_schedule_sampled platform runtime trigger sample (root_probe clock)) sample clock

module _ (platform : Platform) (runtime : Runtime) (trigger : ScheduleTrigger)
    (sample : ClockSample) (probe : Option Probe) where
  run_schedule-Roots :
      (index : ℕ) (block : LogicBlock)
      → Roots runtime
          (run_schedule platform (accepted_at runtime sample) index block trigger sample probe)
  unfolding run_schedule set_block
  run_schedule-Roots index block =
      elim (Bool-cases
        (admit_live_execution block sample.monotonic_ms
          runtime.limits.max_live_executions_per_block_per_second).0) [
            | inl e ↦
                rw (e, run_schedule)
                  (finish_lem (accepted_at runtime sample) index block.config.id true _ _
                    sample.monotonic_ms)
            | inr e ↦ rw (e, run_schedule) (refl, λ p. cc)
          ]

  process_schedule_sampled-Roots :
      Roots runtime (process_schedule_sampled platform runtime trigger sample probe)
  unfolding process_schedule_sampled
  process_schedule_sampled-Roots =
      let accepted = accepted_at runtime sample in
      elim (Result-cases (ensure_time runtime none sample.monotonic_ms)) [
        | inr (x, e) ↦
            rw (e, process_schedule_sampled)
              (
                refl,
                λ p.
                    ensure_time-fuelled platform runtime sample probe
                      (let same_error : x ≡ out_of_fuel = ground arith in e ∙ ap err same_error),
              )
        | inl (u, e) ↦
            elim (Option-cases
              (position (λ block. same block.config.id trigger.block_id) runtime.blocks)) [
                | inl g ↦ rw (e, g, process_schedule_sampled) (refl, λ p. cc)
                | inr (index, g) ↦ elim (Result-cases (nth_block accepted trigger.block_id index)) [
                  | inr (x, q) ↦
                      rw (e, g, q, process_schedule_sampled)
                        (
                          refl,
                          λ p.
                              nth_block-fuelled platform accepted sample probe trigger.block_id
                                index
                                (let same_error : x ≡ out_of_fuel = ground arith in
                                  q ∙ ap err same_error),
                        )
                  | inl (block, q) ↦ elim (Bool-cases (is_current accepted block trigger)) [
                    | inl c ↦
                        rw (e, g, q, c, process_schedule_sampled) (run_schedule-Roots index block)
                    | inr c ↦ rw (e, g, q, c, process_schedule_sampled) (refl, λ p. cc)
                  ]
                ]
              ]
      ]

-- With a positive limit on the executions of a cascade, a turn that a schedule trigger starts returns no
-- more executions than the limit, within the total usage if there are any; or an error of its cascade,
-- which leaves the runtime exactly as it was unless it is the limit on a cascade's executions or on
-- its time; or the error of its root, with what the root left. The fuel of the model never runs out.
pub process_schedule_cascade-IsRootedTurn :
    (platform : Platform) (runtime : Runtime) (trigger : ScheduleTrigger) (sample : ClockSample)
    (clock : Option BudgetClock)
    → 0 < runtime.limits.max_cascade_executions
    → IsRootedTurn runtime
        (process_schedule_sampled platform runtime trigger sample (root_probe clock))
        (process_schedule_cascade platform runtime trigger sample clock)
unfolding process_schedule_cascade
process_schedule_cascade-IsRootedTurn platform runtime trigger sample clock h =
    let (l, n) =
      process_schedule_sampled-Roots platform runtime trigger sample (root_probe clock) in
    after_timer-IsRootedTurn platform runtime sample clock
      (process_schedule_sampled platform runtime trigger sample (root_probe clock)) h l n
