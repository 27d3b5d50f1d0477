-- ===== src/Engine/Run.antt =====
-- crates/logiksmith-core/src/engine.rs: one live call of the handler, and the commit of its transition.
-- `process_input_update_with_context`, `process_next_due_timer_with_context` and
-- `process_schedule_trigger_with_budget_probe` share this text.
use logik_smith.Prelude.{Option, List}
use logik_smith.Prelude.Order.{list_ord, nat_ord}
use logik_smith.Prelude.Result.{Result, ok, err}
use logik_smith.BTreeMap.{values}
use logik_smith.Values.{MonotonicMs}
use logik_smith.Program.{LogicError, EventError, panicked}
use logik_smith.State.{merge_state_with_limits}
use logik_smith.Timer.{apply_timer_effects}
use logik_smith.Execution.{
  Trigger, ScheduleTrigger, by_schedule, InputSnapshot, Transition, Execution, TimeSample, with_now,
}
use logik_smith.Lua.{Platform, Probe}
use logik_smith.Lua.Execute.{execute_logic}
use logik_smith.Engine.{Engine, active_logic_revision, input_snapshots}

-- The state and timers of a committed transition. The `expect` on the merge is the panic.
unfoldable pub commit :
    Engine
    → Trigger
    → List InputSnapshot
    → Transition
    → MonotonicMs
    → TimeSample
    → Result EventError Execution × Engine
commit engine trigger snapshots transition now time =
    elim (merge_state_with_limits engine.state transition.state engine.limits) [
      | err e ↦ (err panicked, engine)
      | ok state_after ↦
          let candidate =
            apply_timer_effects engine.pending_timers transition.timers now
              (active_logic_revision engine) in
          (
            ok (
                with_now (active_logic_revision engine) trigger snapshots engine.state state_after
                  (values candidate) (ok transition) time),
            record engine { state = state_after; pending_timers = candidate },
          )
    ]

-- A failed handler changes nothing and is reported in the outcome.
unfoldable pub settle :
    Engine
    → Trigger
    → List InputSnapshot
    → Result LogicError Transition
    → MonotonicMs
    → TimeSample
    → Result EventError Execution × Engine
settle engine trigger snapshots (ok transition) now time =
    commit engine trigger snapshots transition now time
settle engine trigger snapshots (err error) now time = (
  ok (
      with_now (active_logic_revision engine) trigger snapshots engine.state engine.state
        (values engine.pending_timers) (err error) time),
  engine,
)

-- The outcome of the handler on the present inputs, state and timers.
unfoldable pub outcome_of_handler :
    Platform
    → Engine
    → Trigger
    → MonotonicMs
    → TimeSample
    → Option Probe
    → Result LogicError Transition
outcome_of_handler platform engine trigger now time probe =
    execute_logic platform engine.config.endpoints engine.config.logic (input_snapshots engine now)
      trigger engine.state engine.pending_timers now time engine.limits probe

unfoldable pub run_handler :
    Platform
    → Engine
    → Trigger
    → MonotonicMs
    → TimeSample
    → Option Probe
    → Result EventError Execution × Engine
run_handler platform engine trigger now time probe =
    settle engine trigger (input_snapshots engine now)
      (outcome_of_handler platform engine trigger now time probe) now time

-- `process_schedule_trigger_with_budget_probe`
unfoldable pub process_schedule_trigger :
    Platform
    → Engine
    → ScheduleTrigger
    → TimeSample
    → MonotonicMs
    → Option Probe
    → Result EventError Execution × Engine
process_schedule_trigger platform engine trigger time now probe =
    run_handler platform engine (by_schedule trigger) now time probe
