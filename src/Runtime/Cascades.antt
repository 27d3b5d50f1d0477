-- ===== src/Runtime/Cascades.antt =====
-- crates/logiksmith-core/src/runtime_input_updates.rs and runtime_signals.rs: a whole turn of the
-- runtime, with its checkpoint.
use logik_smith.Prelude.{Bool, true, false, Option, none, some, List, [], ◌∷◌, if◌then◌else◌}
use logik_smith.Prelude.Result.{Result, ok, err}
use logik_smith.Identifiers.{BlockId, EndpointName}
use logik_smith.Values.{InputUpdate}
use logik_smith.Lua.{Platform, Probe}
use logik_smith.Runtime.{
  Runtime, BlockExecution, ClockSample, BudgetClock, RuntimeEventError, unknown_block, in_block,
  time_went_backwards, cascade_limit, resource_limit, cascade_time_limit, out_of_fuel,
  validate_usage,
}
use logik_smith.Runtime.Input.{process_input_update_sampled_single}
use logik_smith.Runtime.Signals.{Cascade}
use logik_smith.Runtime.Propagate.{Outcome, propagate_from_execution}

unfoldable pub should_rollback_after_propagation : RuntimeEventError → Bool
should_rollback_after_propagation (unknown_block id) = true
should_rollback_after_propagation (in_block id error) = true
should_rollback_after_propagation (time_went_backwards id previous current) = true
should_rollback_after_propagation (cascade_limit actual maximum) = false
should_rollback_after_propagation (resource_limit resource actual maximum) = true
should_rollback_after_propagation (cascade_time_limit elapsed_ms maximum_ms) = false
should_rollback_after_propagation out_of_fuel = true

-- The usage check at the end of a turn, which restores the checkpoint.
unfoldable pub check_turn :
    Runtime → Cascade → Result RuntimeEventError (List BlockExecution) × Runtime
check_turn checkpoint cascade = elim (validate_usage cascade.runtime) [
  | err e ↦ (err e, checkpoint)
  | ok _ ↦ (ok cascade.executions, cascade.runtime)
]

-- What follows the propagation.
unfoldable pub settle_turn :
    Runtime → Outcome → Result RuntimeEventError (List BlockExecution) × Runtime
settle_turn checkpoint (err e, cascade) =
    (err e, if should_rollback_after_propagation e then checkpoint else cascade.runtime)
settle_turn checkpoint (ok _, cascade) = check_turn checkpoint cascade

-- The propagation of a root, and what follows it. The limit on executions is fuel enough.
unfoldable pub run_cascade :
    Platform
    → Runtime
    → Runtime
    → BlockExecution
    → ClockSample
    → Option BudgetClock
    → Result RuntimeEventError (List BlockExecution) × Runtime
run_cascade platform checkpoint runtime root sample clock = settle_turn checkpoint (
    propagate_from_execution platform sample clock runtime.limits.max_cascade_executions 0
      (record { runtime = runtime; executions = root ∷ [] }))

unfoldable pub root_probe : Option BudgetClock → Option Probe
root_probe none = none
root_probe (some clock) = some (clock.handler 0)

-- What follows the root; its error restores the checkpoint.
unfoldable pub after_root :
    Platform
    → Runtime
    → Result RuntimeEventError (Option BlockExecution) × Runtime
    → ClockSample
    → Option BudgetClock
    → Result RuntimeEventError (List BlockExecution) × Runtime
after_root platform checkpoint (err e, runtime) sample clock = (err e, checkpoint)
after_root platform checkpoint (ok none, runtime) sample clock = (ok [], runtime)
after_root platform checkpoint (ok (some root), runtime) sample clock =
    run_cascade platform checkpoint runtime root sample clock

-- `process_input_update_sampled_with_probe`
unfoldable pub process_input_update_sampled :
    Platform
    → Runtime
    → BlockId
    → EndpointName
    → InputUpdate
    → ClockSample
    → Option BudgetClock
    → Result RuntimeEventError (List BlockExecution) × Runtime
process_input_update_sampled platform runtime id endpoint update sample clock =
    after_root platform runtime
      (process_input_update_sampled_single platform runtime id endpoint update sample
        (root_probe clock))
      sample clock
