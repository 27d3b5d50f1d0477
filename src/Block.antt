-- ===== src/Block.antt =====
-- crates/logiksmith-core/src/runtime_model.rs, block_health.rs and blocks.rs: one logic block, its
-- health, and the admission of its live executions.
pub mod Health
pub mod Window
use logik_smith.Prelude.{
  ℕ, ◌+◌, ◌-◌, ◌^◌, Bool, true, false, Option, none, some, List, [], ◌∷◌, ◌++◌, leb, not, min, keep,
  length, if◌then◌else◌,
}
use logik_smith.Prelude.Result.{Result, ok, err}
use logik_smith.Identifiers.{BlockId, EndpointName, SignalName}
use logik_smith.Values.{Endpoint, MonotonicMs}
use logik_smith.Program.{
  LogicProgram, LogicError, LogicErrorKind, kind, syntax, load, runtime, instruction_limit,
  memory_limit, handler_time_limit, invalid_result,
}
use logik_smith.Execution.{Execution, Transition}
use logik_smith.Schedules.{BlockSchedule}
use logik_smith.Engine.{Engine}

pub data BlockHealth : Type 0 where
  disabled active suspended_script_failures suspended_event_rate : BlockHealth

pub data BlockSuspension : Type 0 where
  script_failures event_rate : BlockSuspension

pub record SignalBinding : Type 0 where
  pub endpoint : EndpointName
  pub signal : SignalName

pub record BlockConfig : Type 0 where
  pub id : BlockId
  pub enabled : Bool
  pub endpoints : List Endpoint
  pub logic : LogicProgram
  pub schedules : List BlockSchedule
  pub signal_bindings : List SignalBinding

-- `live_execution_times` is oldest first.
pub record LogicBlock : Type 0 where
  pub config : BlockConfig
  pub engine : Engine
  pub health : BlockHealth
  pub consecutive_failures : ℕ
  pub live_execution_times : List MonotonicMs
  pub last_suspension : Option BlockSuspension

-- `BLOCK_FAILURE_SUSPENSION_THRESHOLD`
abbrev pub block_failure_suspension_threshold : ℕ
block_failure_suspension_threshold = 5

-- `health() == BlockHealth::Active`
unfoldable pub is_active : BlockHealth → Bool
is_active active = true
is_active disabled = false
is_active suspended_script_failures = false
is_active suspended_event_rate = false

-- `self.engine.pending_timers.clear()`
abbrev pub clear_timers : Engine → Engine
clear_timers engine = record engine { pending_timers = [] }

-- `prune_live_execution_window`, on the queue of start times
unfoldable pub prune : MonotonicMs → List MonotonicMs → List MonotonicMs
prune now [] = []
prune now (started ∷ rest) = if leb 1000 (now - started) then prune now rest else started ∷ rest

unfoldable pub prune_live_execution_window : LogicBlock → MonotonicMs → LogicBlock
prune_live_execution_window block now = record block {
  live_execution_times = prune now block.live_execution_times;
}

-- The part of `snapshot_at` that counts the executions of the last second.
unfoldable pub live_executions_in_window : LogicBlock → MonotonicMs → ℕ
live_executions_in_window block now =
    length (keep (λ started. not (leb 1000 (now - started))) block.live_execution_times)

-- The branch on the pruned window.
unfoldable pub admit_pruned : LogicBlock → MonotonicMs → ℕ → Bool × LogicBlock
admit_pruned block now maximum =
    if leb maximum (length block.live_execution_times)
    then (
      false,
      record block {
        health = suspended_event_rate;
        last_suspension = some event_rate;
        consecutive_failures = 0;
        engine = clear_timers block.engine;
      },
    )
    else (true, record block { live_execution_times = block.live_execution_times ++ now ∷ [] })

unfoldable pub admit_live_execution : LogicBlock → MonotonicMs → ℕ → Bool × LogicBlock
admit_live_execution block now maximum =
    if not (is_active block.health)
    then (false, block)
    else admit_pruned (prune_live_execution_window block now) now maximum

-- The kinds of error that count towards suspension.
unfoldable pub counts : LogicErrorKind → Bool
counts syntax = false
counts load = false
counts runtime = true
counts instruction_limit = true
counts memory_limit = true
counts handler_time_limit = true
counts invalid_result = true

-- `consecutive_failures.saturating_add(1)`, of 32 bits
abbrev pub count_failure : ℕ → ℕ
count_failure failures = min (failures + 1) (2 ^ 32 - 1)

record_failure : LogicBlock → LogicBlock
record_failure block =
    let counted = count_failure block.consecutive_failures in
    if leb block_failure_suspension_threshold counted
    then record block {
      consecutive_failures = counted;
      health = suspended_script_failures;
      last_suspension = some script_failures;
      live_execution_times = [];
      engine = clear_timers block.engine;
    }
    else record block { consecutive_failures = counted }

-- `record_live_execution`, on the outcome of the execution
unfoldable pub record_outcome : LogicBlock → Result LogicError Transition → LogicBlock
unfolding record_failure
record_outcome block (ok transition) = record block { consecutive_failures = 0 }
record_outcome block (err error) = if counts (kind error) then record_failure block else block

unfoldable pub record_live_execution : LogicBlock → Execution → LogicBlock
record_live_execution block execution = record_outcome block execution.outcome

unfoldable pub reset_health : LogicBlock → LogicBlock
reset_health block = record block {
  health = if block.config.enabled then active else disabled;
  consecutive_failures = 0;
  live_execution_times = [];
  last_suspension = none;
}

unfoldable pub set_enabled : LogicBlock → Bool → LogicBlock
unfolding reset_health
set_enabled block enabled = reset_health (record block {
  config = record block.config { enabled = enabled };
  engine = if enabled then block.engine else clear_timers block.engine;
})

unfoldable pub resume_health : LogicBlock → LogicBlock
resume_health block = reset_health block
