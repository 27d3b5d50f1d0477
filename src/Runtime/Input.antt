-- ===== src/Runtime/Input.antt =====
-- crates/logiksmith-core/src/runtime_input_updates.rs: one update of one block's input, without its
-- cascade.
use logik_smith.Prelude.{ℕ, Bool, true, false, Option, none, some, not, ◌||◌, if◌then◌else◌}
use logik_smith.Prelude.Result.{Result, ok, err, ◌>>=◌, ◌>>◌, map_err}
use logik_smith.Identifiers.{BlockId, EndpointName}
use logik_smith.Values.{InputUpdate, observe, trigger, invalidate, MonotonicMs}
use logik_smith.Program.{EventError}
use logik_smith.Execution.{Execution}
use logik_smith.Lua.{Platform, Probe}
use logik_smith.Engine.Updates.{update_index, process_input_update}
use logik_smith.Block.{LogicBlock, is_active, admit_live_execution, record_live_execution}
use logik_smith.Runtime.{
  Runtime, BlockExecution, ClockSample, RuntimeEventError, in_block, block_index, nth_block,
  set_block, ensure_time, assign_execution_id,
}

-- A trigger that is not admitted is an observation.
unfoldable pub admit_update : ℕ → LogicBlock → InputUpdate → MonotonicMs → InputUpdate × LogicBlock
admit_update maximum block (observe value) now = (observe value, block)
admit_update maximum block invalidate now = (invalidate, block)
admit_update maximum block (trigger value) now =
    let (admitted, block') = admit_live_execution block now maximum in
    if not block.config.enabled || not (is_active block.health)
    then (observe value, block)
    else if admitted
    then (trigger value, block')
    else (observe value, block')

unfoldable pub is_live : InputUpdate → Bool
is_live (observe value) = false
is_live (trigger value) = true
is_live invalidate = false

-- The end of the method, after the engine has returned.
unfoldable pub finish :
    Runtime
    → ℕ
    → BlockId
    → Bool
    → LogicBlock
    → Result EventError (Option Execution)
    → MonotonicMs
    → Result RuntimeEventError (Option BlockExecution) × Runtime
finish runtime index id live block (err e) now =
    (err (in_block id e), set_block runtime index block)
finish runtime index id live block (ok none) now =
    (ok none, record (set_block runtime index block) { last_accepted_at = some now })
finish runtime index id live block (ok (some execution)) now =
    let recorded = if live then record_live_execution block execution else block in
    let (numbered, after) =
      assign_execution_id
        (record (set_block runtime index recorded) { last_accepted_at = some now }) execution
        none in
    (ok (some (record { block_id = id; execution = numbered })), after)

-- The checks at the head of the method: the index of the block, and the block.
unfoldable pub check_update :
    Runtime
    → BlockId
    → EndpointName
    → InputUpdate
    → MonotonicMs
    → Result RuntimeEventError (ℕ × LogicBlock)
check_update runtime id endpoint update now = do
  index ← block_index runtime id
  block ← nth_block runtime id index
  checked ← map_err (in_block id) (update_index block.engine endpoint update)
  ensure_time runtime (some id) now
  ok (index, block)

-- The live part of the method, on a block that passed the checks.
unfoldable pub deliver :
    Platform
    → Runtime
    → ℕ
    → LogicBlock
    → BlockId
    → EndpointName
    → InputUpdate
    → ClockSample
    → Option Probe
    → Result RuntimeEventError (Option BlockExecution) × Runtime
deliver platform runtime index block id endpoint update sample probe =
    let now = sample.monotonic_ms in
    let (update', block') =
      admit_update runtime.limits.max_live_executions_per_block_per_second block update now in
    let (result, engine') =
      process_input_update platform block'.engine endpoint update' now
        (record { site = runtime.site; utc_unix_ms = sample.utc_unix_ms }) probe in
    finish runtime index id (is_live update') (record block' { engine = engine' }) result now

-- `process_input_update_sampled_single`
unfoldable pub process_input_update_sampled_single :
    Platform
    → Runtime
    → BlockId
    → EndpointName
    → InputUpdate
    → ClockSample
    → Option Probe
    → Result RuntimeEventError (Option BlockExecution) × Runtime
process_input_update_sampled_single platform runtime id endpoint update sample probe =
    elim (check_update runtime id endpoint update sample.monotonic_ms) [
      | err e ↦ (err e, runtime)
      | ok (index, block) ↦ deliver platform runtime index block id endpoint update sample probe
    ]
