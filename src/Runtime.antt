-- ===== src/Runtime.antt =====
-- crates/logiksmith-core/src/runtime_model.rs, runtime_impl.rs and blocks.rs: the runtime of several
-- blocks and the signals between them.
pub mod Input
pub mod Signals
pub mod Propagate
pub mod Bounds
pub mod Fuel
pub mod Cascades
pub mod Rollback
pub mod Activation
pub mod DueTimers
pub mod Schedules
use logik_smith.Prelude.{
  ℕ, ◌+◌, ◌^◌, ◌-◌, Bool, true, false, Option, none, some, List, [], ◌∷◌, ◌&&◌, ltb, leb, min,
  length, sum_by, find, get_elem?, position, set, if◌then◌else◌,
}
use logik_smith.Prelude.Order.{list_ord, nat_ord, same}
use logik_smith.Prelude.Result.{Result, ok, err, ◌>>=◌, ◌>>◌, reject, ok_or}
use logik_smith.Prelude.Int.{ℤ}
use logik_smith.BTreeMap.{BTreeMap, len}
use logik_smith.Text.{byte_len}
use logik_smith.Identifiers.{BlockId, EndpointName, SignalName}
use logik_smith.Limits.{RuntimeLimits}
use logik_smith.Values.{Dpt, TypedValue, MonotonicMs}
use logik_smith.Program.{EventError, panicked}
use logik_smith.State.{TransientState, string_bytes}
use logik_smith.Execution.{
  Execution, ExecutionId, SignalEndpointId, SiteTimeConfig, TimeSample, set_runtime_metadata,
}
use logik_smith.Schedules.{ScheduleName, ScheduleCursor}
use logik_smith.Lua.{Probe}
use logik_smith.Block.{LogicBlock, is_active, reset_health, resume_health}

pub record SignalConfig : Type 0 where
  pub name : SignalName
  pub dpt : Dpt

pub record SignalState : Type 0 where
  pub config : SignalConfig
  pub value : Option TypedValue
  pub observed_at : Option MonotonicMs
  pub changed_at : Option MonotonicMs
  pub producer : Option SignalEndpointId
  pub producing_execution : Option ExecutionId
  pub consumers : List SignalEndpointId

pub record Runtime : Type 0 where
  pub limits : RuntimeLimits
  pub blocks : List LogicBlock
  pub signals : List SignalState
  pub signal_indexes : BTreeMap SignalName ℕ
  pub last_accepted_at : Option MonotonicMs
  pub next_execution_id : ExecutionId
  pub site : SiteTimeConfig
  pub schedule_cursors : BTreeMap (BlockId × ScheduleName) ScheduleCursor
  pub schedule_structural_revision : Option ℕ
  pub last_schedule_wall_clock_utc_ms : Option ℤ

pub record BlockExecution : Type 0 where
  pub block_id : BlockId
  pub execution : Execution

pub record ClockSample : Type 0 where
  pub monotonic_ms : MonotonicMs
  pub utc_unix_ms : Option ℤ

-- The readings of the host's elapsed-time probe: those of the handler of the execution at an index,
-- and the one before the outputs of that execution are propagated.
pub record BudgetClock : Type 0 where
  pub handler : ℕ → Probe
  pub check : ℕ → ℕ

pub data Resource : Type 0 where
  logic_source state_memory pending_timer_slots : Resource

-- `out_of_fuel` is no constructor of the source: it marks a cascade cut short by the model.
pub data RuntimeEventError : Type 0 where
  unknown_block : BlockId → RuntimeEventError
  in_block : BlockId → EventError → RuntimeEventError
  time_went_backwards : Option BlockId → (previous current : MonotonicMs) → RuntimeEventError
  cascade_limit : (actual maximum : ℕ) → RuntimeEventError
  resource_limit : Resource → (actual maximum : ℕ) → RuntimeEventError
  cascade_time_limit : (elapsed_ms maximum_ms : ℕ) → RuntimeEventError
  out_of_fuel : RuntimeEventError

-- `block_index`
unfoldable pub block_index : Runtime → BlockId → Result RuntimeEventError ℕ
block_index runtime id =
    ok_or (position (λ block. same block.config.id id) runtime.blocks) (unknown_block id)

-- `block`
unfoldable pub block_of : Runtime → BlockId → Option LogicBlock
block_of runtime id = find (λ block. same block.config.id id) runtime.blocks

-- `self.blocks[index] = ..`
unfoldable pub set_block : Runtime → ℕ → LogicBlock → Runtime
set_block runtime index block = record runtime { blocks = set runtime.blocks index block }

-- The block at an index that `position` found; the other branch is the panic of the indexing.
unfoldable pub nth_block : Runtime → BlockId → ℕ → Result RuntimeEventError LogicBlock
nth_block runtime id index = ok_or (get_elem? runtime.blocks index) (in_block id panicked)

unfoldable pub check_order :
    Option MonotonicMs → Option BlockId → MonotonicMs → Result RuntimeEventError (Unit {0})
check_order none id now = ok tt
check_order (some previous) id now =
    if ltb now previous then err (time_went_backwards id previous now) else ok tt

-- `ensure_time`
unfoldable pub ensure_time :
    Runtime → Option BlockId → MonotonicMs → Result RuntimeEventError (Unit {0})
unfolding check_order
ensure_time runtime id now = check_order runtime.last_accepted_at id now

-- The sums of `usage` that `validate_usage` reads.
unfoldable pub logic_source_bytes : Runtime → ℕ
logic_source_bytes runtime = sum_by (λ block. byte_len block.config.logic.source) runtime.blocks

unfoldable pub state_bytes : Runtime → ℕ
state_bytes runtime =
    sum_by (λ block. sum_by (λ e. byte_len e.0 + string_bytes e.1) block.engine.state)
      runtime.blocks

unfoldable pub pending_timers : Runtime → ℕ
pending_timers runtime = sum_by (λ block. len block.engine.pending_timers) runtime.blocks

unfoldable pub validate_usage : Runtime → Result RuntimeEventError (Unit {0})
validate_usage runtime = do
  reject (ltb runtime.limits.max_logic_source_bytes_total (logic_source_bytes runtime)) (
      resource_limit logic_source (logic_source_bytes runtime)
        runtime.limits.max_logic_source_bytes_total)
  reject (ltb runtime.limits.max_state_bytes_total (state_bytes runtime))
      (resource_limit state_memory (state_bytes runtime) runtime.limits.max_state_bytes_total)
  reject (ltb runtime.limits.max_pending_timers_total (pending_timers runtime)) (
      resource_limit pending_timer_slots (pending_timers runtime)
        runtime.limits.max_pending_timers_total)

-- `check_cascade_budget`, on the reading of the probe
unfoldable pub check_cascade_budget : Runtime → ℕ → Result RuntimeEventError (Unit {0})
check_cascade_budget runtime elapsed_ms = elim runtime.limits.signal_cascade_time_budget_ms [
  | none ↦ ok tt
  | some maximum_ms ↦
      if leb maximum_ms elapsed_ms then err (cascade_time_limit elapsed_ms maximum_ms) else ok tt
]

-- `assign_execution_id`, of 64 bits
unfoldable pub assign_execution_id : Runtime → Execution → Option ExecutionId → Execution × Runtime
assign_execution_id runtime execution causal_producer = (
  set_runtime_metadata execution runtime.next_execution_id causal_producer,
  record runtime { next_execution_id = min (runtime.next_execution_id + 1) (2 ^ 64 - 1) },
)

-- `resume_block`
unfoldable pub resume_block : Runtime → BlockId → Result RuntimeEventError (Unit {0}) × Runtime
unfolding resume_health
resume_block runtime id =
    elim (block_index runtime id >>= λ index.
    nth_block runtime id index >>= λ block. ok (set_block runtime index (resume_health block))) [
      | err e ↦ (err e, runtime)
      | ok resumed ↦ (ok tt, resumed)
    ]
