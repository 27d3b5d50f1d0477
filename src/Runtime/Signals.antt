-- ===== src/Runtime/Signals.antt =====
-- crates/logiksmith-core/src/runtime_signals.rs: the value that one output gives its signal, and its
-- delivery to consumers that do not run.
use logik_smith.Prelude.{
  ℕ, Bool, false, Option, none, some, List, [], ◌∷◌, ◌++◌, ◌&&◌, not, keep, find, position,
  get_elem?, if◌then◌else◌,
}
use logik_smith.Prelude.Order.{list_ord, nat_ord, same}
use logik_smith.Prelude.Result.{Result, ok, err, and_then}
use logik_smith.Identifiers.{BlockId, EndpointName, SignalName}
use logik_smith.Values.{TypedValue, option_typed_eq, MonotonicMs}
use logik_smith.Program.{panicked}
use logik_smith.Execution.{
  ExecutionId, SignalEffect, SignalEndpointId, set_signal_metadata, default_site,
}
use logik_smith.Lua.{Platform}
use logik_smith.Engine.Updates.{observe_input}
use logik_smith.Block.{LogicBlock, is_active}
use logik_smith.Runtime.{
  Runtime, SignalState, BlockExecution, RuntimeEventError, in_block, block_of, set_block,
}

-- The runtime and the executions of a cascade so far.
pub record Cascade : Type 0 where
  pub runtime : Runtime
  pub executions : List BlockExecution

-- The signal that an output of a block is bound to, if any.
unfoldable pub bound_signal : LogicBlock → EndpointName → Option SignalName
bound_signal block endpoint =
    elim (find (λ binding. same binding.endpoint endpoint) block.config.signal_bindings) [
      | none ↦ none
      | some binding ↦ some binding.signal
    ]

-- `signal.value != Some(output.value)`
unfoldable pub is_change : SignalState → TypedValue → Bool
is_change signal value = not (option_typed_eq signal.value (some value))

-- The write of a published value.
unfoldable pub publish : SignalState → TypedValue → MonotonicMs → Option ExecutionId → SignalState
publish signal value now execution_id = record signal {
  value = some value;
  observed_at = some now;
  changed_at = if is_change signal value then some now else signal.changed_at;
  producing_execution = execution_id;
}

-- A consumer whose block is enabled and active.
unfoldable pub is_eligible : Runtime → SignalEndpointId → Bool
is_eligible runtime consumer = elim (block_of runtime consumer.block_id) [
  | none ↦ false
  | some block ↦ block.config.enabled && is_active block.health
]

-- The entries that a published value adds to its execution.
unfoldable pub annotate :
    Runtime → BlockExecution → SignalEffect → Bool → List SignalEndpointId → BlockExecution
annotate runtime execution effect changed consumers = record execution {
  execution =
      set_signal_metadata execution.execution (execution.execution.signal_effects ++ effect ∷ []) (
        execution.execution.eligible_consumers
        ++ (if changed then keep (is_eligible runtime) consumers else []));
}

-- The index of a block by its ID.
unfoldable pub find_block : Runtime → BlockId → Option ℕ
find_block runtime id = position (λ block. same block.config.id id) runtime.blocks

-- One passive delivery; an error keeps what the engine wrote.
unfoldable pub observe_consumer :
    Platform
    → Runtime
    → ℕ
    → LogicBlock
    → SignalEndpointId
    → TypedValue
    → MonotonicMs
    → Result RuntimeEventError (Unit {0}) × Runtime
observe_consumer platform runtime index block consumer value now =
    let (result, engine') =
      observe_input platform block.engine consumer.endpoint value now
        (record { site = default_site; utc_unix_ms = none }) in
    let after = set_block runtime index (record block { engine = engine' }) in
    elim result [ err e ↦ (err (in_block consumer.block_id e), after) | ok _ ↦ (ok tt, after) ]

-- The loop over the consumers of an unchanged value.
unfoldable pub observe_consumers :
    Platform
    → MonotonicMs
    → TypedValue
    → List SignalEndpointId
    → Runtime
    → Result RuntimeEventError (Unit {0}) × Runtime
observe_consumers platform now value [] runtime = (ok tt, runtime)
observe_consumers platform now value (consumer ∷ rest) runtime =
    elim (find_block runtime consumer.block_id) [
      | none ↦ observe_consumers platform now value rest runtime
      | some index ↦ elim (get_elem? runtime.blocks index) [
        | none ↦ (err (in_block consumer.block_id panicked), runtime)
        | some block ↦
            and_then (observe_consumer platform runtime index block consumer value now)
              (λ after. observe_consumers platform now value rest after)
      ]
    ]
