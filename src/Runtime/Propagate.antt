-- ===== src/Runtime/Propagate.antt =====
-- crates/logiksmith-core/src/runtime_signals.rs: `propagate_from_execution`. An error keeps the
-- runtime and the executions that it was met with.
use logik_smith.Prelude.{
  ℕ, zero, suc, ◌+◌, Bool, true, false, Option, none, some, List, [], ◌∷◌, ◌++◌, ◌||◌, not, leb,
  length, any, get_elem?, set, if◌then◌else◌,
}
use logik_smith.Prelude.Order.{list_ord, nat_ord, same}
use logik_smith.Prelude.Result.{Result, ok, err, and_then}
use logik_smith.BTreeMap.{get}
use logik_smith.Identifiers.{BlockId, SignalName}
use logik_smith.Values.{TypedValue, OutputEffect, MonotonicMs}
use logik_smith.Program.{panicked}
use logik_smith.Execution.{
  Execution, ExecutionId, SignalEffect, SignalEndpointId, default_site, TimeSample,
}
use logik_smith.Lua.{Platform, Probe}
use logik_smith.Engine.Updates.{process_input}
use logik_smith.Block.{LogicBlock, is_active, admit_live_execution, record_live_execution}
use logik_smith.Runtime.{
  Runtime, SignalState, BlockExecution, ClockSample, BudgetClock, RuntimeEventError, in_block,
  cascade_limit, out_of_fuel, set_block, block_of, check_cascade_budget, assign_execution_id,
}
use logik_smith.Runtime.Signals.{
  Cascade, bound_signal, is_change, publish, annotate, find_block, observe_consumer,
  observe_consumers,
}

abbrev pub Outcome : Type 0
Outcome = Result RuntimeEventError (Unit {0}) × Cascade

-- The probe of a child's handler. Without a wall clock the child runs by `process_input`, which takes
-- neither the probe nor the runtime's site.
unfoldable pub child_probe : ClockSample → Option BudgetClock → ℕ → Option Probe
child_probe sample none index = none
child_probe sample (some clock) index = elim sample.utc_unix_ms [
  | none ↦ none
  | some utc ↦ some (clock.handler index)
]

unfoldable pub child_time : Runtime → ClockSample → TimeSample
child_time runtime sample = elim sample.utc_unix_ms [
  | none ↦ record { site = default_site; utc_unix_ms = none }
  | some utc ↦ record { site = runtime.site; utc_unix_ms = some utc }
]

-- A child that has run: its block and its execution are recorded.
unfoldable pub push_child :
    Cascade → ℕ → LogicBlock → BlockId → Execution → Option ExecutionId → MonotonicMs → Cascade
push_child cascade index block id execution cause now =
    let (numbered, after) =
      assign_execution_id
        (record (set_block cascade.runtime index (record_live_execution block execution)) {
          last_accepted_at = some now;
        })
        execution cause in
    record {
      runtime = after;
      executions = cascade.executions ++ record { block_id = id; execution = numbered } ∷ [];
    }

module _ (platform : Platform) (sample : ClockSample) (clock : Option BudgetClock)
    (recurse : ℕ → Cascade → Outcome) (cause : Option ExecutionId) (value : TypedValue) where
  -- An admitted consumer: its handler runs, and its own outputs are propagated.
  unfoldable pub run_child : Cascade → ℕ → LogicBlock → SignalEndpointId → Outcome
  run_child cascade index block consumer =
      let child_index = length cascade.executions in
      let (result, engine') =
        process_input platform block.engine (record { endpoint = consumer.endpoint; value = value })
          sample.monotonic_ms (child_time cascade.runtime sample)
          (child_probe sample clock child_index) in
      let ran = record block { engine = engine' } in
      elim result [
        | err e ↦ (
          err (in_block consumer.block_id e),
          record cascade { runtime = set_block cascade.runtime index ran },
        )
        | ok execution ↦
            recurse child_index
              (push_child cascade index ran consumer.block_id execution cause sample.monotonic_ms)
      ]

  -- A delivery without a run: the value is observed.
  unfoldable pub observe_child : Cascade → ℕ → LogicBlock → SignalEndpointId → Outcome
  observe_child cascade index block consumer =
      let (result, after) =
        observe_consumer platform cascade.runtime index block consumer value sample.monotonic_ms in
      (result, record cascade { runtime = after })

  -- One consumer of a changed value. The limit is compared before the admission.
  unfoldable pub deliver_child : Cascade → ℕ → LogicBlock → SignalEndpointId → Outcome
  deliver_child cascade index block consumer =
      let maximum = cascade.runtime.limits.max_cascade_executions in
      let (admitted, block') =
        admit_live_execution block sample.monotonic_ms
          cascade.runtime.limits.max_live_executions_per_block_per_second in
      if not (any (λ endpoint. same endpoint.name consumer.endpoint) block.config.endpoints)
      then (err (in_block consumer.block_id panicked), cascade)
      else if not block.config.enabled || not (is_active block.health)
      then observe_child cascade index block consumer
      else if leb maximum (length cascade.executions)
      then (err (cascade_limit (length cascade.executions + 1) maximum), cascade)
      else if admitted
      then run_child cascade index block' consumer
      else observe_child cascade index block' consumer

  unfoldable pub deliver_children : List SignalEndpointId → Cascade → Outcome
  deliver_children [] cascade = (ok tt, cascade)
  deliver_children (consumer ∷ rest) cascade = elim (find_block cascade.runtime consumer.block_id) [
    | none ↦ deliver_children rest cascade
    | some index ↦ elim (get_elem? cascade.runtime.blocks index) [
      | none ↦ (err (in_block consumer.block_id panicked), cascade)
      | some block ↦
          and_then (deliver_child cascade index block consumer)
            (λ after. deliver_children rest after)
    ]
  ]

-- The writes of one output: its signal, and the entries in the execution that it belongs to.
unfoldable pub published_by :
    Cascade
    → ℕ
    → BlockExecution
    → SignalName
    → ℕ
    → SignalState
    → OutputEffect
    → MonotonicMs
    → Cascade
published_by cascade index parent name signal_index signal output now =
    let cause = parent.execution.id in
    let changed = is_change signal output.value in
    let effect : SignalEffect = record {
      signal = name;
      value = output.value;
      changed = changed;
      producer = record { block_id = parent.block_id; endpoint = output.endpoint };
      producing_execution = cause;
      consumers = signal.consumers;
    } in
    let written = record cascade.runtime {
      signals = set cascade.runtime.signals signal_index (publish signal output.value now cause);
    } in
    record {
      runtime = written;
      executions =
          set cascade.executions index (annotate written parent effect changed signal.consumers);
    }

module _ (platform : Platform) (sample : ClockSample) (clock : Option BudgetClock)
    (recurse : ℕ → Cascade → Outcome) where
  -- The deliveries of a published value, changed or not.
  unfoldable pub announce :
      Bool → Option ExecutionId → TypedValue → List SignalEndpointId → Cascade → Outcome
  announce true cause value consumers cascade =
      deliver_children platform sample clock recurse cause value consumers cascade
  announce false cause value consumers cascade =
      let (result, after) =
        observe_consumers platform sample.monotonic_ms value consumers cascade.runtime in
      (result, record cascade { runtime = after })

  unfoldable pub publish_output :
      Cascade → ℕ → BlockExecution → SignalName → ℕ → SignalState → OutputEffect → Outcome
  publish_output cascade index parent name signal_index signal output =
      announce (is_change signal output.value) parent.execution.id output.value signal.consumers
        (published_by cascade index parent name signal_index signal output sample.monotonic_ms)

  -- An output that is bound to no signal is skipped.
  unfoldable pub propagate_output : ℕ → OutputEffect → Cascade → Outcome
  propagate_output index output cascade = elim (get_elem? cascade.executions index) [
    | none ↦ (err (in_block [] panicked), cascade)
    | some parent ↦ elim (block_of cascade.runtime parent.block_id) [
      | none ↦ (err (in_block parent.block_id panicked), cascade)
      | some block ↦ elim (bound_signal block output.endpoint) [
        | none ↦ (ok tt, cascade)
        | some name ↦ elim (get name cascade.runtime.signal_indexes) [
          | none ↦ (ok tt, cascade)
          | some signal_index ↦ elim (get_elem? cascade.runtime.signals signal_index) [
            | none ↦ (err (in_block parent.block_id panicked), cascade)
            | some signal ↦ publish_output cascade index parent name signal_index signal output
          ]
        ]
      ]
    ]
  ]

  unfoldable pub propagate_outputs : ℕ → List OutputEffect → Cascade → Outcome
  propagate_outputs index [] cascade = (ok tt, cascade)
  propagate_outputs index (output ∷ rest) cascade =
      and_then (propagate_output index output cascade) (λ after. propagate_outputs index rest after)

-- The outputs of an execution; a failed one has none.
unfoldable pub outputs_of : BlockExecution → List OutputEffect
outputs_of execution = elim execution.execution.outcome [
  | ok transition ↦ transition.outputs
  | err e ↦ []
]

-- The check of the budget at the head of the method.
unfoldable pub check_clock : Runtime → Option BudgetClock → ℕ → Result RuntimeEventError (Unit {0})
check_clock runtime none index = ok tt
check_clock runtime (some clock) index = check_cascade_budget runtime (clock.check index)

-- `propagate_from_execution`, on fuel for its depth
unfoldable pub propagate_from_execution :
    Platform → ClockSample → Option BudgetClock → ℕ → ℕ → Cascade → Outcome
propagate_from_execution platform sample clock zero index cascade = (err out_of_fuel, cascade)
propagate_from_execution platform sample clock (suc fuel) index cascade =
    let recurse = propagate_from_execution platform sample clock fuel in
    elim (check_clock cascade.runtime clock index) [
      | err e ↦ (err e, cascade)
      | ok _ ↦ elim (get_elem? cascade.executions index) [
        | none ↦ (err (in_block [] panicked), cascade)
        | some execution ↦
            propagate_outputs platform sample clock recurse index (outputs_of execution) cascade
      ]
    ]
