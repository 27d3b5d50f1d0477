-- ===== src/Engine/Updates.antt =====
-- crates/logiksmith-core/src/engine_input_updates.rs: observing, triggering and invalidating an input.
use logik_smith.Prelude.{ℕ, Option, none, some, set, get_elem?}
use logik_smith.Prelude.Result.{Result, ok, err, map_ok}
use logik_smith.Identifiers.{EndpointName}
use logik_smith.Values.{
  TypedValue, InputUpdate, observe, trigger, invalidate, InputEvent, MonotonicMs,
}
use logik_smith.Program.{EventError, panicked}
use logik_smith.Execution.{by_input, input_trigger, Execution, TimeSample}
use logik_smith.Lua.{Platform, Probe}
use logik_smith.Engine.{Engine, InputState, unknown, validate_endpoint, validate_input, accept_time}
use logik_smith.Engine.Run.{run_handler}

-- `self.inputs[index] = ..`
unfoldable pub set_input : Engine → ℕ → InputState → Engine
set_input engine index input = record engine { inputs = set engine.inputs index input }

-- `self.inputs[index].value`
unfoldable pub input_value : Engine → ℕ → Option TypedValue
input_value engine index = elim (get_elem? engine.inputs index) [
  | none ↦ none
  | some input ↦ input.value
]

-- The validation at the head of the method.
unfoldable pub update_index : Engine → EndpointName → InputUpdate → Result EventError ℕ
update_index engine endpoint (observe value) = validate_input engine endpoint value
update_index engine endpoint (trigger value) = validate_input engine endpoint value
update_index engine endpoint invalidate = validate_endpoint engine endpoint

known : TypedValue → MonotonicMs → InputState
known value now = record { value = some value; observed_at = some now }

-- The match on the update, at an accepted time.
unfoldable pub apply_update :
    Platform
    → Engine
    → ℕ
    → EndpointName
    → InputUpdate
    → MonotonicMs
    → TimeSample
    → Option Probe
    → Result EventError (Option Execution) × Engine
unfolding known
apply_update platform engine index endpoint (observe value) now time probe =
    (ok none, set_input engine index (known value now))
apply_update platform engine index endpoint invalidate now time probe =
    (ok none, set_input engine index unknown)
apply_update platform engine index endpoint (trigger value) now time probe =
    let previous = input_value engine index in
    let (result, engine') =
      run_handler platform (set_input engine index (known value now))
        (by_input (input_trigger endpoint value previous)) now time probe in
    (map_ok some result, engine')

-- `process_input_update_with_context`
unfoldable pub process_input_update :
    Platform
    → Engine
    → EndpointName
    → InputUpdate
    → MonotonicMs
    → TimeSample
    → Option Probe
    → Result EventError (Option Execution) × Engine
process_input_update platform engine endpoint update now time probe =
    elim (update_index engine endpoint update) [
      | err e ↦ (err e, engine)
      | ok index ↦ elim (accept_time engine now) [
        | err e ↦ (err e, engine)
        | ok accepted ↦ apply_update platform accepted index endpoint update now time probe
      ]
    ]

-- `observe_input`
unfoldable pub observe_input :
    Platform
    → Engine
    → EndpointName
    → TypedValue
    → MonotonicMs
    → TimeSample
    → Result EventError (Unit {0}) × Engine
observe_input platform engine endpoint value now time =
    let (result, engine') =
      process_input_update platform engine endpoint (observe value) now time none in
    (map_ok (λ _. tt) result, engine')

-- `map(|execution| execution.expect(..))`
expect_execution : Result EventError (Option Execution) → Result EventError Execution
expect_execution (ok (some execution)) = ok execution
expect_execution (ok none) = err panicked
expect_execution (err e) = err e

-- `process_input` and its sampled and probed variants
unfoldable pub process_input :
    Platform
    → Engine
    → InputEvent
    → MonotonicMs
    → TimeSample
    → Option Probe
    → Result EventError Execution × Engine
unfolding expect_execution
process_input platform engine event now time probe =
    let (result, engine') =
      process_input_update platform engine event.endpoint (trigger event.value) now time probe in
    (expect_execution result, engine')
