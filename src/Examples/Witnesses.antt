-- ===== src/Examples/Witnesses.antt =====
-- The theorems of the development at concrete inputs.
use logik_smith.Prelude.{
  ◌≤◌, ◌≡◌, ◌↔◌, refl, true, false, none, some, List, [], ◌∷◌, All, arith, ◌⊎◌,
}
use logik_smith.Prelude.Order.{list_ord, nat_ord}
use logik_smith.Prelude.Result.{ok, err}
use logik_smith.BTreeMap.{get, extend, insert}
use logik_smith.Text.{Text, byte_len}
use logik_smith.Identifiers.{validate_endpoint_name, validate_block_id}
use logik_smith.Identifiers.Grammar.{
  IsEndpointName, IsBlockId, validate_endpoint_name_iff, validate_block_id_iff,
}
use logik_smith.Values.{
  OutputEffect, is_bool, dpt_percent, percent, typed_bool, trigger, new_typed_value,
}
use logik_smith.Values.Typed.{Decides, new_typed_value_iff}
use logik_smith.Program.{failed, runtime, revision_for, two_results}
use logik_smith.State.{
  StateValue, validate_state_map_with_limits, merge_state_with_limits, validate_state_entry,
  total_bytes,
}
use logik_smith.State.Bounds.{IsValidState, validate_state_map_iff, merge_state_sound}
use logik_smith.Timer.{scheduled, apply_timer_effects}
use logik_smith.Timer.Effects.{
  decided, IsOfRevision, get-apply_timer_effects, apply_timer_effects-IsOfRevision,
}
use logik_smith.Prelude.Int.{pos}
use logik_smith.Engine.Run.{process_schedule_trigger}
use logik_smith.Engine.Scheduled.{process_schedule_trigger-Sound}
use logik_smith.Execution.{
  ScheduleTrigger, interval, Execution, InputTrigger, input_trigger, Transition, Trigger, by_input,
}
use logik_smith.Execution.Edges.{HasFlags, input_trigger_flags}
use logik_smith.Lua.Convert.{string_key, result_fields, convert_patch}
use logik_smith.Lua.Timers.{convert_timers}
use logik_smith.Lua.Execute.{
  execute_logic, check_source_size_with_limits, single_result, convert_result, convert_fields,
  optional_outputs, check_combined_effects,
}
use logik_smith.Lua.Execute.Contract.{IsAccepted, execute_logic-IsAccepted}
use logik_smith.Lua.{LuaTable, LuaValue, pair, end}
use logik_smith.Lua.Outputs.{convert_outputs, output_pairs, collect_outputs, lua_to_typed_value}
use logik_smith.Lua.Outputs.Typing.{IsOutputOf, convert_outputs-IsOutputOf}
use logik_smith.Engine.{Engine, accept_time, check_time, active_logic_revision}
use logik_smith.Engine.Invariant.{IsSafe}
use logik_smith.Engine.Handler.{Sound}
use logik_smith.Engine.Updates.{process_input_update}
use logik_smith.Engine.Safety.{process_input_update-Sound}
use logik_smith.Engine.DueTimers.{process_next_due_timer}
use logik_smith.Engine.Timed.{Idle, Fires, process_next_due_timer_lem, process_next_due_timer-Sound}
use logik_smith.Engine.Activate.{activate_source, replace_logic}
use logik_smith.Engine.Activation.{
  Activates, activate_source_lem, activate_source-IsSafe, replace_logic_lem,
}
use logik_smith.Block.{
  is_active, admit_live_execution, prune, record_outcome, set_enabled, reset_health,
}
use logik_smith.Block.Window.{Admits, admit_live_execution_lem, prune-eq-keep, recent}
use logik_smith.Block.Health.{
  Records, IsSteady, admit_live_execution-IsSteady, record_outcome-IsSteady, set_enabled-IsSteady,
  reset_health-IsSteady,
}
use logik_smith.Runtime.Signals.{Cascade}
use logik_smith.Runtime.Bounds.{Extends}
use logik_smith.Runtime.Propagate.{propagate_from_execution}
use logik_smith.Runtime.Fuel.{propagate_from_execution-Extends}
use logik_smith.Runtime.Cascades.{process_input_update_sampled}
use logik_smith.Runtime.Rollback.{IsTurn, process_input_update_sampled-IsTurn}
use logik_smith.Runtime.Activation.{BlockActivation, activate}
use logik_smith.Runtime.Activation.Batch.{activate-IsSteady}
use logik_smith.Runtime.Activation.Reports.{Activated, activate_lem}
use logik_smith.Runtime.DueTimers.{select_due_timer}
use logik_smith.Runtime.DueTimers.Earliest.{Selects, select_due_timer-Selects}
use logik_smith.Runtime.DueTimers.{process_next_due_timer_cascade}
use logik_smith.Runtime.DueTimers.Turn.{IsTimerTurn, process_next_due_timer_cascade-IsTimerTurn}
use logik_smith.Examples.{
  button, lamp, delay, desktop_limits, whole_floats, platform, endpoints, program, pending, engine,
  time, empty_state_valid, engine-IsSafe, block, block-IsSteady, feedback,
}

process_input_update_sampled-IsTurn_example : IsTurn feedback (
    process_input_update_sampled platform feedback
      (b'b' ∷ [])
      button
      (trigger (typed_bool true))
      (record { monotonic_ms = 20; utc_unix_ms = none })
      none)
process_input_update_sampled-IsTurn_example =
    process_input_update_sampled-IsTurn platform feedback (b'b' ∷ []) button
      (trigger (typed_bool true)) (record { monotonic_ms = 20; utc_unix_ms = none }) none
      (omega arith)

abbrev start : Cascade
start = record { runtime = feedback; executions = [] }

propagate_from_execution-Extends_example : Extends 256 0 (
    propagate_from_execution platform
      (record { monotonic_ms = 20; utc_unix_ms = none })
      none
      257
      0
      start)
propagate_from_execution-Extends_example =
    propagate_from_execution-Extends platform (record { monotonic_ms = 20; utc_unix_ms = none })
      none 256 257 0 start (record { limit = refl; bound = omega arith }) (omega arith)

process_input_update-Sound_example :
    Sound engine 20
      (process_input_update platform engine button (trigger (typed_bool true)) 20 time none)
process_input_update-Sound_example =
    process_input_update-Sound platform engine 20 time none button (trigger (typed_bool true))
      engine-IsSafe

abbrev accepted_engine : Engine
accepted_engine = record engine { last_accepted_at = some 200 }

accepts : accept_time engine 200 ≡ ok accepted_engine
unfolding accept_time check_time
accepts = refl

process_next_due_timer_lem_example :
    Idle accepted_engine 200 (process_next_due_timer platform engine 200 time none)
    ⊎ Fires platform accepted_engine 200 time none
        (process_next_due_timer platform engine 200 time none)
process_next_due_timer_lem_example =
    process_next_due_timer_lem platform engine 200 time none {accepted = accepted_engine}
      engine-IsSafe accepts

process_next_due_timer-Sound_example :
    Sound engine 200 (process_next_due_timer platform engine 200 time none)
process_next_due_timer-Sound_example =
    process_next_due_timer-Sound platform engine 200 time none engine-IsSafe

abbrev hourly : ScheduleTrigger
hourly = record {
  block_id = b'b' ∷ [];
  name = delay;
  kind = interval;
  scheduled_for_utc_ms = pos 0;
  detected_at_utc_ms = pos 0;
  coalesced_count = 0;
  structural_revision = 0;
}

process_schedule_trigger-Sound_example :
    Sound engine 200 (process_schedule_trigger platform engine hourly time 200 none)
    × ((execution : Execution) × ((process_schedule_trigger platform engine hourly time 200 none).0
          ≡ ok execution))
process_schedule_trigger-Sound_example =
    process_schedule_trigger-Sound platform engine hourly time 200 none engine-IsSafe

activate_source_lem_example :
    Activates platform engine (b'y' ∷ []) (activate_source platform engine (b'y' ∷ []))
activate_source_lem_example = activate_source_lem platform engine (b'y' ∷ [])

activate_source-IsSafe_example : IsSafe (activate_source platform engine (b'y' ∷ [])).1
activate_source-IsSafe_example = activate_source-IsSafe platform engine (b'y' ∷ []) engine-IsSafe

replace_logic_lem_example :
    ((x : _) × (replace_logic platform engine (b'y' ∷ []) 7 ≡ (err x, engine)))
    ⊎ (((replace_logic platform engine (b'y' ∷ []) 7).0 ≡ ok tt)
        × (7 ≡ revision_for (b'y' ∷ []))
        × (active_logic_revision (replace_logic platform engine (b'y' ∷ []) 7).1 ≡ 7))
replace_logic_lem_example = replace_logic_lem platform engine (b'y' ∷ []) 7

admit_live_execution_lem_example : Admits block 20 128 (admit_live_execution block 20 128)
admit_live_execution_lem_example =
    admit_live_execution_lem block 20 128 ((omega arith, tt), (tt, tt))

admit_live_execution-IsSteady_example : IsSteady 128 (admit_live_execution block 20 128).1
admit_live_execution-IsSteady_example =
    admit_live_execution-IsSteady 128 block 20 block-IsSteady (omega arith, (omega arith, tt))

record_outcome-IsSteady_example :
    IsSteady 128 (record_outcome block (err (failed runtime two_results none)))
    × Records block
        (err (failed runtime two_results none))
        (record_outcome block (err (failed runtime two_results none)))
unfolding is_active
record_outcome-IsSteady_example =
    record_outcome-IsSteady 128 block (err (failed runtime two_results none)) block-IsSteady refl

set_enabled-IsSteady_example :
    IsSteady 128 (set_enabled block false)
    × ((false ≡ true) ⊎ ((set_enabled block false).engine.pending_timers ≡ []))
set_enabled-IsSteady_example = set_enabled-IsSteady 128 block false block-IsSteady

reset_health-IsSteady_example :
    IsSteady 128 (reset_health block)
    × (is_active (reset_health block).health ≡ true)
    × ((reset_health block).consecutive_failures ≡ 0)
    × ((reset_health block).live_execution_times ≡ [])
    × ((reset_health block).last_suspension ≡ none)
    × ((reset_health block).config ≡ block.config)
    × ((reset_health block).engine ≡ block.engine)
reset_health-IsSteady_example = reset_health-IsSteady 128 block block-IsSteady

prune-eq-keep_example : prune 1007 (5 ∷ 9 ∷ []) ≡ recent 1007 (5 ∷ 9 ∷ [])
prune-eq-keep_example = prune-eq-keep 1007 (5 ∷ 9 ∷ []) ((omega arith, tt), (tt, tt))

get-apply_timer_effects_example :
    get delay
      (apply_timer_effects pending (record { name = delay; action = scheduled 5 25 } ∷ []) 20 7)
    ≡ decided delay (record { name = delay; action = scheduled 5 25 } ∷ []) 20 7 (get delay pending)
get-apply_timer_effects_example =
    get-apply_timer_effects delay pending (record { name = delay; action = scheduled 5 25 } ∷ []) 20
      7

apply_timer_effects-IsOfRevision_example :
    All
      (IsOfRevision 7)
      (apply_timer_effects pending (record { name = delay; action = scheduled 5 25 } ∷ []) 20 7)
apply_timer_effects-IsOfRevision_example =
    apply_timer_effects-IsOfRevision pending (record { name = delay; action = scheduled 5 25 } ∷ [])
      20 7 ((refl, refl), tt)

abbrev one_entry : List (Text × StateValue)
one_entry = (delay, StateValue.boolean true) ∷ []

validate_state_map_iff_example :
    (validate_state_map_with_limits one_entry desktop_limits ≡ ok tt)
    ↔ IsValidState desktop_limits one_entry
validate_state_map_iff_example = validate_state_map_iff one_entry desktop_limits (omega arith)

abbrev press : InputTrigger
press = input_trigger button (typed_bool true) (some (typed_bool false))

input_trigger_flags_example : HasFlags (typed_bool true) (some (typed_bool false)) press
input_trigger_flags_example = input_trigger_flags button (typed_bool true) (some (typed_bool false))

new_typed_value_iff_example :
    Decides dpt_percent (percent 101) (new_typed_value dpt_percent (percent 101))
new_typed_value_iff_example = new_typed_value_iff dpt_percent (percent 101)

validate_endpoint_name_iff_example :
    (validate_endpoint_name (b'a' ∷ b'.' ∷ []) ≡ ok tt) ↔ IsEndpointName (b'a' ∷ b'.' ∷ [])
validate_endpoint_name_iff_example = validate_endpoint_name_iff (b'a' ∷ b'.' ∷ [])

validate_block_id_iff_example :
    (validate_block_id (b'a' ∷ b'.' ∷ []) ≡ ok tt)
    ↔ (IsBlockId (b'a' ∷ b'.' ∷ []) × (byte_len (b'a' ∷ b'.' ∷ []) ≤ 64))
validate_block_id_iff_example = validate_block_id_iff (b'a' ∷ b'.' ∷ [])

abbrev pressed : Trigger
pressed = by_input (input_trigger button (typed_bool true) none)

abbrev lamp_table : LuaTable
lamp_table = pair (LuaValue.string lamp) (LuaValue.boolean true) end

abbrev lamp_effect : List OutputEffect
lamp_effect = record { endpoint = lamp; value = typed_bool true } ∷ []

converts : convert_outputs whole_floats endpoints lamp_table ≡ ok lamp_effect
unfolding convert_outputs output_pairs collect_outputs lua_to_typed_value string_key is_bool
    list_ord
converts = refl

convert_outputs-IsOutputOf_example : All (IsOutputOf endpoints) lamp_effect
convert_outputs-IsOutputOf_example =
    convert_outputs-IsOutputOf whole_floats endpoints lamp_table {os = lamp_effect} converts

abbrev lamp_transition : Transition
lamp_transition = record { state = []; outputs = lamp_effect; timers = [] }

-- The handler on a press of the button.
handles :
    execute_logic platform endpoints program [] pressed [] pending 20 time desktop_limits none
    ≡ ok lamp_transition
unfolding execute_logic check_source_size_with_limits single_result convert_result convert_fields
    result_fields convert_patch optional_outputs convert_timers check_combined_effects
    merge_state_with_limits validate_state_map_with_limits total_bytes convert_outputs output_pairs
    collect_outputs lua_to_typed_value string_key is_bool list_ord extend byte_len
handles = refl

execute_logic-IsAccepted_example : IsAccepted endpoints [] pending 20 desktop_limits lamp_transition
execute_logic-IsAccepted_example =
    execute_logic-IsAccepted platform endpoints program [] pressed [] pending 20 time desktop_limits
      none {t = lamp_transition} (omega arith) empty_state_valid handles

merges : merge_state_with_limits [] one_entry desktop_limits ≡ ok one_entry
unfolding merge_state_with_limits validate_state_map_with_limits total_bytes validate_state_entry
    extend insert byte_len
merges = refl

merge_state_sound_example :
    (one_entry ≡ extend [] one_entry) × IsValidState desktop_limits one_entry
merge_state_sound_example =
    merge_state_sound [] one_entry desktop_limits {merged = one_entry} (omega arith) merges

abbrev switch_off : List BlockActivation
switch_off = record { block_id = b'b' ∷ []; source = some (b'y' ∷ []); enabled = some false } ∷ []

activate_lem_example : Activated feedback switch_off (activate platform feedback switch_off)
activate_lem_example = activate_lem platform feedback switch_off

activate-IsSteady_example : All (IsSteady 128) (activate platform feedback switch_off).1.blocks
activate-IsSteady_example = activate-IsSteady 128 platform feedback switch_off (block-IsSteady, tt)

select_due_timer-Selects_example : Selects feedback 200 (select_due_timer feedback 200)
select_due_timer-Selects_example = select_due_timer-Selects feedback 200

process_next_due_timer_cascade-IsTimerTurn_example :
    IsTimerTurn platform feedback
      (record { monotonic_ms = 200; utc_unix_ms = none })
      none
      (process_next_due_timer_cascade platform feedback
        (record { monotonic_ms = 200; utc_unix_ms = none })
        none)
process_next_due_timer_cascade-IsTimerTurn_example =
    process_next_due_timer_cascade-IsTimerTurn platform feedback
      (record { monotonic_ms = 200; utc_unix_ms = none }) none (omega arith)
