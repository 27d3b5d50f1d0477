-- ===== src/Lua/Execute/Contract.antt =====
-- What a transition that the handler boundary lets through guarantees to the engine.
use logik_smith.Prelude.{
  ◌+◌, ◌-◌, ◌^◌, min, ◌≤◌, ◌≡◌, refl, Option, none, some, List, [], All, arith, ltb, length, subst,
  sym, ap, ◌∙◌, length-map,
}
use logik_smith.Prelude.Order.{list_ord, nat_ord}
use logik_smith.Prelude.Result.{ok, >>=-eq-ok, reject, map_err}
use logik_smith.BTreeMap.{len, extend}
use logik_smith.Limits.{RuntimeLimits}
use logik_smith.Values.{Endpoint, MonotonicMs, Float, OutputEffect}
use logik_smith.Program.{LogicProgram, LogicRevision}
use logik_smith.State.{TransientState, merge_state_with_limits, validate_state_map_with_limits}
use logik_smith.Timer.{TimerEffect, Timers, apply_timer_effects}
use logik_smith.Timer.Effects.{keys-apply_timer_effects}
use logik_smith.Execution.{Trigger, InputSnapshot, Transition, TimeSample}
use logik_smith.Lua.{LuaValue, LuaTable, Probe, Platform}
use logik_smith.Lua.Convert.{Fields, no_fields, result_fields, convert_patch}
use logik_smith.Lua.Outputs.Typing.{IsOutputOf, convert_outputs-IsOutputOf}
use logik_smith.Lua.Timers.{convert_timers, timer_pairs, sort_from}
use logik_smith.Lua.Execute.{
  check_combined_effects, optional_outputs, convert_fields, convert_result, execute_logic,
  check_source_size_with_limits, single_result,
}

-- A transition that can be committed without a further check.
pub record IsAccepted (endpoints : List Endpoint) (state : TransientState) (pending : Timers)
    (now : MonotonicMs) (limits : RuntimeLimits) (t : Transition) : Type 0 where
  pub merges :
      (merged : TransientState) × (merge_state_with_limits state t.state limits ≡ ok merged)
  pub patch : len t.state ≤ limits.max_state_patch_entries_per_execution
  pub outputs : length t.outputs ≤ limits.max_output_effects_per_execution
  pub timers : length t.timers ≤ limits.max_timer_effects_per_execution
  pub combined :
      min (len t.state + length t.outputs + length t.timers) (2 ^ 64 - 1)
      ≤ limits.max_combined_effects_per_execution
  pub pending_bound :
      (r : LogicRevision)
      → len (apply_timer_effects pending t.timers now r) ≤ limits.max_pending_timers_per_block
  pub typed : All (IsOutputOf endpoints) t.outputs

module _ (f : Float) (endpoints : List Endpoint) where
  optional_outputs-IsOutputOf :
      (o : Option LuaTable) {os : List OutputEffect}
      → optional_outputs f endpoints o ≡ ok os
      → All (IsOutputOf endpoints) os
  unfolding optional_outputs
  optional_outputs-IsOutputOf none {os} h =
      let e : [] ≡ os = ground arith in subst (All (IsOutputOf endpoints)) e tt
  optional_outputs-IsOutputOf (some t) {os} h = convert_outputs-IsOutputOf f endpoints t {os = os} h

  module _ (pending : Timers) (now : MonotonicMs) (limits : RuntimeLimits) where
    convert_timers_bounds :
        (o : Option LuaTable) {ts : List TimerEffect}
        → len pending ≤ limits.max_pending_timers_per_block
        → convert_timers f o pending now limits ≡ ok ts
        → (length ts ≤ limits.max_timer_effects_per_execution)
          × (len (apply_timer_effects pending ts now 0) ≤ limits.max_pending_timers_per_block)
    unfolding convert_timers
    convert_timers_bounds none {ts} room h =
        let e : [] ≡ ts = ground arith in
        subst
          (λ (l : List TimerEffect).
            (length l ≤ limits.max_timer_effects_per_execution)
            × (len (apply_timer_effects pending l now 0) ≤ limits.max_pending_timers_per_block))
          e (omega arith, unfold apply_timer_effects in room)
    convert_timers_bounds (some t) {ts} room h =
        let (pushed, p, h1) = >>=-eq-ok (timer_pairs f pending now t []) _ h in
        let raw = sort_from [] pushed in
        let (u, few, h2) =
          >>=-eq-ok (reject (ltb limits.max_timer_effects_per_execution (length raw)) _) _ h1 in
        let (w, fits, h3) =
          >>=-eq-ok
            (reject
              (ltb limits.max_pending_timers_per_block
                (len (apply_timer_effects pending raw now 0)))
              _)
            _ h2 in
        let e : raw ≡ ts = ground arith in
        subst
          (λ (l : List TimerEffect).
            (length l ≤ limits.max_timer_effects_per_execution)
            × (len (apply_timer_effects pending l now 0) ≤ limits.max_pending_timers_per_block))
          e (ground arith, ground arith)

    len-any_revision :
        (ts : List TimerEffect) (r : LogicRevision)
        → len (apply_timer_effects pending ts now r) ≡ len (apply_timer_effects pending ts now 0)
    len-any_revision ts r =
        sym (length-map (λ e. e.0) (apply_timer_effects pending ts now r))
        ∙ ap length (keys-apply_timer_effects pending pending ts now r 0 refl)
        ∙ length-map (λ e. e.0) (apply_timer_effects pending ts now 0)

    convert_fields-IsAccepted :
        (fields : Fields) (state : TransientState) {t : Transition}
        → len pending ≤ limits.max_pending_timers_per_block
        → convert_fields f endpoints fields state pending now limits ≡ ok t
        → IsAccepted endpoints state pending now limits t
    unfolding convert_fields check_combined_effects
    convert_fields-IsAccepted fields state {t} room h =
        let (patch, p, h1) = >>=-eq-ok (convert_patch fields.state limits) _ h in
        let (u, small, h2) =
          >>=-eq-ok (reject (ltb limits.max_state_patch_entries_per_execution (len patch)) _) _
            h1 in
        let (merged, m, h3) =
          >>=-eq-ok (map_err _ (merge_state_with_limits state patch limits)) _ h2 in
        let (outs, o, h4) = >>=-eq-ok (optional_outputs f endpoints fields.outputs) _ h3 in
        let (ts, q, h5) = >>=-eq-ok (convert_timers f fields.timers pending now limits) _ h4 in
        let (w, c, h6) =
          >>=-eq-ok (check_combined_effects (len patch) (length outs) (length ts) limits) _ h5 in
        let e : record { state = patch; outputs = outs; timers = ts } ≡ t = ground arith in
        let bounds = convert_timers_bounds fields.timers {ts = ts} room q in
        let (x, few, rest) =
          >>=-eq-ok (reject (ltb limits.max_output_effects_per_execution (length outs)) _) _ c in
        subst (IsAccepted endpoints state pending now limits) e (record {
          merges = (merged, ground arith);
          patch = ground arith;
          outputs = ground arith;
          timers = bounds.0;
          combined = ground arith;
          pending_bound = λ r. omega (arith, bounds.1, len-any_revision ts r);
          typed = optional_outputs-IsOutputOf fields.outputs {os = outs} o;
        })

    nil-IsAccepted :
        (state : TransientState)
        → len pending ≤ limits.max_pending_timers_per_block
        → validate_state_map_with_limits state limits ≡ ok tt
        → IsAccepted endpoints state pending now limits
            (record { state = []; outputs = []; timers = [] })
    unfolding merge_state_with_limits extend apply_timer_effects
    nil-IsAccepted state room v = record {
      merges = (state, rw v);
      patch = omega arith;
      outputs = omega arith;
      timers = omega arith;
      combined = omega arith;
      pending_bound = λ r. room;
      typed = tt;
    }

    convert_result-IsAccepted :
        (v : LuaValue) (state : TransientState) {t : Transition}
        → len pending ≤ limits.max_pending_timers_per_block
        → validate_state_map_with_limits state limits ≡ ok tt
        → convert_result f endpoints v state pending now limits ≡ ok t
        → IsAccepted endpoints state pending now limits t
    unfolding convert_result
    convert_result-IsAccepted LuaValue.nil state {t} room valid h =
        let e : record { state = []; outputs = []; timers = [] } ≡ t = ground arith in
        subst (IsAccepted endpoints state pending now limits) e (nil-IsAccepted state room valid)
    convert_result-IsAccepted (LuaValue.table x) state {t} room valid h =
        let (fields, p, h1) = >>=-eq-ok (result_fields x no_fields) _ h in
        convert_fields-IsAccepted fields state {t = t} room h1
    convert_result-IsAccepted (LuaValue.boolean _) state room valid h = cc
    convert_result-IsAccepted (LuaValue.integer _) state room valid h = cc
    convert_result-IsAccepted (LuaValue.number _) state room valid h = cc
    convert_result-IsAccepted (LuaValue.string _) state room valid h = cc
    convert_result-IsAccepted (LuaValue.raw_string _) state room valid h = cc
    convert_result-IsAccepted LuaValue.other state room valid h = cc

-- Whatever the Lua interpreter returns, a transition that `execute_logic` lets through from a valid
-- state and a permitted number of pending timers can be committed: its patch merges into a valid
-- state, patch, outputs and timer effects stay within their limits, each and together, the timers pending afterwards
-- stay within theirs, and every output is for a declared output endpoint at its datapoint type.
pub execute_logic-IsAccepted :
    (platform : Platform) (endpoints : List Endpoint) (program : LogicProgram)
    (snapshots : List InputSnapshot) (trigger : Trigger) (state : TransientState) (pending : Timers)
    (now : MonotonicMs) (time : TimeSample) (limits : RuntimeLimits) (probe : Option Probe)
    {t : Transition}
    → len pending ≤ limits.max_pending_timers_per_block
    → validate_state_map_with_limits state limits ≡ ok tt
    → execute_logic platform endpoints program snapshots trigger state pending now time limits probe
      ≡ ok t
    → IsAccepted endpoints state pending now limits t
unfolding execute_logic
execute_logic-IsAccepted platform endpoints program snapshots trigger state pending now time limits
      probe {t} room valid h =
    let (u, size, h1) = >>=-eq-ok (check_source_size_with_limits program.source limits) _ h in
    let (vs, call, h2) =
      >>=-eq-ok (platform.call_handle program.source snapshots trigger state now time limits probe)
        _ h1 in
    let (v, one, h3) = >>=-eq-ok (single_result vs) _ h2 in
    convert_result-IsAccepted platform.float endpoints pending now limits v state {t = t} room valid
      h3
