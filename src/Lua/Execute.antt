-- ===== src/Lua/Execute.antt =====
-- crates/logiksmith-core/src/lua_conversion.rs, lua_execution.rs and lua_sandbox.rs: the conversion of
-- a result into a transition, and one call of the handler.
pub mod Contract
use logik_smith.Prelude.{
  ℕ, ◌+◌, Bool, true, false, Option, none, some, List, [], ◌∷◌, ◌&&◌, ◌||◌, leb, ltb, ◌==◌, all,
  length, if◌then◌else◌,
}
use logik_smith.Prelude.Order.{list_ord, nat_ord}
use logik_smith.Prelude.Result.{Result, ok, err, ◌>>=◌, ◌>>◌, reject, map_err}
use logik_smith.BTreeMap.{BTreeMap, len}
use logik_smith.Text.{Text, byte_len}
use logik_smith.Limits.{RuntimeLimits}
use logik_smith.Values.{Endpoint, MonotonicMs, Float, OutputEffect}
use logik_smith.Program.{
  LogicError, empty_source, source_too_large, invalid, LogicProgram, two_results, result_wrong_type,
  state_patch_too_large, state_invalid, too_many_outputs, too_many_effects,
}
use logik_smith.State.{TransientState, StatePatch, merge_state_with_limits, saturating_add}
use logik_smith.Timer.{TimerEffect, Timers}
use logik_smith.Execution.{Trigger, InputSnapshot, Transition, TimeSample}
use logik_smith.Lua.{LuaValue, LuaTable, type_name, Probe, Platform}
use logik_smith.Lua.Convert.{Fields, no_fields, result_fields, convert_patch}
use logik_smith.Lua.Outputs.{convert_outputs}
use logik_smith.Lua.Timers.{convert_timers}

unfoldable pub check_combined_effects :
    (state outputs timers : ℕ) → RuntimeLimits → Result LogicError (Unit {0})
check_combined_effects state outputs timers limits = do
  reject (ltb limits.max_output_effects_per_execution outputs)
      (invalid (too_many_outputs limits.max_output_effects_per_execution))
  reject
      (ltb limits.max_combined_effects_per_execution
        (saturating_add (saturating_add state outputs) timers))
      (invalid (too_many_effects limits.max_combined_effects_per_execution))

-- The outputs of a result: none without an outputs table.
unfoldable pub optional_outputs :
    Float → List Endpoint → Option LuaTable → Result LogicError (List OutputEffect)
optional_outputs f endpoints none = ok []
optional_outputs f endpoints (some t) = convert_outputs f endpoints t

-- The conversion of a result table, behind the match on the result.
unfoldable pub convert_fields :
    Float
    → List Endpoint
    → Fields
    → TransientState
    → Timers
    → MonotonicMs
    → RuntimeLimits
    → Result LogicError Transition
convert_fields f endpoints fields current_state pending_timers now limits = do
  patch ← convert_patch fields.state limits
  reject (ltb limits.max_state_patch_entries_per_execution (len patch))
      (invalid (state_patch_too_large (len patch) limits.max_state_patch_entries_per_execution))
  merged ←
      map_err (λ error. invalid (state_invalid error))
        (merge_state_with_limits current_state patch limits)
  outputs ← optional_outputs f endpoints fields.outputs
  timers ← convert_timers f fields.timers pending_timers now limits
  check_combined_effects (len patch) (length outputs) (length timers) limits
  ok (record { state = patch; outputs = outputs; timers = timers })

unfoldable pub convert_result :
    Float
    → List Endpoint
    → LuaValue
    → TransientState
    → Timers
    → MonotonicMs
    → RuntimeLimits
    → Result LogicError Transition
convert_result f endpoints LuaValue.nil current_state pending_timers now limits =
    ok (record { state = []; outputs = []; timers = [] })
convert_result f endpoints (LuaValue.table t) current_state pending_timers now limits = do
  fields ← result_fields t no_fields
  convert_fields f endpoints fields current_state pending_timers now limits
convert_result f endpoints value current_state pending_timers now limits =
    err (invalid (result_wrong_type (type_name value)))

-- The characters with the Unicode property White_Space, which `str::trim` removes.
is_whitespace : ℕ → Bool
is_whitespace c =
    (leb 9 c && leb c 13)
    || c == 32
    || c == 0x85
    || c == 0xa0
    || c == 0x1680
    || (leb 0x2000 c && leb c 0x200a)
    || c == 0x2028
    || c == 0x2029
    || c == 0x202f
    || c == 0x205f
    || c == 0x3000

-- lua_sandbox.rs
unfoldable pub check_source_size_with_limits : Text → RuntimeLimits → Result LogicError (Unit {0})
unfolding is_whitespace
check_source_size_with_limits source limits = do
  reject (all is_whitespace source) empty_source
  reject (ltb limits.max_logic_source_bytes_per_block (byte_len source))
      (source_too_large (byte_len source) limits.max_logic_source_bytes_per_block)

-- lua_sandbox.rs: `validate_logic_source_with_limits`
unfoldable pub validate_logic_source_with_limits :
    Platform → Text → RuntimeLimits → Result LogicError (Unit {0})
validate_logic_source_with_limits platform source limits = do
  check_source_size_with_limits source limits
  platform.load_source source limits

-- `returned.next().unwrap_or(Nil)`, and the refusal of a second value.
unfoldable pub single_result : List LuaValue → Result LogicError LuaValue
single_result [] = ok LuaValue.nil
single_result (v ∷ []) = ok v
single_result (v ∷ w ∷ more) = err (invalid two_results)

-- lua_execution.rs
unfoldable pub execute_logic :
    Platform
    → List Endpoint
    → LogicProgram
    → List InputSnapshot
    → Trigger
    → TransientState
    → Timers
    → MonotonicMs
    → TimeSample
    → RuntimeLimits
    → Option Probe
    → Result LogicError Transition
execute_logic platform endpoints program snapshots trigger state pending now time limits probe = do
  check_source_size_with_limits program.source limits
  returned ← platform.call_handle program.source snapshots trigger state now time limits probe
  result ← single_result returned
  convert_result platform.float endpoints result state pending now limits
