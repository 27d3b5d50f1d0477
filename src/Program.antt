-- ===== src/Program.antt =====
-- crates/logiksmith-core/src/program.rs: source programs, their revision, and the error types.
-- A message that the source formats is modelled by a constructor that carries what it prints.
use logik_smith.Prelude.{ℕ, ◌*◌, ◌%◌, ◌^◌, Option, none, List, [], ◌∷◌, bit_xor}
use logik_smith.Prelude.Int.{ℤ}
use logik_smith.Text.{Text, as_bytes}
use logik_smith.Identifiers.{EndpointName, EndpointNameError}
use logik_smith.Values.{Dpt, EndpointDirection, ValueError, MonotonicMs}

abbrev pub LogicRevision : Type 0
LogicRevision = ℕ

abbrev pub TimerName : Type 0
TimerName = Text

pub record LogicProgram : Type 0 where
  pub source : Text
  pub revision : LogicRevision

-- The loop of FNV-1a over the bytes of the source.
unfoldable pub fnv_bytes : ℕ → List ℕ → ℕ
fnv_bytes hash [] = hash
fnv_bytes hash (byte ∷ bytes) = fnv_bytes ((bit_xor hash byte * 0x100000001b3) % 2 ^ 64) bytes

unfoldable pub revision_for : Text → LogicRevision
unfolding fnv_bytes
revision_for source = fnv_bytes 0xcbf29ce484222325 (as_bytes source)

-- `LogicProgram::new`
unfoldable pub new_program : Text → LogicProgram
new_program source = record { source = source; revision = revision_for source }

pub data LogicErrorKind : Type 0 where
  syntax load runtime instruction_limit memory_limit handler_time_limit invalid_result :
      LogicErrorKind

-- What `LuaValue::type_name` prints.
pub data LuaType : Type 0 where
  nil_type boolean_type integer_type number_type string_type table_type other_type : LuaType

pub data StateError : Type 0 where
  too_many_entries : (actual maximum : ℕ) → StateError
  key_too_large : (key : Text) (actual maximum : ℕ) → StateError
  empty_key : StateError
  string_too_large : (key : Text) (actual maximum : ℕ) → StateError
  total_too_large : (actual maximum : ℕ) → StateError
  non_finite_number : (key : Text) → StateError

pub data Message : Type 0 where
  -- a text that the Lua interpreter or `map_lua_error` produced
  vm_message : Text → Message
  revision_mismatch : Message
  two_results result_field_not_utf8 state_key_not_utf8 output_name_not_utf8 : Message
  timer_name_not_utf8 duration_out_of_range : Message
  result_wrong_type result_key_type state_key_type output_name_type timer_name_type :
      LuaType → Message
  duration_wrong_type : LuaType → Message
  unsupported_field duplicate_field state_key_twice unknown_output output_twice : Text → Message
  state_not_finite state_not_utf8 timer_field_not_utf8 timer_duplicate_after : Text → Message
  timer_requires_after timer_overflow : Text → Message
  field_not_table state_wrong_type output_expects_boolean output_expects_percentage :
      Text → LuaType → Message
  output_expects_temperature timer_field_type timer_wrong_type : Text → LuaType → Message
  state_invalid : StateError → Message
  state_patch_too_large : (actual maximum : ℕ) → Message
  percentage_out_of_range : Text → ℤ → Message
  percentage_not_finite percentage_not_integer : Text → ℕ → Message
  temperature_invalid : Text → ValueError → Message
  output_unsupported_dpt : Text → Dpt → Message
  invalid_timer_name : Text → EndpointNameError → Message
  timer_unknown_field : Text → Text → Message
  too_many_timer_effects too_many_pending_timers too_many_outputs too_many_effects : ℕ → Message

pub data LogicError : Type 0 where
  empty_source : LogicError
  source_too_large : (actual maximum : ℕ) → LogicError
  failed : LogicErrorKind → Message → Option ℕ → LogicError

-- `LogicError::InvalidResult { message, line: None }`
abbrev pub invalid : Message → LogicError
invalid message = failed invalid_result message none

-- `LogicError::kind`
unfoldable pub kind : LogicError → LogicErrorKind
kind empty_source = load
kind (source_too_large actual maximum) = load
kind (failed k message line) = k

pub data ConfigError : Type 0 where
  too_many_endpoints : (actual maximum : ℕ) → ConfigError
  duplicate_endpoint : EndpointName → ConfigError
  unsupported_endpoint_dpt : EndpointName → Dpt → ConfigError
  invalid_logic : LogicError → ConfigError

-- `panicked` is no constructor of the source: it stands for the panic of an `expect`.
pub data EventError : Type 0 where
  unknown_endpoint : EndpointName → EventError
  endpoint_not_input : EndpointName → EndpointDirection → EventError
  dpt_mismatch : EndpointName → (expected actual : Dpt) → EventError
  time_went_backwards : (previous current : MonotonicMs) → EventError
  stale_timer : TimerName → (scheduled active : LogicRevision) → EventError
  panicked : EventError
