-- ===== src/Lua.antt =====
-- What the Lua interpreter hands to the program and takes from it. The interpreter is third-party
-- code: `LuaValue` is the data that crosses the boundary, and `Platform` the calls into it.
pub mod Convert
pub mod Outputs
pub mod Timers
pub mod Execute
use logik_smith.Prelude.{ℕ, Bool, Option, List}
use logik_smith.Prelude.Result.{Result}
use logik_smith.Prelude.Int.{ℤ}
use logik_smith.Text.{Text}
use logik_smith.Limits.{RuntimeLimits}
use logik_smith.Values.{MonotonicMs, Float}
use logik_smith.Program.{
  LogicError, LuaType, nil_type, boolean_type, integer_type, number_type, string_type, table_type,
  other_type,
}
use logik_smith.State.{TransientState}
use logik_smith.Execution.{Trigger, InputSnapshot, TimeSample}

-- A string is `string` if its bytes are valid UTF-8, and `raw_string` if they are not. A table is
-- the sequence of pairs that `pairs` yields.
mutual
  pub data LuaValue : Type 0 where
    nil : LuaValue
    boolean : Bool → LuaValue
    integer : ℤ → LuaValue
    number : ℕ → LuaValue
    string : Text → LuaValue
    raw_string : List ℕ → LuaValue
    table : LuaTable → LuaValue
    other : LuaValue

  pub data LuaTable : Type 0 where
    end : LuaTable
    pair : LuaValue → LuaValue → LuaTable → LuaTable

unfoldable pub type_name : LuaValue → LuaType
type_name nil = nil_type
type_name (boolean b) = boolean_type
type_name (integer i) = integer_type
type_name (number n) = number_type
type_name (string s) = string_type
type_name (raw_string s) = string_type
type_name (table t) = table_type
type_name other = other_type

-- The host's elapsed-time source: its k-th reading during one handler call.
abbrev pub Probe : Type 0
Probe = ℕ → ℕ

-- The third-party code that the core calls.
pub record Platform : Type 0 where
  pub float : Float
  -- Loads a source in a restricted interpreter and requires a function `handle`; the revision of an
  -- accepted source is computed by the program.
  pub load_source : Text → RuntimeLimits → Result LogicError (Unit {0})
  -- Loads the source and calls `handle` once with the event, the inputs, the state and the time.
  pub call_handle :
      Text
      → List InputSnapshot
      → Trigger
      → TransientState
      → MonotonicMs
      → TimeSample
      → RuntimeLimits
      → Option Probe
      → Result LogicError (List LuaValue)
