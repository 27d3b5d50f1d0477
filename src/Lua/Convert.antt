-- ===== src/Lua/Convert.antt =====
-- crates/logiksmith-core/src/lua_conversion.rs: the fields of a result, and the state patch.
use logik_smith.Prelude.{Option, none, some, [], ◌∷◌, ◌&&◌, ◌||◌, if◌then◌else◌, not, is_some}
use logik_smith.Prelude.Order.{list_ord, nat_ord, same}
use logik_smith.Prelude.Result.{Result, ok, err, ◌>>=◌, ◌>>◌, reject, map_err}
use logik_smith.BTreeMap.{get, insert}
use logik_smith.Text.{Text}
use logik_smith.Limits.{RuntimeLimits}
use logik_smith.Values.{is_finite}
use logik_smith.Program.{
  LogicError, invalid, Message, state_not_finite, state_not_utf8, state_wrong_type, state_invalid,
  result_field_not_utf8, result_key_type, unsupported_field, duplicate_field, field_not_table,
  state_key_not_utf8, state_key_type, state_key_twice,
}
use logik_smith.State.{StateValue, StatePatch, validate_state_entry}
use logik_smith.Lua.{LuaValue, LuaTable, end, pair, type_name}

-- The first match of `convert_state_value`.
state_value_of : Text → LuaValue → Result LogicError StateValue
state_value_of key (LuaValue.boolean b) = ok (StateValue.boolean b)
state_value_of key (LuaValue.integer i) = ok (StateValue.integer i)
state_value_of key (LuaValue.number n) =
    if is_finite n then ok (StateValue.number n) else err (invalid (state_not_finite key))
state_value_of key (LuaValue.string s) = ok (StateValue.string s)
state_value_of key (LuaValue.raw_string s) = err (invalid (state_not_utf8 key))
state_value_of key value = err (invalid (state_wrong_type key (type_name value)))

unfoldable pub convert_state_value : Text → LuaValue → Result LogicError StateValue
unfolding state_value_of
convert_state_value key value = do
  state_value ← state_value_of key value
  map_err (λ error. invalid (state_invalid error)) (validate_state_entry key state_value)
  ok state_value

-- The three optional tables of a result.
pub record Fields : Type 0 where
  pub state : Option LuaTable
  pub outputs : Option LuaTable
  pub timers : Option LuaTable

abbrev pub no_fields : Fields
no_fields = record { state = none; outputs = none; timers = none }

abbrev pub state_field : Text
state_field = b's' ∷ b't' ∷ b'a' ∷ b't' ∷ b'e' ∷ []

abbrev pub outputs_field : Text
outputs_field = b'o' ∷ b'u' ∷ b't' ∷ b'p' ∷ b'u' ∷ b't' ∷ b's' ∷ []

abbrev pub timers_field : Text
timers_field = b't' ∷ b'i' ∷ b'm' ∷ b'e' ∷ b'r' ∷ b's' ∷ []

-- A string key of a table, or the errors for a string that is not UTF-8 and for another type.
unfoldable pub string_key : Message → (LuaValue → Message) → LuaValue → Result LogicError Text
string_key not_utf8 wrong_type (LuaValue.string key) = ok key
string_key not_utf8 wrong_type (LuaValue.raw_string key) = err (invalid not_utf8)
string_key not_utf8 wrong_type key = err (invalid (wrong_type key))

-- The match on a table under an admitted field name.
put_field : Text → LuaTable → Fields → Result LogicError Fields
put_field key t fields =
    if same key state_field && not (is_some fields.state)
    then ok (record fields { state = some t })
    else if same key outputs_field && not (is_some fields.outputs)
    then ok (record fields { outputs = some t })
    else if same key timers_field && not (is_some fields.timers)
    then ok (record fields { timers = some t })
    else err (invalid (duplicate_field key))

take_field : Text → LuaValue → Fields → Result LogicError Fields
unfolding put_field
take_field key (LuaValue.table t) fields = put_field key t fields
take_field key value fields = err (invalid (field_not_table key (type_name value)))

-- The loop over the pairs of a result.
unfoldable pub result_fields : LuaTable → Fields → Result LogicError Fields
unfolding take_field
result_fields end fields = ok fields
result_fields (pair key value rest) fields = do
  name ← string_key result_field_not_utf8 (λ k. result_key_type (type_name k)) key
  reject (not (same name state_field || same name outputs_field || same name timers_field))
      (invalid (unsupported_field name))
  fields' ← take_field name value fields
  result_fields rest fields'

-- The loop over the pairs of the state table.
unfoldable pub state_pairs : LuaTable → StatePatch → Result LogicError StatePatch
state_pairs end patch = ok patch
state_pairs (pair key value rest) patch = do
  name ← string_key state_key_not_utf8 (λ k. state_key_type (type_name k)) key
  state_value ← convert_state_value name value
  reject (is_some (get name patch)) (invalid (state_key_twice name))
  state_pairs rest (insert name state_value patch)

-- The patch of a result, before it is merged: none without a state table.
unfoldable pub convert_patch : Option LuaTable → RuntimeLimits → Result LogicError StatePatch
convert_patch none limits = ok []
convert_patch (some t) limits = state_pairs t []
