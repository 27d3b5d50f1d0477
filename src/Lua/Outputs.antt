-- ===== src/Lua/Outputs.antt =====
-- crates/logiksmith-core/src/lua_conversion.rs: the outputs of a result.
pub mod Typing
use logik_smith.Prelude.{
  ℕ, ◌≤◌, ◌≡◌, Bool, true, false, Option, none, some, List, [], ◌∷◌, ◌&&◌, not, leb, is_some,
  length, replicate, set, get_elem?, position, if◌then◌else◌, arith,
}
use logik_smith.Prelude.Order.{list_ord, nat_ord, same}
use logik_smith.Prelude.Result.{Result, ok, err, ◌>>=◌, ◌>>◌, reject, map_err}
use logik_smith.Prelude.Int.{ℤ, pos, negsuc}
use logik_smith.Text.{Text}
use logik_smith.Values.{
  Dpt, dpt_percent, Endpoint, is_input, is_bool, is_percent, is_temperature, TypedValue, typed_bool,
  percent, typed_percent, new_typed_value, Float, typed_temperature, is_finite, OutputEffect,
}
use logik_smith.Program.{
  LogicError, invalid, output_expects_boolean, percentage_out_of_range, percentage_not_finite,
  percentage_not_integer, output_expects_percentage, temperature_invalid,
  output_expects_temperature, output_unsupported_dpt, output_name_not_utf8, output_name_type,
  unknown_output, output_twice,
}
use logik_smith.Lua.{LuaValue, LuaTable, end, pair, type_name}
use logik_smith.Lua.Convert.{string_key}

to_bool : Endpoint → LuaValue → Result LogicError TypedValue
to_bool endpoint (LuaValue.boolean b) = ok (typed_bool b)
to_bool endpoint value = err (invalid (output_expects_boolean endpoint.name (type_name value)))

-- `(0..=100).contains(&value)`, then `TypedValue::percent(value as u8).expect(..)`: see
-- `typed_percent_bounded`.
to_percent : Endpoint → LuaValue → Result LogicError TypedValue
to_percent endpoint (LuaValue.integer (pos p)) =
    if leb p 100
    then ok (record { dpt = dpt_percent; value = percent p })
    else err (invalid (percentage_out_of_range endpoint.name (pos p)))
to_percent endpoint (LuaValue.integer (negsuc p)) =
    err (invalid (percentage_out_of_range endpoint.name (negsuc p)))
to_percent endpoint (LuaValue.number n) =
    if not (is_finite n)
    then err (invalid (percentage_not_finite endpoint.name n))
    else err (invalid (percentage_not_integer endpoint.name n))
to_percent endpoint value =
    err (invalid (output_expects_percentage endpoint.name (type_name value)))

pub typed_percent_bounded :
    (p : ℕ) → p ≤ 100 → typed_percent p ≡ ok (record { dpt = dpt_percent; value = percent p })
unfolding typed_percent new_typed_value is_percent
typed_percent_bounded p h = ground arith

to_temperature : Float → Endpoint → LuaValue → Result LogicError TypedValue
to_temperature f endpoint (LuaValue.integer i) =
    map_err (λ error. invalid (temperature_invalid endpoint.name error))
      (typed_temperature f (f.of_i64 i))
to_temperature f endpoint (LuaValue.number n) =
    map_err (λ error. invalid (temperature_invalid endpoint.name error)) (typed_temperature f n)
to_temperature f endpoint value =
    err (invalid (output_expects_temperature endpoint.name (type_name value)))

unfoldable pub lua_to_typed_value : Float → Endpoint → LuaValue → Result LogicError TypedValue
unfolding to_bool to_percent to_temperature
lua_to_typed_value f endpoint value =
    if is_bool endpoint.dpt
    then to_bool endpoint value
    else if is_percent endpoint.dpt
    then to_percent endpoint value
    else if is_temperature endpoint.dpt
    then to_temperature f endpoint value
    else err (invalid (output_unsupported_dpt endpoint.name endpoint.dpt))

-- `endpoint.direction == Output && endpoint.name == key`
abbrev pub is_output_named : Text → Endpoint → Bool
is_output_named key endpoint = not (is_input endpoint.direction) && same endpoint.name key

-- One slot for each endpoint.
abbrev pub Slots : Type 0
Slots = List (Option TypedValue)

-- The write of one slot, refused where the slot is taken.
fill_slot : Text → Option (Option TypedValue) → ℕ → TypedValue → Slots → Result LogicError Slots
fill_slot key (some (some old)) index typed slots = err (invalid (output_twice key))
fill_slot key (some none) index typed slots = ok (set slots index (some typed))
fill_slot key none index typed slots = ok (set slots index (some typed))

-- The body of the loop, for a key that names an endpoint.
put_output : Float → List Endpoint → Text → LuaValue → Slots → Option ℕ → Result LogicError Slots
unfolding fill_slot
put_output f endpoints key value slots none = err (invalid (unknown_output key))
put_output f endpoints key value slots (some index) = elim (get_elem? endpoints index) [
  | none ↦ err (invalid (unknown_output key))
  | some endpoint ↦ do
    typed ← lua_to_typed_value f endpoint value
    fill_slot key (get_elem? slots index) index typed slots
]

-- The loop over the pairs of the outputs table.
unfoldable pub output_pairs : Float → List Endpoint → LuaTable → Slots → Result LogicError Slots
unfolding put_output
output_pairs f endpoints end slots = ok slots
output_pairs f endpoints (pair key value rest) slots = do
  name ← string_key output_name_not_utf8 (λ k. output_name_type (type_name k)) key
  slots' ← put_output f endpoints name value slots (position (is_output_named name) endpoints)
  output_pairs f endpoints rest slots'

-- The effects in endpoint order, from the filled slots of the output endpoints.
unfoldable pub collect_outputs : List Endpoint → Slots → List OutputEffect
collect_outputs [] slots = []
collect_outputs (endpoint ∷ endpoints) [] = []
collect_outputs (endpoint ∷ endpoints) (none ∷ slots) = collect_outputs endpoints slots
collect_outputs (endpoint ∷ endpoints) (some value ∷ slots) =
    let rest = collect_outputs endpoints slots in
    if is_input endpoint.direction
    then rest
    else record { endpoint = endpoint.name; value = value } ∷ rest

unfoldable pub convert_outputs :
    Float → List Endpoint → LuaTable → Result LogicError (List OutputEffect)
convert_outputs f endpoints t = do
  slots ← output_pairs f endpoints t (replicate (length endpoints) none)
  ok (collect_outputs endpoints slots)
