-- ===== src/Lua/Outputs/Typing.antt =====
-- Every output effect is for an output endpoint, at its datapoint type.
use logik_smith.Prelude.{
  ℕ, zero, suc, ◌≡◌, refl, true, Option, none, some, List, [], ◌∷◌, All, arith, length, replicate,
  set, get_elem?, position, if◌then◌else◌, subst, sym, ap, position_sound,
}
use logik_smith.Prelude.Order.{list_ord, nat_ord}
use logik_smith.Prelude.Result.{ok, >>=-eq-ok}
use logik_smith.Prelude.Int.{pos, negsuc}
use logik_smith.Text.{Text}
use logik_smith.Values.{
  Dpt, Endpoint, output, is_input, is_bool, is_percent, is_temperature, TypedValue, Float,
  OutputEffect, typed_temperature, temperature_centi_degrees, new_typed_value,
}
use logik_smith.Lua.{LuaValue, LuaTable, end, pair}
use logik_smith.Lua.Convert.{string_key}
use logik_smith.Lua.Outputs.{
  lua_to_typed_value, is_output_named, Slots, fill_slot, put_output, output_pairs, collect_outputs,
  convert_outputs,
}

temperature-dpt :
    (f : Float) (n : ℕ) {v : TypedValue} (d : Dpt)
    → is_temperature d ≡ true
    → typed_temperature f n ≡ ok v
    → v.dpt ≡ d
unfolding typed_temperature temperature_centi_degrees new_typed_value is_temperature
temperature-dpt f n d t h = ground arith

-- A converted value has the datapoint type of its endpoint.
lua_to_typed_value-dpt :
    (f : Float) (e : Endpoint) (x : LuaValue) {v : TypedValue}
    → lua_to_typed_value f e x ≡ ok v
    → v.dpt ≡ e.dpt
unfolding lua_to_typed_value is_bool is_percent
lua_to_typed_value-dpt f e LuaValue.nil h = ground arith
lua_to_typed_value-dpt f e (LuaValue.boolean b) h = ground arith
lua_to_typed_value-dpt f e (LuaValue.integer (pos i)) {v} h =
    ground (arith, temperature-dpt f (f.of_i64 (pos i)) {v = v} e.dpt)
lua_to_typed_value-dpt f e (LuaValue.integer (negsuc i)) {v} h =
    ground (arith, temperature-dpt f (f.of_i64 (negsuc i)) {v = v} e.dpt)
lua_to_typed_value-dpt f e (LuaValue.number n) {v} h =
    ground (arith, temperature-dpt f n {v = v} e.dpt)
lua_to_typed_value-dpt f e (LuaValue.string s) h = ground arith
lua_to_typed_value-dpt f e (LuaValue.raw_string s) h = ground arith
lua_to_typed_value-dpt f e (LuaValue.table t) h = ground arith
lua_to_typed_value-dpt f e LuaValue.other h = ground arith

-- A filled slot stands beside an output endpoint of its datapoint type.
abbrev FitsSlot : Endpoint → Option TypedValue → Type 0
FitsSlot e none = Unit
FitsSlot e (some v) = (e.direction ≡ output) × (v.dpt ≡ e.dpt)

abbrev Fits : List Endpoint → Slots → Type 0
Fits [] [] = Unit
Fits [] (s ∷ ss) = ⊥
Fits (e ∷ es) [] = ⊥
Fits (e ∷ es) (s ∷ ss) = FitsSlot e s × Fits es ss

replicate-Fits : (es : List Endpoint) → Fits es (replicate (length es) none)
replicate-Fits [] = tt
replicate-Fits (e ∷ es) = (tt, replicate-Fits es)

set-Fits :
    (es : List Endpoint) (ss : Slots) (i : ℕ) (e : Endpoint) (v : TypedValue)
    → Fits es ss
    → get_elem? es i ≡ some e
    → FitsSlot e (some v)
    → Fits es (set ss i (some v))
set-Fits [] [] i e v h g f = h
set-Fits [] (s ∷ ss) i e v h g f = absurd h
set-Fits (d ∷ es) [] i e v h g f = h
set-Fits (d ∷ es) (s ∷ ss) zero e v h g f = ((ground (arith, f.0), ground (arith, f.1)), h.1)
set-Fits (d ∷ es) (s ∷ ss) (suc i) e v h g f = (h.0, set-Fits es ss i e v h.1 g f)

fill_slot-Fits :
    (es : List Endpoint) (key : Text) (old : Option (Option TypedValue)) (i : ℕ) (e : Endpoint)
    (v : TypedValue) (ss : Slots) {r : Slots}
    → Fits es ss
    → get_elem? es i ≡ some e
    → FitsSlot e (some v)
    → fill_slot key old i v ss ≡ ok r
    → Fits es r
unfolding fill_slot
fill_slot-Fits es key (some (some o)) i e v ss h g f p = cc
fill_slot-Fits es key (some none) i e v ss h g f p =
    subst (Fits es) (ground arith) (set-Fits es ss i e v h g f)
fill_slot-Fits es key none i e v ss h g f p =
    subst (Fits es) (ground arith) (set-Fits es ss i e v h g f)

is_output_named-direction :
    (key : Text) (e : Endpoint) → is_output_named key e ≡ true → e.direction ≡ output
is_output_named-direction key e h = ground arith

put_output-Fits :
    (f : Float) (es : List Endpoint) (key : Text) (x : LuaValue) (ss : Slots) (i : Option ℕ)
    {r : Slots}
    → position (is_output_named key) es ≡ i
    → Fits es ss
    → put_output f es key x ss i ≡ ok r
    → Fits es r
unfolding put_output
put_output-Fits f es key x ss none q h p = cc
put_output-Fits f es key x ss (some i) {r} q h p =
    let (e, g, t) = position_sound (is_output_named key) es {i = i} q in
    let (v, c, p') = >>=-eq-ok (lua_to_typed_value f e x) _ (rw (g, put_output) at p) in
    fill_slot-Fits es key (get_elem? ss i) i e v ss {r = r} h g
      (is_output_named-direction key e t, lua_to_typed_value-dpt f e x {v = v} c) p'

output_pairs-Fits :
    (f : Float) (es : List Endpoint) (t : LuaTable) (ss : Slots) {r : Slots}
    → Fits es ss
    → output_pairs f es t ss ≡ ok r
    → Fits es r
unfolding output_pairs
output_pairs-Fits f es end ss h p = subst (Fits es) (ground arith) h
output_pairs-Fits f es (pair k x t) ss {r} h p =
    let (name, _, p1) = >>=-eq-ok (string_key _ _ k) _ p in
    let (ss', put, p2) = >>=-eq-ok (put_output f es name x ss _) _ p1 in
    output_pairs-Fits f es t ss' {r = r} (put_output-Fits f es name x ss _ {r = ss'} refl h put) p2

-- The effect is for a declared output endpoint, whose datapoint type its value carries.
abbrev pub IsOutputOf : List Endpoint → OutputEffect → Type 0
IsOutputOf es o =
    (i : ℕ) × (e : Endpoint) × (get_elem? es i ≡ some e)
    × (e.name ≡ o.endpoint)
    × (e.direction ≡ output)
    × (o.value.dpt ≡ e.dpt)

IsOutputOf-cons :
    (e : Endpoint) (es : List Endpoint) (os : List OutputEffect)
    → All (IsOutputOf es) os
    → All (IsOutputOf (e ∷ es)) os
IsOutputOf-cons e es [] h = tt
IsOutputOf-cons e es (o ∷ os) h =
    let (i, d, g, n, r, t) = h.0 in ((suc i, d, g, n, r, t), IsOutputOf-cons e es os h.1)

collect_outputs-IsOutputOf :
    (es : List Endpoint) (ss : Slots) → Fits es ss → All (IsOutputOf es) (collect_outputs es ss)
unfolding collect_outputs
collect_outputs-IsOutputOf [] ss h = tt
collect_outputs-IsOutputOf (e ∷ es) [] h = tt
collect_outputs-IsOutputOf (e ∷ es) (none ∷ ss) h =
    IsOutputOf-cons e es _ (collect_outputs-IsOutputOf es ss h.1)
collect_outputs-IsOutputOf (e ∷ es) (some v ∷ ss) h =
    subst
      (λ b. All (IsOutputOf (e ∷ es)) (
        if b
        then collect_outputs es ss
        else record { endpoint = e.name; value = v } ∷ collect_outputs es ss))
      (sym (ap is_input h.0.0))
      (
        (0, e, refl, refl, h.0.0, h.0.1),
        IsOutputOf-cons e es _ (collect_outputs-IsOutputOf es ss h.1),
      )

-- Every effect that a converted outputs table yields is for a declared output endpoint, and its value
-- has that endpoint's datapoint type.
pub convert_outputs-IsOutputOf :
    (f : Float) (es : List Endpoint) (t : LuaTable) {os : List OutputEffect}
    → convert_outputs f es t ≡ ok os
    → All (IsOutputOf es) os
unfolding convert_outputs
convert_outputs-IsOutputOf f es t {os} h =
    let (ss, p, q) = >>=-eq-ok (output_pairs f es t (replicate (length es) none)) _ h in
    subst (All (IsOutputOf es)) (ground arith)
      (collect_outputs-IsOutputOf es ss (output_pairs-Fits f es t _ {r = ss} (replicate-Fits es) p))
