-- ===== src/Values.antt =====
-- crates/logiksmith-core/src/values.rs: datapoint types, typed values, endpoints, events.
pub mod Typed
use logik_smith.Prelude.{
  ℕ, ◌+◌, ◌/◌, ◌%◌, ◌^◌, Bool, true, false, Option, none, some, List, ltb, leb, ◌==◌, ◌&&◌, ◌||◌,
  not, if◌then◌else◌,
}
use logik_smith.Prelude.Result.{Result, ok, err, ◌>>=◌, ◌>>◌, reject}
use logik_smith.Prelude.Int.{ℤ, pos, negsuc, eqb_ℤ, leb_ℤ}
use logik_smith.Identifiers.{EndpointName}

pub data EndpointDirection : Type 0 where
  input output : EndpointDirection

-- `direction == EndpointDirection::Input`
abbrev pub is_input : EndpointDirection → Bool
is_input input = true
is_input output = false

-- `u16` parts.
pub record Dpt : Type 0 where
  pub major : ℕ
  pub subtype : ℕ

pub data DptError : Type 0 where
  invalid_format : DptError
  major_out_of_range : ℕ → DptError
  subtype_out_of_range : ℕ → DptError

-- The associated constants BOOL, PERCENT and TEMPERATURE.
abbrev pub dpt_bool : Dpt
dpt_bool = record { major = 1; subtype = 1 }

abbrev pub dpt_percent : Dpt
dpt_percent = record { major = 5; subtype = 1 }

abbrev pub dpt_temperature : Dpt
dpt_temperature = record { major = 9; subtype = 1 }

-- `Dpt::new`
unfoldable pub new_dpt : ℕ → ℕ → Result DptError Dpt
new_dpt major subtype =
    if major == 0
    then err (major_out_of_range major)
    else if ltb 999 subtype
    then err (subtype_out_of_range subtype)
    else ok (record { major = major; subtype = subtype })

-- The derived `==` of `Dpt`.
abbrev pub dpt_eq : Dpt → Dpt → Bool
dpt_eq a b = a.major == b.major && a.subtype == b.subtype

unfoldable pub is_bool : Dpt → Bool
is_bool dpt = dpt.major == dpt_bool.major && dpt.subtype == dpt_bool.subtype

unfoldable pub is_percent : Dpt → Bool
is_percent dpt = dpt.major == dpt_percent.major && dpt.subtype == dpt_percent.subtype

unfoldable pub is_temperature : Dpt → Bool
is_temperature dpt = dpt.major == dpt_temperature.major && dpt.subtype == dpt_temperature.subtype

unfoldable pub is_supported : Dpt → Bool
is_supported dpt = is_bool dpt || is_percent dpt || is_temperature dpt

pub record Endpoint : Type 0 where
  pub name : EndpointName
  pub direction : EndpointDirection
  pub dpt : Dpt

-- `Value`: a temperature is in signed hundredths of a degree.
pub data Value : Type 0 where
  switch : Bool → Value
  percent : ℕ → Value
  temperature : ℤ → Value

pub record TypedValue : Type 0 where
  pub dpt : Dpt
  pub value : Value

pub data ValueError : Type 0 where
  unsupported_dpt : Dpt → ValueError
  dpt_value_mismatch : Dpt → Value → ValueError
  percent_out_of_range : ℕ → ValueError
  temperature_not_finite temperature_precision temperature_out_of_range : ValueError

-- The last two arms of the match in `TypedValue::new`.
unfoldable pub mismatch : Dpt → Value → Result ValueError TypedValue
mismatch dpt value =
    if not (is_supported dpt) then err (unsupported_dpt dpt) else err (dpt_value_mismatch dpt value)

-- `TypedValue::new`
unfoldable pub new_typed_value : Dpt → Value → Result ValueError TypedValue
unfolding mismatch
new_typed_value dpt (switch b) =
    if is_bool dpt then ok (record { dpt = dpt; value = switch b }) else mismatch dpt (switch b)
new_typed_value dpt (percent p) =
    if is_percent dpt && leb p 100
    then ok (record { dpt = dpt; value = percent p })
    else if is_percent dpt
    then err (percent_out_of_range p)
    else mismatch dpt (percent p)
new_typed_value dpt (temperature t) =
    if is_temperature dpt
    then ok (record { dpt = dpt; value = temperature t })
    else mismatch dpt (temperature t)

-- `TypedValue::bool`
abbrev pub typed_bool : Bool → TypedValue
typed_bool b = record { dpt = dpt_bool; value = switch b }

-- `TypedValue::percent`
unfoldable pub typed_percent : ℕ → Result ValueError TypedValue
typed_percent p = new_typed_value dpt_percent (percent p)

-- `TypedValue::temperature_centi_degrees`
unfoldable pub temperature_centi_degrees : ℤ → Result ValueError TypedValue
temperature_centi_degrees t = new_typed_value dpt_temperature (temperature t)

-- The operations of `f64` that the conversion of a temperature uses. A float is its bit pattern.
pub record Float : Type 0 where
  -- `value * 100.0`, `value.round()`, `a - b`, `value.abs()`
  pub times_100 : ℕ → ℕ
  pub round : ℕ → ℕ
  pub minus : ℕ → ℕ → ℕ
  pub abs : ℕ → ℕ
  -- `value > 1e-9`, `value < i32::MIN as f64`, `value > i32::MAX as f64`
  pub above_tolerance : ℕ → Bool
  pub below_i32 : ℕ → Bool
  pub above_i32 : ℕ → Bool
  -- `value as i32`, `value as f64` of an `i64`
  pub to_i32 : ℕ → ℤ
  pub of_i64 : ℤ → ℕ
  -- `number <= 0.0 || number.fract() != 0.0 || number > u32::MAX as f64`, and `number as u32`
  pub is_whole_u32 : ℕ → Bool
  pub to_u32 : ℕ → ℕ

-- `f64::is_finite` on a bit pattern: the eleven exponent bits are not all ones.
unfoldable pub is_finite : ℕ → Bool
is_finite bits = not ((bits / 2 ^ 52) % 2048 == 2047)

-- `TypedValue::temperature`
unfoldable pub typed_temperature : Float → ℕ → Result ValueError TypedValue
typed_temperature f value = do
  reject (not (is_finite value)) temperature_not_finite
  let scaled = f.times_100 value
  let rounded = f.round scaled
  reject (f.above_tolerance (f.abs (f.minus scaled rounded))) temperature_precision
  reject (f.below_i32 rounded || f.above_i32 rounded) temperature_out_of_range
  temperature_centi_degrees (f.to_i32 rounded)

-- The derived `==` of `Value` and of `TypedValue`.
unfoldable pub value_eq : Value → Value → Bool
value_eq (switch true) (switch b) = b
value_eq (switch false) (switch b) = not b
value_eq (percent p) (percent q) = p == q
value_eq (temperature s) (temperature t) = eqb_ℤ s t
value_eq _ _ = false

unfoldable pub typed_eq : TypedValue → TypedValue → Bool
unfolding value_eq
typed_eq a b = dpt_eq a.dpt b.dpt && value_eq a.value b.value

-- `Option<TypedValue> == Option<TypedValue>`
unfoldable pub option_typed_eq : Option TypedValue → Option TypedValue → Bool
unfolding typed_eq
option_typed_eq none none = true
option_typed_eq (some a) (some b) = typed_eq a b
option_typed_eq _ _ = false

pub record InputEvent : Type 0 where
  pub endpoint : EndpointName
  pub value : TypedValue

pub record OutputEffect : Type 0 where
  pub endpoint : EndpointName
  pub value : TypedValue

pub data InputUpdate : Type 0 where
  observe : TypedValue → InputUpdate
  trigger : TypedValue → InputUpdate
  invalidate : InputUpdate

-- `MonotonicMs`, a `u64`.
abbrev pub MonotonicMs : Type 0
MonotonicMs = ℕ

-- `MonotonicMs::checked_add`
unfoldable pub checked_add : MonotonicMs → ℕ → Option MonotonicMs
checked_add t milliseconds =
    if ltb (t + milliseconds) (2 ^ 64) then some (t + milliseconds) else none
