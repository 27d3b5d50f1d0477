-- ===== src/Values/Typed.antt =====
-- What a constructed typed value guarantees, and that the derived equality is equality.
use logik_smith.Prelude.{Bool-cases, inl, inr, leb, ◌≤◌, ◌≡◌, ◌↔◌, refl, true, false, arith, ap}
use logik_smith.Prelude.Result.{Result, ok, err}
use logik_smith.Prelude.Int.{eqb_ℤ_iff}
use logik_smith.Values.{
  Dpt, Value, switch, percent, temperature, TypedValue, dpt_bool, dpt_percent, dpt_temperature,
  is_bool, is_percent, is_temperature, is_supported, ValueError, mismatch, new_typed_value,
  value_eq, typed_eq,
}

-- The pairing of a datapoint type with its payload, percentages within 0..=100.
abbrev pub IsPaired : Dpt → Value → Type 0
IsPaired d (switch b) = d ≡ dpt_bool
IsPaired d (percent p) = (d ≡ dpt_percent) × (p ≤ 100)
IsPaired d (temperature t) = d ≡ dpt_temperature

-- The verdict on a payload: taken, it belongs to the datapoint type and both are stored unchanged;
-- refused, it does not belong to the type.
abbrev pub Decides : Dpt → Value → Result ValueError TypedValue → Type 0
Decides d v (ok t) = IsPaired d v × (t.dpt ≡ d) × (t.value ≡ v)
Decides d v (err e) = ¬ IsPaired d v

mismatch-Decides : (d : Dpt) (v : Value) → ¬ IsPaired d v → Decides d v (mismatch d v)
unfolding mismatch
mismatch-Decides d v h = elim (Bool-cases (is_supported d)) [
  | inl e ↦ rw (e, mismatch) h
  | inr e ↦ rw (e, mismatch) h
]

-- `TypedValue::new` accepts a payload exactly when it belongs to the datapoint type (a percentage
-- being at most 100), and then stores both unchanged.
pub new_typed_value_iff : (d : Dpt) (v : Value) → Decides d v (new_typed_value d v)
unfolding new_typed_value is_bool is_percent is_temperature
new_typed_value_iff d (switch b) = elim (Bool-cases (is_bool d)) [
  | inl e ↦ rw (e, new_typed_value) ((ground arith), refl, refl)
  | inr e ↦ rw (e, new_typed_value) (mismatch-Decides d (switch b) (λ h. ground arith))
]
new_typed_value_iff d (percent p) = elim (Bool-cases (is_percent d)) [
  | inr e ↦
      rw (e, new_typed_value) (mismatch-Decides d (percent p) (λ (same_dpt, bound). ground arith))
  | inl e ↦ elim (Bool-cases (leb p 100)) [
    | inl f ↦ rw (e, f, new_typed_value) (((ground arith), (ground arith)), refl, refl)
    | inr f ↦ rw (e, f, new_typed_value) (λ (same_dpt, bound). ground arith)
  ]
]
new_typed_value_iff d (temperature t) = elim (Bool-cases (is_temperature d)) [
  | inl e ↦ rw (e, new_typed_value) ((ground arith), refl, refl)
  | inr e ↦ rw (e, new_typed_value) (mismatch-Decides d (temperature t) (λ h. ground arith))
]

pub value_eq_iff : (a b : Value) → (value_eq a b ≡ true) ↔ (a ≡ b)
unfolding value_eq
value_eq_iff (switch true) (switch c) = (λ h. ground arith, λ h. ground arith)
value_eq_iff (switch false) (switch c) = (λ h. ground arith, λ h. ground arith)
value_eq_iff (percent p) (percent q) = (λ h. ground arith, λ h. ground arith)
value_eq_iff (temperature s) (temperature t) =
    (λ h. ap temperature ((eqb_ℤ_iff s t).0 h), λ h. ground (arith, (eqb_ℤ_iff s t).1))
value_eq_iff (switch true) (percent q) = (λ h. cc, λ h. cc)
value_eq_iff (switch true) (temperature t) = (λ h. cc, λ h. cc)
value_eq_iff (switch false) (percent q) = (λ h. cc, λ h. cc)
value_eq_iff (switch false) (temperature t) = (λ h. cc, λ h. cc)
value_eq_iff (percent p) (switch c) = (λ h. cc, λ h. cc)
value_eq_iff (percent p) (temperature t) = (λ h. cc, λ h. cc)
value_eq_iff (temperature s) (switch c) = (λ h. cc, λ h. cc)
value_eq_iff (temperature s) (percent q) = (λ h. cc, λ h. cc)

pub typed_eq_iff : (a b : TypedValue) → (typed_eq a b ≡ true) ↔ (a ≡ b)
unfolding typed_eq
typed_eq_iff a b = (
  λ h. ground (arith, (value_eq_iff a.value b.value).0),
  λ h. ground (arith, (value_eq_iff a.value b.value).1),
)
