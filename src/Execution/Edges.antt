-- ===== src/Execution/Edges.antt =====
-- The transition flags of a triggering input.
use logik_smith.Prelude.{◌≡◌, ◌≢◌, ◌↔◌, refl, true, false, Option, none, some, arith}
use logik_smith.Identifiers.{EndpointName}
use logik_smith.Values.{Value, switch, TypedValue}
use logik_smith.Values.Typed.{typed_eq_iff}
use logik_smith.Execution.{InputTrigger, input_trigger}

-- The value before was known, and its payload was `w`.
abbrev Was : Option TypedValue → Value → Type 0
Was previous w = (old : TypedValue) × (previous ≡ some old) × (old.value ≡ w)

-- What the flags of a triggering input mean.
abbrev pub HasFlags : TypedValue → Option TypedValue → InputTrigger → Type 0
HasFlags v previous t =
    ((t.rising ≡ true) ↔ (Was previous (switch false) × (v.value ≡ switch true)))
    × ((t.falling ≡ true) ↔ (Was previous (switch true) × (v.value ≡ switch false)))
    × ((t.changed ≡ true) ↔ ((old : TypedValue) × (previous ≡ some old) × (old ≢ v)))

-- `rising` is set exactly when a known `false` becomes `true`, `falling` exactly when a known `true`
-- becomes `false`, and `changed` exactly when a known value is replaced by another one; with no known
-- value before, none of them is set.
pub input_trigger_flags :
    (e : EndpointName) (v : TypedValue) (previous : Option TypedValue)
    → HasFlags v previous (input_trigger e v previous)
unfolding input_trigger
input_trigger_flags e v none = (
  (λ h. cc, λ ((old, known, was), now). cc),
  (λ h. cc, λ ((old, known, was), now). cc),
  (λ h. cc, λ (old, known, differs). cc),
)
input_trigger_flags e v (some old) = (
  (λ h. ((old, refl, ground arith), ground arith), λ ((w, known, was), now). ground arith),
  (λ h. ((old, refl, ground arith), ground arith), λ ((w, known, was), now). ground arith),
  (
    λ h. (old, refl, λ p. ground (arith, (typed_eq_iff old v).1)),
    λ (w, known, unlike). ground (arith, (typed_eq_iff old v).0, unlike),
  ),
)
