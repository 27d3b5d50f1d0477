-- ===== src/Engine/Safety.antt =====
-- The input updates of an engine keep its invariant, and none of them panics.
use logik_smith.Prelude.{
  ℕ, ◌≡◌, ◌≢◌, refl, Option, some, arith, get_elem?, inl, inr, subst, sym, ap, ◌∙◌,
}
use logik_smith.Prelude.Order.{list_ord, nat_ord}
use logik_smith.Prelude.Result.{Result, ok, err, Result-cases, map_ok}
use logik_smith.Identifiers.{EndpointName}
use logik_smith.Values.{
  Endpoint, input, TypedValue, InputUpdate, observe, trigger, invalidate, MonotonicMs,
}
use logik_smith.Program.{EventError, panicked}
use logik_smith.Execution.{by_input, input_trigger, TimeSample}
use logik_smith.Lua.{Platform, Probe}
use logik_smith.Engine.{
  Engine, InputState, validate_endpoint, validate_input, check_time, accept_time,
}
use logik_smith.Engine.Handler.{Sound, run_handler-Sound}
use logik_smith.Engine.Updates.{
  set_input, input_value, update_index, apply_update, process_input_update,
}
use logik_smith.Engine.Invariant.{
  IsSafe, Before, FitsValue, FitsInputs-set, validate_endpoint_sound, validate_input_sound,
  accept_time_sound, accept_time-IsSafe,
}

set_input-IsSafe :
    (engine : Engine) (i : ℕ) (e : Endpoint) (x : InputState)
    → get_elem? engine.config.endpoints i ≡ some e
    → FitsValue engine.last_accepted_at e x.value x.observed_at
    → IsSafe engine
    → IsSafe (set_input engine i x)
unfolding set_input
set_input-IsSafe engine i e x g f s = record {
  inputs_fit =
      FitsInputs-set engine.last_accepted_at engine.config.endpoints engine.inputs i e x g f
        s.inputs_fit;
  state_valid = s.state_valid;
  timers_bound = s.timers_bound;
  of_revision = s.of_revision;
}

-- The endpoint at an accepted index, whose type the carried value has.
abbrev Carries : Endpoint → InputUpdate → Type 0
Carries e (observe v) = e.dpt ≡ v.dpt
Carries e (trigger v) = e.dpt ≡ v.dpt
Carries e invalidate = Unit

update_index_sound :
    (engine : Engine) (name : EndpointName) (update : InputUpdate) {i : ℕ}
    → update_index engine name update ≡ ok i
    → (e : Endpoint) × (get_elem? engine.config.endpoints i ≡ some e)
      × (e.direction ≡ input)
      × Carries e update
unfolding update_index
update_index_sound engine name (observe v) {i} h =
    let (e, g, n, d, t) = validate_input_sound engine name v {i = i} h in (e, g, d, t)
update_index_sound engine name (trigger v) {i} h =
    let (e, g, n, d, t) = validate_input_sound engine name v {i = i} h in (e, g, d, t)
update_index_sound engine name invalidate {i} h =
    let (e, g, n, d) = validate_endpoint_sound engine name {i = i} h in (e, g, d, tt)

pub map_ok-panicked {ℓ κ} :
    {A : Type ℓ} {B : Type κ} (f : A → B) (r : Result EventError A)
    → r ≢ err panicked
    → map_ok f r ≢ err panicked
map_ok-panicked f (ok a) h e = cc
map_ok-panicked f (err x) h e = h (ground arith)

validate_endpoint-calm :
    (engine : Engine) (name : EndpointName) → validate_endpoint engine name ≢ err panicked
unfolding validate_endpoint
validate_endpoint-calm engine name h = ground arith

validate_input-calm :
    (engine : Engine) (name : EndpointName) (v : TypedValue)
    → validate_input engine name v ≢ err panicked
unfolding validate_input
validate_input-calm engine name v h = ground (arith, validate_endpoint-calm engine name)

update_index-calm :
    (engine : Engine) (name : EndpointName) (update : InputUpdate)
    → update_index engine name update ≢ err panicked
unfolding update_index
update_index-calm engine name (observe v) = validate_input-calm engine name v
update_index-calm engine name (trigger v) = validate_input-calm engine name v
update_index-calm engine name invalidate = validate_endpoint-calm engine name

pub accept_time-calm : (engine : Engine) (now : MonotonicMs) → accept_time engine now ≢ err panicked
unfolding accept_time check_time
accept_time-calm engine now h = ground arith

-- A refused call leaves the engine as it was.
pub refused-Sound :
    {A : Type 0} (engine : Engine) (now : MonotonicMs) (x : EventError)
    → IsSafe engine
    → x ≢ panicked
    → Sound {A = A} engine now (err x, engine)
refused-Sound engine now x s c = record {
  safe = s;
  calm = λ p. c (ground arith);
  config = refl;
  limits = refl;
  time = inl refl;
}

-- The rest of a call after its time was accepted.
pub after_accept-Sound :
    {A : Type 0} (engine accepted : Engine) (now : MonotonicMs) (r : Result EventError A × Engine)
    → accept_time engine now ≡ ok accepted
    → Sound accepted now r
    → Sound engine now r
after_accept-Sound engine accepted now r p s =
    let (b, e) = accept_time_sound engine now {accepted = accepted} p in
    record {
      safe = s.safe;
      calm = s.calm;
      config = s.config ∙ sym (ap (λ (x : Engine). x.config) e);
      limits = s.limits ∙ sym (ap (λ (x : Engine). x.limits) e);
      time = elim s.time [
        | inl same_time ↦ inr (same_time ∙ sym (ap (λ (x : Engine). x.last_accepted_at) e))
        | inr at_now ↦ inr at_now
      ];
    }

module _ (platform : Platform) (engine : Engine) (now : MonotonicMs) (time : TimeSample)
    (probe : Option Probe) where
  apply_update-Sound :
      (i : ℕ) (e : Endpoint) (name : EndpointName) (update : InputUpdate)
      → IsSafe engine
      → engine.last_accepted_at ≡ some now
      → get_elem? engine.config.endpoints i ≡ some e
      → e.direction ≡ input
      → Carries e update
      → Sound engine now (apply_update platform engine i name update now time probe)
  unfolding apply_update set_input
  apply_update-Sound i e name (observe v) s l g d c = record {
    safe =
        set_input-IsSafe engine i e _ g
          (d, c, subst (λ x. Before (some now) x) (sym l) (omega arith)) s;
    calm = λ p. cc;
    config = refl;
    limits = refl;
    time = inl refl;
  }
  apply_update-Sound i e name invalidate s l g d c = record {
    safe = set_input-IsSafe engine i e _ g tt s;
    calm = λ p. cc;
    config = refl;
    limits = refl;
    time = inl refl;
  }
  apply_update-Sound i e name (trigger v) s l g d c =
      let ran =
        run_handler-Sound platform
          (set_input engine i (record { value = some v; observed_at = some now })) now time
          (by_input (input_trigger name v (input_value engine i))) probe
          (set_input-IsSafe engine i e _ g
            (d, c, subst (λ x. Before (some now) x) (sym l) (omega arith)) s) in
      record {
        safe = ran.safe;
        calm = map_ok-panicked some _ ran.calm;
        config = ran.config;
        limits = ran.limits;
        time = ran.time;
      }

module _ (platform : Platform) (engine : Engine) (now : MonotonicMs) (time : TimeSample)
    (probe : Option Probe) where
  accepted-Sound :
      (name : EndpointName) (update : InputUpdate) (i : ℕ) (accepted : Engine)
      → update_index engine name update ≡ ok i
      → accept_time engine now ≡ ok accepted
      → IsSafe engine
      → Sound accepted now (apply_update platform accepted i name update now time probe)
  accepted-Sound name update i accepted p q s =
      let (e, g, d, c) = update_index_sound engine name update {i = i} p in
      let (b, w) = accept_time_sound engine now {accepted = accepted} q in
      apply_update-Sound platform accepted now time probe i e name update
        (accept_time-IsSafe engine now {accepted = accepted} s q)
        (sym (ap (λ (x : Engine). x.last_accepted_at) w))
        (subst (λ (x : Engine). get_elem? x.config.endpoints i ≡ some e) w g) d c

  -- From a safe engine, every observation, trigger or invalidation of any input leaves a safe engine,
  -- accepted or refused: input values keep their endpoint's type and an accepted time, the state
  -- stays valid, pending timers stay within their limit and belong to the active revision. The
  -- `expect` on the merge of a validated transition never panics; configuration and limits stay.
  pub process_input_update-Sound :
      (name : EndpointName) (update : InputUpdate)
      → IsSafe engine
      → Sound engine now (process_input_update platform engine name update now time probe)
  unfolding process_input_update
  process_input_update-Sound name update s = elim (Result-cases (update_index engine name update)) [
    | inr (x, p) ↦
        rw (p, process_input_update)
          (refused-Sound engine now x s (λ e. update_index-calm engine name update (p ∙ ap err e)))
    | inl (i, p) ↦ elim (Result-cases (accept_time engine now)) [
      | inr (x, q) ↦
          rw (p, q, process_input_update)
            (refused-Sound engine now x s (λ e. accept_time-calm engine now (q ∙ ap err e)))
      | inl (accepted, q) ↦
          rw (p, q, process_input_update)
            (after_accept-Sound engine accepted now _ q
              (accepted-Sound name update i accepted p q s))
    ]
  ]
