-- ===== src/Engine/Invariant.antt =====
-- The invariant of an engine, and what the input checks establish.
use logik_smith.Prelude.{
  ℕ, zero, suc, ◌≤◌, ◌≡◌, Option, none, some, List, [], ◌∷◌, All, arith, set, get_elem?, position,
  position_sound, subst,
}
use logik_smith.Prelude.Order.{list_ord, nat_ord, same, same_iff}
use logik_smith.Prelude.Result.{ok, >>=-eq-ok, ok_or}
use logik_smith.BTreeMap.{len}
use logik_smith.Identifiers.{EndpointName}
use logik_smith.Values.{Endpoint, input, TypedValue, MonotonicMs}
use logik_smith.State.{validate_state_map_with_limits}
use logik_smith.Timer.Effects.{IsOfRevision}
use logik_smith.Engine.{
  Engine, InputState, active_logic_revision, check_direction, validate_endpoint, check_dpt,
  validate_input, check_time, accept_time,
}

-- An absent time is before every other.
abbrev pub Before : Option MonotonicMs → Option MonotonicMs → Type 0
Before none b = Unit
Before (some a) none = ⊥
Before (some a) (some b) = a ≤ b

-- A known value is of the endpoint's datapoint type, on an input endpoint, and was observed at an
-- accepted time.
abbrev pub FitsValue :
    Option MonotonicMs → Endpoint → Option TypedValue → Option MonotonicMs → Type 0
FitsValue last e none none = Unit
FitsValue last e none (some t) = ⊥
FitsValue last e (some v) none = ⊥
FitsValue last e (some v) (some t) = (e.direction ≡ input) × (e.dpt ≡ v.dpt) × Before (some t) last

abbrev pub FitsInputs : Option MonotonicMs → List Endpoint → List InputState → Type 0
FitsInputs last [] [] = Unit
FitsInputs last [] (s ∷ ss) = ⊥
FitsInputs last (e ∷ es) [] = ⊥
FitsInputs last (e ∷ es) (s ∷ ss) = FitsValue last e s.value s.observed_at × FitsInputs last es ss

pub record IsSafe (engine : Engine) : Type 0 where
  pub inputs_fit : FitsInputs engine.last_accepted_at engine.config.endpoints engine.inputs
  pub state_valid : validate_state_map_with_limits engine.state engine.limits ≡ ok tt
  pub timers_bound : len engine.pending_timers ≤ engine.limits.max_pending_timers_per_block
  pub of_revision : All (IsOfRevision (active_logic_revision engine)) engine.pending_timers

pub Before-trans : (a b c : Option MonotonicMs) → Before a b → Before b c → Before a c
Before-trans none b c h k = tt
Before-trans (some a) none c h k = absurd h
Before-trans (some a) (some b) none h k = k
Before-trans (some a) (some b) (some c) h k = omega arith

FitsValue-mono :
    (a b : Option MonotonicMs) (e : Endpoint) (v : Option TypedValue) (t : Option MonotonicMs)
    → Before a b
    → FitsValue a e v t
    → FitsValue b e v t
FitsValue-mono a b e none none h f = tt
FitsValue-mono a b e none (some t) h f = f
FitsValue-mono a b e (some v) none h f = f
FitsValue-mono a b e (some v) (some t) h f = (f.0, f.1, Before-trans (some t) a b f.2 h)

pub FitsInputs-mono :
    (a b : Option MonotonicMs) (es : List Endpoint) (ss : List InputState)
    → Before a b
    → FitsInputs a es ss
    → FitsInputs b es ss
FitsInputs-mono a b [] [] h f = tt
FitsInputs-mono a b [] (s ∷ ss) h f = f
FitsInputs-mono a b (e ∷ es) [] h f = f
FitsInputs-mono a b (e ∷ es) (s ∷ ss) h f =
    (FitsValue-mono a b e s.value s.observed_at h f.0, FitsInputs-mono a b es ss h f.1)

pub FitsInputs-set :
    (last : Option MonotonicMs) (es : List Endpoint) (ss : List InputState) (i : ℕ) (e : Endpoint)
    (s : InputState)
    → get_elem? es i ≡ some e
    → FitsValue last e s.value s.observed_at
    → FitsInputs last es ss
    → FitsInputs last es (set ss i s)
FitsInputs-set last [] ss i e s g f h = cc
FitsInputs-set last (d ∷ es) [] i e s g f h = h
FitsInputs-set last (d ∷ es) (x ∷ ss) zero e s g f h =
    let eq : e ≡ d = ground arith in (subst (λ c. FitsValue last c s.value s.observed_at) eq f, h.1)
FitsInputs-set last (d ∷ es) (x ∷ ss) (suc i) e s g f h =
    (h.0, FitsInputs-set last es ss i e s g f h.1)

check_direction_sound :
    (name : EndpointName) (e : Endpoint) (j : ℕ) {i : ℕ}
    → check_direction name (some e) j ≡ ok i
    → (j ≡ i) × (e.direction ≡ input)
unfolding check_direction
check_direction_sound name e j h = (ground arith, ground arith)

check_dpt_sound :
    (name : EndpointName) (e : Endpoint) (v : TypedValue) (j : ℕ) {i : ℕ}
    → check_dpt name (some e) v j ≡ ok i
    → (j ≡ i) × (e.dpt ≡ v.dpt)
unfolding check_dpt
check_dpt_sound name e v j h = (ground arith, ground arith)

-- An accepted endpoint name is that of the input endpoint at the returned index.
pub validate_endpoint_sound :
    (engine : Engine) (name : EndpointName) {i : ℕ}
    → validate_endpoint engine name ≡ ok i
    → (e : Endpoint) × (get_elem? engine.config.endpoints i ≡ some e)
      × (e.name ≡ name)
      × (e.direction ≡ input)
unfolding validate_endpoint
validate_endpoint_sound engine name {i} h =
    let (j, p, q) =
      >>=-eq-ok (ok_or (position (λ endpoint. same endpoint.name name) engine.config.endpoints) _) _
        h in
    let (e, g, t) =
      position_sound (λ endpoint. same endpoint.name name) engine.config.endpoints {i = j}
        (ground arith) in
    let (k, d) = check_direction_sound name e j {i = i} (rw g at q) in
    (
      e,
      subst (λ n. get_elem? engine.config.endpoints n ≡ some e) k g,
      (same_iff e.name name).0 t,
      d,
    )

pub validate_input_sound :
    (engine : Engine) (name : EndpointName) (v : TypedValue) {i : ℕ}
    → validate_input engine name v ≡ ok i
    → (e : Endpoint) × (get_elem? engine.config.endpoints i ≡ some e)
      × (e.name ≡ name)
      × (e.direction ≡ input)
      × (e.dpt ≡ v.dpt)
unfolding validate_input
validate_input_sound engine name v {i} h =
    let (j, p, q) = >>=-eq-ok (validate_endpoint engine name) _ h in
    let (e, g, n, d) = validate_endpoint_sound engine name {i = j} p in
    let (k, t) = check_dpt_sound name e v j {i = i} (rw g at q) in
    (e, subst (λ m. get_elem? engine.config.endpoints m ≡ some e) k g, n, d, t)

check_time_sound :
    (last : Option MonotonicMs) (now : MonotonicMs)
    → check_time last now ≡ ok tt
    → Before last (some now)
unfolding check_time
check_time_sound none now h = tt
check_time_sound (some t) now h = ground arith

-- An accepted time is no earlier than the one before, and only it is written.
pub accept_time_sound :
    (engine : Engine) (now : MonotonicMs) {accepted : Engine}
    → accept_time engine now ≡ ok accepted
    → Before engine.last_accepted_at (some now)
      × (record engine { last_accepted_at = some now } ≡ accepted)
unfolding accept_time
accept_time_sound engine now h =
    let (u, p, q) = >>=-eq-ok (check_time engine.last_accepted_at now) _ h in
    (check_time_sound engine.last_accepted_at now p, ground arith)

pub accept_time-IsSafe :
    (engine : Engine) (now : MonotonicMs) {accepted : Engine}
    → IsSafe engine
    → accept_time engine now ≡ ok accepted
    → IsSafe accepted
accept_time-IsSafe engine now {accepted} s h =
    let (b, e) = accept_time_sound engine now {accepted = accepted} h in
    subst IsSafe e (record {
      inputs_fit =
          FitsInputs-mono engine.last_accepted_at (some now) engine.config.endpoints engine.inputs b
            s.inputs_fit;
      state_valid = s.state_valid;
      timers_bound = s.timers_bound;
      of_revision = s.of_revision;
    })
