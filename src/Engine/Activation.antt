-- ===== src/Engine/Activation.antt =====
-- A new engine is safe, the activation of a source keeps an engine safe, and a refused source changes
-- nothing.
use logik_smith.Prelude.{
  ◌≡◌, ◌≢◌, refl, true, false, none, List, [], ◌∷◌, arith, ◌⊎◌, inl, inr, subst, ◌==◌, length,
  replicate, Bool-cases,
}
use logik_smith.Prelude.Order.{list_ord, nat_ord}
use logik_smith.Prelude.Result.{Result, ok, err, Result-cases, >>=-eq-ok}
use logik_smith.BTreeMap.{keys}
use logik_smith.Text.{Text}
use logik_smith.Limits.{RuntimeLimits}
use logik_smith.Values.{Endpoint}
use logik_smith.Program.{LogicProgram, LogicError, LogicRevision, new_program, revision_for}
use logik_smith.State.{validate_state_map_with_limits, total_bytes}
use logik_smith.Lua.{Platform}
use logik_smith.Engine.{
  Engine, EngineConfig, unknown, active_logic_revision, try_new, validate_config,
}
use logik_smith.Engine.Activate.{
  SourceActivation, try_new_program, install, activate_source, replace_logic,
}
use logik_smith.Engine.Invariant.{IsSafe, FitsInputs}

replicate-FitsInputs : (es : List Endpoint) → FitsInputs none es (replicate (length es) unknown)
replicate-FitsInputs [] = tt
replicate-FitsInputs (e ∷ es) = (tt, replicate-FitsInputs es)

empty_valid : (limits : RuntimeLimits) → validate_state_map_with_limits [] limits ≡ ok tt
unfolding validate_state_map_with_limits total_bytes
empty_valid limits = ground arith

-- A new engine is safe: every input unknown, no state, no timers, no accepted time.
pub try_new-IsSafe :
    (platform : Platform) (config : EngineConfig) (limits : RuntimeLimits) {engine : Engine}
    → try_new platform config limits ≡ ok engine
    → IsSafe engine
unfolding try_new
try_new-IsSafe platform config limits {engine} h =
    let (u, v, e) = >>=-eq-ok (validate_config platform config limits) _ h in
    let fresh : Engine = record {
      config = config;
      limits = limits;
      inputs = replicate (length config.endpoints) unknown;
      state = [];
      pending_timers = [];
      last_accepted_at = none;
    } in
    let same_engine : fresh ≡ engine = ground arith in
    subst IsSafe same_engine (record {
      inputs_fit = replicate-FitsInputs config.endpoints;
      state_valid = empty_valid limits;
      timers_bound = omega arith;
      of_revision = tt;
    })

-- The program that a valid source makes carries the revision of its text.
pub try_new_program_sound :
    (platform : Platform) (source : Text) (limits : RuntimeLimits) {program : LogicProgram}
    → try_new_program platform source limits ≡ ok program
    → (program.source ≡ source) × (program.revision ≡ revision_for source)
unfolding try_new_program new_program
try_new_program_sound platform source limits h = (ground arith, ground arith)

pub install-IsSafe :
    (engine : Engine) (program : LogicProgram) → IsSafe engine → IsSafe (install engine program)
unfolding install
install-IsSafe engine program s = record {
  inputs_fit = s.inputs_fit;
  state_valid = s.state_valid;
  timers_bound = omega arith;
  of_revision = tt;
}

-- What the activation of a source did to an engine.
abbrev pub Activates :
    Platform → Engine → Text → Result LogicError SourceActivation × Engine → Type 0
Activates platform engine source (err e, after) = after ≡ engine
Activates platform engine source (ok activation, after) =
    (activation.logic_revision ≡ revision_for source)
    × (active_logic_revision after ≡ revision_for source)
    × (after.inputs ≡ engine.inputs)
    × (after.state ≡ engine.state)
    × (after.last_accepted_at ≡ engine.last_accepted_at)
    × (((activation.changed ≡ false)
          × (revision_for source ≡ active_logic_revision engine)
          × (after ≡ engine)
          × (activation.cancelled_timers ≡ []))
        ⊎ ((activation.changed ≡ true)
            × (revision_for source ≢ active_logic_revision engine)
            × (after.config.logic.source ≡ source)
            × (after.pending_timers ≡ [])
            × (activation.cancelled_timers ≡ keys engine.pending_timers)))

module _ (platform : Platform) (engine : Engine) (source : Text) where
  -- The activation of a source: a refused one leaves the engine exactly as it was. An accepted one
  -- makes the revision of that source the active one and keeps inputs, state and time: with the
  -- revision already active nothing changes, else the source is installed and every pending timer is
  -- cancelled and reported.
  pub activate_source_lem :
      Activates platform engine source (activate_source platform engine source)
  unfolding activate_source install
  activate_source_lem = elim (Result-cases (try_new_program platform source engine.limits)) [
    | inr (x, p) ↦ rw (p, activate_source) refl
    | inl (program, p) ↦
        let (s, r) = try_new_program_sound platform source engine.limits {program = program} p in
        elim (Bool-cases (program.revision == active_logic_revision engine)) [
          | inl e ↦
              rw (p, e, activate_source)
                (
                  r,
                  (ground (arith, r)),
                  refl,
                  refl,
                  refl,
                  inl (refl, ground (arith, r), refl, refl),
                )
          | inr f ↦
              rw (p, f, activate_source)
                (
                  r,
                  r,
                  refl,
                  refl,
                  refl,
                  inr (refl, (λ same_revision. ground (arith, r, f, same_revision)), s, refl, refl),
                )
        ]
  ]

  -- Whatever the source, a safe engine stays safe.
  pub activate_source-IsSafe : IsSafe engine → IsSafe (activate_source platform engine source).1
  unfolding activate_source
  activate_source-IsSafe s = elim (Result-cases (try_new_program platform source engine.limits)) [
    | inr (x, p) ↦ rw (p, activate_source) s
    | inl (program, p) ↦ elim (Bool-cases (program.revision == active_logic_revision engine)) [
      | inl e ↦ rw (p, e, activate_source) s
      | inr f ↦ rw (p, f, activate_source) (install-IsSafe engine program s)
    ]
  ]

  -- A replacement whose stated revision is not that of its source is refused, and one that is
  -- accepted makes the stated revision the active one; a refused one leaves the engine as it was.
  pub replace_logic_lem :
      (revision : LogicRevision)
      → (((x : LogicError) × (replace_logic platform engine source revision ≡ (err x, engine)))
          ⊎ (((replace_logic platform engine source revision).0 ≡ ok tt)
              × (revision ≡ revision_for source)
              × (active_logic_revision (replace_logic platform engine source revision).1
                  ≡ revision)))
  unfolding replace_logic install
  replace_logic_lem revision = elim (Result-cases (try_new_program platform source engine.limits)) [
    | inr (x, p) ↦ rw (p, replace_logic) (inl (x, refl))
    | inl (program, p) ↦
        let (s, r) = try_new_program_sound platform source engine.limits {program = program} p in
        elim (Bool-cases (program.revision == revision)) [
          | inr f ↦ rw (p, f, replace_logic) (inl (_, refl))
          | inl e ↦ elim (Bool-cases (program.revision == active_logic_revision engine)) [
            | inl g ↦
                rw (p, e, g, replace_logic) (inr (refl, (ground (arith, r)), (ground (arith, r))))
            | inr g ↦
                rw (p, e, g, replace_logic) (inr (refl, (ground (arith, r)), (ground (arith, r))))
          ]
        ]
  ]
