-- ===== src/Engine/Handler.antt =====
-- The common part of the live calls: the handler runs and its transition is committed.
use logik_smith.Prelude.{◌≡◌, ◌≢◌, refl, Option, some, List, arith, ◌⊎◌, inl, subst}
use logik_smith.Prelude.Order.{list_ord, nat_ord}
use logik_smith.Prelude.Result.{Result, ok, err, >>=-eq-ok}
use logik_smith.BTreeMap.{extend}
use logik_smith.Values.{MonotonicMs}
use logik_smith.Program.{LogicError, EventError, panicked}
use logik_smith.State.{TransientState, merge_state_with_limits, validate_state_map_with_limits}
use logik_smith.Timer.Effects.{apply_timer_effects-IsOfRevision}
use logik_smith.Execution.{Trigger, InputSnapshot, Transition, TimeSample}
use logik_smith.Lua.{Platform, Probe}
use logik_smith.Lua.Execute.Contract.{IsAccepted, execute_logic-IsAccepted}
use logik_smith.Engine.{Engine, active_logic_revision, input_snapshots}
use logik_smith.Engine.Run.{commit, settle, outcome_of_handler, run_handler}
use logik_smith.Engine.Invariant.{IsSafe}

-- A call that left a safe engine, without the panic of an `expect`, with its configuration and limits
-- as they were, and with the time of the call, or the one before it, as the last accepted time.
pub record Sound {A : Type 0} (engine : Engine) (now : MonotonicMs)
    (r : Result EventError A × Engine) : Type 0 where
  pub safe : IsSafe r.1
  pub calm : r.0 ≢ err panicked
  pub config : r.1.config ≡ engine.config
  pub limits : r.1.limits ≡ engine.limits
  pub time : (r.1.last_accepted_at ≡ engine.last_accepted_at) ⊎ (r.1.last_accepted_at ≡ some now)

merged_valid :
    (engine : Engine) (t : Transition) {after : TransientState}
    → merge_state_with_limits engine.state t.state engine.limits ≡ ok after
    → validate_state_map_with_limits after engine.limits ≡ ok tt
unfolding merge_state_with_limits
merged_valid engine t {after} h =
    let merged = extend engine.state t.state in
    let (u, v, e) = >>=-eq-ok (validate_state_map_with_limits merged engine.limits) _ h in
    let eq : merged ≡ after = ground arith in
    subst (λ m. validate_state_map_with_limits m engine.limits ≡ ok tt) eq v

module _ (platform : Platform) (engine : Engine) (now : MonotonicMs) (time : TimeSample) where
  commit-Sound :
      (cause : Trigger) (snapshots : List InputSnapshot) (t : Transition)
      → IsSafe engine
      → IsAccepted engine.config.endpoints engine.state engine.pending_timers now engine.limits t
      → Sound engine now (commit engine cause snapshots t now time)
  unfolding commit
  commit-Sound cause snapshots t s a =
      let (after, m) = a.merges in
      rw (m, commit)
        (record {
          safe = record {
            inputs_fit = s.inputs_fit;
            state_valid = merged_valid engine t {after = after} m;
            timers_bound = a.pending_bound (active_logic_revision engine);
            of_revision =
                apply_timer_effects-IsOfRevision engine.pending_timers t.timers now
                  (active_logic_revision engine) s.of_revision;
          };
          calm = λ e. cc;
          config = refl;
          limits = refl;
          time = inl refl;
        })

  settle-Sound :
      (cause : Trigger) (snapshots : List InputSnapshot) (outcome : Result LogicError Transition)
      → IsSafe engine
      → ((t : Transition)
          → outcome ≡ ok t
          → IsAccepted engine.config.endpoints engine.state engine.pending_timers now engine.limits
              t)
      → Sound engine now (settle engine cause snapshots outcome now time)
  unfolding settle
  settle-Sound cause snapshots (ok t) s a = commit-Sound cause snapshots t s (a t refl)
  settle-Sound cause snapshots (err e) s a = record {
    safe = s;
    calm = λ p. cc;
    config = refl;
    limits = refl;
    time = inl refl;
  }

  pub run_handler-Sound :
      (cause : Trigger) (probe : Option Probe)
      → IsSafe engine
      → Sound engine now (run_handler platform engine cause now time probe)
  unfolding run_handler outcome_of_handler
  run_handler-Sound cause probe s =
      settle-Sound cause (input_snapshots engine now)
        (outcome_of_handler platform engine cause now time probe) s
        λ t h.
          execute_logic-IsAccepted platform engine.config.endpoints engine.config.logic
            (input_snapshots engine now) cause engine.state engine.pending_timers now time
            engine.limits probe {t = t} s.timers_bound s.state_valid h
