-- ===== src/Runtime/Rollback.antt =====
-- A turn that an input update starts is all or nothing, but for the two limits on a cascade.
use logik_smith.Prelude.{
  false, Bool-cases, ℕ, ◌≤◌, ◌<◌, ◌≡◌, ◌≢◌, refl, Bool, Option, none, some, List, [], ◌∷◌, length,
  arith, ◌⊎◌, inl, inr, ap,
}
use logik_smith.Prelude.Result.{Result, ok, err, Result-cases}
use logik_smith.Identifiers.{BlockId, EndpointName}
use logik_smith.Values.{InputUpdate, MonotonicMs}
use logik_smith.Program.{EventError}
use logik_smith.Execution.{Execution}
use logik_smith.Lua.{Platform, Probe}
use logik_smith.Block.{LogicBlock}
use logik_smith.Runtime.{
  Runtime, BlockExecution, ClockSample, BudgetClock, RuntimeEventError, out_of_fuel, validate_usage,
  block_index, nth_block, check_order, ensure_time, set_block, assign_execution_id,
}
use logik_smith.Runtime.Input.{check_update, finish, deliver, process_input_update_sampled_single}
use logik_smith.Runtime.Signals.{Cascade}
use logik_smith.Runtime.Propagate.{Outcome}
use logik_smith.Runtime.Bounds.{Extends}
use logik_smith.Runtime.Fuel.{propagate_from_execution-Extends}
use logik_smith.Runtime.Cascades.{
  should_rollback_after_propagation, check_turn, settle_turn, run_cascade, root_probe, after_root,
  process_input_update_sampled,
}

-- What a turn may return and leave: executions within the limit, with the usage checked if there are
-- any; or an error that restores the runtime, unless it is one of the two limits on a cascade.
abbrev pub IsTurn : Runtime → Result RuntimeEventError (List BlockExecution) × Runtime → Type 0
IsTurn runtime r =
    ((executions : List BlockExecution) × (r.0 ≡ ok executions)
      × (length executions ≤ runtime.limits.max_cascade_executions)
      × ((executions ≡ []) ⊎ (validate_usage r.1 ≡ ok tt)))
    ⊎ ((e : RuntimeEventError) × (r.0 ≡ err e)
        × (e ≢ out_of_fuel)
        × ((should_rollback_after_propagation e ≡ false) ⊎ (r.1 ≡ runtime)))

validate_usage-fuelled :
    (runtime : Runtime) (e : RuntimeEventError) → validate_usage runtime ≡ err e → e ≢ out_of_fuel
unfolding validate_usage
validate_usage-fuelled runtime e h p = ground arith

check_update-fuelled :
    (runtime : Runtime) (id : BlockId) (endpoint : EndpointName) (update : InputUpdate)
    (now : MonotonicMs) (e : RuntimeEventError)
    → check_update runtime id endpoint update now ≡ err e
    → e ≢ out_of_fuel
unfolding check_update block_index nth_block ensure_time check_order
check_update-fuelled runtime id endpoint update now e h p = ground arith

-- Executed or not, the single update keeps the limits and does not run out of fuel.
pub finish_lem :
    (runtime : Runtime) (index : ℕ) (id : BlockId) (live : Bool) (block : LogicBlock)
    (result : Result EventError (Option Execution)) (now : MonotonicMs)
    → ((finish runtime index id live block result now).1.limits ≡ runtime.limits)
      × ((finish runtime index id live block result now).0 ≢ err out_of_fuel)
unfolding finish set_block assign_execution_id
finish_lem runtime index id live block (err e) now = (refl, λ p. cc)
finish_lem runtime index id live block (ok none) now = (refl, λ p. cc)
finish_lem runtime index id live block (ok (some x)) now = (refl, λ p. cc)

module _ (platform : Platform) (runtime : Runtime) (id : BlockId) (endpoint : EndpointName)
    (update : InputUpdate) (sample : ClockSample) where
  single_lem :
      (probe : Option Probe)
      → ((process_input_update_sampled_single platform runtime id endpoint update sample
            probe).1.limits
          ≡ runtime.limits)
        × ((process_input_update_sampled_single platform runtime id endpoint update sample probe).0
            ≢ err out_of_fuel)
  unfolding process_input_update_sampled_single deliver
  single_lem probe =
      elim (Result-cases (check_update runtime id endpoint update sample.monotonic_ms)) [
        | inr (e, h) ↦
            rw (h, process_input_update_sampled_single)
              (
                refl,
                λ p.
                    check_update-fuelled runtime id endpoint update sample.monotonic_ms e h
                      (ground arith),
              )
        | inl ((index, block), h) ↦
            rw (h, process_input_update_sampled_single)
              (finish_lem runtime index id _ _ _ sample.monotonic_ms)
      ]

module _ (platform : Platform) (checkpoint : Runtime) (sample : ClockSample)
    (clock : Option BudgetClock) where
  check_turn-IsTurn :
      (c : Cascade)
      → length c.executions ≤ checkpoint.limits.max_cascade_executions
      → IsTurn checkpoint (check_turn checkpoint c)
  unfolding check_turn
  check_turn-IsTurn c h = elim (Result-cases (validate_usage c.runtime)) [
    | inl (u, e) ↦ rw (e, check_turn) (inl (c.executions, refl, h, inr e))
    | inr (x, e) ↦
        rw (e, check_turn) (inr (x, refl, validate_usage-fuelled c.runtime x e, inr refl))
  ]

  pub settle_turn-IsTurn :
      (floor : ℕ) (r : Outcome)
      → Extends checkpoint.limits.max_cascade_executions floor r
      → IsTurn checkpoint (settle_turn checkpoint r)
  unfolding settle_turn
  settle_turn-IsTurn floor (ok u, c) e = check_turn-IsTurn c e.within.bound
  settle_turn-IsTurn floor (err x, c) e = inr (
    x,
    refl,
    λ p. e.fuelled (ap err p),
    elim (Bool-cases (should_rollback_after_propagation x)) [
      | inl rolled ↦ inr (ground arith)
      | inr kept ↦ inl kept
    ],
  )

  after_root-IsTurn :
      (r : Result RuntimeEventError (Option BlockExecution) × Runtime)
      → 0 < checkpoint.limits.max_cascade_executions
      → r.1.limits ≡ checkpoint.limits
      → r.0 ≢ err out_of_fuel
      → IsTurn checkpoint (after_root platform checkpoint r sample clock)
  unfolding after_root run_cascade
  after_root-IsTurn (err x, runtime) h l n = inr (x, refl, (λ p. n (ap err p)), inr refl)
  after_root-IsTurn (ok none, runtime) h l n = inl ([], refl, omega arith, inl refl)
  after_root-IsTurn (ok (some root), runtime) h l n =
      let same_limit = ap (λ limits. limits.max_cascade_executions) l in
      settle_turn-IsTurn 1 _ (
        propagate_from_execution-Extends platform sample clock
          checkpoint.limits.max_cascade_executions runtime.limits.max_cascade_executions 0
          (record { runtime = runtime; executions = root ∷ [] })
          (record { limit = same_limit; bound = omega (arith, h) }) (omega (arith, same_limit, h)))

-- With a positive limit on the executions of a cascade, a turn that an input update starts returns
-- no more executions than the limit and, when it returns any, leaves the runtime within its total
-- usage; or it returns an error, which leaves the runtime exactly as it was unless it is the limit on
-- a cascade's executions or on its time. The fuel of the model never runs out.
pub process_input_update_sampled-IsTurn :
    (platform : Platform) (runtime : Runtime) (id : BlockId) (endpoint : EndpointName)
    (update : InputUpdate) (sample : ClockSample) (clock : Option BudgetClock)
    → 0 < runtime.limits.max_cascade_executions
    → IsTurn runtime (process_input_update_sampled platform runtime id endpoint update sample clock)
unfolding process_input_update_sampled
process_input_update_sampled-IsTurn platform runtime id endpoint update sample clock h =
    let (l, n) = single_lem platform runtime id endpoint update sample (root_probe clock) in
    after_root-IsTurn platform runtime sample clock
      (process_input_update_sampled_single platform runtime id endpoint update sample
        (root_probe clock))
      h l n
