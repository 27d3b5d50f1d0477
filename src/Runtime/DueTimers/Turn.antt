-- ===== src/Runtime/DueTimers/Turn.antt =====
-- A turn that a due timer starts stays within the limit of executions, and rolls back a
-- failed cascade, but for the two limits on it.
use logik_smith.Prelude.{
  ℕ, ◌<◌, ◌≡◌, ◌≢◌, refl, true, Option, none, some, List, [], ◌∷◌, arith, Bool-cases, Option-cases,
  ◌⊎◌, inl, inr, ◌∙◌, ap,
}
use logik_smith.Prelude.Result.{Result, ok, err, Result-cases}
use logik_smith.Identifiers.{BlockId}
use logik_smith.Lua.{Platform, Probe}
use logik_smith.Block.{LogicBlock, admit_live_execution}
use logik_smith.Runtime.{
  Runtime, BlockExecution, ClockSample, BudgetClock, RuntimeEventError, out_of_fuel, nth_block,
  ensure_time, check_order, set_block,
}
use logik_smith.Runtime.Cascades.{run_cascade, root_probe}
use logik_smith.Runtime.Fuel.{propagate_from_execution-Extends}
use logik_smith.Runtime.Rollback.{IsTurn, finish_lem, settle_turn-IsTurn}
use logik_smith.Runtime.DueTimers.{
  run_selected, select_due_timer, process_next_due_timer_sampled, after_timer,
  process_next_due_timer_cascade,
}

abbrev pub Roots : Runtime → Result RuntimeEventError (Option BlockExecution) × Runtime → Type 0
Roots runtime r = (r.1.limits ≡ runtime.limits) × (r.0 ≢ err out_of_fuel)

module _ (platform : Platform) (runtime : Runtime) (sample : ClockSample)
    (probe : Option Probe) where
  run_selected-Roots :
      (index : ℕ) (block : LogicBlock)
      → Roots runtime (run_selected platform runtime index block sample probe)
  unfolding run_selected set_block
  run_selected-Roots index block =
      elim (Bool-cases
        (admit_live_execution block sample.monotonic_ms
          runtime.limits.max_live_executions_per_block_per_second).0) [
            | inl e ↦
                rw (e, run_selected)
                  (finish_lem runtime index block.config.id true _ _ sample.monotonic_ms)
            | inr e ↦ rw (e, run_selected) (refl, λ p. cc)
          ]

  pub nth_block-fuelled :
      (candidate : BlockId) (index : ℕ) → nth_block runtime candidate index ≢ err out_of_fuel
  unfolding nth_block
  nth_block-fuelled candidate index p = ground arith

  pub ensure_time-fuelled : ensure_time runtime none sample.monotonic_ms ≢ err out_of_fuel
  unfolding ensure_time check_order
  ensure_time-fuelled p = ground arith

  process_next_due_timer_sampled-Roots :
      Roots runtime (process_next_due_timer_sampled platform runtime sample probe)
  unfolding process_next_due_timer_sampled
  process_next_due_timer_sampled-Roots =
      elim (Result-cases (ensure_time runtime none sample.monotonic_ms)) [
        | inr (x, e) ↦
            rw (e, process_next_due_timer_sampled)
              (
                refl,
                λ p.
                    ensure_time-fuelled
                      (let same_error : x ≡ out_of_fuel = ground arith in e ∙ ap err same_error),
              )
        | inl (u, e) ↦ elim (Option-cases (select_due_timer runtime sample.monotonic_ms)) [
          | inl g ↦ rw (e, g, process_next_due_timer_sampled) (refl, λ p. cc)
          | inr (c, g) ↦ elim (Result-cases (nth_block runtime c.block_id c.index)) [
            | inr (x, q) ↦
                rw (e, g, q, process_next_due_timer_sampled)
                  (
                    refl,
                    λ p.
                        nth_block-fuelled c.block_id c.index (
                          let same_error : x ≡ out_of_fuel = ground arith in q ∙ ap err same_error),
                  )
            | inl (block, q) ↦
                rw (e, g, q, process_next_due_timer_sampled) (run_selected-Roots c.index block)
          ]
        ]
      ]

-- A turn, or the error of its root.
abbrev pub IsRootedTurn :
    Runtime
    → Result RuntimeEventError (Option BlockExecution) × Runtime
    → Result RuntimeEventError (List BlockExecution) × Runtime
    → Type 0
IsRootedTurn runtime root r =
    IsTurn runtime r
    ⊎ ((e : RuntimeEventError) × (r.0 ≡ err e) × (e ≢ out_of_fuel) × (root ≡ (err e, r.1)))

abbrev pub IsTimerTurn :
    Platform
    → Runtime
    → ClockSample
    → Option BudgetClock
    → Result RuntimeEventError (List BlockExecution) × Runtime
    → Type 0
IsTimerTurn platform runtime sample clock r =
    IsRootedTurn runtime (process_next_due_timer_sampled platform runtime sample (root_probe clock))
      r

module _ (platform : Platform) (checkpoint : Runtime) (sample : ClockSample)
    (clock : Option BudgetClock) where
  pub after_timer-IsRootedTurn :
      (r : Result RuntimeEventError (Option BlockExecution) × Runtime)
      → 0 < checkpoint.limits.max_cascade_executions
      → r.1.limits ≡ checkpoint.limits
      → r.0 ≢ err out_of_fuel
      → IsRootedTurn checkpoint r (after_timer platform checkpoint r sample clock)
  unfolding after_timer run_cascade
  after_timer-IsRootedTurn (err x, runtime) h l n = inr (x, refl, (λ p. n (ap err p)), refl)
  after_timer-IsRootedTurn (ok none, runtime) h l n = inl (inl ([], refl, omega arith, inl refl))
  after_timer-IsRootedTurn (ok (some root), runtime) h l n =
      let same_limit = ap (λ limits. limits.max_cascade_executions) l in
      inl (
        settle_turn-IsTurn platform checkpoint sample clock 1 _ (
          propagate_from_execution-Extends platform sample clock
            checkpoint.limits.max_cascade_executions runtime.limits.max_cascade_executions 0
            (record { runtime = runtime; executions = root ∷ [] })
            (record { limit = same_limit; bound = omega (arith, h) })
            (omega (arith, same_limit, h))))

-- With a positive limit on the executions of a cascade, a turn that a due timer starts returns no more
-- executions than the limit, within the total usage if there are any; or an error of its cascade,
-- which leaves the runtime exactly as it was unless it is the limit on a cascade's executions or on
-- its time; or the error of its root, with what the root left. The fuel of the model never runs out.
pub process_next_due_timer_cascade-IsTimerTurn :
    (platform : Platform) (runtime : Runtime) (sample : ClockSample) (clock : Option BudgetClock)
    → 0 < runtime.limits.max_cascade_executions
    → IsTimerTurn platform runtime sample clock
        (process_next_due_timer_cascade platform runtime sample clock)
unfolding process_next_due_timer_cascade
process_next_due_timer_cascade-IsTimerTurn platform runtime sample clock h =
    let (l, n) = process_next_due_timer_sampled-Roots platform runtime sample (root_probe clock) in
    after_timer-IsRootedTurn platform runtime sample clock
      (process_next_due_timer_sampled platform runtime sample (root_probe clock)) h l n
