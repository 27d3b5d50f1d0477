-- ===== src/Block/Health.antt =====
-- The invariant of a block's health, which admission, recorded outcomes, resumption and switching keep.
use logik_smith.Prelude.{
  some, none, ap, ◌+◌, ℕ, ◌≤◌, ◌<◌, ◌≡◌, refl, Bool, true, false, [], ◌∷◌, All, arith, leb, not,
  length, Bool-cases, inl, ◌⊎◌, inr, sym, length-append, ◌∙◌,
}
use logik_smith.Prelude.Result.{Result, ok, err}
use logik_smith.Values.{MonotonicMs}
use logik_smith.Program.{
  LogicError, LogicErrorKind, kind, syntax, load, runtime, instruction_limit, memory_limit,
  handler_time_limit, invalid_result,
}
use logik_smith.Execution.{Transition}
use logik_smith.Engine.{Engine}
use logik_smith.Engine.Invariant.{IsSafe}
use logik_smith.Block.{
  script_failures, LogicBlock, BlockHealth, disabled, active, suspended_script_failures,
  suspended_event_rate, is_active, counts, record_failure, record_outcome, reset_health,
  set_enabled, clear_timers, count_failure, block_failure_suspension_threshold,
  live_executions_in_window, admit_live_execution, prune_live_execution_window, admit_pruned,
}
use logik_smith.Block.Window.{
  IsOrdered, recent, admitted-IsOrdered, prune-eq-keep, length-recent_le, recent-IsOrdered,
}

abbrev pub is_disabled : BlockHealth → Bool
is_disabled disabled = true
is_disabled active = false
is_disabled suspended_script_failures = false
is_disabled suspended_event_rate = false

-- A block is disabled exactly when its configuration says so; a block that is not active has no
-- pending timers; an active one has fewer consecutive failures than suspend it, and no more starts in
-- its window than the limit.
pub record IsSteady (maximum : ℕ) (block : LogicBlock) : Type 0 where
  pub safe : IsSafe block.engine
  pub switch : is_disabled block.health ≡ not block.config.enabled
  pub quiet : (is_active block.health ≡ true) ⊎ (block.engine.pending_timers ≡ [])
  pub failures :
      (is_active block.health ≡ false)
      ⊎ (block.consecutive_failures < block_failure_suspension_threshold)
  pub rate : length block.live_execution_times ≤ maximum
  pub ordered : IsOrdered block.live_execution_times

pub clear_timers-IsSafe : (engine : Engine) → IsSafe engine → IsSafe (clear_timers engine)
clear_timers-IsSafe engine s = record {
  inputs_fit = s.inputs_fit;
  state_valid = s.state_valid;
  timers_bound = omega arith;
  of_revision = tt;
}

active_not_disabled : (h : BlockHealth) → is_active h ≡ true → is_disabled h ≡ false
unfolding is_active
active_not_disabled active e = refl
active_not_disabled disabled e = cc
active_not_disabled suspended_script_failures e = cc
active_not_disabled suspended_event_rate e = cc

true-ne-false : true ≡ false → ⊥
true-ne-false e = cc

-- The errors that do not count are those of a source that cannot run.
abbrev pub IsOfSource : LogicErrorKind → Type 0
IsOfSource k = (k ≡ syntax) ⊎ (k ≡ load)

counts_cases : (k : LogicErrorKind) → IsOfSource k ⊎ (counts k ≡ true)
unfolding counts
counts_cases syntax = inl (inl refl)
counts_cases load = inl (inr refl)
counts_cases runtime = inr refl
counts_cases instruction_limit = inr refl
counts_cases memory_limit = inr refl
counts_cases handler_time_limit = inr refl
counts_cases invalid_result = inr refl

counts-IsOfSource : (k : LogicErrorKind) → IsOfSource k → counts k ≡ false
unfolding counts
counts-IsOfSource k (inl e) = rw e refl
counts-IsOfSource k (inr e) = rw e refl

-- The block stays, but for its number of failures.
abbrev Keeps : LogicBlock → ℕ → LogicBlock → Type 0
Keeps block failures after = after ≡ record block { consecutive_failures = failures }

-- What an outcome does to a block: a success forgets its failures; an error of the source leaves it;
-- any other error is one failure more, which suspends it exactly if it is the fifth.
abbrev pub Records : LogicBlock → Result LogicError Transition → LogicBlock → Type 0
Records block (ok t) after = Keeps block 0 after
Records block (err x) after =
    (IsOfSource (kind x) × (after ≡ block))
    ⊎ (((counts (kind x) ≡ true)
          × (block.consecutive_failures + 1 < 5)
          × Keeps block (block.consecutive_failures + 1) after)
        ⊎ ((counts (kind x) ≡ true)
            × (block.consecutive_failures + 1 ≡ 5)
            × (after.health ≡ suspended_script_failures)
            × (after.last_suspension ≡ some script_failures)
            × (after.engine ≡ clear_timers block.engine)))

module _ (maximum : ℕ) (block : LogicBlock) where
  -- Recording an outcome of an active steady block: a success resets its failures, an error of syntax
  -- or load changes nothing, and any other error is one failure more.
  record_outcome-Records :
      (outcome : Result LogicError Transition)
      → IsSteady maximum block
      → is_active block.health ≡ true
      → Records block outcome (record_outcome block outcome)
  unfolding record_outcome record_failure
  record_outcome-Records (ok t) s a = refl
  record_outcome-Records (err x) s a = elim (counts_cases (kind x)) [
    | inl source ↦ rw (counts-IsOfSource (kind x) source, record_outcome) (inl (source, refl))
    | inr e ↦
        let few : block.consecutive_failures < 5 = elim s.failures [
          | inl idle ↦ absurd (true-ne-false (sym a ∙ idle))
          | inr fewer ↦ fewer
        ] in
        elim (Bool-cases
          (leb block_failure_suspension_threshold (count_failure block.consecutive_failures))) [
            | inl g ↦
                rw (e, g, record_outcome, record_failure)
                  (inr (inr (refl, ground (arith, few, g), refl, refl, refl)))
            | inr g ↦
                let next : count_failure block.consecutive_failures
                    ≡ block.consecutive_failures + 1 =
                  ground (arith, few) in
                rw (e, g, record_outcome, record_failure)
                  (inr (
                    inl (
                      refl,
                      ground (arith, few, g),
                      ap (λ n. record block { consecutive_failures = n }) next,
                    )))
          ]
  ]

  recorded-IsSteady :
      (outcome : Result LogicError Transition)
      → IsSteady maximum block
      → is_active block.health ≡ true
      → IsSteady maximum (record_outcome block outcome)
  unfolding record_outcome record_failure is_active
  recorded-IsSteady (ok t) s a = record {
    safe = s.safe;
    switch = s.switch;
    quiet = s.quiet;
    failures = inr (omega arith);
    rate = s.rate;
    ordered = s.ordered;
  }
  recorded-IsSteady (err x) s a = elim (Bool-cases (counts (kind x))) [
    | inr f ↦ rw (f, record_outcome) s
    | inl e ↦
        elim (Bool-cases
          (leb block_failure_suspension_threshold (count_failure block.consecutive_failures))) [
            | inl g ↦
                rw (e, g, record_outcome, record_failure)
                  (record {
                    safe = clear_timers-IsSafe block.engine s.safe;
                    switch = sym (active_not_disabled block.health a) ∙ s.switch;
                    quiet = inr refl;
                    failures = inl refl;
                    rate = omega arith;
                    ordered = tt;
                  })
            | inr g ↦
                rw (e, g, record_outcome, record_failure)
                  (record {
                    safe = s.safe;
                    switch = s.switch;
                    quiet = s.quiet;
                    failures = inr (ground arith);
                    rate = s.rate;
                    ordered = s.ordered;
                  })
          ]
  ]

  -- An active steady block stays steady, whatever the outcome of its live execution. A success resets
  -- its failures, an error of syntax or load leaves it as it was, and any other error is one failure
  -- more: the fifth in a row suspends the block and cancels its timers, and no earlier one does.
  pub record_outcome-IsSteady :
      (outcome : Result LogicError Transition)
      → IsSteady maximum block
      → is_active block.health ≡ true
      → IsSteady maximum (record_outcome block outcome)
        × Records block outcome (record_outcome block outcome)
  record_outcome-IsSteady outcome s a =
      (recorded-IsSteady outcome s a, record_outcome-Records outcome s a)

module _ (maximum : ℕ) (block : LogicBlock) where
  -- At a time no earlier than the starts in its window, a steady block stays steady whether the live
  -- execution is admitted, the block was inactive, or the rate limit suspends it.
  pub admit_live_execution-IsSteady :
      (now : MonotonicMs)
      → IsSteady maximum block
      → All (λ t. t ≤ now) block.live_execution_times
      → IsSteady maximum (admit_live_execution block now maximum).1
  unfolding admit_live_execution admit_pruned prune_live_execution_window live_executions_in_window
      is_active
  admit_live_execution-IsSteady now s h =
      let w = prune-eq-keep now block.live_execution_times s.ordered in
      let o = admitted-IsOrdered block.live_execution_times now h s.ordered in
      elim (Bool-cases (is_active block.health)) [
        | inr f ↦ rw (f, admit_live_execution) s
        | inl e ↦ elim (Bool-cases (leb maximum (length (recent now block.live_execution_times)))) [
          | inl g ↦
              rw (e, admit_live_execution, admit_pruned, prune_live_execution_window, w, g)
                (record {
                  safe = clear_timers-IsSafe block.engine s.safe;
                  switch = sym (active_not_disabled block.health e) ∙ s.switch;
                  quiet = inr refl;
                  failures = inl refl;
                  rate = ground (arith, length-recent_le now block.live_execution_times, s.rate);
                  ordered = recent-IsOrdered now block.live_execution_times s.ordered;
                })
          | inr g ↦
              rw (e, admit_live_execution, admit_pruned, prune_live_execution_window, w, g)
                (record {
                  safe = s.safe;
                  switch = s.switch;
                  quiet = s.quiet;
                  failures = s.failures;
                  rate =
                      ground
                        (arith, length-append (recent now block.live_execution_times) (now ∷ []));
                  ordered = o;
                })
        ]
      ]

  reset-IsSteady : IsSteady maximum block → IsSteady maximum (reset_health block)
  unfolding reset_health is_active
  reset-IsSteady s = elim (Bool-cases block.config.enabled) [
    | inl e ↦
        rw (e, reset_health)
          (record {
            safe = s.safe;
            switch = refl;
            quiet = inl refl;
            failures = inr (omega arith);
            rate = omega arith;
            ordered = tt;
          })
    | inr f ↦
        rw (f, reset_health)
          (record {
            safe = s.safe;
            switch = refl;
            quiet = elim s.quiet [
              | inl a ↦ absurd (ground (arith, active_not_disabled block.health a, s.switch))
              | inr q ↦ inr q
            ];
            failures = inl refl;
            rate = omega arith;
            ordered = tt;
          })
  ]

  -- Resuming a steady block leaves a steady one with the same configuration and engine: active exactly
  -- if it is enabled, with no failures, no starts in its window and no suspension on record.
  pub reset_health-IsSteady :
      IsSteady maximum block
      → IsSteady maximum (reset_health block)
        × (is_active (reset_health block).health ≡ block.config.enabled)
        × ((reset_health block).consecutive_failures ≡ 0)
        × ((reset_health block).live_execution_times ≡ [])
        × ((reset_health block).last_suspension ≡ none)
        × ((reset_health block).config ≡ block.config)
        × ((reset_health block).engine ≡ block.engine)
  unfolding reset_health is_active
  reset_health-IsSteady s = (
    reset-IsSteady s,
    elim (Bool-cases block.config.enabled) [ inl e ↦ rw e refl | inr e ↦ rw e refl ],
    refl,
    refl,
    refl,
    refl,
    refl,
  )

  -- Switching a steady block on or off leaves a steady one; switched off, it has no pending timers.
  pub set_enabled-IsSteady :
      (enabled : Bool)
      → IsSteady maximum block
      → IsSteady maximum (set_enabled block enabled)
        × ((enabled ≡ true) ⊎ ((set_enabled block enabled).engine.pending_timers ≡ []))
  unfolding set_enabled reset_health is_active
  set_enabled-IsSteady true s = (
    record {
      safe = s.safe;
      switch = refl;
      quiet = inl refl;
      failures = inr (omega arith);
      rate = omega arith;
      ordered = tt;
    },
    inl refl,
  )
  set_enabled-IsSteady false s = (
    record {
      safe = clear_timers-IsSafe block.engine s.safe;
      switch = refl;
      quiet = inr refl;
      failures = inl refl;
      rate = omega arith;
      ordered = tt;
    },
    inr refl,
  )
