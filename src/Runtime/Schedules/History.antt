-- ===== src/Runtime/Schedules/History.antt =====
-- Over any sequence of polls, new baselines and activations, a schedule's occurrences are delivered in
-- strictly rising order.
use logik_smith.Prelude.{
  find, ℕ, ◌≡◌, Option, none, some, List, [], ◌∷◌, arith, get_elem?, subst, sym, Bool-cases,
  Option-cases, inl, inr, All,
}
use logik_smith.Prelude.Int.{ℤ, ◌<ℤ◌}
use logik_smith.Prelude.MinBy.{In, All-In}
use logik_smith.Prelude.Order.{list_ord, nat_ord, same}
use logik_smith.Prelude.Result.{Result, Result-cases}
use logik_smith.Identifiers.{BlockId}
use logik_smith.Execution.{ScheduleTrigger}
use logik_smith.Lua.{Platform}
use logik_smith.Schedules.Solar.{Calendar}
use logik_smith.Block.{LogicBlock}
use logik_smith.Runtime.{Runtime, ClockSample, set_block}
use logik_smith.Runtime.Activation.{
  BlockActivation, BlockActivationResult, Prepared, prepare, apply_update_to, apply_all,
  commit_update, activate,
}
use logik_smith.Runtime.Schedules.{
  TimeError, Cursors, ensure_schedule_time, entries_of, current_revision,
}
use logik_smith.Runtime.Schedules.Poll.{poll_schedules, poll_at}
use logik_smith.Runtime.Schedules.Baseline.{rebaseline_block_schedules}
use logik_smith.Runtime.Schedules.Delivery.{IsBelowMax, Precedes, MovesOn}
use logik_smith.Runtime.Schedules.Advance.{last_of, AreOrdered, IsStep, IsStep-refl, IsStep-trans}
use logik_smith.Runtime.Schedules.Rebase.{
  rebaseline_entries-IsStep, mark_all-IsStep, mark_block-IsStep,
}
use logik_smith.Runtime.Schedules.Once.{IsNew, trigger_key, triggers_in, poll_at-PollsAt}

-- A step of the runtime's cursors
abbrev IsRuntimeStep : Runtime → Runtime → Type 0
IsRuntimeStep before after = IsStep before.schedule_cursors after.schedule_cursors

commit_update-IsStep :
    (runtime : Runtime) (index : ℕ) (after : LogicBlock) (result : BlockActivationResult)
    → AreOrdered runtime.schedule_cursors
    → IsRuntimeStep runtime (commit_update runtime index after result)
unfolding commit_update set_block
commit_update-IsStep runtime index after result o = elim (Bool-cases result.enabled_changed) [
  | inl e ↦ rw (e, commit_update) (mark_block-IsStep after.config.id runtime.schedule_cursors o)
  | inr e ↦ rw (e, commit_update) (IsStep-refl runtime.schedule_cursors o)
]

apply_all-IsStep :
    (prepared : List Prepared) (runtime : Runtime)
    → AreOrdered runtime.schedule_cursors
    → IsRuntimeStep runtime (apply_all prepared runtime).1
unfolding apply_all
apply_all-IsStep [] runtime o = IsStep-refl runtime.schedule_cursors o
apply_all-IsStep (p ∷ rest) runtime o = elim (Option-cases (get_elem? runtime.blocks p.index)) [
  | inl e ↦ rw (e, apply_all) (IsStep-refl runtime.schedule_cursors o)
  | inr (block, e) ↦
      let (result, after) = apply_update_to block p in
      let committed = commit_update runtime p.index after result in
      let step = commit_update-IsStep runtime p.index after result o in
      rw (e, apply_all)
        (IsStep-trans runtime.schedule_cursors committed.schedule_cursors _ step
          (apply_all-IsStep rest committed step.ordered))
]

activate-IsStep :
    (platform : Platform) (runtime : Runtime) (updates : List BlockActivation)
    → AreOrdered runtime.schedule_cursors
    → IsRuntimeStep runtime (activate platform runtime updates).1
unfolding activate
activate-IsStep platform runtime updates o =
    elim (Result-cases (prepare platform runtime [] updates)) [
      | inr (x, e) ↦ rw (e, activate) (IsStep-refl runtime.schedule_cursors o)
      | inl (prepared, e) ↦ rw (e, activate) (apply_all-IsStep prepared runtime o)
    ]

-- A trigger of a poll: behind the last delivery of its schedule before the poll, and no later than the
-- one after it.
abbrev Moved : Cursors → Cursors → ScheduleTrigger → Type 0
Moved before after t =
    Precedes (last_of (trigger_key t) before) (some t.scheduled_for_utc_ms)
    × MovesOn (some t.scheduled_for_utc_ms) (last_of (trigger_key t) after)

All-Moved :
    (now : ℤ) (before after : Cursors) (ts : List ScheduleTrigger)
    → All (IsNew now before after) ts
    → All (Moved before after) ts
All-Moved now before after [] h = tt
All-Moved now before after (t ∷ ts) ((d, u, p, m), rest) =
    ((p, m), All-Moved now before after ts rest)

-- What a poll keeps, and what it says of its triggers
abbrev Polls : Runtime → Result TimeError (List ScheduleTrigger) × Runtime → Type 0
Polls runtime result =
    IsRuntimeStep runtime result.1
    × All (Moved runtime.schedule_cursors result.1.schedule_cursors) (triggers_in result.0)

between :
    (s t : ℤ) (d e : Option ℤ) → MovesOn (some s) d → MovesOn d e → Precedes e (some t) → s <ℤ t
between s t none e h k p = absurd h
between s t (some d) none h k p = absurd k
between s t (some d) (some e) h k p = omega arith

module _ (calendar : Calendar) where
  poll_schedules-Polls :
      (runtime : Runtime) (sample : ClockSample)
      → IsBelowMax sample.utc_unix_ms
      → AreOrdered runtime.schedule_cursors
      → Polls runtime (poll_schedules calendar runtime sample)
  unfolding poll_schedules
  poll_schedules-Polls runtime sample h o =
      elim (Result-cases (ensure_schedule_time runtime sample.monotonic_ms)) [
        | inr (x, e) ↦ rw (e, poll_schedules) (IsStep-refl runtime.schedule_cursors o, tt)
        | inl (u, e) ↦ elim (Option-cases sample.utc_unix_ms) [
          | inl f ↦ rw (e, f, poll_schedules) (mark_all-IsStep runtime.schedule_cursors o, tt)
          | inr (now, f) ↦
              let polled =
                poll_at-PollsAt calendar runtime sample.monotonic_ms now (subst IsBelowMax f h) o in
              let (triggers, after) = poll_at calendar runtime sample.monotonic_ms now in
              rw (e, f, poll_schedules)
                (
                  polled.0,
                  All-Moved now runtime.schedule_cursors after.schedule_cursors triggers polled.1,
                )
        ]
      ]

  rebaseline_block_schedules-IsStep :
      (runtime : Runtime) (id : BlockId) (sample : ClockSample)
      → IsBelowMax sample.utc_unix_ms
      → AreOrdered runtime.schedule_cursors
      → IsRuntimeStep runtime (rebaseline_block_schedules calendar runtime id sample).1
  unfolding rebaseline_block_schedules
  rebaseline_block_schedules-IsStep runtime id sample h o =
      elim (Result-cases (ensure_schedule_time runtime sample.monotonic_ms)) [
        | inr (x, e) ↦ rw (e, rebaseline_block_schedules) (IsStep-refl runtime.schedule_cursors o)
        | inl (u, e) ↦
            elim (Option-cases (find (λ block. same block.config.id id) runtime.blocks)) [
              | inl f ↦
                  rw (e, f, rebaseline_block_schedules) (IsStep-refl runtime.schedule_cursors o)
              | inr (block, f) ↦
                  rw (e, f, rebaseline_block_schedules)
                    (rebaseline_entries-IsStep calendar runtime.site (current_revision runtime)
                      sample.utc_unix_ms (entries_of block) runtime.schedule_cursors h o)
            ]
      ]

  -- What happens between two polls: polls, new baselines, activations, and whatever leaves the
  -- cursors alone. Every wall clock is below the greatest `i64`.
  pub data Moves (start : Runtime) : Runtime → Type 0 where
    here : Moves start start
    poll :
        {now : Runtime} (sample : ClockSample)
        → Moves start now
        → IsBelowMax sample.utc_unix_ms
        → Moves start (poll_schedules calendar now sample).1
    rebaseline :
        {now : Runtime} (id : BlockId) (sample : ClockSample)
        → Moves start now
        → IsBelowMax sample.utc_unix_ms
        → Moves start (rebaseline_block_schedules calendar now id sample).1
    activation :
        {now : Runtime} (platform : Platform) (updates : List BlockActivation)
        → Moves start now
        → Moves start (activate platform now updates).1
    elsewhere :
        {now : Runtime} (after : Runtime)
        → Moves start now
        → after.schedule_cursors ≡ now.schedule_cursors
        → Moves start after

  follow :
      (start now after : Runtime)
      → IsRuntimeStep start now
      → (AreOrdered now.schedule_cursors → IsRuntimeStep now after)
      → IsRuntimeStep start after
  follow start now after h k =
      IsStep-trans start.schedule_cursors now.schedule_cursors after.schedule_cursors h
        (k h.ordered)

  Moves-IsStep :
      {start after : Runtime}
      → AreOrdered start.schedule_cursors
      → Moves start after
      → IsRuntimeStep start after
  Moves-IsStep {start} o here = IsStep-refl start.schedule_cursors o
  Moves-IsStep {start} o (poll {now} sample m h) =
      follow start now (poll_schedules calendar now sample).1 (Moves-IsStep o m)
        (λ p. (poll_schedules-Polls now sample h p).0)
  Moves-IsStep {start} o (rebaseline {now} id sample m h) =
      follow start now (rebaseline_block_schedules calendar now id sample).1 (Moves-IsStep o m)
        (λ p. rebaseline_block_schedules-IsStep now id sample h p)
  Moves-IsStep {start} o (activation {now} platform updates m) =
      follow start now (activate platform now updates).1 (Moves-IsStep o m)
        (λ p. activate-IsStep platform now updates p)
  Moves-IsStep {start} o (elsewhere {now} after m e) =
      follow start now after (Moves-IsStep o m)
        (λ p. subst (IsStep now.schedule_cursors) (sym e) (IsStep-refl now.schedule_cursors p))

-- From ordered cursors, and with every wall clock below the greatest `i64`: a trigger that a poll
-- delivers is scheduled strictly before every trigger of the same block and schedule that any later
-- poll delivers, whatever polls, new baselines of blocks and activations come between, and whatever
-- the wall clock does.
pub poll_schedules-IsOnce :
    (calendar : Calendar) (runtime later : Runtime) (sample next_sample : ClockSample)
    (t u : ScheduleTrigger)
    → AreOrdered runtime.schedule_cursors
    → IsBelowMax sample.utc_unix_ms
    → IsBelowMax next_sample.utc_unix_ms
    → In t (triggers_in (poll_schedules calendar runtime sample).0)
    → Moves calendar (poll_schedules calendar runtime sample).1 later
    → In u (triggers_in (poll_schedules calendar later next_sample).0)
    → trigger_key t ≡ trigger_key u
    → t.scheduled_for_utc_ms <ℤ u.scheduled_for_utc_ms
poll_schedules-IsOnce calendar runtime later sample next_sample t u o h k i m j same_key =
    let (step, first) = poll_schedules-Polls calendar runtime sample h o in
    let (result, polled) = poll_schedules calendar runtime sample in
    let moves = Moves-IsStep calendar step.ordered m in
    let second = (poll_schedules-Polls calendar later next_sample k moves.ordered).1 in
    let (next_result, last) = poll_schedules calendar later next_sample in
    let delivered =
      (All-In (Moved runtime.schedule_cursors polled.schedule_cursors) (triggers_in result) t first
        i).1 in
    let behind =
      (All-In (Moved later.schedule_cursors last.schedule_cursors) (triggers_in next_result) u
        second j).0 in
    between t.scheduled_for_utc_ms u.scheduled_for_utc_ms
      (last_of (trigger_key t) polled.schedule_cursors)
      (last_of (trigger_key t) later.schedule_cursors) delivered (moves.advances (trigger_key t))
      (subst (λ key. Precedes (last_of key later.schedule_cursors) (some u.scheduled_for_utc_ms))
        (sym same_key) behind)
