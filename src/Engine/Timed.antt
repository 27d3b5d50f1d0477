-- ===== src/Engine/Timed.antt =====
-- The firing of due timers, on a safe engine.
use logik_smith.Prelude.{
  ◌≤◌, ◌<◌, ◌≡◌, refl, Option, none, some, List, All, arith, ◌⊎◌, inl, inr, subst, sym, ap, ◌∙◌,
  Option-cases, [], ◌∷◌,
}
use logik_smith.Prelude.MinBy.{In, All-In, min_by}
use logik_smith.Prelude.Order.{list_ord, nat_ord}
use logik_smith.Prelude.Result.{Result, ok, err, Result-cases, map_ok}
use logik_smith.BTreeMap.{remove, values}
use logik_smith.BTreeMap.Laws.{length-remove_le, All-remove}
use logik_smith.Values.{MonotonicMs}
use logik_smith.Program.{EventError, panicked, LogicError, LogicRevision}
use logik_smith.Timer.{PendingTimer, Timers}
use logik_smith.Timer.Effects.{IsOfRevision}
use logik_smith.Execution.{Trigger, by_timer, Execution, TimeSample, Transition, InputSnapshot}
use logik_smith.Lua.{Platform, Probe}
use logik_smith.Engine.{Engine, active_logic_revision, accept_time, input_snapshots}
use logik_smith.Engine.Run.{commit, settle, outcome_of_handler, run_handler}
use logik_smith.Engine.DueTimers.{timer_cmp, due_timers, fire, process_next_due_timer}
use logik_smith.Engine.TimerOrder.{IsNoLater, selected_timer, no_selected_timer}
use logik_smith.Engine.Invariant.{IsSafe, accept_time-IsSafe}
use logik_smith.Engine.Handler.{Sound, run_handler-Sound}
use logik_smith.Engine.Safety.{refused-Sound, after_accept-Sound, accept_time-calm, map_ok-panicked}

-- An engine without one of its pending timers.
abbrev pub without : Engine → PendingTimer → Engine
without engine timer = record engine { pending_timers = remove timer.name engine.pending_timers }

-- The trigger of a timer that fires at `now`.
abbrev pub cause_of : PendingTimer → MonotonicMs → Trigger
cause_of timer now = by_timer (record {
  name = timer.name;
  scheduled_at = timer.scheduled_at;
  due_at = timer.due_at;
  fired_at = now;
  scheduled_logic_revision = timer.scheduled_logic_revision;
})

without-IsSafe :
    (engine : Engine) (timer : PendingTimer) → IsSafe engine → IsSafe (without engine timer)
without-IsSafe engine timer s = record {
  inputs_fit = s.inputs_fit;
  state_valid = s.state_valid;
  timers_bound = ground (arith, length-remove_le timer.name engine.pending_timers, s.timers_bound);
  of_revision =
      All-remove (IsOfRevision (active_logic_revision engine)) timer.name engine.pending_timers
        s.of_revision;
}

values_of_revision :
    (r : LogicRevision) (m : Timers)
    → All (IsOfRevision r) m
    → All (λ t. t.scheduled_logic_revision ≡ r) (values m)
values_of_revision r [] h = tt
values_of_revision r (e ∷ m) h = (h.0.1, values_of_revision r m h.1)

module _ (platform : Platform) (engine : Engine) (now : MonotonicMs) (time : TimeSample)
    (probe : Option Probe) where
  -- A pending timer of a safe engine fires, and is never stale.
  fire_lem :
      (timer : PendingTimer)
      → In timer (values engine.pending_timers)
      → IsSafe engine
      → fire platform engine timer now time probe ≡ (
        map_ok some
            (run_handler platform (without engine timer) (cause_of timer now) now time probe).0,
        (run_handler platform (without engine timer) (cause_of timer now) now time probe).1,
      )
  unfolding fire
  fire_lem timer i s =
      let same_revision : timer.scheduled_logic_revision ≡ active_logic_revision engine =
        All-In (λ t. t.scheduled_logic_revision ≡ active_logic_revision engine)
          (values engine.pending_timers) timer
          (values_of_revision (active_logic_revision engine) engine.pending_timers s.of_revision)
          i in
      ground (arith, same_revision)

  commit_error :
      (cause : Trigger) (snapshots : List InputSnapshot) (t : Transition) {x : EventError}
      → (commit engine cause snapshots t now time).0 ≡ err x
      → x ≡ panicked
  unfolding commit
  commit_error cause snapshots t h = ground arith

  settle_error :
      (cause : Trigger) (snapshots : List InputSnapshot) (outcome : Result LogicError Transition)
      {x : EventError}
      → (settle engine cause snapshots outcome now time).0 ≡ err x
      → x ≡ panicked
  unfolding settle
  settle_error cause snapshots (ok t) {x} h = commit_error cause snapshots t {x = x} h
  settle_error cause snapshots (err e) h = cc

  -- On a safe engine the handler always yields an execution.
  pub run_handler_total :
      (cause : Trigger)
      → IsSafe engine
      → (execution : Execution) × ((run_handler platform engine cause now time probe).0
          ≡ ok execution)
  unfolding run_handler
  run_handler_total cause s =
      let ran = run_handler-Sound platform engine now time cause probe s in
      elim (Result-cases (run_handler platform engine cause now time probe).0) [
        | inl (x, e) ↦ (x, e)
        | inr (x, e) ↦ absurd (
            ran.calm (
              e
              ∙ ap err (
                  settle_error cause (input_snapshots engine now)
                    (outcome_of_handler platform engine cause now time probe) {x = x} e)))
      ]

  fire-Sound :
      (timer : PendingTimer)
      → In timer (values engine.pending_timers)
      → IsSafe engine
      → Sound engine now (fire platform engine timer now time probe)
  fire-Sound timer i s =
      let ran =
        run_handler-Sound platform (without engine timer) now time (cause_of timer now) probe
          (without-IsSafe engine timer s) in
      subst (Sound engine now) (sym (fire_lem timer i s)) (record {
        safe = ran.safe;
        calm = map_ok-panicked some _ ran.calm;
        config = ran.config;
        limits = ran.limits;
        time = ran.time;
      })

-- What a call at `now` did: it refused the time, found no due timer, or ran the handler on one.
abbrev pub Fires :
    Platform
    → Engine
    → MonotonicMs
    → TimeSample
    → Option Probe
    → Result EventError (Option Execution) × Engine
    → Type 0
Fires platform accepted now time probe r =
    (timer : PendingTimer) × (execution : Execution) × In timer (values accepted.pending_timers)
    × (timer.due_at ≤ now)
    × All (IsNoLater timer) (due_timers accepted.pending_timers now)
    × ((run_handler platform (without accepted timer) (cause_of timer now) now time probe).0
        ≡ ok execution)
    × (r.0 ≡ ok (some execution))
    × (r.1 ≡ (run_handler platform (without accepted timer) (cause_of timer now) now time probe).1)

abbrev pub Idle : Engine → MonotonicMs → Result EventError (Option Execution) × Engine → Type 0
Idle accepted now r =
    All (λ timer. now < timer.due_at) (values accepted.pending_timers) × (r ≡ (ok none, accepted))

module _ (platform : Platform) (accepted : Engine) (now : MonotonicMs) (time : TimeSample)
    (probe : Option Probe) where
  fires :
      (timer : PendingTimer)
      → min_by timer_cmp (due_timers accepted.pending_timers now) ≡ some timer
      → IsSafe accepted
      → Fires platform accepted now time probe (fire platform accepted timer now time probe)
  fires timer h s =
      let (i, d, least) = selected_timer accepted.pending_timers now {t = timer} h in
      let (x, e) =
        run_handler_total platform (without accepted timer) now time probe (cause_of timer now)
          (without-IsSafe accepted timer s) in
      let same_run = fire_lem platform accepted now time probe timer i s in
      (
        timer,
        x,
        i,
        d,
        least,
        e,
        ap (λ r. r.0) same_run ∙ ap (map_ok some) e,
        ap (λ r. r.1) same_run,
      )

module _ (platform : Platform) (engine : Engine) (now : MonotonicMs) (time : TimeSample)
    (probe : Option Probe) where
  -- From a safe engine and at an accepted time, the call either finds every pending timer due later
  -- than now and changes nothing else, or it fires a pending timer that is due and that no due timer
  -- precedes by deadline and then name: it returns the execution of the handler on the engine
  -- without that timer. It never refuses a timer as stale.
  pub process_next_due_timer_lem :
      {accepted : Engine}
      → IsSafe engine
      → accept_time engine now ≡ ok accepted
      → Idle accepted now (process_next_due_timer platform engine now time probe)
        ⊎ Fires platform accepted now time probe
            (process_next_due_timer platform engine now time probe)
  unfolding process_next_due_timer
  process_next_due_timer_lem {accepted} s h =
      elim (Option-cases (min_by timer_cmp (due_timers accepted.pending_timers now))) [
        | inl n ↦
            rw (h, n, process_next_due_timer)
              (inl (no_selected_timer accepted.pending_timers now n, refl))
        | inr (timer, e) ↦
            rw (h, e, process_next_due_timer)
              (inr (
                fires platform accepted now time probe timer e
                  (accept_time-IsSafe engine now {accepted = accepted} s h)))
      ]

  -- From a safe engine the call leaves a safe engine, whether it refuses the time, finds no due timer
  -- or fires one; it never panics, and configuration and limits stay.
  pub process_next_due_timer-Sound :
      IsSafe engine → Sound engine now (process_next_due_timer platform engine now time probe)
  unfolding process_next_due_timer
  process_next_due_timer-Sound s = elim (Result-cases (accept_time engine now)) [
    | inr (x, q) ↦
        rw (q, process_next_due_timer)
          (refused-Sound engine now x s (λ e. accept_time-calm engine now (q ∙ ap err e)))
    | inl (accepted, q) ↦ after_accept-Sound engine accepted now _ q (
        let safe = accept_time-IsSafe engine now {accepted = accepted} s q in
        elim (Option-cases (min_by timer_cmp (due_timers accepted.pending_timers now))) [
          | inl n ↦
              rw (q, n, process_next_due_timer)
                (record {
                  safe = safe;
                  calm = λ p. cc;
                  config = refl;
                  limits = refl;
                  time = inl refl;
                })
          | inr (timer, e) ↦
              rw (q, e, process_next_due_timer)
                (fire-Sound platform accepted now time probe timer
                  (selected_timer accepted.pending_timers now {t = timer} e).0 safe)
        ])
  ]
