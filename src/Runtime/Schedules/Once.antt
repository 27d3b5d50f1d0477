-- ===== src/Runtime/Schedules/Once.antt =====
-- A poll delivers later occurrences than those delivered before it.
use logik_smith.Prelude.{
  Ordering, ℕ, ◌≡◌, Option, none, some, List, [], ◌∷◌, arith, Bool-cases, inl, inr, subst, All,
}
use logik_smith.Prelude.Int.{ℤ, ◌≤ℤ◌, ◌<ℤ◌}
use logik_smith.Prelude.Euclid.{max_i64}
use logik_smith.Prelude.Order.{list_ord, nat_ord, pair_ord}
use logik_smith.Execution.{SiteTimeConfig, ScheduleTrigger}
use logik_smith.Schedules.Solar.{Calendar}
use logik_smith.Runtime.Schedules.{Key, Cursors, Entry, key_of}
use logik_smith.Runtime.Schedules.Poll.{poll_entry}
use logik_smith.Runtime.Schedules.Delivery.{Precedes, MovesOn, MovesOn-refl, MovesOn-trans}
use logik_smith.Prelude.Result.{Result, ok, err}
use logik_smith.Runtime.{Runtime}
use logik_smith.Runtime.Schedules.{
  TimeError, all_entries, live_entries, recompute_schedule_cursors, baseline_cursors,
  needs_recompute, current_revision,
}
use logik_smith.Runtime.Schedules.Poll.{
  poll_entries, poll_at, sort_triggers, place_trigger, trigger_cmp, with_delivered,
}
use logik_smith.Runtime.Schedules.Advance.{
  last_of, AreOrdered, Advances, IsStep, IsStep-refl, IsStep-trans,
}
use logik_smith.Runtime.Schedules.Rebase.{recompute-IsStep}
use logik_smith.Runtime.Schedules.Step.{IsFound, poll_entry-IsPollStep}

abbrev pub trigger_key : ScheduleTrigger → Key
trigger_key t = (t.block_id, t.name)

-- A trigger of a poll at `now`: due, behind the last delivery of its schedule before the poll, and no
-- later than the one after it.
abbrev pub IsNew : ℤ → Cursors → Cursors → ScheduleTrigger → Type 0
IsNew now before after t =
    (t.detected_at_utc_ms ≡ now)
    × (t.scheduled_for_utc_ms ≤ℤ now)
    × Precedes (last_of (trigger_key t) before) (some t.scheduled_for_utc_ms)
    × MovesOn (some t.scheduled_for_utc_ms) (last_of (trigger_key t) after)

MovesOn-Precedes :
    (d e : Option ℤ) (s : ℤ) → MovesOn d e → Precedes e (some s) → Precedes d (some s)
MovesOn-Precedes none e s h k = tt
MovesOn-Precedes (some d) none s h k = absurd h
MovesOn-Precedes (some d) (some e) s h k = omega arith

widen :
    (now : ℤ) (a b c d : Cursors) (t : ScheduleTrigger)
    → Advances a b
    → Advances c d
    → IsNew now b c t
    → IsNew now a d t
widen now a b c d t h k (w, u, p, m) = (
  w,
  u,
  MovesOn-Precedes (last_of (trigger_key t) a) (last_of (trigger_key t) b) t.scheduled_for_utc_ms
      (h (trigger_key t)) p,
  MovesOn-trans (some t.scheduled_for_utc_ms) (last_of (trigger_key t) c)
      (last_of (trigger_key t) d) m (k (trigger_key t)),
)

widen-All :
    (now : ℤ) (a b d : Cursors) (ts : List ScheduleTrigger)
    → Advances a b
    → All (IsNew now b d) ts
    → All (IsNew now a d) ts
widen-All now a b d [] h k = tt
widen-All now a b d (t ∷ ts) h k =
    (widen now a b d d t h (λ key. MovesOn-refl (last_of key d)) k.0, widen-All now a b d ts h k.1)

IsFound-IsNew :
    (entry : Entry) (now : ℤ) (before after : Cursors) (t : ScheduleTrigger)
    → IsFound entry now (last_of (key_of entry) before) (last_of (key_of entry) after) (some t)
    → IsNew now before after t
IsFound-IsNew entry now before after t (b, n, d, u, p, m) =
    let same_key : key_of entry ≡ trigger_key t = ground arith in
    subst
      (λ key.
        (t.detected_at_utc_ms ≡ now)
        × (t.scheduled_for_utc_ms ≤ℤ now)
        × Precedes (last_of key before) (some t.scheduled_for_utc_ms)
        × MovesOn (some t.scheduled_for_utc_ms) (last_of key after))
      same_key (d, u, p, m)

module _ (calendar : Calendar) (site : SiteTimeConfig) where
  pub record IsPolled (now : ℤ) (before : Cursors) (result : List ScheduleTrigger × Cursors)
      : Type 0 where
    pub step : IsStep before result.1
    pub triggers : All (IsNew now before result.1) result.0

  with_delivered-All :
      (entry : Entry) (now : ℤ) (before mid after : Cursors) (found : Option ScheduleTrigger)
      (ts : List ScheduleTrigger)
      → Advances mid after
      → Advances before mid
      → IsFound entry now (last_of (key_of entry) before) (last_of (key_of entry) mid) found
      → All (IsNew now mid after) ts
      → All (IsNew now before after) (with_delivered found ts)
  with_delivered-All entry now before mid after none ts h k f a =
      widen-All now before mid after ts k a
  with_delivered-All entry now before mid after (some t) ts h k f a = (
    widen now before before mid after t (λ key. MovesOn-refl (last_of key before)) h
        (IsFound-IsNew entry now before mid t f),
    widen-All now before mid after ts k a,
  )

  pub poll_entries-IsPolled :
      (revision : ℕ) (now : ℤ) (entries : List Entry) (cursors : Cursors)
      → now <ℤ max_i64
      → AreOrdered cursors
      → IsPolled now cursors (poll_entries calendar site revision now entries cursors)
  unfolding poll_entries
  poll_entries-IsPolled revision now [] cursors h o = record {
    step = IsStep-refl cursors o;
    triggers = tt;
  }
  poll_entries-IsPolled revision now (entry ∷ entries) cursors h o =
      let first = poll_entry-IsPollStep calendar site revision now entry cursors h o in
      let (found, mid) = poll_entry calendar site revision now entry cursors in
      let rest = poll_entries-IsPolled revision now entries mid h first.step.ordered in
      let after = (poll_entries calendar site revision now entries mid).1 in
      record {
        step = IsStep-trans cursors mid after first.step rest.step;
        triggers =
            with_delivered-All entry now cursors mid after found
              (poll_entries calendar site revision now entries mid).0 rest.step.advances
              first.step.advances first.trigger rest.triggers;
      }

-- The triggers of a result, if it has any
abbrev pub triggers_in : Result TimeError (List ScheduleTrigger) → List ScheduleTrigger
triggers_in (ok ts) = ts
triggers_in (err e) = []

place_trigger-All :
    (P : ScheduleTrigger → Type 0) (t : ScheduleTrigger) (ts : List ScheduleTrigger)
    → P t
    → All P ts
    → All P (place_trigger t ts)
unfolding place_trigger
place_trigger-All P t [] h k = (h, tt)
place_trigger-All P t (u ∷ us) h k =
    elim (trigger_cmp t u)
      as (λ c. All P (elim c [
        | Ordering.lt ↦ t ∷ u ∷ us
        | Ordering.eq ↦ t ∷ u ∷ us
        | Ordering.gt ↦ u ∷ place_trigger t us
      ])) [
        | Ordering.lt ↦ (h, k)
        | Ordering.eq ↦ (h, k)
        | Ordering.gt ↦ (k.0, place_trigger-All P t us h k.1)
      ]

sort_triggers-All :
    (P : ScheduleTrigger → Type 0) (ts : List ScheduleTrigger) → All P ts → All P (sort_triggers ts)
unfolding sort_triggers
sort_triggers-All P [] h = tt
sort_triggers-All P (t ∷ ts) h =
    place_trigger-All P t (sort_triggers ts) h.0 (sort_triggers-All P ts h.1)

module _ (calendar : Calendar) where
  pub baseline_cursors-IsStep :
      (runtime : Runtime) (now : ℤ)
      → now <ℤ max_i64
      → AreOrdered runtime.schedule_cursors
      → IsStep runtime.schedule_cursors (baseline_cursors calendar runtime now)
  unfolding baseline_cursors recompute_schedule_cursors
  baseline_cursors-IsStep runtime now h o =
      elim (Bool-cases (needs_recompute runtime.last_schedule_wall_clock_utc_ms now)) [
        | inl e ↦
            rw (e, baseline_cursors)
              (recompute-IsStep calendar runtime.site (current_revision runtime) now
                (all_entries runtime.blocks) runtime.schedule_cursors h o)
        | inr e ↦ rw (e, baseline_cursors) (IsStep-refl runtime.schedule_cursors o)
      ]

  -- What a poll at `now` keeps and delivers
  abbrev PollsAt : ℤ → Runtime → List ScheduleTrigger × Runtime → Type 0
  PollsAt now runtime result =
      IsStep runtime.schedule_cursors result.1.schedule_cursors
      × All (IsNew now runtime.schedule_cursors result.1.schedule_cursors) result.0

  pub poll_at-PollsAt :
      (runtime : Runtime) (monotonic : ℕ) (now : ℤ)
      → now <ℤ max_i64
      → AreOrdered runtime.schedule_cursors
      → PollsAt now runtime (poll_at calendar runtime monotonic now)
  unfolding poll_at
  poll_at-PollsAt runtime monotonic now h o =
      let base = baseline_cursors-IsStep runtime now h o in
      let entries = live_entries runtime.blocks in
      let revision = current_revision runtime in
      let before = baseline_cursors calendar runtime now in
      let polled =
        poll_entries-IsPolled calendar runtime.site revision now entries before h base.ordered in
      let (triggers, after) = poll_entries calendar runtime.site revision now entries before in
      (
        IsStep-trans runtime.schedule_cursors before after base polled.step,
        sort_triggers-All (IsNew now runtime.schedule_cursors after) triggers (
            widen-All now runtime.schedule_cursors before after triggers base.advances
              polled.triggers),
      )
