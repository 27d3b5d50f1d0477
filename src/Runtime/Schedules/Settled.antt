-- ===== src/Runtime/Schedules/Settled.antt =====
-- After a poll no schedule is due any more: the next deadline is in the future, and the same poll
-- again delivers nothing.
use logik_smith.Prelude.{
  ℕ, ◌≡◌, refl, false, Option, none, some, List, [], ◌∷◌, arith, Bool-cases, inl, inr, subst, sym,
  ap, ◌∙◌, All, if◌then◌else◌,
}
use logik_smith.Prelude.Int.{ℤ, ◌<ℤ◌}
use logik_smith.Prelude.Euclid.{max_i64}
use logik_smith.Prelude.Order.{list_ord, nat_ord, pair_ord, same, same_iff}
use logik_smith.BTreeMap.{get}
use logik_smith.BTreeMap.Laws.{get-insert}
use logik_smith.Execution.{SiteTimeConfig}
use logik_smith.Schedules.{ScheduleRule, ScheduleCursor}
use logik_smith.Schedules.Solar.{Calendar}
use logik_smith.Schedules.After.{IsAfter}
use logik_smith.Runtime.Schedules.{Key, Cursors, Entry, key_of, cursor_or_fresh}
use logik_smith.Runtime.Schedules.Poll.{deliver_due, settled, poll_entry}
use logik_smith.Prelude.Result.{ok}
use logik_smith.Runtime.{Runtime, ClockSample}
use logik_smith.Runtime.Schedules.{
  ensure_schedule_time, check_sample, live_entries, baseline_cursors, needs_recompute,
  current_revision,
}
use logik_smith.Runtime.Schedules.Poll.{poll_entries, poll_at, poll_schedules, sort_triggers}
use logik_smith.Runtime.Schedules.Advance.{AreOrdered, IsSettled}
use logik_smith.Runtime.Schedules.Step.{poll_entry-IsPollStep}
use logik_smith.Runtime.Schedules.Baseline.{next_of, earlier, earliest_from, next_schedule_deadline}
use logik_smith.Runtime.Schedules.Once.{poll_at-PollsAt, baseline_cursors-IsStep}

abbrev IsSettledAt : ℤ → Cursors → Key → Type 0
IsSettledAt now cursors key = (c : ScheduleCursor) × (get key cursors ≡ some c) × IsSettled now c

module _ (calendar : Calendar) (site : SiteTimeConfig) where
  -- A step leaves the other keys alone.
  pub get-poll_entry :
      (revision : ℕ) (now : ℤ) (entry : Entry) (key : Key) (cursors : Cursors)
      → same (key_of entry) key ≡ false
      → get key (poll_entry calendar site revision now entry cursors).1 ≡ get key cursors
  unfolding poll_entry
  get-poll_entry revision now entry key cursors e =
      let cursor = cursor_or_fresh revision (key_of entry) cursors in
      let after =
        (deliver_due calendar site entry now (settled calendar site entry.1.rule now cursor)).1 in
      get-insert (key_of entry) key after cursors
      ∙ ap (λ b. if b then some after else get key cursors) e

  poll_entry-IsSettledAt :
      (revision : ℕ) (now : ℤ) (entry : Entry) (key : Key) (cursors : Cursors)
      → now <ℤ max_i64
      → AreOrdered cursors
      → IsSettledAt now cursors key
      → IsSettledAt now (poll_entry calendar site revision now entry cursors).1 key
  poll_entry-IsSettledAt revision now entry key cursors h o (c, g, s) =
      elim (Bool-cases (same (key_of entry) key)) [
        | inl e ↦
            subst (IsSettledAt now (poll_entry calendar site revision now entry cursors).1)
              ((same_iff (key_of entry) key).0 e)
              (poll_entry-IsPollStep calendar site revision now entry cursors h o).settled_entry
        | inr e ↦ (c, get-poll_entry revision now entry key cursors e ∙ g, s)
      ]

  poll_entries-IsSettledAt :
      (revision : ℕ) (now : ℤ) (entries : List Entry) (key : Key) (cursors : Cursors)
      → now <ℤ max_i64
      → AreOrdered cursors
      → IsSettledAt now cursors key
      → IsSettledAt now (poll_entries calendar site revision now entries cursors).1 key
  unfolding poll_entries
  poll_entries-IsSettledAt revision now [] key cursors h o s = s
  poll_entries-IsSettledAt revision now (entry ∷ entries) key cursors h o s =
      poll_entries-IsSettledAt revision now entries key
        (poll_entry calendar site revision now entry cursors).1 h
        (poll_entry-IsPollStep calendar site revision now entry cursors h o).step.ordered
        (poll_entry-IsSettledAt revision now entry key cursors h o s)

  -- The loop settles every schedule that it visits.
  poll_entries_settle :
      (revision : ℕ) (now : ℤ) (entries : List Entry) (cursors : Cursors)
      → now <ℤ max_i64
      → AreOrdered cursors
      → All
          (λ e.
            IsSettledAt now (poll_entries calendar site revision now entries cursors).1 (key_of e))
          entries
  unfolding poll_entries
  poll_entries_settle revision now [] cursors h o = tt
  poll_entries_settle revision now (entry ∷ entries) cursors h o =
      let first = poll_entry-IsPollStep calendar site revision now entry cursors h o in
      let mid = (poll_entry calendar site revision now entry cursors).1 in
      (
        poll_entries-IsSettledAt revision now entries (key_of entry) mid h first.step.ordered
            first.settled_entry,
        poll_entries_settle revision now entries mid h first.step.ordered,
      )

  deliver_due_settled :
      (entry : Entry) (now : ℤ) (cursor : ScheduleCursor) (next : Option ℤ)
      → cursor.next_occurrence_utc_ms ≡ next
      → IsAfter now next
      → (deliver_due calendar site entry now cursor).0 ≡ none
  unfolding deliver_due
  deliver_due_settled entry now cursor none e f = ground arith
  deliver_due_settled entry now cursor (some next) e f = ground arith

  pub settled_lem :
      (rule : ScheduleRule) (now : ℤ) (cursor : ScheduleCursor)
      → cursor.needs_rebaseline ≡ false
      → settled calendar site rule now cursor ≡ cursor
  unfolding settled
  settled_lem rule now cursor e = ground arith

  -- A settled schedule delivers nothing.
  poll_entry_quiet :
      (revision : ℕ) (now : ℤ) (entry : Entry) (cursors : Cursors)
      → IsSettledAt now cursors (key_of entry)
      → (poll_entry calendar site revision now entry cursors).0 ≡ none
  unfolding poll_entry cursor_or_fresh
  poll_entry_quiet revision now entry cursors (c, g, s) =
      rw (g, poll_entry, cursor_or_fresh)
        (rw (settled_lem entry.1.rule now c s.based)
          (deliver_due_settled entry now c c.next_occurrence_utc_ms refl s.future))

  poll_entries_quiet :
      (revision : ℕ) (now : ℤ) (entries : List Entry) (cursors : Cursors)
      → now <ℤ max_i64
      → AreOrdered cursors
      → All (λ e. IsSettledAt now cursors (key_of e)) entries
      → (poll_entries calendar site revision now entries cursors).0 ≡ []
  unfolding poll_entries
  poll_entries_quiet revision now [] cursors h o s = refl
  poll_entries_quiet revision now (entry ∷ entries) cursors h o s =
      let mid = (poll_entry calendar site revision now entry cursors).1 in
      let ordered =
        (poll_entry-IsPollStep calendar site revision now entry cursors h o).step.ordered in
      rw (poll_entry_quiet revision now entry cursors s.0)
        (poll_entries_quiet revision now entries mid h ordered (still entries s.1))
    where
      still :
          (es : List Entry)
          → All (λ e. IsSettledAt now cursors (key_of e)) es
          → All
              (λ e.
                IsSettledAt now (poll_entry calendar site revision now entry cursors).1 (key_of e))
              es
      still [] s = tt
      still (e ∷ es) s =
          (poll_entry-IsSettledAt revision now entry (key_of e) cursors h o s.0, still es s.1)

-- Only future occurrences count towards the deadline.
earlier-IsAfter :
    (now : ℤ) (best next : Option ℤ)
    → IsAfter now best
    → IsAfter now next
    → IsAfter now (earlier best next)
earlier-IsAfter now none next h k = k
earlier-IsAfter now (some b) none h k = h
earlier-IsAfter now (some b) (some n) h k = ground arith

next_of-IsAfter :
    (now : ℤ) (cursors : Cursors) (entry : Entry)
    → IsSettledAt now cursors (key_of entry)
    → IsAfter now (next_of cursors entry)
unfolding next_of
next_of-IsAfter now cursors entry (c, g, s) = rw (g, next_of) s.future

earliest_from-IsAfter :
    (now : ℤ) (cursors : Cursors) (best : Option ℤ) (entries : List Entry)
    → IsAfter now best
    → All (λ e. IsSettledAt now cursors (key_of e)) entries
    → IsAfter now (earliest_from cursors best entries)
unfolding earliest_from
earliest_from-IsAfter now cursors best [] h s = h
earliest_from-IsAfter now cursors best (entry ∷ entries) h s =
    earliest_from-IsAfter now cursors (earlier best (next_of cursors entry)) entries
      (earlier-IsAfter now best (next_of cursors entry) h (next_of-IsAfter now cursors entry s.0))
      s.1

module _ (calendar : Calendar) where
  poll_at-IsSettledAt :
      (runtime : Runtime) (monotonic : ℕ) (now : ℤ)
      → now <ℤ max_i64
      → AreOrdered runtime.schedule_cursors
      → All
          (λ e.
            IsSettledAt now (poll_at calendar runtime monotonic now).1.schedule_cursors (key_of e))
          (live_entries runtime.blocks)
  unfolding poll_at
  poll_at-IsSettledAt runtime monotonic now h o =
      poll_entries_settle calendar runtime.site (current_revision runtime) now
        (live_entries runtime.blocks) (baseline_cursors calendar runtime now) h
        (baseline_cursors-IsStep calendar runtime now h o).ordered

  -- No wall clock is before itself.
  baseline_cursors_again :
      (runtime : Runtime) (now : ℤ)
      → runtime.last_schedule_wall_clock_utc_ms ≡ some now
      → baseline_cursors calendar runtime now ≡ runtime.schedule_cursors
  unfolding baseline_cursors needs_recompute
  baseline_cursors_again runtime now e = ground arith

  poll_at_quiet :
      (runtime : Runtime) (monotonic : ℕ) (now : ℤ)
      → now <ℤ max_i64
      → AreOrdered runtime.schedule_cursors
      → runtime.last_schedule_wall_clock_utc_ms ≡ some now
      → All (λ e. IsSettledAt now runtime.schedule_cursors (key_of e)) (live_entries runtime.blocks)
      → (poll_at calendar runtime monotonic now).0 ≡ []
  unfolding poll_at sort_triggers
  poll_at_quiet runtime monotonic now h o e s = rw (baseline_cursors_again runtime now e) (
      ap sort_triggers (
        poll_entries_quiet calendar runtime.site (current_revision runtime) now
          (live_entries runtime.blocks) runtime.schedule_cursors h o s))

  -- Nothing is left to do at `now`.
  pub record IsQuiet (sample : ClockSample) (now : ℤ) (runtime : Runtime) : Type 0 where
    pub again : (poll_schedules calendar runtime sample).0 ≡ ok []
    pub deadline : IsAfter now (next_schedule_deadline runtime)

  -- A poll at a valid clock
  pub poll_schedules_known :
      (runtime : Runtime) (sample : ClockSample) (now : ℤ)
      → ensure_schedule_time runtime sample.monotonic_ms ≡ ok tt
      → sample.utc_unix_ms ≡ some now
      → poll_schedules calendar runtime sample ≡ (
        ok (poll_at calendar runtime sample.monotonic_ms now).0,
        (poll_at calendar runtime sample.monotonic_ms now).1,
      )
  unfolding poll_schedules
  poll_schedules_known runtime sample now e f = rw (e, f, poll_schedules) refl

  ensure_again :
      (runtime : Runtime) (monotonic : ℕ)
      → runtime.last_accepted_at ≡ some monotonic
      → ensure_schedule_time runtime monotonic ≡ ok tt
  unfolding ensure_schedule_time check_sample
  ensure_again runtime monotonic e = ground arith

  poll_at_clock :
      (runtime : Runtime) (monotonic : ℕ) (now : ℤ)
      → ((poll_at calendar runtime monotonic now).1.last_accepted_at ≡ some monotonic)
        × ((poll_at calendar runtime monotonic now).1.last_schedule_wall_clock_utc_ms ≡ some now)
        × ((poll_at calendar runtime monotonic now).1.blocks ≡ runtime.blocks)
  unfolding poll_at
  poll_at_clock runtime monotonic now = (refl, refl, refl)

  poll_at-IsQuiet :
      (runtime : Runtime) (sample : ClockSample) (now : ℤ)
      → now <ℤ max_i64
      → AreOrdered runtime.schedule_cursors
      → sample.utc_unix_ms ≡ some now
      → IsQuiet sample now (poll_at calendar runtime sample.monotonic_ms now).1
  unfolding next_schedule_deadline
  poll_at-IsQuiet runtime sample now h o e =
      let after = (poll_at calendar runtime sample.monotonic_ms now).1 in
      let (accepted, wall, same_blocks) = poll_at_clock runtime sample.monotonic_ms now in
      let ordered = (poll_at-PollsAt calendar runtime sample.monotonic_ms now h o).0.ordered in
      let settled_after =
        subst
          (λ blocks.
            All (λ e. IsSettledAt now after.schedule_cursors (key_of e)) (live_entries blocks))
          (sym same_blocks) (poll_at-IsSettledAt runtime sample.monotonic_ms now h o) in
      let quiet = poll_at_quiet after sample.monotonic_ms now h ordered wall settled_after in
      record {
        again =
            ap (λ r. r.0)
              (poll_schedules_known after sample now
                (ensure_again after sample.monotonic_ms accepted) e)
            ∙ ap ok quiet;
        deadline =
            earliest_from-IsAfter now after.schedule_cursors none (live_entries after.blocks) tt
              settled_after;
      }

  -- After a poll at a valid wall clock below the greatest `i64` that is accepted, from ordered cursors,
  -- the same poll again delivers nothing, and the next deadline is after the wall clock or there is
  -- none.
  pub poll_schedules-IsQuiet :
      (runtime : Runtime) (sample : ClockSample) (now : ℤ)
      → now <ℤ max_i64
      → AreOrdered runtime.schedule_cursors
      → sample.utc_unix_ms ≡ some now
      → ensure_schedule_time runtime sample.monotonic_ms ≡ ok tt
      → IsQuiet sample now (poll_schedules calendar runtime sample).1
  poll_schedules-IsQuiet runtime sample now h o e f =
      subst (λ r. IsQuiet sample now r.1) (sym (poll_schedules_known runtime sample now f e))
        (poll_at-IsQuiet runtime sample now h o e)
