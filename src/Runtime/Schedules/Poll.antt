-- ===== src/Runtime/Schedules/Poll.antt =====
-- crates/logiksmith-core/src/runtime_impl.rs: `poll_schedules`, which delivers what is due.
use logik_smith.Prelude.{
  ℕ, zero, suc, ◌+◌, ◌-◌, Option, none, some, List, [], ◌∷◌, Ordering, compare, if◌then◌else◌,
}
use logik_smith.Prelude.Int.{ℤ, pos_part, neg_part, ◌-ℤ◌, ltb_ℤ, leb_ℤ}
use logik_smith.Prelude.Order.{list_ord, nat_ord, pair_ord, then_with}
use logik_smith.Prelude.Result.{Result, ok, err}
use logik_smith.BTreeMap.{insert}
use logik_smith.Values.{MonotonicMs}
use logik_smith.Execution.{SiteTimeConfig, ScheduleTrigger}
use logik_smith.Schedules.{ScheduleRule, ScheduleCursor, rule_kind}
use logik_smith.Schedules.Solar.{Calendar}
use logik_smith.Schedules.Occurrence.{next_occurrence_after}
use logik_smith.Runtime.{Runtime, ClockSample}
use logik_smith.Runtime.Schedules.{
  TimeError, Cursors, Entry, key_of, ensure_schedule_time, live_entries, cursor_or_fresh,
  current_revision, mark_all, rebaselined, baseline_cursors,
}

-- The order of the triggers
unfoldable pub trigger_cmp : ScheduleTrigger → ScheduleTrigger → Ordering
trigger_cmp left right =
    then_with
      (then_with
        (compare (pos_part left.scheduled_for_utc_ms + neg_part right.scheduled_for_utc_ms)
          (pos_part right.scheduled_for_utc_ms + neg_part left.scheduled_for_utc_ms))
        (list_ord.cmp left.block_id right.block_id))
      (list_ord.cmp left.name right.name)

-- `sort_by`, which keeps the order of equal triggers
unfoldable pub place_trigger : ScheduleTrigger → List ScheduleTrigger → List ScheduleTrigger
place_trigger t [] = t ∷ []
place_trigger t (u ∷ us) =
    let later = u ∷ place_trigger t us in
    elim (trigger_cmp t u) [
      | Ordering.lt ↦ t ∷ u ∷ us
      | Ordering.eq ↦ t ∷ u ∷ us
      | Ordering.gt ↦ later
    ]

unfoldable pub sort_triggers : List ScheduleTrigger → List ScheduleTrigger
unfolding place_trigger
sort_triggers [] = []
sort_triggers (t ∷ ts) = place_trigger t (sort_triggers ts)

abbrev pub with_delivered : Option ScheduleTrigger → List ScheduleTrigger → List ScheduleTrigger
with_delivered none triggers = triggers
with_delivered (some t) triggers = t ∷ triggers

-- Every round is a millisecond later at least.
abbrev pub fuel_for : ℤ → ℤ → ℕ
fuel_for now next = suc (pos_part (now -ℤ next))

module _ (calendar : Calendar) (site : SiteTimeConfig) where
  -- The coalescing loop, with the last occurrence and the number of them; it recurs on fuel.
  unfoldable pub coalesce : ScheduleRule → ℤ → ℕ → ℤ → ℕ → ℤ × ℕ
  coalesce rule now zero last count = (last, count)
  coalesce rule now (suc fuel) last count = elim (next_occurrence_after calendar rule site last) [
    | none ↦ (last, count)
    | some occurrence ↦
        let rest = coalesce rule now fuel occurrence (count + 1) in
        if leb_ℤ occurrence now then rest else (last, count)
  ]

  -- The lazy baseline of a cursor
  unfoldable pub settled : ScheduleRule → ℤ → ScheduleCursor → ScheduleCursor
  unfolding rebaselined
  settled rule now cursor =
      if cursor.needs_rebaseline then rebaselined calendar site rule now cursor else cursor

  -- What one settled cursor delivers, and the cursor that is left.
  unfoldable pub deliver_due : Entry → ℤ → ScheduleCursor → Option ScheduleTrigger × ScheduleCursor
  unfolding coalesce
  deliver_due entry now cursor = elim cursor.next_occurrence_utc_ms [
    | none ↦ (none, cursor)
    | some next ↦
        let (last, count) = coalesce entry.1.rule now (fuel_for now next) next 1 in
        if ltb_ℤ now next then (none, cursor) else (
          some (record {
            block_id = entry.0;
            name = entry.1.name;
            kind = rule_kind entry.1.rule;
            scheduled_for_utc_ms = last;
            detected_at_utc_ms = now;
            coalesced_count = count - 1;
            structural_revision = cursor.structural_revision;
          }),
          record cursor {
            last_delivered_utc_ms = some last;
            next_occurrence_utc_ms = next_occurrence_after calendar entry.1.rule site now;
          },
        )
  ]

  unfoldable pub poll_entry : ℕ → ℤ → Entry → Cursors → Option ScheduleTrigger × Cursors
  unfolding settled deliver_due
  poll_entry revision now entry cursors =
      let cursor = cursor_or_fresh revision (key_of entry) cursors in
      let (delivered, after) = deliver_due entry now (settled entry.1.rule now cursor) in
      (delivered, insert (key_of entry) after cursors)

  -- The loops over the blocks and their schedules
  unfoldable pub poll_entries : ℕ → ℤ → List Entry → Cursors → List ScheduleTrigger × Cursors
  unfolding poll_entry
  poll_entries revision now [] cursors = ([], cursors)
  poll_entries revision now (entry ∷ entries) cursors =
      let (delivered, after) = poll_entry revision now entry cursors in
      let (triggers, final) = poll_entries revision now entries after in
      (with_delivered delivered triggers, final)

module _ (calendar : Calendar) where
  -- The poll at a valid wall clock
  unfoldable pub poll_at : Runtime → MonotonicMs → ℤ → List ScheduleTrigger × Runtime
  unfolding baseline_cursors poll_entries
  poll_at runtime monotonic now =
      let (triggers, cursors) =
        poll_entries calendar runtime.site (current_revision runtime) now
          (live_entries runtime.blocks) (baseline_cursors calendar runtime now) in
      (
        sort_triggers triggers,
        record runtime {
          last_accepted_at = some monotonic;
          schedule_cursors = cursors;
          last_schedule_wall_clock_utc_ms = some now;
        },
      )

  -- `poll_schedules`
  unfoldable pub poll_schedules :
      Runtime → ClockSample → Result TimeError (List ScheduleTrigger) × Runtime
  unfolding poll_at
  poll_schedules runtime sample = elim (ensure_schedule_time runtime sample.monotonic_ms) [
    | err e ↦ (err e, runtime)
    | ok _ ↦ elim sample.utc_unix_ms [
      | none ↦ (
        ok [],
        record runtime {
          last_accepted_at = some sample.monotonic_ms;
          schedule_cursors = mark_all runtime.schedule_cursors;
          last_schedule_wall_clock_utc_ms = none;
        },
      )
      | some now ↦
          let (triggers, after) = poll_at runtime sample.monotonic_ms now in (ok triggers, after)
    ]
  ]
