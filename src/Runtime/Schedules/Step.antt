-- ===== src/Runtime/Schedules/Step.antt =====
-- A step of a poll keeps every cursor ordered and every last delivery, and leaves its own schedule
-- settled: the next occurrence is in the future.
use logik_smith.Prelude.{
  ℕ, ◌≡◌, refl, true, false, Option, none, some, arith, Bool-cases, inl, inr, subst, sym, ap, ◌∙◌,
  if◌then◌else◌,
}
use logik_smith.Prelude.Int.{ℤ, ◌≤ℤ◌, ◌<ℤ◌}
use logik_smith.Prelude.Euclid.{max_i64}
use logik_smith.Prelude.Order.{list_ord, nat_ord, pair_ord, same_refl}
use logik_smith.BTreeMap.{get, insert}
use logik_smith.BTreeMap.Laws.{get-insert}
use logik_smith.Execution.{SiteTimeConfig, ScheduleTrigger}
use logik_smith.Schedules.{ScheduleRule, ScheduleCursor}
use logik_smith.Schedules.Solar.{Calendar}
use logik_smith.Schedules.After.{IsAfter}
use logik_smith.Runtime.Schedules.{Key, Cursors, Entry, key_of, rebaselined, cursor_or_fresh}
use logik_smith.Runtime.Schedules.Poll.{deliver_due, settled, poll_entry}
use logik_smith.Runtime.Schedules.Delivery.{
  IsOrdered, IsBelowMax, Precedes, MovesOn, MovesOn-refl, rebaselined-IsOrdered, Outcome, idle,
  delivered, deliver_due-Outcome,
}
use logik_smith.Runtime.Schedules.Advance.{
  last_in, last_of, AreOrdered, IsSettled, IsStep, write-IsStep, cursor_or_fresh-IsOrdered,
  last_of-cursor_or_fresh,
}

IsAfter-Precedes : (s now : ℤ) (t : Option ℤ) → s ≤ℤ now → IsAfter now t → Precedes (some s) t
IsAfter-Precedes s now none h a = tt
IsAfter-Precedes s now (some t) h a = omega arith

Precedes-MovesOn : (d : Option ℤ) (s : ℤ) → Precedes d (some s) → MovesOn d (some s)
Precedes-MovesOn none s h = tt
Precedes-MovesOn (some d) s h = omega arith

-- A trigger that a step found: due, behind the last delivery before the step, and no later than
-- the one after it.
abbrev pub IsFound : Entry → ℤ → Option ℤ → Option ℤ → Option ScheduleTrigger → Type 0
IsFound entry now before after none = Unit
IsFound entry now before after (some t) =
    (t.block_id ≡ entry.0)
    × (t.name ≡ entry.1.name)
    × (t.detected_at_utc_ms ≡ now)
    × (t.scheduled_for_utc_ms ≤ℤ now)
    × Precedes before (some t.scheduled_for_utc_ms)
    × MovesOn (some t.scheduled_for_utc_ms) after

get-insert_self :
    (key : Key) (c : ScheduleCursor) (cursors : Cursors) → get key (insert key c cursors) ≡ some c
get-insert_self key c cursors =
    get-insert key key c cursors ∙ ap (λ b. if b then some c else get key cursors) (same_refl key)

module _ (calendar : Calendar) (site : SiteTimeConfig) where
  settled_marked :
      (rule : ScheduleRule) (now : ℤ) (cursor : ScheduleCursor)
      → cursor.needs_rebaseline ≡ true
      → settled calendar site rule now cursor ≡ rebaselined calendar site rule now cursor
  unfolding settled
  settled_marked rule now cursor e = ground arith

  settled_based :
      (rule : ScheduleRule) (now : ℤ) (cursor : ScheduleCursor)
      → cursor.needs_rebaseline ≡ false
      → settled calendar site rule now cursor ≡ cursor
  unfolding settled
  settled_based rule now cursor e = ground arith

  -- A cursor that a step may deliver from
  abbrev IsReady : ScheduleCursor → ScheduleCursor → Type 0
  IsReady cursor ready =
      IsOrdered ready
      × (ready.needs_rebaseline ≡ false)
      × (cursor.last_delivered_utc_ms ≡ ready.last_delivered_utc_ms)

  marked-based :
      (rule : ScheduleRule) (now : ℤ) (cursor : ScheduleCursor)
      → ((rebaselined calendar site rule now cursor).needs_rebaseline ≡ false)
        × (cursor.last_delivered_utc_ms
            ≡ (rebaselined calendar site rule now cursor).last_delivered_utc_ms)
  unfolding rebaselined
  marked-based rule now cursor = (refl, refl)

  settled-IsReady :
      (rule : ScheduleRule) (now : ℤ) (cursor : ScheduleCursor)
      → now <ℤ max_i64
      → IsOrdered cursor
      → IsReady cursor (settled calendar site rule now cursor)
  settled-IsReady rule now cursor h o = elim (Bool-cases cursor.needs_rebaseline) [
    | inl e ↦ subst (IsReady cursor) (sym (settled_marked rule now cursor e)) (
      (rebaselined-IsOrdered calendar site rule now cursor h o).0,
      (marked-based rule now cursor).0,
      (marked-based rule now cursor).1,
    )
    | inr e ↦ subst (IsReady cursor) (sym (settled_based rule now cursor e)) (o, e, refl)
  ]

  -- A step with its trigger: the trigger is behind the last delivery before the step, and no later
  -- than the one after it.
  abbrev pub IsBehind : Key → Cursors → ScheduleTrigger → Type 0
  IsBehind key cursors t = Precedes (last_of key cursors) (some t.scheduled_for_utc_ms)

  Outcome-IsOrdered :
      (entry : Entry) (now : ℤ) (cursor after : ScheduleCursor) (found : Option ScheduleTrigger)
      → now <ℤ max_i64
      → IsOrdered cursor
      → cursor.needs_rebaseline ≡ false
      → Outcome calendar site entry now cursor found after
      → IsOrdered after
        × MovesOn cursor.last_delivered_utc_ms after.last_delivered_utc_ms
        × IsSettled now after
  Outcome-IsOrdered entry now cursor after found h o b (idle f) =
      (o, MovesOn-refl cursor.last_delivered_utc_ms, record { based = b; future = f })
  Outcome-IsOrdered entry now cursor after found h o b (delivered next t after' e due d l n f) =
      let s = t.scheduled_for_utc_ms in
      (
        record {
          below = subst IsBelowMax (sym l) (omega arith);
          ordered =
              subst (λ x. Precedes x after.next_occurrence_utc_ms) (sym l)
                (IsAfter-Precedes s now after.next_occurrence_utc_ms d.latest.due f);
        },
        subst (MovesOn cursor.last_delivered_utc_ms) (sym l)
            (Precedes-MovesOn cursor.last_delivered_utc_ms s d.later),
        record { based = n ∙ b; future = f },
      )

  Outcome-IsFound :
      (entry : Entry) (now : ℤ) (cursor after : ScheduleCursor) (found : Option ScheduleTrigger)
      → Outcome calendar site entry now cursor found after
      → IsFound entry now cursor.last_delivered_utc_ms after.last_delivered_utc_ms found
  Outcome-IsFound entry now cursor after found (idle f) = tt
  Outcome-IsFound entry now cursor after found (delivered next t after' e due d l n f) = (
    d.block_id,
    d.name,
    d.detected,
    d.latest.due,
    d.later,
    subst (MovesOn (some t.scheduled_for_utc_ms)) (sym l)
        (MovesOn-refl (some t.scheduled_for_utc_ms)),
  )

  -- What a step of the poll does for its schedule
  pub record IsPollStep (entry : Entry) (now : ℤ) (before : Cursors)
      (found : Option ScheduleTrigger) (after : Cursors) : Type 0 where
    pub step : IsStep before after
    pub settled_entry : (c : ScheduleCursor) × (get (key_of entry) after ≡ some c) × IsSettled now c
    pub trigger :
        IsFound entry now (last_of (key_of entry) before) (last_of (key_of entry) after) found

  Outcome-IsPollStep :
      (revision : ℕ) (entry : Entry) (now : ℤ) (cursors : Cursors) (ready after : ScheduleCursor)
      (found : Option ScheduleTrigger)
      → now <ℤ max_i64
      → AreOrdered cursors
      → IsReady (cursor_or_fresh revision (key_of entry) cursors) ready
      → Outcome calendar site entry now ready found after
      → IsPollStep entry now cursors found (insert (key_of entry) after cursors)
  Outcome-IsPollStep revision entry now cursors ready after found h o (r, based, same_last)
        outcome =
      let key = key_of entry in
      let (ordered, moves, quiet) =
        Outcome-IsOrdered entry now ready after found h r based outcome in
      let before = last_of-cursor_or_fresh revision key cursors ∙ same_last in
      record {
        step =
            write-IsStep revision key after cursors o ordered
              (subst (λ d. MovesOn d after.last_delivered_utc_ms) (sym same_last) moves);
        settled_entry = (after, get-insert_self key after cursors, quiet);
        trigger =
            subst (λ d. IsFound entry now d (last_of key (insert key after cursors)) found)
              (sym before)
              (subst (λ d. IsFound entry now ready.last_delivered_utc_ms d found)
                (sym (ap last_in (get-insert_self key after cursors)))
                (Outcome-IsFound entry now ready after found outcome));
      }

  pub poll_entry-IsPollStep :
      (revision : ℕ) (now : ℤ) (entry : Entry) (cursors : Cursors)
      → now <ℤ max_i64
      → AreOrdered cursors
      → IsPollStep entry now cursors
          (poll_entry calendar site revision now entry cursors).0
          (poll_entry calendar site revision now entry cursors).1
  unfolding poll_entry
  poll_entry-IsPollStep revision now entry cursors h o =
      let cursor = cursor_or_fresh revision (key_of entry) cursors in
      let ready = settled calendar site entry.1.rule now cursor in
      let is_ready =
        settled-IsReady entry.1.rule now cursor h
          (cursor_or_fresh-IsOrdered revision (key_of entry) cursors o) in
      Outcome-IsPollStep revision entry now cursors ready
        (deliver_due calendar site entry now ready).1 (deliver_due calendar site entry now ready).0
        h o is_ready (deliver_due-Outcome calendar site entry now ready h is_ready.0)
