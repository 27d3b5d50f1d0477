-- ===== src/Runtime/Schedules/Delivery.antt =====
-- What one step of a poll delivers for one schedule, and the cursor that it leaves.
use logik_smith.Prelude.{
  ℕ, suc, ◌-◌, ◌≡◌, refl, true, false, Option, none, some, arith, Bool-cases, Option-cases, inl,
  inr, subst, sym,
}
use logik_smith.Prelude.Int.{ℤ, ◌≤ℤ◌, ◌<ℤ◌, ltb_ℤ, leb_ℤ}
use logik_smith.Prelude.Euclid.{max_i64}
use logik_smith.Execution.{SiteTimeConfig, ScheduleTrigger}
use logik_smith.Schedules.{ScheduleRule, ScheduleCursor, rule_kind}
use logik_smith.Schedules.Solar.{Calendar}
use logik_smith.Schedules.Occurrence.{next_occurrence_after, next_occurrence_after_not_before}
use logik_smith.Schedules.After.{IsAfter, next_occurrence_after-IsAfter}
use logik_smith.Runtime.Schedules.{Entry, rebaselined}
use logik_smith.Runtime.Schedules.Poll.{coalesce, fuel_for, deliver_due}
use logik_smith.Runtime.Schedules.Coalesce.{IsLatest, coalesce_lem}

-- An instant with room above it, if there is one.
abbrev pub IsBelowMax : Option ℤ → Type 0
IsBelowMax none = Unit
IsBelowMax (some d) = d <ℤ max_i64

-- The second is after the first, where there are both.
abbrev pub Precedes : Option ℤ → Option ℤ → Type 0
Precedes none t = Unit
Precedes (some d) none = Unit
Precedes (some d) (some t) = d <ℤ t

-- The last delivery only moves on.
abbrev pub MovesOn : Option ℤ → Option ℤ → Type 0
MovesOn none e = Unit
MovesOn (some d) none = ⊥
MovesOn (some d) (some e) = d ≤ℤ e

-- What is next is after what was delivered last.
pub record IsOrdered (cursor : ScheduleCursor) : Type 0 where
  pub below : IsBelowMax cursor.last_delivered_utc_ms
  pub ordered : Precedes cursor.last_delivered_utc_ms cursor.next_occurrence_utc_ms

pub MovesOn-refl : (d : Option ℤ) → MovesOn d d
MovesOn-refl none = tt
MovesOn-refl (some d) = omega arith

pub MovesOn-trans : (d e f : Option ℤ) → MovesOn d e → MovesOn e f → MovesOn d f
MovesOn-trans none e f h k = tt
MovesOn-trans (some d) none f h k = absurd h
MovesOn-trans (some d) (some e) none h k = absurd k
MovesOn-trans (some d) (some e) (some f) h k = omega arith

pub Precedes-none : (d : Option ℤ) → Precedes d none
Precedes-none none = tt
Precedes-none (some d) = tt

IsAfter-both :
    (d utc baseline : ℤ) (found : Option ℤ)
    → d ≤ℤ baseline
    → utc ≤ℤ baseline
    → IsAfter baseline found
    → Precedes (some d) found × IsAfter utc found
IsAfter-both d utc baseline none h k a = (tt, tt)
IsAfter-both d utc baseline (some t) h k a = (omega arith, omega arith)

Precedes-le : (last : Option ℤ) (s t : ℤ) → Precedes last (some s) → s ≤ℤ t → Precedes last (some t)
Precedes-le none s t h k = tt
Precedes-le (some d) s t h k = omega arith

module _ (calendar : Calendar) (site : SiteTimeConfig) where
  not_before-Precedes :
      (rule : ScheduleRule) (utc : ℤ) (last : Option ℤ)
      → utc <ℤ max_i64
      → IsBelowMax last
      → Precedes last (next_occurrence_after_not_before calendar rule site utc last)
        × IsAfter utc (next_occurrence_after_not_before calendar rule site utc last)
  unfolding next_occurrence_after_not_before
  not_before-Precedes rule utc none h b =
      (tt, next_occurrence_after-IsAfter calendar rule site utc h)
  not_before-Precedes rule utc (some d) h b = elim (Bool-cases (leb_ℤ d utc)) [
    | inl e ↦
        rw (e, next_occurrence_after_not_before)
          (IsAfter-both d utc utc _ (ground arith) (omega arith)
            (next_occurrence_after-IsAfter calendar rule site utc h))
    | inr e ↦
        rw (e, next_occurrence_after_not_before)
          (IsAfter-both d utc d _ (omega arith) (ground arith)
            (next_occurrence_after-IsAfter calendar rule site d b))
  ]

  -- A future-only baseline keeps the last delivery.
  pub rebaselined-IsOrdered :
      (rule : ScheduleRule) (utc : ℤ) (cursor : ScheduleCursor)
      → utc <ℤ max_i64
      → IsOrdered cursor
      → IsOrdered (rebaselined calendar site rule utc cursor)
        × IsAfter utc (rebaselined calendar site rule utc cursor).next_occurrence_utc_ms
  unfolding rebaselined
  rebaselined-IsOrdered rule utc cursor h o =
      let both = not_before-Precedes rule utc cursor.last_delivered_utc_ms h o.below in
      (record { below = o.below; ordered = both.0 }, both.1)

  -- A trigger for the schedule, at the latest of its occurrences that are due: behind the last
  -- delivery, and the occurrences before it counted.
  pub record IsDelivery (entry : Entry) (now : ℤ) (last : Option ℤ) (next : ℤ) (t : ScheduleTrigger)
      : Type 0 where
    pub block_id : t.block_id ≡ entry.0
    pub name : t.name ≡ entry.1.name
    pub detected : t.detected_at_utc_ms ≡ now
    pub latest :
        IsLatest calendar site entry.1.rule now next (t.scheduled_for_utc_ms, suc t.coalesced_count)
    pub later : Precedes last (some t.scheduled_for_utc_ms)

  -- What becomes of a cursor: nothing is due, or the trigger is delivered.
  pub data Outcome (entry : Entry) (now : ℤ) (cursor : ScheduleCursor)
      : Option ScheduleTrigger → ScheduleCursor → Type 0 where
    idle : IsAfter now cursor.next_occurrence_utc_ms → Outcome entry now cursor none cursor
    delivered :
        (next : ℤ) (t : ScheduleTrigger) (after : ScheduleCursor)
        → cursor.next_occurrence_utc_ms ≡ some next
        → next ≤ℤ now
        → IsDelivery entry now cursor.last_delivered_utc_ms next t
        → after.last_delivered_utc_ms ≡ some t.scheduled_for_utc_ms
        → after.needs_rebaseline ≡ cursor.needs_rebaseline
        → IsAfter now after.next_occurrence_utc_ms
        → Outcome entry now cursor (some t) after

  recount :
      (rule : ScheduleRule) (now first : ℤ) (found : ℤ × ℕ)
      → IsLatest calendar site rule now first found
      → IsLatest calendar site rule now first (found.0, suc (found.1 - 1))
  recount rule now first found l =
      let (n, e, walk) = l.passed in
      record {
        passed = (n, omega (arith, e), walk);
        due = l.due;
        no_earlier = l.no_earlier;
        last = l.last;
      }

  module _ (entry : Entry) (now : ℤ) (cursor : ScheduleCursor) where
    abbrev Becomes : Option ScheduleTrigger → ScheduleCursor → Type 0
    Becomes found after = deliver_due calendar site entry now cursor ≡ (found, after)

    deliver_due-none : cursor.next_occurrence_utc_ms ≡ none → Becomes none cursor
    unfolding deliver_due
    deliver_due-none e = ground arith

    deliver_due-later :
        (next : ℤ)
        → cursor.next_occurrence_utc_ms ≡ some next
        → ltb_ℤ now next ≡ true
        → Becomes none cursor
    unfolding deliver_due
    deliver_due-later next e f = ground arith

    abbrev found_at : ℤ → ℤ × ℕ
    found_at next = coalesce calendar site entry.1.rule now (fuel_for now next) next 1

    abbrev trigger_at : ℤ → ScheduleTrigger
    trigger_at next = record {
      block_id = entry.0;
      name = entry.1.name;
      kind = rule_kind entry.1.rule;
      scheduled_for_utc_ms = (found_at next).0;
      detected_at_utc_ms = now;
      coalesced_count = (found_at next).1 - 1;
      structural_revision = cursor.structural_revision;
    }

    abbrev cursor_after : ℤ → ScheduleCursor
    cursor_after next = record cursor {
      last_delivered_utc_ms = some (found_at next).0;
      next_occurrence_utc_ms = next_occurrence_after calendar entry.1.rule site now;
    }

    deliver_due-due :
        (next : ℤ)
        → cursor.next_occurrence_utc_ms ≡ some next
        → ltb_ℤ now next ≡ false
        → Becomes (some (trigger_at next)) (cursor_after next)
    unfolding deliver_due
    deliver_due-due next e f = ground arith

    pub deliver_due-Outcome :
        now <ℤ max_i64
        → IsOrdered cursor
        → Outcome entry now cursor
            (deliver_due calendar site entry now cursor).0
            (deliver_due calendar site entry now cursor).1
    deliver_due-Outcome h o = elim (Option-cases cursor.next_occurrence_utc_ms) [
      | inl e ↦ rw (deliver_due-none e) (idle (subst (IsAfter now) (sym e) tt))
      | inr (next, e) ↦ elim (Bool-cases (ltb_ℤ now next)) [
        | inl f ↦
            rw (deliver_due-later next e f) (idle (subst (IsAfter now) (sym e) (ground arith)))
        | inr f ↦
            let due : next ≤ℤ now = ground arith in
            let found = coalesce_lem calendar site entry.1.rule now next h due in
            rw (deliver_due-due next e f) (
              delivered next (trigger_at next) (cursor_after next) e due
                (record {
                  block_id = refl;
                  name = refl;
                  detected = refl;
                  latest = recount entry.1.rule now next (found_at next) found;
                  later =
                      Precedes-le cursor.last_delivered_utc_ms next (found_at next).0
                        (subst (Precedes cursor.last_delivered_utc_ms) e o.ordered)
                        found.no_earlier;
                })
                refl refl (next_occurrence_after-IsAfter calendar entry.1.rule site now h))
      ]
    ]
