-- ===== src/Runtime/Schedules/Due.antt =====
-- A schedule that is due and needs no new baseline is delivered by a poll, if the clock has not gone back.
use logik_smith.Prelude.{◌≡◌, false, some, List}
use logik_smith.Prelude.Int.{ℤ, ◌≤ℤ◌}
use logik_smith.Prelude.Order.{list_ord, nat_ord, pair_ord}
use logik_smith.Execution.{ScheduleTrigger}
use logik_smith.Schedules.{ScheduleCursor}
use logik_smith.Runtime.Schedules.{Key}
use logik_smith.Runtime.{Runtime}
use logik_smith.Runtime.Schedules.Once.{trigger_key}
use logik_smith.Prelude.MinBy.{In}

-- A trigger for the key, no earlier than `next`, is in the list.
abbrev pub Delivers : Key → ℤ → List ScheduleTrigger → Type 0
Delivers key next ts =
    (t : ScheduleTrigger) × In t ts × (trigger_key t ≡ key) × (next ≤ℤ t.scheduled_for_utc_ms)

-- A cursor with an occurrence that is due
pub record IsDue (now next : ℤ) (cursor : ScheduleCursor) : Type 0 where
  pub based : cursor.needs_rebaseline ≡ false
  pub next_is : cursor.next_occurrence_utc_ms ≡ some next
  pub due : next ≤ℤ now
