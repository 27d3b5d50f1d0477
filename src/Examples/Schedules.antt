-- ===== src/Examples/Schedules.antt =====
-- A runtime with one interval schedule, and the theorems on schedules at concrete inputs.
use logik_smith.Prelude.{ℕ, ◌≡◌, refl, true, false, none, some, [], ◌∷◌, arith}
use logik_smith.Prelude.Int.{ℤ, pos, ◌+ℤ◌, ◌-ℤ◌, ◌<ℤ◌, eqb_ℤ, int_laws}
use logik_smith.Prelude.Euclid.{div_euclid, rem_euclid, scale, saturating_i64}
use logik_smith.Prelude.Order.{list_ord, nat_ord, pair_ord}
use logik_smith.BTreeMap.{get, insert}
use logik_smith.Text.{Text}
use logik_smith.Execution.{ScheduleTrigger, interval}
use logik_smith.Schedules.{every, BlockSchedule, ScheduleCursor, rule_kind}
use logik_smith.Schedules.Weekdays.{monday}
use logik_smith.Schedules.Solar.{Calendar}
use logik_smith.Schedules.Occurrence.{interval_after, next_occurrence_after}
use logik_smith.Schedules.Interval.{IsFirst, interval_after-IsFirst}
use logik_smith.Block.{LogicBlock}
use logik_smith.Runtime.{Runtime, ClockSample}
use logik_smith.Runtime.Schedules.{
  ensure_schedule_time, live_entries, cursor_or_fresh, needs_recompute,
}
use logik_smith.Runtime.Schedules.Poll.{poll_schedules, sort_triggers}
use logik_smith.Runtime.Schedules.History.{here, poll_schedules-IsOnce}
use logik_smith.Runtime.Schedules.Settled.{IsQuiet, poll_schedules-IsQuiet}
use logik_smith.Runtime.Schedules.Turn.{
  process_schedule_sampled, process_schedule_cascade, process_schedule_cascade-IsRootedTurn,
}
use logik_smith.Runtime.DueTimers.Turn.{IsRootedTurn}
use logik_smith.Runtime.Cascades.{root_probe}
use logik_smith.Examples.{block, feedback, platform}

-- Every date is a Monday, and local time is UTC.
abbrev calendar : Calendar
calendar = record {
  timezones = true;
  astronomy = true;
  Zone = Unit {0};
  DateTime = ℤ;
  Date = ℤ;
  utc = tt;
  get_zone = λ id. some tt;
  datetime_at = λ zone ms. some ms;
  date_of = λ ms. ms;
  at = λ date time. date;
  add_days = λ date days. some date;
  weekday_of = λ date. monday;
  to_zoned = λ dt zone. some (dt, dt);
  same_datetime = eqb_ℤ;
  same_date = eqb_ℤ;
  crossing = λ date site threshold evening. none;
}

abbrev hourly_name : Text
hourly_name = b's' ∷ []

abbrev minutely : BlockSchedule
minutely = record { name = hourly_name; enabled = true; rule = every 60 0 }

abbrev scheduled_block : LogicBlock
scheduled_block = record block { config = record block.config { schedules = minutely ∷ [] } }

abbrev cursor : ScheduleCursor
cursor = record {
  last_delivered_utc_ms = none;
  next_occurrence_utc_ms = some (pos 120000);
  structural_revision = 3;
  needs_rebaseline = false;
}

abbrev scheduled : Runtime
scheduled = record feedback {
  blocks = scheduled_block ∷ [];
  schedule_cursors = ((b'b' ∷ [], hourly_name), cursor) ∷ [];
  schedule_structural_revision = some 3;
  last_schedule_wall_clock_utc_ms = some (pos 100000);
}

abbrev sample : ClockSample
sample = record { monotonic_ms = 20; utc_unix_ms = some (pos 130000) }

abbrev next_sample : ClockSample
next_sample = record { monotonic_ms = 30; utc_unix_ms = some (pos 250000) }

abbrev trigger_at : ℤ → ℤ → ℕ → ScheduleTrigger
trigger_at scheduled_for detected_at coalesced = record {
  block_id = b'b' ∷ [];
  name = hourly_name;
  kind = interval;
  scheduled_for_utc_ms = scheduled_for;
  detected_at_utc_ms = detected_at;
  coalesced_count = coalesced;
  structural_revision = 3;
}

abbrev after_poll : Runtime
after_poll = (poll_schedules calendar scheduled sample).1

interval_after-IsFirst_example :
    (found : ℤ) × (interval_after 60 0 (pos 100000) ≡ some found) × IsFirst 60 0 (pos 100000) found
interval_after-IsFirst_example =
    interval_after-IsFirst 60 0 (pos 100000) (omega arith) (omega arith) (omega int_laws)

poll_schedules-IsOnce_example : pos 120000 <ℤ pos 240000
unfolding poll_schedules next_occurrence_after ensure_schedule_time insert get sort_triggers
    live_entries cursor_or_fresh needs_recompute pair_ord list_ord rule_kind saturating_i64 scale
    ◌+ℤ◌ div_euclid ◌-ℤ◌ rem_euclid
poll_schedules-IsOnce_example =
    poll_schedules-IsOnce calendar scheduled after_poll sample next_sample
      (trigger_at (pos 120000) (pos 130000) 0) (trigger_at (pos 240000) (pos 250000) 1)
      (record { below = tt; ordered = tt }, tt) (omega arith) (omega arith) (0, refl) here (0, refl)
      refl

poll_schedules-IsQuiet_example :
    IsQuiet calendar sample (pos 130000) (poll_schedules calendar scheduled sample).1
unfolding ensure_schedule_time
poll_schedules-IsQuiet_example =
    poll_schedules-IsQuiet calendar scheduled sample (pos 130000) (omega arith)
      (record { below = tt; ordered = tt }, tt) refl refl

process_schedule_cascade-IsRootedTurn_example :
    IsRootedTurn scheduled
      (process_schedule_sampled platform scheduled
        (trigger_at (pos 120000) (pos 130000) 0)
        sample
        (root_probe none))
      (process_schedule_cascade platform scheduled
        (trigger_at (pos 120000) (pos 130000) 0)
        sample
        none)
process_schedule_cascade-IsRootedTurn_example =
    process_schedule_cascade-IsRootedTurn platform scheduled
      (trigger_at (pos 120000) (pos 130000) 0) sample none (omega arith)
