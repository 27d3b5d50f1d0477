-- ===== src/Schedules.antt =====
-- crates/logiksmith-core/src/schedule_rules.rs: the schedules of a block, their validation, and the
-- first occurrence of a rule after an instant.
pub mod Weekdays
pub mod Solar
pub mod Occurrence
pub mod Interval
pub mod After
use logik_smith.Prelude.{
  ℕ, ◌+◌, ◌-◌, ◌≡◌, Bool, true, false, ◌&&◌, ◌||◌, Option, none, some, List, [], ◌∷◌, ltb, leb, not,
  if◌then◌else◌,
}
use logik_smith.Prelude.Result.{Result, ok, err, ◌>>=◌, ◌>>◌, reject}
use logik_smith.Prelude.Int.{ℤ, pos, negsuc, leb_ℤ, pos_part, neg_part}
use logik_smith.Text.{Text}
use logik_smith.Execution.{ScheduleKind, fixed, interval, astronomical}
use logik_smith.Schedules.Weekdays.{WeekdaySet}
use logik_smith.Schedules.Solar.{LocalTime, SolarAnchor}

abbrev pub ScheduleName : Type 0
ScheduleName = Text

pub data ScheduleRule : Type 0 where
  at_time : LocalTime → WeekdaySet → ScheduleRule
  every : (every_seconds offset_seconds : ℕ) → ScheduleRule
  solar : SolarAnchor → (offset_seconds : ℤ) → WeekdaySet → ScheduleRule

pub record BlockSchedule : Type 0 where
  pub name : ScheduleName
  pub enabled : Bool
  pub rule : ScheduleRule

-- The state of one schedule; it is marked when it needs a baseline before it may be delivered.
pub record ScheduleCursor : Type 0 where
  pub last_delivered_utc_ms : Option ℤ
  pub next_occurrence_utc_ms : Option ℤ
  pub structural_revision : ℕ
  pub needs_rebaseline : Bool

pub data ScheduleError : Type 0 where
  unknown_schedule : ScheduleError
  invalid_local_time : LocalTime → ScheduleError
  invalid_interval : (every_seconds : ℕ) → ScheduleError
  invalid_interval_offset : (offset_seconds every_seconds : ℕ) → ScheduleError
  invalid_astronomical_offset : (offset_seconds : ℤ) → ScheduleError
  feature_disabled : ScheduleError

-- `ScheduleRule::kind`
unfoldable pub rule_kind : ScheduleRule → ScheduleKind
rule_kind (at_time t days) = fixed
rule_kind (every seconds offset) = interval
rule_kind (solar anchor offset days) = astronomical

abbrev pub min_interval_seconds : ℕ
min_interval_seconds = 60

abbrev pub max_interval_seconds : ℕ
max_interval_seconds = 604800

abbrev pub max_astronomical_offset_seconds : ℕ
max_astronomical_offset_seconds = 86400

-- `SEARCH_DAY_LIMIT`
abbrev pub search_day_limit : ℕ
search_day_limit = 370

unfoldable pub is_valid_local_time : LocalTime → Bool
is_valid_local_time t = leb t.hour 23 && leb t.minute 59 && leb t.second 59

unfoldable pub validate_local_time : LocalTime → Result ScheduleError (Unit {0})
validate_local_time t =
    reject (ltb 23 t.hour || ltb 59 t.minute || ltb 59 t.second) (invalid_local_time t)

-- `ScheduleRule::validate`; the flag is the feature `astronomy` of the build.
unfoldable pub validate_rule : Bool → ScheduleRule → Result ScheduleError (Unit {0})
unfolding validate_local_time
validate_rule astronomy (at_time t days) = validate_local_time t
validate_rule astronomy (every seconds offset) = do
  reject (not (leb min_interval_seconds seconds && leb seconds max_interval_seconds))
      (invalid_interval seconds)
  reject (leb seconds offset) (invalid_interval_offset offset seconds)
validate_rule false (solar anchor offset days) = err feature_disabled
validate_rule true (solar anchor offset days) =
    reject
      (not (
        leb_ℤ (negsuc (max_astronomical_offset_seconds - 1)) offset
        && leb_ℤ offset (pos max_astronomical_offset_seconds)))
      (invalid_astronomical_offset offset)
