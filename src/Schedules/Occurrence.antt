-- ===== src/Schedules/Occurrence.antt =====
-- crates/logiksmith-core/src/schedule_rules.rs and support.rs: the first occurrence of a rule after an
-- instant.
use logik_smith.Prelude.{
  ℕ, zero, suc, ◌+◌, Bool, true, Option, none, some, not, ◌==◌, if◌then◌else◌,
}
use logik_smith.Prelude.Int.{ℤ, pos, negsuc, ◌+ℤ◌, ◌-ℤ◌, ltb_ℤ, leb_ℤ}
use logik_smith.Prelude.Euclid.{div_euclid, rem_euclid, scale, saturating_i64}
use logik_smith.Execution.{SiteTimeConfig}
use logik_smith.Schedules.{
  ScheduleRule, at_time, every, solar, is_valid_local_time, search_day_limit,
}
use logik_smith.Schedules.Weekdays.{WeekdaySet, contains}
use logik_smith.Schedules.Solar.{
  Calendar, LocalTime, SolarAnchor, timezone_for, local_date_of_utc, resolve_local,
  astronomical_occurrence,
}

-- The second of the phase that the interval branch finds; `seconds` is not 0.
unfoldable pub interval_second : ℕ → ℕ → ℤ → ℤ
interval_second seconds offset after =
    let numerator = div_euclid after 1000 +ℤ pos 1 -ℤ pos offset in
    let k =
      div_euclid numerator seconds +ℤ pos (if rem_euclid numerator seconds == 0 then 0 else 1) in
    pos offset +ℤ scale k seconds

-- The interval branch
unfoldable pub interval_after : ℕ → ℕ → ℤ → Option ℤ
unfolding interval_second
interval_after seconds offset after =
    if seconds == 0
    then none
    else some (saturating_i64 (scale (interval_second seconds offset after) 1000))

-- `best.is_none_or(|current| candidate < current)`
abbrev pub is_better : ℤ → Option ℤ → Bool
is_better candidate none = true
is_better candidate (some current) = ltb_ℤ candidate current

-- The best candidate so far, after one more.
unfoldable pub keep_best : ℤ → Option ℤ → Option ℤ → Option ℤ
keep_best after none best = best
keep_best after (some candidate) best =
    if ltb_ℤ after candidate
    then (if is_better candidate best then some candidate else best)
    else best

module _ (calendar : Calendar) where
  open calendar use {Zone, Date, at, add_days, weekday_of, astronomy}

  -- The loop of the fixed branch, with the days that are left.
  unfoldable pub fixed_from : Zone → Date → LocalTime → WeekdaySet → ℤ → ℕ → ℤ → Option ℤ
  fixed_from zone date t days after zero day = none
  fixed_from zone date t days after (suc left) day =
      let rest = fixed_from zone date t days after left (day +ℤ pos 1) in
      elim (add_days date day) [
        | none ↦ none
        | some anchor ↦
            if not (contains days (weekday_of anchor))
            then rest
            else elim (resolve_local calendar (at anchor t) zone) [
              | none ↦ rest
              | some candidate ↦ if ltb_ℤ after candidate then some candidate else rest
            ]
      ]

  -- The loop of the astronomical branch
  unfoldable pub solar_from :
      Zone → ℕ × ℕ → Date → SolarAnchor → ℤ → WeekdaySet → ℤ → ℕ → ℤ → Option ℤ → Option ℤ
  unfolding keep_best
  solar_from zone site date anchor offset days after zero day best = best
  solar_from zone site date anchor offset days after (suc left) day best =
      elim (add_days date day) [
        | none ↦ none
        | some anchor_date ↦
            solar_from zone site date anchor offset days after left (day +ℤ pos 1) (
              keep_best after
                (astronomical_occurrence calendar anchor_date anchor offset days zone site) best)
      ]

  unfoldable pub fixed_after : LocalTime → WeekdaySet → SiteTimeConfig → ℤ → Option ℤ
  unfolding fixed_from
  fixed_after t days site after =
      if not (is_valid_local_time t) then none else elim (timezone_for calendar site.timezone) [
        | none ↦ none
        | some zone ↦ elim (local_date_of_utc calendar zone after) [
          | none ↦ none
          | some date ↦ fixed_from zone date t days after search_day_limit (pos 0)
        ]
      ]

  unfoldable pub solar_after : SolarAnchor → ℤ → WeekdaySet → SiteTimeConfig → ℤ → Option ℤ
  unfolding solar_from
  solar_after anchor offset days site after =
      if not astronomy then none else elim site.coordinates [
        | none ↦ none
        | some coordinates ↦ elim (timezone_for calendar site.timezone) [
          | none ↦ none
          | some zone ↦ elim (local_date_of_utc calendar zone after) [
            | none ↦ none
            | some date ↦
                solar_from zone coordinates date anchor offset days after (search_day_limit + 1)
                  (negsuc 0) none
          ]
        ]
      ]

  unfoldable pub next_occurrence_after : ScheduleRule → SiteTimeConfig → ℤ → Option ℤ
  unfolding fixed_after interval_after solar_after
  next_occurrence_after (at_time t days) site after = fixed_after t days site after
  next_occurrence_after (every seconds offset) site after = interval_after seconds offset after
  next_occurrence_after (solar anchor offset days) site after =
      solar_after anchor offset days site after

  -- The later of the sample and the last delivery.
  abbrev pub baseline_of : ℤ → Option ℤ → ℤ
  baseline_of now none = now
  baseline_of now (some last) = if leb_ℤ last now then now else last

  unfoldable pub next_occurrence_after_not_before :
      ScheduleRule → SiteTimeConfig → ℤ → Option ℤ → Option ℤ
  unfolding next_occurrence_after
  next_occurrence_after_not_before rule site now last =
      next_occurrence_after rule site (baseline_of now last)
