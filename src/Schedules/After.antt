-- ===== src/Schedules/After.antt =====
-- A next occurrence is after its baseline, but for the saturation at the last `i64`.
use logik_smith.Prelude.{
  ℕ, zero, suc, ◌+◌, ◌==◌, not, Option, none, some, arith, Bool-cases, Option-cases, inl, inr,
  if◌then◌else◌,
}
use logik_smith.Prelude.Int.{ℤ, pos, negsuc, ◌+ℤ◌, ◌<ℤ◌, ltb_ℤ}
use logik_smith.Prelude.Euclid.{max_i64, saturating_i64}
use logik_smith.Execution.{SiteTimeConfig}
use logik_smith.Schedules.{
  ScheduleRule, at_time, every, solar, is_valid_local_time, search_day_limit,
}
use logik_smith.Schedules.Weekdays.{WeekdaySet, contains}
use logik_smith.Schedules.Solar.{
  Calendar, LocalTime, SolarAnchor, resolve_local, timezone_for, local_date_of_utc,
}
use logik_smith.Schedules.Interval.{second_later}
use logik_smith.Schedules.Occurrence.{
  fixed_from, keep_best, solar_from, fixed_after, solar_after, interval_after,
  next_occurrence_after,
}

-- A found instant is after the baseline.
abbrev pub IsAfter : ℤ → Option ℤ → Type 0
IsAfter after none = Unit
IsAfter after (some t) = after <ℤ t

keep_best-IsAfter :
    (after : ℤ) (candidate best : Option ℤ)
    → IsAfter after best
    → IsAfter after (keep_best after candidate best)
unfolding keep_best
keep_best-IsAfter after none best h = h
keep_best-IsAfter after (some candidate) none h = ground arith
keep_best-IsAfter after (some candidate) (some best) h = ground arith

module _ (calendar : Calendar) where
  open calendar use {Zone, Date, at, add_days, weekday_of}

  candidate-IsAfter :
      (after candidate : ℤ) (rest : Option ℤ)
      → IsAfter after rest
      → IsAfter after (if ltb_ℤ after candidate then some candidate else rest)
  candidate-IsAfter after candidate rest h = elim (Bool-cases (ltb_ℤ after candidate)) [
    | inl e ↦ rw e (ground arith)
    | inr e ↦ rw e h
  ]

  fixed_from-IsAfter :
      (zone : Zone) (date : Date) (t : LocalTime) (days : WeekdaySet) (after : ℤ) (left : ℕ)
      (day : ℤ)
      → IsAfter after (fixed_from calendar zone date t days after left day)
  unfolding fixed_from
  fixed_from-IsAfter zone date t days after zero day = tt
  fixed_from-IsAfter zone date t days after (suc left) day =
      let rest = fixed_from-IsAfter zone date t days after left (day +ℤ pos 1) in
      elim (Option-cases (add_days date day)) [
        | inl e ↦ rw (e, fixed_from) tt
        | inr (anchor, e) ↦ elim (Bool-cases (not (contains days (weekday_of anchor)))) [
          | inl f ↦ rw (e, f, fixed_from) rest
          | inr f ↦ elim (Option-cases (resolve_local calendar (at anchor t) zone)) [
            | inl g ↦ rw (e, f, g, fixed_from) rest
            | inr (candidate, g) ↦
                rw (e, f, g, fixed_from) (candidate-IsAfter after candidate _ rest)
          ]
        ]
      ]

  solar_from-IsAfter :
      (zone : Zone) (site : ℕ × ℕ) (date : Date) (anchor : SolarAnchor) (offset : ℤ)
      (days : WeekdaySet) (after : ℤ) (left : ℕ) (day : ℤ) (best : Option ℤ)
      → IsAfter after best
      → IsAfter after (solar_from calendar zone site date anchor offset days after left day best)
  unfolding solar_from
  solar_from-IsAfter zone site date anchor offset days after zero day best h = h
  solar_from-IsAfter zone site date anchor offset days after (suc left) day best h =
      elim (Option-cases (add_days date day)) [
        | inl e ↦ rw (e, solar_from) tt
        | inr (d, e) ↦
            rw (e, solar_from)
              (solar_from-IsAfter zone site date anchor offset days after left (day +ℤ pos 1) _
                (keep_best-IsAfter after _ best h))
      ]

  fixed_after-IsAfter :
      (t : LocalTime) (days : WeekdaySet) (site : SiteTimeConfig) (after : ℤ)
      → IsAfter after (fixed_after calendar t days site after)
  unfolding fixed_after
  fixed_after-IsAfter t days site after = elim (Bool-cases (not (is_valid_local_time t))) [
    | inl e ↦ rw (e, fixed_after) tt
    | inr e ↦ elim (Option-cases (timezone_for calendar site.timezone)) [
      | inl f ↦ rw (e, f, fixed_after) tt
      | inr (zone, f) ↦ elim (Option-cases (local_date_of_utc calendar zone after)) [
        | inl g ↦ rw (e, f, g, fixed_after) tt
        | inr (date, g) ↦
            rw (e, f, g, fixed_after)
              (fixed_from-IsAfter zone date t days after search_day_limit (pos 0))
      ]
    ]
  ]

  solar_after-IsAfter :
      (anchor : SolarAnchor) (offset : ℤ) (days : WeekdaySet) (site : SiteTimeConfig) (after : ℤ)
      → IsAfter after (solar_after calendar anchor offset days site after)
  unfolding solar_after
  solar_after-IsAfter anchor offset days site after = elim (Bool-cases (not calendar.astronomy)) [
    | inl e ↦ rw (e, solar_after) tt
    | inr e ↦ elim (Option-cases site.coordinates) [
      | inl f ↦ rw (e, f, solar_after) tt
      | inr (coordinates, f) ↦ elim (Option-cases (timezone_for calendar site.timezone)) [
        | inl g ↦ rw (e, f, g, solar_after) tt
        | inr (zone, g) ↦ elim (Option-cases (local_date_of_utc calendar zone after)) [
          | inl k ↦ rw (e, f, g, k, solar_after) tt
          | inr (date, k) ↦
              rw (e, f, g, k, solar_after)
                (solar_from-IsAfter zone coordinates date anchor offset days after
                  (search_day_limit + 1) (negsuc 0) none tt)
        ]
      ]
    ]
  ]

  saturating_i64-lt : (a b : ℤ) → a <ℤ b → a <ℤ max_i64 → a <ℤ saturating_i64 b
  unfolding saturating_i64
  saturating_i64-lt a (pos n) h k = ground arith
  saturating_i64-lt a (negsuc n) h k = ground arith

  interval_after-IsAfter :
      (seconds offset : ℕ) (after : ℤ)
      → after <ℤ max_i64
      → IsAfter after (interval_after seconds offset after)
  unfolding interval_after
  interval_after-IsAfter seconds offset after h = elim (Bool-cases (seconds == 0)) [
    | inl e ↦ rw (e, interval_after) tt
    | inr e ↦
        rw (e, interval_after)
          (saturating_i64-lt after _ (second_later seconds offset after (ground arith)) h)
  ]

  pub next_occurrence_after-IsAfter :
      (rule : ScheduleRule) (site : SiteTimeConfig) (after : ℤ)
      → after <ℤ max_i64
      → IsAfter after (next_occurrence_after calendar rule site after)
  unfolding next_occurrence_after
  next_occurrence_after-IsAfter (at_time t days) site after h =
      fixed_after-IsAfter t days site after
  next_occurrence_after-IsAfter (every seconds offset) site after h =
      interval_after-IsAfter seconds offset after h
  next_occurrence_after-IsAfter (solar anchor offset days) site after h =
      solar_after-IsAfter anchor offset days site after
