-- ===== src/Schedules/Solar.antt =====
-- crates/logiksmith-core/src/schedule_astronomy.rs: local times, and the solar events of a local date.
-- The package jiff and the solar equations are parameters.
use logik_smith.Prelude.{
  ℕ, Bool, true, false, Option, none, some, List, [], ◌∷◌, not, if◌then◌else◌,
}
use logik_smith.Prelude.Int.{ℤ, pos, negsuc, ◌+ℤ◌}
use logik_smith.Prelude.Euclid.{scale, saturating_i64, div_euclid}
use logik_smith.Prelude.Order.{list_ord, nat_ord, same}
use logik_smith.Text.{Text}
use logik_smith.Noaa.{CivilDate, days_from_civil, civil_from_days}
use logik_smith.Schedules.Weekdays.{Weekday, WeekdaySet, contains}

pub record LocalTime : Type 0 where
  pub hour : ℕ
  pub minute : ℕ
  pub second : ℕ

pub data SolarAnchor : Type 0 where
  dawn sunrise sunset dusk : SolarAnchor

-- `DAWN_THRESHOLD_DEGREES` and `SUNRISE_THRESHOLD_DEGREES`
pub data Threshold : Type 0 where
  dawn_threshold sunrise_threshold : Threshold

-- The features of the build, what the code calls of jiff, and `solar_event_utc_ms` with its evening
-- variant (noaa.rs). `to_zoned` gives the civil time that the zone has and its instant.
pub record Calendar : Type 1 where
  pub timezones : Bool
  pub astronomy : Bool
  pub Zone : Type 0
  pub DateTime : Type 0
  pub Date : Type 0
  pub utc : Zone
  pub get_zone : Text → Option Zone
  pub datetime_at : Zone → ℤ → Option DateTime
  pub date_of : DateTime → Date
  pub at : Date → LocalTime → DateTime
  pub add_days : Date → ℤ → Option Date
  pub weekday_of : Date → Weekday
  pub to_zoned : DateTime → Zone → Option (DateTime × ℤ)
  pub same_datetime : DateTime → DateTime → Bool
  pub same_date : Date → Date → Bool
  pub crossing : CivilDate → ℕ × ℕ → Threshold → (evening : Bool) → Option ℤ

-- A milli-day
abbrev pub day_ms : ℕ
day_ms = 86400000

module _ (calendar : Calendar) where
  open calendar use {
    timezones, Zone, DateTime, Date, utc, get_zone, datetime_at, date_of, at, to_zoned,
    same_datetime, same_date, crossing, weekday_of,
  }

  unfoldable pub timezone_for : Text → Option Zone
  timezone_for id =
      if timezones
      then get_zone id
      else if same id (b'U' ∷ b'T' ∷ b'C' ∷ [])
      then some utc
      else none

  unfoldable pub resolve_local : DateTime → Zone → Option ℤ
  resolve_local dt zone = elim (to_zoned dt zone) [
    | none ↦ none
    | some (resolved, ms) ↦ if not (same_datetime resolved dt) then none else some ms
  ]

  unfoldable pub local_datetime_of : Zone → ℤ → Option DateTime
  local_datetime_of zone ms = datetime_at zone ms

  unfoldable pub local_date_of_utc : Zone → ℤ → Option Date
  unfolding local_datetime_of
  local_date_of_utc zone ms = elim (local_datetime_of zone ms) [
    | none ↦ none
    | some dt ↦ some (date_of dt)
  ]

  unfoldable pub utc_civil_date : ℤ → CivilDate
  utc_civil_date ms = civil_from_days (div_euclid ms day_ms)

  -- The event lies on the local date that was asked for.
  unfoldable pub is_on : Zone → Date → ℤ → Bool
  unfolding local_date_of_utc
  is_on zone date ms = elim (local_date_of_utc zone ms) [ none ↦ false | some d ↦ same_date d date ]

  -- The loop over the shifts of the UTC date
  unfoldable pub search_shifts : Zone → Date → ℕ × ℕ → Threshold → Bool → ℤ → List ℤ → Option ℤ
  unfolding is_on
  search_shifts zone date site threshold evening noon_days [] = none
  search_shifts zone date site threshold evening noon_days (shift ∷ shifts) =
      let rest = search_shifts zone date site threshold evening noon_days shifts in
      elim (crossing (civil_from_days (noon_days +ℤ shift)) site threshold evening) [
        | none ↦ rest
        | some ms ↦ if is_on zone date ms then some ms else rest
      ]

  unfoldable pub solar_event_for_local_date : Zone → Date → ℕ × ℕ → Threshold → Bool → Option ℤ
  unfolding resolve_local utc_civil_date search_shifts
  solar_event_for_local_date zone date site threshold evening =
      elim (resolve_local (at date (record { hour = 12; minute = 0; second = 0 })) zone) [
        | none ↦ none
        | some noon ↦
            search_shifts zone date site threshold evening (days_from_civil (utc_civil_date noon))
              (pos 0 ∷ negsuc 0 ∷ pos 1 ∷ [])
      ]

  abbrev pub threshold_of : SolarAnchor → Threshold
  threshold_of dawn = dawn_threshold
  threshold_of sunrise = sunrise_threshold
  threshold_of sunset = sunrise_threshold
  threshold_of dusk = dawn_threshold

  abbrev pub is_evening : SolarAnchor → Bool
  is_evening dawn = false
  is_evening sunrise = false
  is_evening sunset = true
  is_evening dusk = true

  unfoldable pub astronomical_occurrence :
      Date → SolarAnchor → ℤ → WeekdaySet → Zone → ℕ × ℕ → Option ℤ
  unfolding solar_event_for_local_date local_datetime_of resolve_local
  astronomical_occurrence date anchor offset days zone site =
      elim (solar_event_for_local_date zone date site (threshold_of anchor) (is_evening anchor)) [
        | none ↦ none
        | some event ↦ elim (local_datetime_of zone (saturating_i64 (event +ℤ scale offset 1000))) [
          | none ↦ none
          | some dt ↦
              if not (contains days (weekday_of (date_of dt))) then none else resolve_local dt zone
        ]
      ]
