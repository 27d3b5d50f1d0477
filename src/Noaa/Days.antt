-- ===== src/Noaa/Days.antt =====
-- The day number of a date, and the date of a day number.
use logik_smith.Prelude.{
  ℕ, ◌+◌, ◌-◌, ◌*◌, ◌/◌, ◌%◌, ◌^◌, ◌≤◌, ◌<◌, ◌≡◌, ltb, leb, if◌then◌else◌, arith, inl, inr, refl,
  ◌∙◌, ap, Bool-cases,
}
use logik_smith.Prelude.Int.{ℤ, pos, negsuc, pos_part, neg_part, ◌+ℤ◌, ◌-ℤ◌, eq_of_parts, +ℤ_parts}
use logik_smith.Prelude.Euclid.{scale, rem_euclid}
use logik_smith.Noaa.{
  CivilDate, div_trunc, era_of, days_from_march, days_from_civil, civil_of_era, civil_from_days,
  to_i32,
}

-- The year of the era that a day of the era is in
abbrev year_of : ℕ → ℕ
year_of doe = (doe - doe / 1460 + doe / 36524 - doe / 146096) / 365

-- The first day of a year of the era
abbrev start_of : ℕ → ℕ
start_of yoe = 365 * yoe + yoe / 4 - yoe / 100

abbrev month_of : ℕ → ℕ
month_of doy = (5 * doy + 2) / 153

abbrev first_of : ℕ → ℕ
first_of mp = (153 * mp + 2) / 5

year_of-lt : (doe : ℕ) → doe < 146097 → year_of doe < 400
year_of-lt doe h = omega arith

start_of-year_of : (doe : ℕ) → doe < 146097 → start_of (year_of doe) ≤ doe
start_of-year_of doe h = omega arith

year_of_days : (doe : ℕ) → doe < 146097 → doe - start_of (year_of doe) ≤ 365
year_of_days doe h = omega arith

month_of-lt : (doy : ℕ) → doy ≤ 365 → month_of doy < 12
month_of-lt doy h = omega arith

first_of-month_of : (doy : ℕ) → first_of (month_of doy) ≤ doy
first_of-month_of doy = omega arith

-- The era of a day number, and the day of that era
era_of_days :
    (z : ℤ)
    → (pos_part (z -ℤ scale (era_of z 146097) 146097) < 146097)
      × (scale (era_of z 146097) 146097 +ℤ pos (pos_part (z -ℤ scale (era_of z 146097) 146097)) ≡ z)
unfolding era_of div_trunc scale ◌+ℤ◌ ◌-ℤ◌
era_of_days (pos a) = (ground arith, eq_of_parts _ _ (ground arith))
era_of_days (negsuc a) = (ground arith, eq_of_parts _ _ (ground arith))

-- A year of an era
era_of_year : (era : ℤ) (yoe : ℕ) → yoe < 400 → era_of (pos yoe +ℤ scale era 400) 400 ≡ era
unfolding era_of div_trunc scale ◌+ℤ◌ ◌-ℤ◌
era_of_year (pos k) yoe h = eq_of_parts _ _ (ground arith)
era_of_year (negsuc k) yoe h = eq_of_parts _ _ (ground arith)

minus_same : (a b : ℤ) → (a +ℤ b) -ℤ b ≡ a
unfolding ◌+ℤ◌ ◌-ℤ◌
minus_same a b = eq_of_parts _ _ (ground arith)

to_i32_lem : (a : ℤ) → pos_part a < 2 ^ 31 → neg_part a < 2 ^ 31 → to_i32 a ≡ a
unfolding to_i32 rem_euclid ◌+ℤ◌
to_i32_lem a h k = eq_of_parts _ _ (ground arith)

-- The day number, from the era and the year of the era
days_from_march_lem :
    (era : ℤ) (yoe month day : ℕ)
    → yoe < 400
    → days_from_march (pos yoe +ℤ scale era 400) month day
      ≡ scale era 146097
        +ℤ pos (yoe * 365 + yoe / 4 - yoe / 100 + (first_of ((month + 9) % 12) + day - 1))
        -ℤ pos 719468
unfolding days_from_march
days_from_march_lem era yoe month day h =
    rw (era_of_year era yoe h, minus_same (pos yoe) (scale era 400)) refl

-- The bounds of an `i32`
abbrev FitsI32 : ℤ → Type 0
FitsI32 a = (pos_part a < 2 ^ 31 - 1) × (neg_part a < 2 ^ 31)

module _ (era : ℤ) (doe : ℕ) (below : doe < 146097)
    (fits : FitsI32 (pos (year_of doe) +ℤ scale era 400)) where
  abbrev year : ℤ
  year = pos (year_of doe) +ℤ scale era 400

  abbrev doy : ℕ
  doy = doe - start_of (year_of doe)

  abbrev mp : ℕ
  mp = month_of doy

  abbrev day : ℕ
  day = doy - first_of mp + 1

  mp-lt : mp < 12
  mp-lt = month_of-lt doy (year_of_days doe below)

  -- The days of the era that the month and the day stand for
  day_of_era :
      (month : ℕ)
      → (month + 9) % 12 ≡ mp
      → year_of doe * 365
          + year_of doe / 4
          - year_of doe / 100
          + (first_of ((month + 9) % 12) + day - 1)
        ≡ doe
  day_of_era month e = rw e (omega (arith, start_of-year_of doe below, first_of-month_of doy))

  march_lem :
      (month : ℕ)
      → (month + 9) % 12 ≡ mp
      → days_from_march year month day ≡ scale era 146097 +ℤ pos doe -ℤ pos 719468
  march_lem month e =
      days_from_march_lem era (year_of doe) month day (year_of-lt doe below)
      ∙ ap (λ d. scale era 146097 +ℤ pos d -ℤ pos 719468) (day_of_era month e)

  next_year_fits : to_i32 (year +ℤ pos 1) ≡ year +ℤ pos 1
  next_year_fits =
      to_i32_lem (year +ℤ pos 1) (ground (arith, +ℤ_parts year (pos 1), fits.0))
        (ground (arith, +ℤ_parts year (pos 1), fits.1))

  -- The date, from its month
  abbrev date : ℕ → CivilDate
  date month = record {
    year = to_i32 (if leb month 2 then year +ℤ pos 1 else year);
    month = month;
    day = day;
  }

  date_lem :
      (month : ℕ)
      → (month + 9) % 12 ≡ mp
      → days_from_civil (date month) ≡ scale era 146097 +ℤ pos doe -ℤ pos 719468
  unfolding days_from_civil
  date_lem month e = elim (Bool-cases (leb month 2)) [
    | inl winter ↦ rw (winter, next_year_fits, minus_same year (pos 1)) (march_lem month e)
    | inr later ↦ rw (later, to_i32_lem year (omega (arith, fits.0)) fits.1) (march_lem month e)
  ]

  month_lem : ((if ltb mp 10 then mp + 3 else mp - 9) + 9) % 12 ≡ mp
  month_lem = elim (Bool-cases (ltb mp 10)) [
    | inl e ↦ rw e (omega (arith, mp-lt))
    | inr e ↦ rw e (ground (arith, mp-lt, e))
  ]

  pub civil_of_era_lem :
      days_from_civil (civil_of_era era doe) ≡ scale era 146097 +ℤ pos doe -ℤ pos 719468
  unfolding civil_of_era
  civil_of_era_lem = date_lem (if ltb mp 10 then mp + 3 else mp - 9) month_lem

-- The years of eras that are not too far
era_bounds :
    (era z : ℤ) (doe : ℕ)
    → scale era 146097 +ℤ pos doe ≡ z
    → doe < 146097
    → pos_part z ≤ 2 ^ 39
    → neg_part z ≤ 2 ^ 39
    → (pos_part era ≤ 2 ^ 22) × (neg_part era ≤ 2 ^ 22)
unfolding scale
era_bounds (pos k) z doe e b h n =
    let sum = +ℤ_parts (scale (pos k) 146097) (pos doe) in
    (ground (arith, sum, ap pos_part e), ground arith)
era_bounds (negsuc k) z doe e b h n =
    let sum = +ℤ_parts (scale (negsuc k) 146097) (pos doe) in
    (ground arith, ground (arith, sum, ap neg_part e))

year_fits :
    (era : ℤ) (yoe : ℕ)
    → yoe < 400
    → pos_part era ≤ 2 ^ 22
    → neg_part era ≤ 2 ^ 22
    → FitsI32 (pos yoe +ℤ scale era 400)
unfolding scale ◌+ℤ◌
year_fits (pos k) yoe b h n = (ground arith, ground arith)
year_fits (negsuc k) yoe b h n = (ground arith, ground arith)

shift_bounds :
    (days : ℤ)
    → pos_part days ≤ 2 ^ 38
    → neg_part days ≤ 2 ^ 38
    → (pos_part (days +ℤ pos 719468) ≤ 2 ^ 39) × (neg_part (days +ℤ pos 719468) ≤ 2 ^ 39)
unfolding ◌+ℤ◌
shift_bounds (pos k) h n = (ground arith, ground arith)
shift_bounds (negsuc k) h n = (ground arith, ground arith)

-- For a day number within 2 to the power of 38, some 750 million years, the date of the number is the
-- date whose number it is.
pub days_from_civil-civil_from_days :
    (days : ℤ)
    → pos_part days ≤ 2 ^ 38
    → neg_part days ≤ 2 ^ 38
    → days_from_civil (civil_from_days days) ≡ days
unfolding civil_from_days
days_from_civil-civil_from_days days h n =
    let z = days +ℤ pos 719468 in
    let era = era_of z 146097 in
    let doe = pos_part (z -ℤ scale era 146097) in
    let (below, whole) = era_of_days z in
    let (late, early) = shift_bounds days h n in
    let (upper, lower) = era_bounds era z doe whole below late early in
    civil_of_era_lem era doe below (year_fits era (year_of doe) (year_of-lt doe below) upper lower)
    ∙ ap (λ a. a -ℤ pos 719468) whole
    ∙ minus_same days (pos 719468)
