-- ===== src/Noaa.antt =====
-- crates/logiksmith-core/src/noaa.rs: civil dates and day numbers since 1970-01-01. The solar
-- equations of this file are floating-point formulae, which are not part of the model.
pub mod Days
use logik_smith.Prelude.{ℕ, ◌+◌, ◌-◌, ◌*◌, ◌/◌, ◌%◌, ◌^◌, ltb, leb, if◌then◌else◌}
use logik_smith.Prelude.Int.{ℤ, pos, negsuc, pos_part, sub_ℕ, ◌+ℤ◌, ◌-ℤ◌, leb_ℤ}
use logik_smith.Prelude.Euclid.{scale, rem_euclid}

pub record CivilDate : Type 0 where
  pub year : ℤ
  pub month : ℕ
  pub day : ℕ

-- `/` of an `i64` by a positive number rounds towards zero.
unfoldable pub div_trunc : ℤ → ℕ → ℤ
div_trunc (pos a) n = pos (a / n)
div_trunc (negsuc a) n = pos 0 -ℤ pos ((a + 1) / n)

-- The era, of `length` years or days
unfoldable pub era_of : ℤ → ℕ → ℤ
unfolding div_trunc
era_of n length = div_trunc (if leb_ℤ (pos 0) n then n else n -ℤ pos (length - 1)) length

-- `year` counts from March on.
unfoldable pub days_from_march : ℤ → ℕ → ℕ → ℤ
unfolding era_of
days_from_march year month day =
    let era = era_of year 400 in
    let yoe = pos_part (year -ℤ scale era 400) in
    let mp = (month + 9) % 12 in
    let doy = (153 * mp + 2) / 5 + day - 1 in
    let doe = yoe * 365 + yoe / 4 - yoe / 100 + doy in scale era 146097 +ℤ pos doe -ℤ pos 719468

unfoldable pub days_from_civil : CivilDate → ℤ
unfolding days_from_march
days_from_civil date =
    days_from_march (if leb date.month 2 then date.year -ℤ pos 1 else date.year) date.month date.day

-- `as i32`
unfoldable pub to_i32 : ℤ → ℤ
unfolding rem_euclid
to_i32 a = sub_ℕ (rem_euclid (a +ℤ pos (2 ^ 31)) (2 ^ 32)) (2 ^ 31)

-- From the era and the day in it
unfoldable pub civil_of_era : ℤ → ℕ → CivilDate
unfolding to_i32
civil_of_era era doe =
    let yoe = (doe - doe / 1460 + doe / 36524 - doe / 146096) / 365 in
    let year = pos yoe +ℤ scale era 400 in
    let doy = doe - (365 * yoe + yoe / 4 - yoe / 100) in
    let mp = (5 * doy + 2) / 153 in
    let day = doy - (153 * mp + 2) / 5 + 1 in
    let month = if ltb mp 10 then mp + 3 else mp - 9 in
    record { year = to_i32 (if leb month 2 then year +ℤ pos 1 else year); month = month; day = day }

unfoldable pub civil_from_days : ℤ → CivilDate
unfolding era_of civil_of_era
civil_from_days days =
    let z = days +ℤ pos 719468 in
    let era = era_of z 146097 in civil_of_era era (pos_part (z -ℤ scale era 146097))
