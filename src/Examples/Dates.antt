-- ===== src/Examples/Dates.antt =====
-- The theorem on dates, at the last day of February 2024.
use logik_smith.Prelude.{◌≡◌, arith}
use logik_smith.Prelude.Int.{pos}
use logik_smith.Noaa.{days_from_civil, civil_from_days}
use logik_smith.Noaa.Days.{days_from_civil-civil_from_days}

days_from_civil-civil_from_days_example : days_from_civil (civil_from_days (pos 19782)) ≡ pos 19782
days_from_civil-civil_from_days_example =
    days_from_civil-civil_from_days (pos 19782) (omega arith) (omega arith)
