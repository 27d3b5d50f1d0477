-- ===== src/Schedules/Weekdays.antt =====
-- crates/logiksmith-core/src/schedule_rules.rs: the days of the week, and non-empty sets of them.
use logik_smith.Prelude.{ℕ, Bool, List, [], ◌∷◌, ◌++◌, ◌==◌, leb, any, if◌then◌else◌}
use logik_smith.Prelude.Result.{Result, ok, err, ◌>>◌, reject}

pub data Weekday : Type 0 where
  monday tuesday wednesday thursday friday saturday sunday : Weekday

-- The derived order: the place in the declaration.
unfoldable pub day_index : Weekday → ℕ
day_index monday = 0
day_index tuesday = 1
day_index wednesday = 2
day_index thursday = 3
day_index friday = 4
day_index saturday = 5
day_index sunday = 6

unfoldable pub same_day : Weekday → Weekday → Bool
unfolding day_index
same_day a b = day_index a == day_index b

pub data WeekdaySetError : Type 0 where
  no_days : WeekdaySetError
  duplicate_day : Weekday → WeekdaySetError

pub record WeekdaySet : Type 0 where
  pub days : List Weekday

-- `sort_unstable`, by insertion
unfoldable pub insert_day : Weekday → List Weekday → List Weekday
insert_day d [] = d ∷ []
insert_day d (e ∷ es) = if leb (day_index d) (day_index e) then d ∷ e ∷ es else e ∷ insert_day d es

unfoldable pub sort_days : List Weekday → List Weekday
sort_days [] = []
sort_days (d ∷ ds) = insert_day d (sort_days ds)

-- The loop over the days, behind those before them.
unfoldable pub check_days : List Weekday → List Weekday → Result WeekdaySetError (Unit {0})
check_days before [] = ok tt
check_days before (d ∷ ds) = do
  reject (any (λ other. same_day other d) before) (duplicate_day d)
  check_days (before ++ d ∷ []) ds

-- `WeekdaySet::new`
unfoldable pub new_weekday_set : List Weekday → Result WeekdaySetError WeekdaySet
new_weekday_set [] = err no_days
new_weekday_set (d ∷ ds) = do check_days [] (d ∷ ds); ok (record { days = sort_days (d ∷ ds) })

-- `WeekdaySet::contains`
unfoldable pub contains : WeekdaySet → Weekday → Bool
contains set day = any (λ other. same_day other day) set.days
