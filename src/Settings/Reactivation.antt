-- ===== src/Settings/Reactivation.antt =====
-- The dates of src/AuthServer/Config.cpp: the period in which accounts can be reactivated.
pub mod Period
use game_login.Base.{ℕ, Bool, true, false, not, ◌&&◌, Option, none, some, ltb, ◌==◌, if◌then◌else◌}

-- `SYSTEMTIME`, the fields that the program uses.
pub record SystemTime : Type 0 where
  pub year : ℕ
  pub month : ℕ
  pub day : ℕ
  pub hour : ℕ
  pub minute : ℕ

-- `ClearDateTime`.
abbrev pub cleared : SystemTime
cleared = record { year = 0; month = 0; day = 0; hour = 0; minute = 0 }

-- The results -1, 0 and 1 of `CompareDateTime`.
pub data Order : Type 0 where
  before : Order
  same : Order
  after : Order

abbrev pub order : ℕ → ℕ → Order → Order
order a b rest = if a == b then rest else if ltb a b then before else after

pub compare_date_time : SystemTime → SystemTime → Order
compare_date_time time1 time2 = order time1.year time2.year (
    order time1.month time2.month (
      order time1.day time2.day
        (order time1.hour time2.hour (order time1.minute time2.minute same))))

unfoldable pub is_valid_date_time : SystemTime → Bool
is_valid_date_time time = not (time.year == 0) && not (time.month == 0) && not (time.day == 0)

-- The members `ReactivationStart` and `ReactivationEnd` after `Config::Load`, from what
-- `DateTimestringToSystemTime` makes of the two strings; `none` is a string that it refuses.
pub load_period : Option SystemTime → Option SystemTime → SystemTime × SystemTime
load_period (some start) (some end_) = elim (compare_date_time start end_) [
  | before ↦ (start, end_)
  | same ↦ (end_, start)
  | after ↦ (end_, start)
]
load_period _ _ = (cleared, cleared)

abbrev at_most : Order → Bool
at_most before = true
at_most same = true
at_most after = false

-- `IsReactivationActive` at the time `now`, with the setting `Reactivation`.
pub is_reactivation_active : ℕ → SystemTime × SystemTime → SystemTime → Bool
is_reactivation_active reactivation (start, end_) now =
    if not (reactivation == 0)
    then true
    else if not (is_valid_date_time start && is_valid_date_time end_)
    then false
    else at_most (compare_date_time start now) && at_most (compare_date_time now end_)
