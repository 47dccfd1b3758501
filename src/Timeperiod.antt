-- ===== src/Timeperiod.antt =====
-- Timeperiods (shinken/daterange.py, objects/timeperiod.py and the time functions of util.py): the
-- hours of a day and the date ranges. Times are seconds after the epoch. The month and weekday
-- names are their ids in Daterange.months and Daterange.weekdays.
use shinken_gpt.Prelude.{ℕ, ◌+◌, ◌-◌, ◌*◌, ◌≡◌, Bool, true, false, ◌&&◌, Option, List, leb}
use shinken_gpt.Prelude.Int.{ℤ}
pub mod Days
pub mod Bounds
pub mod Ranges
pub mod Search
pub mod Store
mod Years
mod Hours
mod Later
mod Found
mod Turns
mod Ends
mod Examples

-- What the modules time and calendar answer.
pub record LocalTime : Type 0 where
  pub tm_year : ℕ
  pub tm_mon : ℕ
  pub tm_mday : ℕ
  pub tm_hour : ℕ
  pub tm_min : ℕ
  pub tm_sec : ℕ
  pub tm_wday : ℕ

pub record Calendar : Type 0 where
  pub localtime : ℕ → LocalTime
  -- year, month, day, hour, minute, second
  pub mktime : ℕ → ℕ → ℕ → ℕ → ℕ → ℕ → ℕ
  -- calendar.monthrange(year, month)[1]
  pub days_in_month : ℕ → ℕ → ℕ
  -- the weeks of a month, with 0 for the days of another month
  pub monthcalendar : ℕ → ℕ → List (List ℕ)

-- An entry like 08:00-17:30; one that does not match the pattern has no hours, and the
-- configuration with it is refused.
pub record Timerange : Type 0 where
  pub is_valid : Bool
  pub hstart : ℕ
  pub mstart : ℕ
  pub hend : ℕ
  pub mend : ℕ

-- The subclasses of Daterange.
pub data DaterangeKind : Type 0 where
  calendar_range : DaterangeKind
  standard_range : DaterangeKind
  month_week_day_range : DaterangeKind
  month_date_range : DaterangeKind
  week_day_range : DaterangeKind
  month_day_range : DaterangeKind

pub record Daterange : Type 0 where
  pub kind : DaterangeKind
  pub syear : ℕ
  pub smon : ℕ
  pub smday : ℤ
  pub swday : ℕ
  pub swday_offset : ℤ
  pub eyear : ℕ
  pub emon : ℕ
  pub emday : ℤ
  pub ewday : ℕ
  pub ewday_offset : ℤ
  pub skip_interval : ℕ
  pub timeranges : List Timerange
  -- the weekday of a StandardDaterange
  pub day : ℕ

module _ (c : Calendar) where
  unfoldable pub get_sec_from_morning : ℕ → ℕ
  get_sec_from_morning t =
      let t_lt = c.localtime t in t_lt.tm_hour * 3600 + t_lt.tm_min * 60 + t_lt.tm_sec

  unfoldable pub get_day : ℕ → ℕ
  unfolding get_sec_from_morning
  get_day t = t - get_sec_from_morning t

  unfoldable pub get_start_of_day : ℕ → ℕ → ℕ → ℕ
  get_start_of_day year month_id day = c.mktime year month_id day 0 0 0

  unfoldable pub get_end_of_day : ℕ → ℕ → ℕ → ℕ
  get_end_of_day year month_id day = c.mktime year month_id day 23 59 59

  -- time.mktime(time.localtime(t))
  abbrev pub epoch_of : LocalTime → ℕ
  epoch_of lt = c.mktime lt.tm_year lt.tm_mon lt.tm_mday lt.tm_hour lt.tm_min lt.tm_sec

  unfoldable pub is_hour_valid : Timerange → ℕ → Bool
  unfolding get_sec_from_morning
  is_hour_valid tr t =
      tr.is_valid
      && leb (tr.hstart * 3600 + tr.mstart * 60) (get_sec_from_morning t)
      && leb (get_sec_from_morning t) (tr.hend * 3600 + tr.mend * 60)
