-- ===== src/Timeperiod/Days.antt =====
-- The days of a month that a date range names (shinken/daterange.py, find_day_by_weekday_offset
-- and find_day_by_offset).
use mathlib.Core.List.{reverse}
use shinken_gpt.Prelude.{
  ℕ, zero, suc, ◌+◌, ◌-◌, ◌≤◌, ◌≢◌, refl, min, max, Option, none, some, List, [], ◌∷◌, ◌==◌,
  if◌then◌else◌, ◌>>=◌, get_elem?, arith,
}
use shinken_gpt.Prelude.Int.{ℤ, pos, negsuc}
use shinken_gpt.Timeperiod.{Calendar}

-- The loop over the weeks, on the rounds left; `none` is None, which an IndexError gives as well.
unfoldable pub scan_weeks : ℕ → ℕ → ℕ → ℕ → List (List ℕ) → Option ℕ
scan_weeks zero weekday_id offset nb_found cal = none
scan_weeks (suc rounds) weekday_id offset nb_found [] = none
scan_weeks (suc rounds) weekday_id offset nb_found (week ∷ cal) = do
  day ← get_elem? week weekday_id
  let found = if day == 0 then nb_found else nb_found + 1
  let rest = scan_weeks rounds weekday_id offset found cal
  if found == offset then some day else rest

unfoldable pub find_day_by_weekday_offset : Calendar → ℕ → ℕ → ℕ → ℤ → Option ℕ
unfolding scan_weeks
find_day_by_weekday_offset c year month_id weekday_id (pos n) =
    scan_weeks (suc n) weekday_id n 0 (c.monthcalendar year month_id)
find_day_by_weekday_offset c year month_id weekday_id (negsuc n) =
    scan_weeks (suc (suc n)) weekday_id (suc n) 0 (reverse (c.monthcalendar year month_id))

unfoldable pub find_day_by_offset : Calendar → ℕ → ℕ → ℤ → ℕ
find_day_by_offset c year month_id (pos n) = min n (c.days_in_month year month_id)
find_day_by_offset c year month_id (negsuc n) = max 1 (c.days_in_month year month_id - n)

-- A day that is counted from either end of a month, and not from day 0, is a day of that month:
-- the named one if the month has it, and otherwise the last or the first.
pub find_day_by_offset-in_month :
    (c : Calendar) (year month_id : ℕ) (offset : ℤ)
    → 1 ≤ c.days_in_month year month_id
    → offset ≢ pos 0
    → (1 ≤ find_day_by_offset c year month_id offset)
      × (find_day_by_offset c year month_id offset ≤ c.days_in_month year month_id)
unfolding find_day_by_offset
find_day_by_offset-in_month c year month_id (pos zero) h n = absurd (n refl)
find_day_by_offset-in_month c year month_id (pos (suc k)) h n = omega arith
find_day_by_offset-in_month c year month_id (negsuc k) h n = omega arith
