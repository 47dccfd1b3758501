-- ===== src/Timeperiod/Bounds.antt =====
-- The start and the end of a date range around a time (shinken/daterange.py,
-- get_start_and_end_time of the subclasses). A call can write the years into the range, so it
-- returns the range too; `none` is the exception that `mktime` raises on a day that is None.
use shinken_gpt.Prelude.{ℕ, ◌+◌, ◌-◌, ◌*◌, ◌%◌, Option, some, ◌==◌, if◌then◌else◌, ltb, ◌>>=◌}
use shinken_gpt.Prelude.Int.{pos_part}
use shinken_gpt.Timeperiod.{
  LocalTime, Calendar, Daterange, DaterangeKind, calendar_range, standard_range,
  month_week_day_range, month_date_range, week_day_range, month_day_range, get_start_of_day,
  get_end_of_day, epoch_of,
}
use shinken_gpt.Timeperiod.Days.{find_day_by_weekday_offset, find_day_by_offset}

pub record Bounds : Type 0 where
  pub start_time : ℕ
  pub end_time : ℕ

-- If no year, it's our year
abbrev pub year_or : ℕ → ℕ → ℕ
year_or year now = if year == 0 then now else year

-- The month after, and the year it is in.
abbrev next_month : ℕ → ℕ
next_month m = if ltb 12 (m + 1) then 1 else m + 1

abbrev year_of_next : ℕ → ℕ → ℕ
year_of_next m year = if ltb 12 (m + 1) then year + 1 else year

module _ (c : Calendar) where
  -- The day is a digit string in a calendar date, so it is not negative.
  calendar_bounds : Daterange → Option (Bounds × Daterange)
  unfolding get_start_of_day get_end_of_day
  calendar_bounds d = some (
    record {
      start_time = get_start_of_day c d.syear d.smon (pos_part d.smday);
      end_time = get_end_of_day c d.eyear d.emon (pos_part d.emday);
    },
    d,
  )

  -- The attributes month and wday, which nothing reads, are left out.
  standard_bounds : Daterange → LocalTime → Option (Bounds × Daterange)
  unfolding get_start_of_day get_end_of_day
  standard_bounds d now =
      let day_diff = (d.day + 7 - now.tm_wday) % 7 in
      some (
        record {
          start_time = get_start_of_day c now.tm_year now.tm_mon now.tm_mday + day_diff * 86400;
          end_time = get_end_of_day c now.tm_year now.tm_mon now.tm_mday + day_diff * 86400;
        },
        record d { syear = now.tm_year },
      )

  -- get_start_of_day and get_end_of_day, of the day with that offset among the weekdays
  weekday_start : Daterange → ℕ → ℕ → Option ℕ
  unfolding get_start_of_day find_day_by_weekday_offset
  weekday_start d year month_id = do
    day ← find_day_by_weekday_offset c year month_id d.swday d.swday_offset
    some (get_start_of_day c year month_id day)

  weekday_end : Daterange → ℕ → ℕ → Option ℕ
  unfolding get_end_of_day find_day_by_weekday_offset
  weekday_end d year month_id = do
    day ← find_day_by_weekday_offset c year month_id d.ewday d.ewday_offset
    some (get_end_of_day c year month_id day)

  unfoldable pub month_week_day_bounds : Daterange → LocalTime → Option (Bounds × Daterange)
  unfolding weekday_start weekday_end
  month_week_day_bounds d now = do
    let sy = year_or d.syear now.tm_year
    start ← weekday_start d sy d.smon
    let ey = year_or d.eyear now.tm_year
    end ← weekday_end d ey d.emon
    let d' = record d { syear = sy; eyear = ey }
    let now_epoch = epoch_of c now
    if ltb end start
        then if ltb end now_epoch
          then (do
            end' ← weekday_end d (ey + 1) d.emon
            some (record { start_time = start; end_time = end' }, d'))
          else (do
            start' ← weekday_start d (sy - 1) d.smon
            some (record { start_time = start'; end_time = end }, d'))
        else if ltb end now_epoch
        then (do
          start' ← weekday_start d (sy + 1) d.smon
          end' ← weekday_end d (ey + 1) d.emon
          some (record { start_time = start'; end_time = end' }, d'))
        else some (record { start_time = start; end_time = end }, d')

  -- The bounds, for the years that the range then has. In another year the start is counted by
  -- emday, as in the source.
  unfoldable pub month_date_dates : Daterange → LocalTime → ℕ → ℕ → Bounds
  unfolding get_start_of_day get_end_of_day find_day_by_offset
  month_date_dates d now sy ey =
      let start = get_start_of_day c sy d.smon (find_day_by_offset c sy d.smon d.smday) in
      let end = get_end_of_day c ey d.emon (find_day_by_offset c ey d.emon d.emday) in
      let now_epoch = epoch_of c now in
      let end_next =
        get_end_of_day c (ey + 1) d.emon (find_day_by_offset c (ey + 1) d.emon d.emday) in
      let start_last =
        get_start_of_day c (sy - 1) d.smon (find_day_by_offset c (sy - 1) d.smon d.emday) in
      let start_next =
        get_start_of_day c (sy + 1) d.smon (find_day_by_offset c (sy + 1) d.smon d.emday) in
      if ltb end start
      then if ltb end now_epoch
        then record { start_time = start; end_time = end_next }
        else record { start_time = start_last; end_time = end }
      else if ltb end now_epoch
      then record { start_time = start_next; end_time = end_next }
      else record { start_time = start; end_time = end }

  unfoldable pub month_date_bounds : Daterange → LocalTime → Option (Bounds × Daterange)
  unfolding month_date_dates
  month_date_bounds d now =
      let sy = year_or d.syear now.tm_year in
      let ey = year_or d.eyear now.tm_year in
      some (month_date_dates d now sy ey, record d { syear = sy; eyear = ey })

  unfoldable pub week_day_bounds : Daterange → LocalTime → Option (Bounds × Daterange)
  unfolding weekday_start weekday_end
  week_day_bounds d now = do
    let sy = year_or d.syear now.tm_year
    let month = now.tm_mon
    start ← weekday_start d sy month
    let ey = year_or d.eyear now.tm_year
    end ← weekday_end d ey month
    -- Maybe end_time is before start. So look for the next month
    let later = ltb end start
    let end_month = if later then next_month month else month
    let ey' = if later then year_of_next month ey else ey
    end' ← (if later then weekday_end d ey' end_month else some end)
    if ltb end' (epoch_of c now)
        -- But maybe we look not enought far. We should add a month
        then (do
          let sy'' = year_of_next month sy
          let ey'' = year_of_next end_month ey'
          start'' ← weekday_start d sy'' (next_month month)
          end'' ← weekday_end d ey'' (next_month end_month)
          some (
            record { start_time = start''; end_time = end'' },
            record d { syear = sy''; eyear = ey'' },
          ))
        else some
            (record { start_time = start; end_time = end' }, record d { syear = sy; eyear = ey' })

  -- The end that is looked for in the next month is counted by the length of this month, as in
  -- the source.
  unfoldable pub month_day_bounds : Daterange → LocalTime → Option (Bounds × Daterange)
  unfolding get_start_of_day get_end_of_day find_day_by_offset
  month_day_bounds d now =
      let sy = year_or d.syear now.tm_year in
      let month = now.tm_mon in
      let start = get_start_of_day c sy month (find_day_by_offset c sy month d.smday) in
      let ey = year_or d.eyear now.tm_year in
      let end = get_end_of_day c ey month (find_day_by_offset c ey month d.emday) in
      let later = ltb end start in
      let end_month = if later then next_month month else month in
      let ey' = if later then year_of_next month ey else ey in
      let end' =
        if later
        then get_end_of_day c ey' end_month (find_day_by_offset c ey' month d.emday)
        else end in
      let sy'' = year_of_next month sy in
      let ey'' = year_of_next end_month ey' in
      some (
        if ltb end' (epoch_of c now)
        then (
          record {
            start_time =
                get_start_of_day c sy'' (next_month month)
                  (find_day_by_offset c sy'' (next_month month) d.smday);
            end_time =
                get_end_of_day c ey'' (next_month end_month)
                  (find_day_by_offset c ey'' (next_month end_month) d.emday);
          },
          record d { syear = sy''; eyear = ey'' },
        )
        else (record { start_time = start; end_time = end' }, record d { syear = sy; eyear = ey' }))

  -- The method of each subclass.
  unfoldable pub bounds_of : DaterangeKind → Daterange → LocalTime → Option (Bounds × Daterange)
  unfolding calendar_bounds standard_bounds month_week_day_bounds month_date_bounds week_day_bounds
      month_day_bounds
  bounds_of calendar_range d now = calendar_bounds d
  bounds_of standard_range d now = standard_bounds d now
  bounds_of month_week_day_range d now = month_week_day_bounds d now
  bounds_of month_date_range d now = month_date_bounds d now
  bounds_of week_day_range d now = week_day_bounds d now
  bounds_of month_day_range d now = month_day_bounds d now

  unfoldable pub get_start_and_end_time : Daterange → ℕ → Option (Bounds × Daterange)
  unfolding bounds_of
  get_start_and_end_time d ref = bounds_of d.kind d (c.localtime ref)
