-- ===== src/Timeperiod/Years.antt =====
-- The years that a date range without years writes into itself, and the hours of a day.
use shinken_gpt.Prelude.{
  ℕ, ◌+◌, ◌<◌, ◌≡◌, ◌≢◌, ◌⊎◌, inl, inr, refl, ap, subst, false, some, ltb, arith, Bool-cases,
}
use shinken_gpt.Timeperiod.{
  LocalTime, Calendar, Daterange, month_date_range, get_end_of_day, get_start_of_day, epoch_of,
}
use shinken_gpt.Timeperiod.Days.{find_day_by_offset}
use shinken_gpt.Timeperiod.Bounds.{
  Bounds, year_or, month_date_dates, bounds_of, get_start_and_end_time,
}
use shinken_gpt.Timeperiod.Ranges.{covers, is_time_day_valid}

-- The last second of a month-date range in a year.
abbrev pub last_second : Calendar → Daterange → ℕ → ℕ
last_second c d y = get_end_of_day c y d.emon (find_day_by_offset c y d.emon d.emday)

abbrev first_second : Calendar → Daterange → ℕ → ℕ
first_second c d y = get_start_of_day c y d.smon (find_day_by_offset c y d.smon d.smday)

covers-past : (b : Bounds) (t : ℕ) → b.end_time < t → covers b t ≡ false
covers-past b t h = ground arith

month_date_dates-end :
    (c : Calendar) (d : Daterange) (now : LocalTime) (sy ey : ℕ)
    → ((month_date_dates c d now sy ey).end_time ≡ last_second c d ey)
      ⊎ ((month_date_dates c d now sy ey).end_time ≡ last_second c d (ey + 1))
unfolding month_date_dates
month_date_dates-end c d now sy ey =
    elim (Bool-cases (ltb (last_second c d ey) (first_second c d sy))) [
      | inl l ↦ elim (Bool-cases (ltb (last_second c d ey) (epoch_of c now))) [
        | inl n ↦ rw l (rw n (inr refl))
        | inr n ↦ rw l (rw n (inl refl))
      ]
      | inr l ↦ elim (Bool-cases (ltb (last_second c d ey) (epoch_of c now))) [
        | inl n ↦ rw l (rw n (inr refl))
        | inr n ↦ rw l (rw n (inl refl))
      ]
    ]

year_kept : (y now : ℕ) → y ≢ 0 → year_or y now ≡ y
year_kept y now h = ground (arith, h)

-- The years that the range has after it was looked at.
years_written :
    (c : Calendar) (d : Daterange) (ref : ℕ)
    → d.kind ≡ month_date_range
    → get_start_and_end_time c d ref
      ≡ some (
        month_date_dates c d
            (c.localtime ref)
            (year_or d.syear (c.localtime ref).tm_year)
            (year_or d.eyear (c.localtime ref).tm_year),
        record d {
          syear = year_or d.syear (c.localtime ref).tm_year;
          eyear = year_or d.eyear (c.localtime ref).tm_year;
        },
      )
unfolding get_start_and_end_time
years_written c d ref k = ap (λ x. bounds_of c x d (c.localtime ref)) k

-- A month-date range that ended in its year and in the year after covers no later time.
past-uncovered :
    (c : Calendar) (d : Daterange) (t : ℕ)
    → d.kind ≡ month_date_range
    → d.eyear ≢ 0
    → last_second c d d.eyear < t
    → last_second c d (d.eyear + 1) < t
    → (d' : Daterange) × (is_time_day_valid c d t ≡ some (false, d'))
unfolding is_time_day_valid
past-uncovered c d t k y h h' =
    let now = c.localtime t in
    let sy = year_or d.syear now.tm_year in
    let ends = month_date_dates-end c d now sy d.eyear in
    let same : year_or d.eyear now.tm_year ≡ d.eyear = year_kept d.eyear now.tm_year y in
    let past : (month_date_dates c d now sy d.eyear).end_time < t = elim ends [
      | inl e ↦ omega (arith, e)
      | inr e ↦ omega (arith, e)
    ] in
    (
      record d { syear = sy; eyear = year_or d.eyear now.tm_year },
      rw (years_written c d t k) (
          ap (λ b. some (b, record d { syear = sy; eyear = year_or d.eyear now.tm_year }))
            (covers-past (month_date_dates c d now sy (year_or d.eyear now.tm_year)) t
              (rw same past))),
    )

-- A month-date range without years keeps the year of its first use: no time after its end in that
-- year and in the year that follows is in the range any more.
pub get_start_and_end_time-keeps_year :
    (c : Calendar) (d d' : Daterange) (ref t : ℕ) (b : Bounds)
    → d.kind ≡ month_date_range
    → d.eyear ≡ 0
    → (c.localtime ref).tm_year ≢ 0
    → get_start_and_end_time c d ref ≡ some (b, d')
    → last_second c d (c.localtime ref).tm_year < t
    → last_second c d ((c.localtime ref).tm_year + 1) < t
    → (d'' : Daterange) × (is_time_day_valid c d' t ≡ some (false, d''))
get_start_and_end_time-keeps_year c d d' ref t b k e n h p q =
    let y = (c.localtime ref).tm_year in
    let first : year_or d.eyear y ≡ y = ground (arith, e) in
    let written : record d { syear = year_or d.syear y; eyear = year_or d.eyear y } ≡ d' =
      cc (years_written c d ref k, h) in
    subst (λ x. (d'' : Daterange) × (is_time_day_valid c x t ≡ some (false, d''))) written
      (past-uncovered c (record d { syear = year_or d.syear y; eyear = year_or d.eyear y }) t k
        (rw first n) (rw first p) (rw first q))
