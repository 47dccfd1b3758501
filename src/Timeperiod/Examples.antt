-- ===== src/Timeperiod/Examples.antt =====
-- The theorems on timeperiods, at a calendar of twelve months of 31 days, and runs of the searches.
use shinken_gpt.Prelude.{
  ℕ, ◌+◌, ◌-◌, ◌*◌, ◌/◌, ◌%◌, ◌≤◌, ◌≡◌, refl, Bool, true, false, Option, none, some, List, [], ◌∷◌,
  ◌==◌, if◌then◌else◌, arith, map_some, max, leb,
}
use shinken_gpt.Prelude.Int.{pos, negsuc}
use shinken_gpt.Timeperiod.{
  Calendar, Timerange, Daterange, standard_range, month_date_range, get_sec_from_morning, get_day,
}
use shinken_gpt.Timeperiod.Days.{find_day_by_offset, find_day_by_offset-in_month}
use shinken_gpt.Timeperiod.Bounds.{get_start_and_end_time}
use shinken_gpt.Timeperiod.Ranges.{is_time_day_valid, get_next_future_timerange_valid}
use shinken_gpt.Timeperiod.Ranges
use shinken_gpt.Timeperiod.Search
use shinken_gpt.Timeperiod.Search.{
  Periods, Timeperiod, one_year, find_next_valid_time_from_cache, get_next_valid_time_from_t,
  get_next_invalid_time_from_t,
}
use shinken_gpt.Timeperiod.Store.{Store, periods_of}
use shinken_gpt.Timeperiod.Years.{get_start_and_end_time-keeps_year}
use shinken_gpt.Timeperiod.Later.{IsRegular, get_next_valid_time_from_t-later}
use shinken_gpt.Timeperiod.Found.{IsSteady, Outcome}
use shinken_gpt.Timeperiod.Ends.{
  get_next_valid_time_from_t-Outcome, get_next_valid_time_from_t-cached, two_excludes-invalid,
}

abbrev even_months : Calendar
even_months = record {
  localtime = λ t. record {
    tm_year = 1970 + t / 86400 / 372;
    tm_mon = 1 + t / 86400 % 372 / 31;
    tm_mday = 1 + t / 86400 % 31;
    tm_hour = t % 86400 / 3600;
    tm_min = t % 3600 / 60;
    tm_sec = t % 60;
    tm_wday = t / 86400 % 7;
  };
  mktime =
      λ y m d h mi s. ((y - 1970) * 372 + (m - 1) * 31 + (d - 1)) * 86400 + h * 3600 + mi * 60 + s;
  days_in_month = λ y m. 31;
  monthcalendar = λ y m. [];
}

abbrev office_hours : List Timerange
office_hours =
    record { is_valid = true; hstart = 8; mstart = 0; hend = 12; mend = 0 }
    ∷ record { is_valid = true; hstart = 14; mstart = 30; hend = 18; mend = 0 }
    ∷ []

abbrev all_day : List Timerange
all_day = record { is_valid = true; hstart = 0; mstart = 0; hend = 24; mend = 0 } ∷ []

-- wednesday 08:00-12:00,14:30-18:00, where day 0 is a Monday
abbrev wednesdays : Daterange
wednesdays = record {
  kind = standard_range;
  syear = 0;
  smon = 0;
  smday = pos 0;
  swday = 0;
  swday_offset = pos 0;
  eyear = 0;
  emon = 0;
  emday = pos 0;
  ewday = 0;
  ewday_offset = pos 0;
  skip_interval = 0;
  timeranges = office_hours;
  day = 2;
}

-- february 3 - february 10, all day
abbrev winter_week : Daterange
winter_week = record wednesdays {
  kind = month_date_range;
  smon = 2;
  smday = pos 3;
  emon = 2;
  emday = pos 10;
  timeranges = all_day;
}

find_day_by_offset-in_month_example :
    (1 ≤ find_day_by_offset even_months 2020 2 (negsuc 40))
    × (find_day_by_offset even_months 2020 2 (negsuc 40) ≤ 31)
find_day_by_offset-in_month_example =
    find_day_by_offset-in_month even_months 2020 2 (negsuc 40) (omega arith) (λ e. cc)

-- One hour east of it.
abbrev even_months_east : Calendar
even_months_east = record {
  localtime = λ t. even_months.localtime (t + 3600);
  mktime = λ y m d h mi s. even_months.mktime y m d h mi s - 3600;
  days_in_month = even_months.days_in_month;
  monthcalendar = even_months.monthcalendar;
}

sec-even_months_east : (t : ℕ) → get_sec_from_morning even_months_east t ≡ (t + 3600) % 86400
unfolding get_sec_from_morning
sec-even_months_east t = omega arith

even_months_east-IsRegular : IsRegular even_months_east
unfolding get_day
even_months_east-IsRegular = record {
  in_day = λ t h. let e = sec-even_months_east t in omega (arith, e, h);
  day_mono = λ t u h k.
      let e = sec-even_months_east t in let f = sec-even_months_east u in omega (arith, e, f, h, k);
  next_day = λ t h.
      let e = sec-even_months_east t in
      let f = sec-even_months_east (t - get_sec_from_morning even_months_east t + 86400) in
      omega (arith, e, f, h);
}

-- From Tuesday at one in the afternoon: Wednesday at eight.
get_next_valid_time_from_t-later_example : 129600 ≤ 198000
unfolding Ranges.get_next_valid_time_from_t
get_next_valid_time_from_t-later_example =
    get_next_valid_time_from_t-later even_months_east even_months_east-IsRegular 129600
      (omega arith) wednesdays (record wednesdays { syear = 1970 }) 198000 refl

afternoon : get_next_future_timerange_valid even_months wednesdays 46800 ≡ some 52200
unfolding get_next_future_timerange_valid
afternoon = refl

-- The store: range 0 is that of Wednesdays, range 1 that of the week in February, and timeperiod 1
-- is that week.
abbrev store : Store
store = record {
  ranges = λ i. if i == 0 then wednesdays else winter_week;
  periods = λ i. record {
    dateranges = 1 ∷ [];
    exclude = [];
    cache = [];
    invalid_cache = [];
    is_active = none;
  };
}

abbrev office : Timeperiod
office = record {
  dateranges = 0 ∷ [];
  exclude = [];
  cache = [];
  invalid_cache = [];
  is_active = none;
}

-- From Monday at noon: Wednesday at eight.
office_opens :
    map_some
      (λ x. x.0)
      (get_next_valid_time_from_t (periods_of even_months 5 1) 5 office 43200 store)
    ≡ some (some 201600)
unfolding get_next_valid_time_from_t periods_of
office_opens = refl

-- From Wednesday at nine: one second after noon.
office_closes :
    map_some
      (λ x. x.0)
      (get_next_invalid_time_from_t (periods_of even_months 5 1) 5 office 205200 store)
    ≡ some 216001
unfolding get_next_invalid_time_from_t periods_of
office_closes = refl

get_start_and_end_time-keeps_year_example :
    (d : Daterange) × (is_time_day_valid even_months
        (record winter_week { syear = 1970; eyear = 1970 })
        40000000
      ≡ some (false, d))
unfolding get_start_and_end_time
get_start_and_end_time-keeps_year_example =
    get_start_and_end_time-keeps_year even_months winter_week
      (record winter_week { syear = 1970; eyear = 1970 }) 0 40000000
      (record { start_time = 2851200; end_time = 3542399 }) refl refl (omega arith) refl
      (omega arith) (omega arith)

-- Every date range is valid from 50 on; timeperiod e covers the second 50 + e alone.
abbrev next : ℕ → ℕ → Option ℕ
next d t = some (max t 50)

abbrev covers : ℕ → ℕ → Bool
covers e t = t == 50 + e

abbrev answers : Periods (Unit {0})
answers = record {
  dr_is_time_valid = λ d t s. some (leb 50 t, s);
  dr_get_min_from_t = λ d t s. some (max t 50, s);
  dr_get_next_valid_time_from_t = λ d t s. some (next d t, s);
  dr_get_next_invalid_time_from_t = λ d t s. some (t, s);
  tp_is_time_valid = λ e t s. some (covers e t, s);
  tp_get_next_invalid_time_from_t = λ e t s. some (t + 1, s);
}

answers-IsSteady : IsSteady answers (λ s. Unit {0}) (0 ∷ 1 ∷ []) next covers (λ e t. t + 1)
answers-IsSteady = record {
  dr_answers = λ d t s h. (s, refl, h);
  tp_answers = λ e t s m h. (s, refl, h);
  tp_leaves = λ e t s m h. (s, refl, h);
  dr_later = λ d t m h. ground arith;
  tp_later = λ e t h. omega arith;
}

abbrev excluding : Timeperiod
excluding = record office { exclude = 0 ∷ 1 ∷ [] }

get_next_valid_time_from_t-Outcome_example :
    (r : Option ℕ) × (s' : Unit {0}) × (get_next_valid_time_from_t answers 31622402 excluding 10 tt
      ≡ some (r, record excluding { cache = (10, r) ∷ [] }, s'))
    × Outcome next covers excluding 10 (10 + one_year) r
unfolding find_next_valid_time_from_cache
get_next_valid_time_from_t-Outcome_example =
    get_next_valid_time_from_t-Outcome answers (λ s. Unit {0}) excluding next covers (λ e t. t + 1)
      answers-IsSteady 31622402 10 tt tt (omega arith) refl

get_next_valid_time_from_t-cached_example :
    get_next_valid_time_from_t answers 0 (record office { cache = (10, some 50) ∷ [] }) 10 tt
    ≡ some (some 50, record office { cache = (10, some 50) ∷ [] }, tt)
unfolding get_next_valid_time_from_t
get_next_valid_time_from_t-cached_example =
    get_next_valid_time_from_t-cached answers 1 0 office
      (record office { cache = (10, some 50) ∷ [] }) 10 50 tt tt tt refl

two_excludes-invalid_example :
    (p' : Timeperiod) × (s' : Unit {0}) × (s2 : Unit {0}) × (get_next_valid_time_from_t answers 1
        excluding 10 tt
      ≡ some (some 50, p', s'))
    × (Search.is_time_valid answers excluding 50 s' ≡ some (false, s2))
unfolding find_next_valid_time_from_cache
two_excludes-invalid_example =
    two_excludes-invalid answers (λ s. Unit {0}) excluding next covers (λ e t. t + 1)
      answers-IsSteady 0 0 0 1 10 50 tt tt refl refl refl refl (omega arith) refl refl
