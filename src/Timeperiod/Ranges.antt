-- ===== src/Timeperiod/Ranges.antt =====
-- Which times a date range covers, and the next one that it covers or does not (shinken/
-- daterange.py, Daterange). Every operation returns the range too, since the look at its bounds
-- can write the years; `none` is an exception.
use shinken_gpt.Prelude.{
  ℕ, ◌+◌, ◌*◌, Bool, not, ◌&&◌, Option, none, some, List, [], ◌∷◌, map, if◌then◌else◌, ltb, leb,
  ◌>>=◌, any, min_list, contains, remove_first,
}
use shinken_gpt.Timeperiod.{
  Calendar, Timerange, Daterange, get_sec_from_morning, get_day, is_hour_valid,
}
use shinken_gpt.Timeperiod.Bounds.{Bounds, get_start_and_end_time}

abbrev pub covers : Bounds → ℕ → Bool
covers b t = leb b.start_time t && leb t b.end_time

-- The first second of a range of hours, and the first one out of it.
abbrev pub start_sec : Timerange → ℕ
start_sec tr = tr.hstart * 3600 + tr.mstart * 60

abbrev pub end_sec : Timerange → ℕ
end_sec tr = tr.hend * 3600 + tr.mend * 60

unfoldable pub starts_from : ℕ → List Timerange → List ℕ
starts_from sec [] = []
starts_from sec (tr ∷ trs) =
    let rest = starts_from sec trs in if leb sec (start_sec tr) then start_sec tr ∷ rest else rest

ends_from : ℕ → List Timerange → List ℕ
ends_from sec [] = []
ends_from sec (tr ∷ trs) =
    let rest = ends_from sec trs in
    let ends = if leb sec (end_sec tr) then end_sec tr ∷ rest else rest in
    if leb sec (start_sec tr) then start_sec tr ∷ ends else ends

module _ (c : Calendar) where
  unfoldable pub is_time_day_valid : Daterange → ℕ → Option (Bool × Daterange)
  unfolding get_start_and_end_time
  is_time_day_valid d t = do (b, d') ← get_start_and_end_time c d t; some (covers b t, d')

  unfoldable pub is_time_day_invalid : Daterange → ℕ → Option (Bool × Daterange)
  unfolding get_start_and_end_time
  is_time_day_invalid d t = do (b, d') ← get_start_and_end_time c d t; some (not (covers b t), d')

  unfoldable pub is_time_valid : Daterange → ℕ → Option (Bool × Daterange)
  unfolding is_time_day_valid is_hour_valid
  is_time_valid d t = do
    (in_day, d') ← is_time_day_valid d t
    some (in_day && any (λ tr. is_hour_valid c tr t) d.timeranges, d')

  unfoldable pub get_min_from_t : Daterange → ℕ → Option (ℕ × Daterange)
  unfolding is_time_valid get_day min_list
  get_min_from_t d t = do
    (valid, d') ← is_time_valid d t
    if valid then some (t, d') else (do
      tr_mins ← min_list (map (λ tr. start_sec tr) d.timeranges)
      some (get_day c t + tr_mins, d'))

  unfoldable pub get_next_future_timerange_valid : Daterange → ℕ → Option ℕ
  unfolding starts_from min_list get_sec_from_morning
  get_next_future_timerange_valid d t =
      min_list (starts_from (get_sec_from_morning c t) d.timeranges)

  unfoldable pub get_next_future_timerange_invalid : Daterange → ℕ → Option ℕ
  unfolding ends_from min_list get_sec_from_morning remove_first
  get_next_future_timerange_invalid d t =
      let ends = ends_from (get_sec_from_morning c t) d.timeranges in
      min_list (if contains 86400 ends then remove_first 86400 ends else ends)

  -- The time at which the bounds are looked for: tomorrow, if this day is finished.
  abbrev pub day_of_search : Daterange → ℕ → ℕ
  day_of_search d t = elim (get_next_future_timerange_valid d t) [
    | none ↦ get_day c t + 86400
    | some sec ↦ t
  ]

  unfoldable pub get_next_valid_day : Daterange → ℕ → Option (Option ℕ × Daterange)
  unfolding get_next_future_timerange_valid get_start_and_end_time get_day is_time_day_valid
  get_next_valid_day d t = do
    (b, d') ← get_start_and_end_time c d (day_of_search d t)
    if leb t b.start_time then some (some (get_day c b.start_time), d') else (do
      (in_day, d'') ← is_time_day_valid d' t
      some (if in_day then some (get_day c t) else none, d''))

  -- t_day + sec_from_morning, where both are known
  abbrev pub plus_sec : Option ℕ → Option ℕ → Option ℕ
  plus_sec (some day) (some sec) = some (day + sec)
  plus_sec _ _ = none

  -- The hours are looked for from the start of a later day, or else from t.
  abbrev pub sec_of_valid : Daterange → ℕ → Option ℕ → Option ℕ
  sec_of_valid d t none = get_next_future_timerange_valid d t
  sec_of_valid d t (some t_day) =
      get_next_future_timerange_valid d (if ltb t t_day then t_day else t)

  -- Where no day is found the source asks for the hours of the present time and drops the answer.
  abbrev pub sec_of_day : Daterange → Option ℕ → Option ℕ
  sec_of_day d none = none
  sec_of_day d (some t_day) = get_next_future_timerange_valid d t_day

  unfoldable pub get_next_valid_time_from_t : Daterange → ℕ → Option (Option ℕ × Daterange)
  unfolding is_time_valid get_next_valid_day get_day get_next_future_timerange_valid
  get_next_valid_time_from_t d t = do
    (valid, d1) ← is_time_valid d t
    if valid then some (some t, d1) else (do
      (t_day, d2) ← get_next_valid_day d1 t
      elim (plus_sec t_day (sec_of_valid d2 t t_day)) [
        | some t' ↦ some (some t', d2)
        | none ↦ do
          (t_day2, d3) ← get_next_valid_day d2 (get_day c t + 86400)
          some (plus_sec t_day2 (sec_of_day d3 t_day2), d3)
      ])

  unfoldable pub get_next_invalid_day : Daterange → ℕ → Option (Option ℕ × Daterange)
  unfolding is_time_day_invalid get_next_future_timerange_invalid get_start_and_end_time get_day
  get_next_invalid_day d t = do
    (out_of_day, d1) ← is_time_day_invalid d t
    if out_of_day then some (some t, d1) else elim (get_next_future_timerange_invalid d1 t) [
      | none ↦ do
        (b, d2) ← get_start_and_end_time c d1 (get_day c t)
        some (some (get_day c (b.end_time + 1)), d2)
      | some sec ↦ do
        (b, d2) ← get_start_and_end_time c d1 t
        some (
          if covers b t
              then some (get_day c t)
              else if leb t b.start_time
              then some (get_day c b.start_time)
              else none,
          d2,
        )
    ]

  -- t_day + sec_from_morning + 1, or the day itself where its hours are full
  abbrev out_of_hours : ℕ → Option ℕ → ℕ
  out_of_hours day (some sec) = day + sec + 1
  out_of_hours day none = day

  -- `t < None` raises, so that the look at the next day that follows in the source is not reached.
  unfoldable pub get_next_invalid_time_from_t : Daterange → ℕ → Option (ℕ × Daterange)
  unfolding is_time_valid get_next_invalid_day get_next_future_timerange_invalid
  get_next_invalid_time_from_t d t = do
    (valid, d1) ← is_time_valid d t
    if not valid then some (t, d1) else (do
      (found, d2) ← get_next_invalid_day d1 t
      t_day ← found
      some (
        out_of_hours t_day
            (get_next_future_timerange_invalid d2 (if ltb t t_day then t_day else t)),
        d2,
      ))
