-- ===== src/Timeperiod/Later.antt =====
-- The next valid time of a date range is not before the time from which it is looked for.
use shinken_gpt.Prelude.{
  ℕ, ◌+◌, ◌≤◌, ◌≡◌, refl, ap, ◌∙◌, Bool, true, false, Option, none, some, List, if◌then◌else◌, ltb,
  leb, ◌>>=◌, inl, inr, arith, Bool-cases, Option-cases, >>=-eq-some, leb→le, ltb→lt,
}
use shinken_gpt.Timeperiod.{Calendar, Timerange, Daterange, get_sec_from_morning, get_day}
use shinken_gpt.Timeperiod.Bounds.{Bounds, get_start_and_end_time}
use shinken_gpt.Timeperiod.Ranges.{
  get_next_valid_day, get_next_future_timerange_valid, get_next_valid_time_from_t, plus_sec,
  sec_of_valid, sec_of_day, day_of_search, is_time_day_valid, is_time_valid,
}
use shinken_gpt.Timeperiod.Hours.{LeastStart, starts_at, get_next_future_timerange_valid-LeastStart}

-- A local time without clock changes, from the second day of the epoch on: before it the day of a
-- time can have begun before the epoch, with a negative number. Days follow one another and have 24
-- hours.
pub record IsRegular (c : Calendar) : Type 0 where
  pub in_day : (t : ℕ) → 86400 ≤ t → get_sec_from_morning c t ≤ t
  pub day_mono : (t u : ℕ) → 86400 ≤ t → t ≤ u → get_day c t ≤ get_day c u
  pub next_day : (t : ℕ) → 86400 ≤ t → t ≤ get_day c (get_day c t + 86400)

least-le :
    (sec : ℕ) (trs : List Timerange) (r : Option ℕ) (m : ℕ)
    → LeastStart sec trs r
    → r ≡ some m
    → sec ≤ m
least-le sec trs none m l e = cc
least-le sec trs (some k) m (starts_at _ le s a) e =
    let same : k ≡ m = cc in omega (arith, le, same)

valid-le :
    (c : Calendar) (d : Daterange) (t sec : ℕ)
    → get_next_future_timerange_valid c d t ≡ some sec
    → get_sec_from_morning c t ≤ sec
valid-le c d t sec e =
    least-le (get_sec_from_morning c t) d.timeranges (get_next_future_timerange_valid c d t) sec
      (get_next_future_timerange_valid-LeastStart c d t) e

module _ (c : Calendar) (regular : IsRegular c) where
  day_chosen :
      (t : ℕ) (late : 86400 ≤ t) (b : Bounds) (day : ℕ) (d1 d' : Daterange)
      (rest : Option (Bool × Daterange))
      → if◌then◌else◌ {A = Option (Option ℕ × Daterange)}
          (leb t b.start_time)
          (some (some (get_day c b.start_time), d1))
          (rest >>= λ q. some (if q.0 then some (get_day c t) else none, q.1))
        ≡ some (some day, d')
      → get_day c t ≤ day
  day_chosen t late b day d1 d' rest h = elim (Bool-cases (leb t b.start_time)) [
    | inl l ↦
        let same : get_day c b.start_time ≡ day = ground (arith, l, h) in
        let le = regular.day_mono t b.start_time late (leb→le t b.start_time l) in
        omega (arith, same, le)
    | inr g ↦ elim (Option-cases rest) [
      | inl e ↦ absurd (ground (arith, g, e, h))
      | inr ((true, d2), e) ↦
          let same : get_day c t ≡ day = ground (arith, g, e, h) in omega (arith, same)
      | inr ((false, d2), e) ↦ absurd (ground (arith, g, e, h))
    ]
  ]

  get_next_valid_day-le :
      (t : ℕ) (late : 86400 ≤ t) (d d' : Daterange) (day : ℕ)
      → get_next_valid_day c d t ≡ some (some day, d')
      → get_day c t ≤ day
  unfolding get_next_valid_day
  get_next_valid_day-le t late d d' day h =
      let ((b, d1), e, h1) = >>=-eq-some (get_start_and_end_time c d (day_of_search c d t)) _ h in
      day_chosen t late b day d1 d' (is_time_day_valid c d1 t) h1

module _ (c : Calendar) (regular : IsRegular c) (t : ℕ) (late : 86400 ≤ t) where
  same_day :
      (d : Daterange) (day m : ℕ)
      → get_day c t ≤ day
      → plus_sec c (some day) (sec_of_valid c d t (some day)) ≡ some m
      → t ≤ m
  unfolding get_day
  same_day d day m le h = elim (Option-cases (sec_of_valid c d t (some day))) [
    | inl e ↦ absurd (cc (e, h))
    | inr (sec, e) ↦
        let sum : day + sec ≡ m = cc (e, h) in
        elim (Bool-cases (ltb t day)) [
          | inl l ↦ let later = ltb→lt t day l in omega (arith, later, sum)
          | inr n ↦
              let from_t : get_next_future_timerange_valid c d t ≡ some sec =
                ground (arith, n, e) in
              let hours = valid-le c d t sec from_t in
              let past = regular.in_day t late in omega (arith, hours, past, le, sum)
        ]
  ]

  next_day_le :
      (d : Daterange) (m : ℕ) (day : Option ℕ)
      → ((k : ℕ) → day ≡ some k → t ≤ k)
      → plus_sec c day (sec_of_day c d day) ≡ some m
      → t ≤ m
  next_day_le d m none le h = cc
  next_day_le d m (some k) le h = elim (Option-cases (get_next_future_timerange_valid c d k)) [
    | inl e ↦ absurd (cc (e, h))
    | inr (sec, e) ↦
        let sum : k + sec ≡ m = cc (e, h) in let later = le k refl in omega (arith, later, sum)
  ]

  second_le :
      (d d' : Daterange) (m : ℕ)
      → ◌>>=◌ {B = Option ℕ × Daterange}
          (get_next_valid_day c d (get_day c t + 86400))
          (λ q. some (plus_sec c q.0 (sec_of_day c q.1 q.0), q.1))
        ≡ some (some m, d')
      → t ≤ m
  second_le d d' m h =
      let ((day, d3), e, h1) = >>=-eq-some (get_next_valid_day c d (get_day c t + 86400)) _ h in
      next_day_le d3 m day
        (λ k same.
          let le =
            get_next_valid_day-le c regular (get_day c t + 86400) (omega arith) d d3 k
              (e ∙ ap (λ x. some (x, d3)) same) in
          let next = regular.next_day t late in omega (arith, le, next))
        (cc h1)

  first_le :
      (d1 d2 d' : Daterange) (m : ℕ) (day : Option ℕ)
      → get_next_valid_day c d1 t ≡ some (day, d2)
      → plus_sec c day (sec_of_valid c d2 t day) ≡ some m
      → t ≤ m
  first_le d1 d2 d' m none e h = cc
  first_le d1 d2 d' m (some k) e h =
      same_day d2 k m (get_next_valid_day-le c regular t late d1 d2 k e) h

  found_or_second :
      (d1 d2 d' : Daterange) (m : ℕ) (day r : Option ℕ)
      → get_next_valid_day c d1 t ≡ some (day, d2)
      → plus_sec c day (sec_of_valid c d2 t day) ≡ r
      → (elim r as (λ x. Option (Option ℕ × Daterange)) [
        | some t' ↦ some (some t', d2)
        | none ↦
            ◌>>=◌ {B = Option ℕ × Daterange}
              (get_next_valid_day c d2 (get_day c t + 86400))
              (λ q. some (plus_sec c q.0 (sec_of_day c q.1 q.0), q.1))
      ])
        ≡ some (some m, d')
      → t ≤ m
  found_or_second d1 d2 d' m day none e f h = second_le d2 d' m h
  found_or_second d1 d2 d' m day (some k) e f h =
      let same : k ≡ m = cc h in first_le d1 d2 d' m day e (f ∙ ap some same)

  now_or_later :
      (d1 d' : Daterange) (m : ℕ) (valid : Bool)
      → (if◌then◌else◌ {A = Option (Option ℕ × Daterange)} valid (some (some t, d1)) (
          ◌>>=◌ {B = Option ℕ × Daterange} (get_next_valid_day c d1 t) (λ q.
            elim (plus_sec c q.0 (sec_of_valid c q.1 t q.0))
              as (λ x. Option (Option ℕ × Daterange)) [
                | some t' ↦ some (some t', q.1)
                | none ↦
                    ◌>>=◌ {B = Option ℕ × Daterange}
                      (get_next_valid_day c q.1 (get_day c t + 86400))
                      (λ q. some (plus_sec c q.0 (sec_of_day c q.1 q.0), q.1))
              ])))
        ≡ some (some m, d')
      → t ≤ m
  now_or_later d1 d' m true h = let same : t ≡ m = cc h in omega (arith, same)
  now_or_later d1 d' m false h =
      let ((day, d2), f, h2) = >>=-eq-some (get_next_valid_day c d1 t) _ h in
      found_or_second d1 d2 d' m day (plus_sec c day (sec_of_valid c d2 t day)) f refl h2

  -- In a local time without clock changes, a next valid time that a date range gives is not before
  -- the time from which it was looked for, where that is not on the first day of the epoch.
  pub get_next_valid_time_from_t-later :
      (d d' : Daterange) (m : ℕ) → get_next_valid_time_from_t c d t ≡ some (some m, d') → t ≤ m
  unfolding get_next_valid_time_from_t
  get_next_valid_time_from_t-later d d' m h =
      let ((valid, d1), e, h1) = >>=-eq-some (is_time_valid c d t) _ h in
      now_or_later d1 d' m valid h1
