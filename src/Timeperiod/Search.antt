-- ===== src/Timeperiod/Search.antt =====
-- The search of a timeperiod for its next valid or invalid time (shinken/objects/timeperiod.py,
-- Timeperiod). The date ranges and the excluded timeperiods are objects that several timeperiods
-- share: they are numbers, and their operations work on a state S that holds them.
use shinken_gpt.Prelude.{
  ℕ, zero, suc, ◌+◌, Bool, true, false, not, Option, none, some, List, [], ◌∷◌, if◌then◌else◌, ltb,
  leb, ◌==◌, ◌>>=◌, min_list,
}

-- The operations of the date ranges (dr) and of the excluded timeperiods (tp); `none` is an
-- exception.
pub record Periods (S : Type 0) : Type 0 where
  pub dr_is_time_valid : ℕ → ℕ → S → Option (Bool × S)
  pub dr_get_min_from_t : ℕ → ℕ → S → Option (ℕ × S)
  pub dr_get_next_valid_time_from_t : ℕ → ℕ → S → Option (Option ℕ × S)
  pub dr_get_next_invalid_time_from_t : ℕ → ℕ → S → Option (ℕ × S)
  pub tp_is_time_valid : ℕ → ℕ → S → Option (Bool × S)
  pub tp_get_next_invalid_time_from_t : ℕ → ℕ → S → Option (ℕ × S)

pub record Timeperiod : Type 0 where
  pub dateranges : List ℕ
  pub exclude : List ℕ
  pub cache : List (ℕ × Option ℕ)
  pub invalid_cache : List (ℕ × ℕ)
  pub is_active : Option Bool

-- 3600 * 24 * 366 + 1
abbrev pub one_year : ℕ
one_year = 31622401

abbrev one_month : ℕ
one_month = 2592000

-- self.cache[t], where a KeyError is None
unfoldable pub find_next_valid_time_from_cache : List (ℕ × Option ℕ) → ℕ → Option ℕ
find_next_valid_time_from_cache [] t = none
find_next_valid_time_from_cache ((k, v) ∷ cache) t =
    if k == t then v else find_next_valid_time_from_cache cache t

unfoldable pub find_next_invalid_time_from_cache : List (ℕ × ℕ) → ℕ → Option ℕ
find_next_invalid_time_from_cache [] t = none
find_next_invalid_time_from_cache ((k, v) ∷ cache) t =
    if k == t then some v else find_next_invalid_time_from_cache cache t

-- Deletes the entries before now.
unfoldable pub keep_from {ℓ} : {A : Type ℓ} → ℕ → List (ℕ × A) → List (ℕ × A)
keep_from now [] = []
keep_from now ((k, v) ∷ cache) =
    let rest = keep_from now cache in if ltb k now then rest else (k, v) ∷ rest

unfoldable pub clean_cache : ℕ → Timeperiod → Timeperiod
unfolding keep_from
clean_cache now p = record p {
  cache = keep_from now p.cache;
  invalid_cache = keep_from now p.invalid_cache;
}

abbrev same_activity : Option Bool → Bool → Bool
same_activity none active = false
same_activity (some was) active = if was then active else not active

-- sorted(xs)
unfoldable pub insert_sorted : ℕ → List ℕ → List ℕ
insert_sorted x [] = x ∷ []
insert_sorted x (y ∷ ys) = if leb x y then x ∷ y ∷ ys else y ∷ insert_sorted x ys

unfoldable pub sorted : List ℕ → List ℕ
unfolding insert_sorted
sorted [] = []
sorted (x ∷ xs) = insert_sorted x (sorted xs)

abbrev pub with_some : Option ℕ → List ℕ → List ℕ
with_some none ms = ms
with_some (some m) ms = m ∷ ms

-- No loop more than one year
abbrev pub within_year : ℕ → ℕ → Option ℕ
within_year original_t t = if ltb (original_t + one_year) t then none else some t

module _ {S : Type 0} (o : Periods S) where
  -- A loop that stops at the first period that covers t.
  unfoldable pub first_valid : (ℕ → ℕ → S → Option (Bool × S)) → List ℕ → ℕ → S → Option (Bool × S)
  first_valid is_valid [] t s = some (false, s)
  first_valid is_valid (p ∷ ps) t s = do
    (valid, s') ← is_valid p t s
    let rest = first_valid is_valid ps t s'
    if valid then some (true, s') else rest

  unfoldable pub is_time_valid : Timeperiod → ℕ → S → Option (Bool × S)
  unfolding first_valid
  is_time_valid p t s = do
    (excluded, s1) ← first_valid o.tp_is_time_valid p.exclude t s
    if excluded then some (false, s1) else first_valid o.dr_is_time_valid p.dateranges t s1

  abbrev get_mins : List ℕ → ℕ → S → Option (List ℕ × S)
  get_mins [] t s = some ([], s)
  get_mins (d ∷ ds) t s = do
    (m, s1) ← o.dr_get_min_from_t d t s
    (ms, s2) ← get_mins ds t s1
    some (m ∷ ms, s2)

  unfoldable pub get_min_from_t : Timeperiod → ℕ → S → Option (ℕ × S)
  unfolding min_list
  get_min_from_t p t s = do
    (mins_incl, s1) ← get_mins p.dateranges t s
    m ← min_list mins_incl
    some (m, s1)

  -- What the log says of the change: from and to, where from is none at the start.
  unfoldable pub check_and_log_activation_change :
      ℕ → Timeperiod → S → Option (Timeperiod × Option (Option Bool × Bool) × S)
  unfolding is_time_valid
  check_and_log_activation_change now p s = do
    (active, s1) ← is_time_valid p now s
    some (
      record p { is_active = some active },
      if same_activity p.is_active active then none else some (p.is_active, active),
      s1,
    )

  -- [d for d in dr_mins if d is not None]
  unfoldable pub next_valids : List ℕ → ℕ → S → Option (List ℕ × S)
  next_valids [] t s = some ([], s)
  next_valids (d ∷ ds) t s = do
    (m, s1) ← o.dr_get_next_valid_time_from_t d t s
    (ms, s2) ← next_valids ds t s1
    some (with_some m ms, s2)

  -- The loop over the excluded timeperiods for a date; what is found first stays.
  unfoldable pub try_excludes : List ℕ → ℕ → Option ℕ → S → Option (Option ℕ × S)
  try_excludes [] t1 found s = some (found, s)
  try_excludes (e ∷ es) t1 found s = do
    (valid, s1) ← o.tp_is_time_valid e t1 s
    try_excludes es t1 (elim found [ none ↦ if valid then none else some t1 | some m ↦ some m ]) s1

  unfoldable pub try_dates : List ℕ → List ℕ → Option ℕ → S → Option (Option ℕ × S)
  unfolding try_excludes
  try_dates exclude [] found s = some (found, s)
  try_dates [] (t1 ∷ ts) found s =
      try_dates [] ts (elim found [ none ↦ some t1 | some m ↦ some m ]) s
  try_dates (e ∷ es) (t1 ∷ ts) found s = do
    (found', s1) ← try_excludes (e ∷ es) t1 found s
    try_dates (e ∷ es) ts found' s1

  unfoldable pub next_invalids : List ℕ → ℕ → S → Option (List ℕ × S)
  next_invalids [] t s = some ([], s)
  next_invalids (e ∷ es) t s = do
    (m, s1) ← o.tp_get_next_invalid_time_from_t e t s
    (ms, s2) ← next_invalids es t s1
    some (m ∷ ms, s2)

  -- The next invalid times of the excluded timeperiods, from the first date if there is one.
  abbrev pub exclude_mins : List ℕ → List ℕ → S → Option (List ℕ × S)
  exclude_mins exclude [] s = some ([], s)
  exclude_mins exclude (t1 ∷ ts) s = next_invalids exclude t1 s

  -- The loop; `none` is an exception as well as that the fuel ran out.
  unfoldable pub search_valid : ℕ → Timeperiod → ℕ → ℕ → S → Option (Option ℕ × S)
  unfolding next_valids try_dates next_invalids sorted min_list
  search_valid zero p original_t t s = none
  search_valid (suc fuel) p original_t t s = do
    (dr_mins, s1) ← next_valids p.dateranges t s
    (found, s2) ← try_dates p.exclude (sorted dr_mins) none s1
    elim found [
      | some t1 ↦ some (within_year original_t t1, s2)
      | none ↦ do
        (exc_mins, s3) ← exclude_mins p.exclude (sorted dr_mins) s2
        elim (min_list exc_mins) [
          | none ↦ some (none, s3)
          | some t' ↦ elim (ltb (original_t + one_year) t') [
            | true ↦ some (none, s3)
            | false ↦ search_valid fuel p original_t t' s3
          ]
        ]
    ]

  unfoldable pub get_next_valid_time_from_t :
      ℕ → Timeperiod → ℕ → S → Option (Option ℕ × Timeperiod × S)
  unfolding find_next_valid_time_from_cache search_valid
  get_next_valid_time_from_t fuel p t s = elim (find_next_valid_time_from_cache p.cache t) [
    | some res ↦ some (some res, p, s)
    | none ↦ do
      (local_min, s1) ← search_valid fuel p t t s
      some (local_min, record p { cache = (t, local_min) ∷ p.cache }, s1)
  ]

  unfoldable pub dr_next_invalids : List ℕ → ℕ → S → Option (List ℕ × S)
  dr_next_invalids [] t s = some ([], s)
  dr_next_invalids (d ∷ ds) t s = do
    (m, s1) ← o.dr_get_next_invalid_time_from_t d t s
    (ms, s2) ← dr_next_invalids ds t s1
    some (m ∷ ms, s2)

  -- The check of a time against the excluded timeperiods: whether the loop goes on, and from
  -- where. The variable res of the source is never returned, and left out.
  unfoldable pub skip_excluded : List ℕ → ℕ → Bool × ℕ → S → Option ((Bool × ℕ) × S)
  skip_excluded [] original_t (still_loop, local_min) s = some ((still_loop, local_min), s)
  skip_excluded (e ∷ es) original_t (still_loop, local_min) s = do
    (valid, s1) ← o.tp_is_time_valid e local_min s
    elim valid [
      | true ↦ do
        (m, s2) ← o.tp_get_next_invalid_time_from_t e (local_min + 60) s1
        skip_excluded es original_t (not (ltb (original_t + 527041) m), m) s2
      | false ↦ skip_excluded es original_t (still_loop, local_min) s1
    ]

  -- Where a valid time is passed over: by the minute, and by the hour after one month.
  abbrev pub pass_over : ℕ → ℕ → Bool × ℕ
  pass_over original_t local_min =
      let m = if ltb (original_t + one_month) local_min then local_min + 3600 else local_min + 60 in
      (not (ltb (original_t + one_year) m), m)

  abbrev pub or_min : ℕ → Option ℕ → ℕ
  or_min local_min none = local_min
  or_min local_min (some m) = m

  unfoldable pub search_invalid : ℕ → Timeperiod → ℕ → ℕ → S → Option (ℕ × S)
  unfolding dr_next_invalids is_time_valid skip_excluded min_list
  search_invalid zero p original_t local_min s = none
  search_invalid (suc fuel) p original_t local_min s = do
    (dr_mins, s1) ← dr_next_invalids p.dateranges local_min s
    let m = or_min local_min (min_list dr_mins)
    (valid, s2) ← is_time_valid p m s1
    ((still_loop, m'), s3) ←
        skip_excluded p.exclude original_t (if valid then pass_over original_t m else (false, m)) s2
    elim still_loop [ true ↦ search_invalid fuel p original_t m' s3 | false ↦ some (m', s3) ]

  unfoldable pub get_next_invalid_time_from_t : ℕ → Timeperiod → ℕ → S → Option (ℕ × Timeperiod × S)
  unfolding find_next_invalid_time_from_cache is_time_valid search_invalid
  get_next_invalid_time_from_t fuel p t s =
      elim (find_next_invalid_time_from_cache p.invalid_cache t) [
        | some res ↦ some (res, p, s)
        | none ↦ do
          (valid, s1) ← is_time_valid p t s
          elim valid [
            | false ↦ some (t, p, s1)
            | true ↦ do
              (local_min, s2) ← search_invalid fuel p t t s1
              some (local_min, record p { invalid_cache = (t, local_min) ∷ p.invalid_cache }, s2)
          ]
      ]
