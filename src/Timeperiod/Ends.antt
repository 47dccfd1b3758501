-- ===== src/Timeperiod/Ends.antt =====
-- The search of a timeperiod for its next valid time ends, and what it finds.
use shinken_gpt.Prelude.{
  ℕ, suc, ◌+◌, ◌≤◌, ◌<◌, ◌≡◌, ap, ◌∙◌, inl, inr, Bool, true, false, Option, none, some, List, [],
  ◌∷◌, arith, Option-cases, ==_iff, contains,
}
use shinken_gpt.Timeperiod.Search.{
  Periods, Timeperiod, one_year, find_next_valid_time_from_cache, sorted, within_year, search_valid,
  get_next_valid_time_from_t, is_time_valid, first_valid,
}
use shinken_gpt.Timeperiod.Found.{IsSteady, Outcome, nexts, first_accepted}
use shinken_gpt.Timeperiod.Turns.{next_valids_lem, round-taken, search_valid-Outcome, try_dates_lem}

get_next-searched :
    {S : Type 0} (o : Periods S) (fuel : ℕ) (p : Timeperiod) (t : ℕ) (s s' : S) (r : Option ℕ)
    → find_next_valid_time_from_cache p.cache t ≡ none
    → search_valid o fuel p t t s ≡ some (r, s')
    → get_next_valid_time_from_t o fuel p t s ≡ some (r, record p { cache = (t, r) ∷ p.cache }, s')
unfolding get_next_valid_time_from_t
get_next-searched o fuel p t s s' r c e = ground arith

-- Where the date ranges and the excluded timeperiods give steady answers, in a state that has the
-- property under which they do, fuel for the seconds of a year lets the search of an uncached time
-- end. It finds no time, or a time from then on and within a year that is the next valid one of a
-- date range and that, when there are excluded timeperiods, at least one of them does not cover;
-- and it writes the answer into the cache.
pub get_next_valid_time_from_t-Outcome :
    {S : Type 0} (o : Periods S) (Holds : S → Type 0) (p : Timeperiod) (next : ℕ → ℕ → Option ℕ)
    (covers : ℕ → ℕ → Bool) (leaves : ℕ → ℕ → ℕ)
    → IsSteady o Holds p.exclude next covers leaves
    → (fuel t : ℕ) (s : S) → Holds s
    → one_year < fuel
    → find_next_valid_time_from_cache p.cache t ≡ none
    → (r : Option ℕ) × (s' : S) × (get_next_valid_time_from_t o fuel p t s
        ≡ some (r, record p { cache = (t, r) ∷ p.cache }, s'))
      × Outcome next covers p t (t + one_year) r
get_next_valid_time_from_t-Outcome o Holds p next covers leaves steady fuel t s h enough uncached =
    let (r, s', e, out) =
      search_valid-Outcome o Holds p.exclude next covers leaves steady p (λ e k. k) t fuel t s h
        (omega arith) (omega arith) (omega arith) in
    (r, s', get_next-searched o fuel p t s s' r uncached e, out)

get_next-remembered :
    {S : Type 0} (o : Periods S) (fuel : ℕ) (p : Timeperiod) (t m : ℕ) (s : S)
    → find_next_valid_time_from_cache p.cache t ≡ some m
    → get_next_valid_time_from_t o fuel p t s ≡ some (some m, p, s)
unfolding get_next_valid_time_from_t
get_next-remembered o fuel p t m s c = ground arith

-- The answer stands in the cache afterwards.
answer_kept :
    {S : Type 0} (o : Periods S) (fuel : ℕ) (p p' : Timeperiod) (t m : ℕ) (s s' : S)
    → get_next_valid_time_from_t o fuel p t s ≡ some (some m, p', s')
    → find_next_valid_time_from_cache p'.cache t ≡ some m
unfolding get_next_valid_time_from_t find_next_valid_time_from_cache
answer_kept o fuel p p' t m s s' h =
    elim (Option-cases (find_next_valid_time_from_cache p.cache t)) [
      | inl c ↦ elim (Option-cases (search_valid o fuel p t t s)) [
        | inl e ↦ absurd (ground (arith, c, e))
        | inr ((r, s1), e) ↦ ground (arith, c, e, ==_iff t t)
      ]
      | inr (k, c) ↦ ground (arith, c)
    ]

-- A time that was found is returned again from the cache, whatever has become of the date ranges
-- and of the excluded timeperiods, which are not asked again.
pub get_next_valid_time_from_t-cached :
    {S : Type 0} (o : Periods S) (fuel fuel2 : ℕ) (p p' : Timeperiod) (t m : ℕ) (s s' s2 : S)
    → get_next_valid_time_from_t o fuel p t s ≡ some (some m, p', s')
    → get_next_valid_time_from_t o fuel2 p' t s2 ≡ some (some m, p', s2)
get_next_valid_time_from_t-cached o fuel fuel2 p p' t m s s' s2 h =
    get_next-remembered o fuel2 p' t m s2 (answer_kept o fuel p p' t m s s' h)

module _ {S : Type 0} (o : Periods S) (Holds : S → Type 0) (p : Timeperiod)
    (next : ℕ → ℕ → Option ℕ) (covers : ℕ → ℕ → Bool) (leaves : ℕ → ℕ → ℕ)
    (steady : IsSteady o Holds p.exclude next covers leaves) where
  -- A time that the first excluded timeperiod covers is not valid.
  covered-invalid :
      (e : ℕ) (es : List ℕ) (t : ℕ) (s : S)
      → Holds s
      → p.exclude ≡ e ∷ es
      → covers e t ≡ true
      → (s' : S) × (is_time_valid o p t s ≡ some (false, s'))
  unfolding is_time_valid first_valid
  covered-invalid e es t s h ex c =
      let (s1, e1, h1) =
        steady.tp_answers e t s (ground (arith, ex, ==_iff e e, ap (contains e) ex)) h in
      (s1, ground (arith, ex, e1, c))

  one_date :
      (d e1 e2 t m : ℕ)
      → p.dateranges ≡ d ∷ []
      → p.exclude ≡ e1 ∷ e2 ∷ []
      → next d t ≡ some m
      → covers e2 m ≡ false
      → first_accepted covers p.exclude (sorted (nexts next p.dateranges t)) ≡ some m
  unfolding sorted
  one_date d e1 e2 t m ds es n c = rw ds (rw es (rw n (ground (arith, c))))

  -- Let the date range and the excluded timeperiods give steady answers, let the timeperiod have one
  -- date range and exclude two timeperiods, and let no answer for t be in its cache. When the date
  -- range offers a time within a year of t that the first of the two covers and the second does
  -- not, the search from t returns that time, which is not valid.
  pub two_excludes-invalid :
      (fuel d e1 e2 t m : ℕ) (s : S)
      → Holds s
      → find_next_valid_time_from_cache p.cache t ≡ none
      → p.dateranges ≡ d ∷ []
      → p.exclude ≡ e1 ∷ e2 ∷ []
      → next d t ≡ some m
      → m ≤ t + one_year
      → covers e1 m ≡ true
      → covers e2 m ≡ false
      → (p' : Timeperiod) × (s' : S) × (s2 : S) × (get_next_valid_time_from_t o (suc fuel) p t s
          ≡ some (some m, p', s'))
        × (is_time_valid o p m s' ≡ some (false, s2))
  two_excludes-invalid fuel d e1 e2 t m s h uncached ds es n year c1 c2 =
      let (s1, q1, h1) =
        next_valids_lem o Holds p.exclude next covers leaves steady p.dateranges t s h in
      let (s2, q2, h2) =
        try_dates_lem o Holds p.exclude next covers leaves steady p.exclude
          (sorted (nexts next p.dateranges t)) s1 (λ e k. k) h1 in
      let f = one_date d e1 e2 t m ds es n c2 in
      let near : within_year t m ≡ some m = ground arith in
      let (s3, q3) = covered-invalid e1 (e2 ∷ []) m s2 h2 es c1 in
      (
        record p { cache = (t, some m) ∷ p.cache },
        s2,
        s3,
        get_next-searched o (suc fuel) p t s s2 (some m) uncached (
            round-taken o fuel p t t s q1 (q2 ∙ ap (λ x. some (x, s2)) f)
            ∙ ap (λ x. some (x, s2)) near),
        q3,
      )
