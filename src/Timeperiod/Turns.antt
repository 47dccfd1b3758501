-- ===== src/Timeperiod/Turns.antt =====
-- What the loops of the search of a timeperiod give, round by round, where the answers are steady.
use shinken_gpt.Prelude.{
  ℕ, zero, suc, ◌+◌, ◌≤◌, ◌<◌, ◌≡◌, refl, ap, ◌∙◌, inl, inr, Bool, true, false, not, Option, none,
  some, List, [], ◌∷◌, map, if◌then◌else◌, ltb, min_list, any, contains, arith, All, Bool-cases,
  Option-cases, ==_iff,
}
use shinken_gpt.Timeperiod.Search.{
  Periods, Timeperiod, one_year, sorted, next_valids, try_excludes, try_dates, next_invalids,
  exclude_mins, within_year, search_valid,
}
use shinken_gpt.Timeperiod.Found.{
  IsSteady, accepts, Offered, Outcome, no_time, found, nexts, first_accepted, All-sorted,
  min_list-All, nexts-All, first_accepted-All, refused-covered, leaves-All, accepts-any,
}

-- One round of the search, by what the dates and the excluded timeperiods give.
module _ {S : Type 0} (o : Periods S) (fuel : ℕ) (p : Timeperiod) (original_t t : ℕ) (s : S)
    {ms : List ℕ} {s1 s2 : S} (dates : next_valids o p.dateranges t s ≡ some (ms, s1)) where
  pub round-taken :
      {t1 : ℕ}
      → try_dates o p.exclude (sorted ms) none s1 ≡ some (some t1, s2)
      → search_valid o (suc fuel) p original_t t s ≡ some (within_year original_t t1, s2)
  unfolding search_valid
  round-taken e = rw dates (rw e refl)

  module _ {ex : List ℕ} {s3 : S}
      (refused : try_dates o p.exclude (sorted ms) none s1 ≡ some (none, s2))
      (ends : exclude_mins o p.exclude (sorted ms) s2 ≡ some (ex, s3)) where
    round-empty : min_list ex ≡ none → search_valid o (suc fuel) p original_t t s ≡ some (none, s3)
    unfolding search_valid
    round-empty e = rw dates (rw refused (rw ends (ground (arith, e))))

    round-far :
        {t' : ℕ}
        → min_list ex ≡ some t'
        → ltb (original_t + one_year) t' ≡ true
        → search_valid o (suc fuel) p original_t t s ≡ some (none, s3)
    unfolding search_valid
    round-far e h = rw dates (rw refused (rw ends (ground (arith, e, h))))

    round-near :
        {t' : ℕ}
        → min_list ex ≡ some t'
        → ltb (original_t + one_year) t' ≡ false
        → search_valid o (suc fuel) p original_t t s ≡ search_valid o fuel p original_t t' s3
    unfolding search_valid
    round-near e h = rw dates (rw refused (rw ends (ground (arith, e, h))))

-- The timeperiods of a list are among those of another.
abbrev pub AreAmong : List ℕ → List ℕ → Type 0
AreAmong all es = (e : ℕ) → contains e es ≡ true → contains e all ≡ true

first_among : (all : List ℕ) (e : ℕ) (es : List ℕ) → AreAmong all (e ∷ es) → contains e all ≡ true
first_among all e es part = part e (ground (arith, ==_iff e e))

rest_among : (all : List ℕ) (e : ℕ) (es : List ℕ) → AreAmong all (e ∷ es) → AreAmong all es
rest_among all e es part x h = part x (ground (arith, h))

module _ {S : Type 0} (o : Periods S) (Holds : S → Type 0) (all : List ℕ) (next : ℕ → ℕ → Option ℕ)
    (covers : ℕ → ℕ → Bool) (leaves : ℕ → ℕ → ℕ)
    (steady : IsSteady o Holds all next covers leaves) where
  pub next_valids_lem :
      (ds : List ℕ) (t : ℕ) (s : S)
      → Holds s
      → (s' : S) × (next_valids o ds t s ≡ some (nexts next ds t, s')) × Holds s'
  unfolding next_valids
  next_valids_lem [] t s h = (s, refl, h)
  next_valids_lem (d ∷ ds) t s h =
      let (s1, e1, h1) = steady.dr_answers d t s h in
      let (s2, e2, h2) = next_valids_lem ds t s1 h1 in (s2, rw e1 (rw e2 refl), h2)

  try_excludes-found :
      (es : List ℕ) (t m : ℕ) (s : S)
      → AreAmong all es
      → Holds s
      → (s' : S) × (try_excludes o es t (some m) s ≡ some (some m, s')) × Holds s'
  unfolding try_excludes
  try_excludes-found [] t m s part h = (s, refl, h)
  try_excludes-found (e ∷ es) t m s part h =
      let (s1, e1, h1) = steady.tp_answers e t s (first_among all e es part) h in
      let (s2, e2, h2) = try_excludes-found es t m s1 (rest_among all e es part) h1 in
      (s2, rw e1 e2, h2)

  try_excludes_lem :
      (es : List ℕ) (t : ℕ) (s : S)
      → AreAmong all es
      → Holds s
      → (s' : S) × (try_excludes o es t none s
          ≡ some (if any (λ e. not (covers e t)) es then some t else none, s'))
        × Holds s'
  unfolding try_excludes
  try_excludes_lem [] t s part h = (s, refl, h)
  try_excludes_lem (e ∷ es) t s part h =
      let (s1, e1, h1) = steady.tp_answers e t s (first_among all e es part) h in
      let rest = rest_among all e es part in
      elim (Bool-cases (covers e t)) [
        | inl c ↦ let (s2, e2, h2) = try_excludes_lem es t s1 rest h1 in (s2, rw e1 (rw c e2), h2)
        | inr f ↦
            let (s2, e2, h2) = try_excludes-found es t t s1 rest h1 in (s2, rw e1 (rw f e2), h2)
      ]

  try_dates-found :
      (es ts : List ℕ) (m : ℕ) (s : S)
      → AreAmong all es
      → Holds s
      → (s' : S) × (try_dates o es ts (some m) s ≡ some (some m, s')) × Holds s'
  unfolding try_dates
  try_dates-found [] [] m s part h = (s, refl, h)
  try_dates-found (e ∷ es) [] m s part h = (s, refl, h)
  try_dates-found [] (t ∷ ts) m s part h = try_dates-found [] ts m s part h
  try_dates-found (e ∷ es) (t ∷ ts) m s part h =
      let (s1, e1, h1) = try_excludes-found (e ∷ es) t m s part h in
      let (s2, e2, h2) = try_dates-found (e ∷ es) ts m s1 part h1 in (s2, rw e1 e2, h2)

  pub try_dates_lem :
      (es ts : List ℕ) (s : S)
      → AreAmong all es
      → Holds s
      → (s' : S) × (try_dates o es ts none s ≡ some (first_accepted covers es ts, s')) × Holds s'
  unfolding try_dates
  try_dates_lem [] [] s part h = (s, refl, h)
  try_dates_lem (e ∷ es) [] s part h = (s, refl, h)
  try_dates_lem [] (t ∷ ts) s part h = try_dates-found [] ts t s part h
  try_dates_lem (e ∷ es) (t ∷ ts) s part h =
      let (s1, e1, h1) = try_excludes_lem (e ∷ es) t s part h in
      elim (Bool-cases (any (λ x. not (covers x t)) (e ∷ es))) [
        | inl a ↦
            let (s2, e2, h2) = try_dates-found (e ∷ es) ts t s1 part h1 in (s2, rw e1 (rw a e2), h2)
        | inr n ↦
            let (s2, e2, h2) = try_dates_lem (e ∷ es) ts s1 part h1 in (s2, rw e1 (rw n e2), h2)
      ]

  next_invalids_lem :
      (es : List ℕ) (t : ℕ) (s : S)
      → AreAmong all es
      → Holds s
      → (s' : S) × (next_invalids o es t s ≡ some (map (λ e. leaves e t) es, s')) × Holds s'
  unfolding next_invalids
  next_invalids_lem [] t s part h = (s, refl, h)
  next_invalids_lem (e ∷ es) t s part h =
      let (s1, e1, h1) = steady.tp_leaves e t s (first_among all e es part) h in
      let (s2, e2, h2) = next_invalids_lem es t s1 (rest_among all e es part) h1 in
      (s2, rw e1 (rw e2 refl), h2)

  -- Where no date is accepted, the times at which the excluded timeperiods end are all later.
  freed : List ℕ → List ℕ → List ℕ
  freed es [] = []
  freed es (t ∷ ts) = map (λ e. leaves e t) es

  exclude_mins_lem :
      (es ts : List ℕ) (s : S)
      → AreAmong all es
      → Holds s
      → (s' : S) × (exclude_mins o es ts s ≡ some (freed es ts, s')) × Holds s'
  unfolding freed
  exclude_mins_lem es [] s part h = (s, refl, h)
  exclude_mins_lem es (t ∷ ts) s part h = next_invalids_lem es t s part h

  freed-All :
      (es ts : List ℕ) (t : ℕ) (P : ℕ → Type 0)
      → All (λ m. (t ≤ m) × P m) ts
      → first_accepted covers es ts ≡ none
      → All (λ m. t < m) (freed es ts)
  unfolding freed
  freed-All es [] t P h e = tt
  freed-All es (t1 ∷ ts) t P ((le, p), h) e =
      leaves-All covers leaves es t1 t le steady.tp_later
        (refused-covered covers es t1 (accepts-any covers es t1 (ground arith)))

  module _ (p : Timeperiod) (part : AreAmong all p.exclude) (original_t : ℕ) where
    offers_all :
        (t : ℕ)
        → All (λ m. (t ≤ m) × Offered next p.dateranges m) (sorted (nexts next p.dateranges t))
    offers_all t =
        All-sorted (λ m. (t ≤ m) × Offered next p.dateranges m) (nexts next p.dateranges t)
          (nexts-All next p.dateranges p.dateranges t (λ d m. steady.dr_later d t m) (λ d h. h))

    taken :
        (t t1 : ℕ)
        → original_t ≤ t
        → (t ≤ t1) × Offered next p.dateranges t1
        → accepts covers p.exclude t1 ≡ true
        → Outcome next covers p original_t (original_t + one_year) (within_year original_t t1)
    taken t t1 h (le, o1) a = elim (Bool-cases (ltb (original_t + one_year) t1)) [
      | inl far ↦ rw far no_time
      | inr near ↦ rw near (found t1 (omega arith) (ground arith) a o1)
    ]

    pub search_valid-Outcome :
        (fuel t : ℕ) (s : S)
        → Holds s
        → original_t ≤ t
        → t ≤ original_t + one_year
        → original_t + one_year < t + fuel
        → (r : Option ℕ) × (s' : S) × (search_valid o fuel p original_t t s ≡ some (r, s'))
          × Outcome next covers p original_t (original_t + one_year) r
    search_valid-Outcome zero t s h from to enough = absurd (omega arith)
    search_valid-Outcome (suc fuel) t s h from to enough =
        let ts = sorted (nexts next p.dateranges t) in
        let (s1, e1, h1) = next_valids_lem p.dateranges t s h in
        let (s2, e2, h2) = try_dates_lem p.exclude ts s1 part h1 in
        elim (Option-cases (first_accepted covers p.exclude ts)) [
          | inr (t1, f) ↦
              let (po, a) =
                first_accepted-All covers (λ m. (t ≤ m) × Offered next p.dateranges m) p.exclude ts
                  t1 (offers_all t) f in
              (
                within_year original_t t1,
                s2,
                round-taken o fuel p original_t t s e1 (e2 ∙ ap (λ x. some (x, s2)) f),
                taken t t1 from po a,
              )
          | inl n ↦
              let (s3, e3, h3) = exclude_mins_lem p.exclude ts s2 part h2 in
              let refused = e2 ∙ ap (λ x. some (x, s2)) n in
              elim (Option-cases (min_list (freed p.exclude ts))) [
                | inl left ↦
                    (none, s3, round-empty o fuel p original_t t s e1 refused e3 left, no_time)
                | inr (t', f) ↦
                    let later : t < t' =
                      min_list-All (λ m. t < m) (freed p.exclude ts) t'
                        (freed-All p.exclude ts t (Offered next p.dateranges) (offers_all t) n) f in
                    elim (Bool-cases (ltb (original_t + one_year) t')) [
                      | inl far ↦
                          (none, s3, round-far o fuel p original_t t s e1 refused e3 f far, no_time)
                      | inr near ↦
                          let (r, s4, e4, out) =
                            search_valid-Outcome fuel t' s3 h3 (omega arith) (ground arith)
                              (omega arith) in
                          (r, s4, round-near o fuel p original_t t s e1 refused e3 f near ∙ e4, out)
                    ]
              ]
        ]
