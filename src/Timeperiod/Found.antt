-- ===== src/Timeperiod/Found.antt =====
-- What the search of a timeperiod for its next valid time is to find, where the date ranges and
-- the excluded timeperiods give steady answers.
use shinken_gpt.Prelude.{
  ℕ, ◌≤◌, ◌<◌, ◌≡◌, ◌⊎◌, sym, ◌∙◌, subst, inl, inr, Bool, true, false, not, Option, none, some,
  List, [], ◌∷◌, map, if◌then◌else◌, leb, min_list, min, any, contains, arith, All, leb→le,
  Bool-cases, Option-cases, ==_iff,
}
use shinken_gpt.Timeperiod.Search.{Periods, Timeperiod, insert_sorted, sorted, with_some}

-- Date ranges, and excluded timeperiods of a list, that give the same answers however often they
-- are asked, as long as the state satisfies a property that they keep. `next d t` is the next valid
-- time of a date range, `covers e t` tells whether an excluded timeperiod covers a time, and
-- `leaves e t` is when it next does not.
pub record IsSteady {S : Type 0} (o : Periods S) (Holds : S → Type 0) (exclude : List ℕ)
    (next : ℕ → ℕ → Option ℕ) (covers : ℕ → ℕ → Bool) (leaves : ℕ → ℕ → ℕ) : Type 0 where
  pub dr_answers :
      (d t : ℕ) (s : S)
      → Holds s
      → (s' : S) × (o.dr_get_next_valid_time_from_t d t s ≡ some (next d t, s')) × Holds s'
  pub tp_answers :
      (e t : ℕ) (s : S)
      → contains e exclude ≡ true
      → Holds s
      → (s' : S) × (o.tp_is_time_valid e t s ≡ some (covers e t, s')) × Holds s'
  pub tp_leaves :
      (e t : ℕ) (s : S)
      → contains e exclude ≡ true
      → Holds s
      → (s' : S) × (o.tp_get_next_invalid_time_from_t e t s ≡ some (leaves e t, s')) × Holds s'
  pub dr_later : (d t m : ℕ) → next d t ≡ some m → t ≤ m
  pub tp_later : (e t : ℕ) → covers e t ≡ true → t < leaves e t

abbrev pub nexts : (ℕ → ℕ → Option ℕ) → List ℕ → ℕ → List ℕ
nexts next [] t = []
nexts next (d ∷ ds) t = with_some (next d t) (nexts next ds t)

module _ (covers : ℕ → ℕ → Bool) where
  -- A date is taken when there is no excluded timeperiod, or one that does not cover it.
  abbrev pub accepts : List ℕ → ℕ → Bool
  accepts [] t = true
  accepts (e ∷ es) t = any (λ e. not (covers e t)) (e ∷ es)

  abbrev pub first_accepted : List ℕ → List ℕ → Option ℕ
  first_accepted es [] = none
  first_accepted es (t ∷ ts) =
      let rest = first_accepted es ts in if accepts es t then some t else rest

module _ (next : ℕ → ℕ → Option ℕ) where
  -- The time is the next valid one of a date range, from some time on.
  abbrev pub Offered : List ℕ → ℕ → Type 0
  Offered ds m = (d t : ℕ) × (contains d ds ≡ true) × (next d t ≡ some m)

-- What the search from t returns: nothing, or a time within a year that is offered and accepted.
pub data Outcome (next : ℕ → ℕ → Option ℕ) (covers : ℕ → ℕ → Bool) (p : Timeperiod) (t last : ℕ)
    : Option ℕ → Type 0 where
  no_time : Outcome next covers p t last none
  found :
      (m : ℕ)
      → t ≤ m
      → m ≤ last
      → accepts covers p.exclude m ≡ true
      → Offered next p.dateranges m
      → Outcome next covers p t last (some m)

module _ {ℓ} (P : ℕ → Type ℓ) where
  All-insert_sorted : (x : ℕ) (xs : List ℕ) → P x → All P xs → All P (insert_sorted x xs)
  unfolding insert_sorted
  All-insert_sorted x [] p h = (p, tt)
  All-insert_sorted x (y ∷ ys) p (q, h) = elim (Bool-cases (leb x y)) [
    | inl e ↦ rw e (p, (q, h))
    | inr e ↦ rw e (q, All-insert_sorted x ys p h)
  ]

  pub All-sorted : (xs : List ℕ) → All P xs → All P (sorted xs)
  unfolding sorted
  All-sorted [] h = tt
  All-sorted (x ∷ xs) (p, h) = All-insert_sorted x (sorted xs) p (All-sorted xs h)

min_cases : (a b : ℕ) → (min a b ≡ a) ⊎ (min a b ≡ b)
min_cases a b = elim (Bool-cases (leb a b)) [
  | inl h ↦ inl (let k = leb→le a b h in omega arith)
  | inr h ↦ inr (let k : b ≤ a = ground arith in omega arith)
]

pub min_list-All : (P : ℕ → Type 0) (xs : List ℕ) (m : ℕ) → All P xs → min_list xs ≡ some m → P m
unfolding min_list
min_list-All P [] m h e = cc
min_list-All P (x ∷ xs) m (p, h) e = elim (Option-cases (min_list xs)) [
  | inl n ↦ let same : x ≡ m = ground (arith, n, e) in subst P same p
  | inr (k, f) ↦
      let same : min x k ≡ m = cc (f, e) in
      elim (min_cases x k) [
        | inl a ↦ subst P (sym a ∙ same) p
        | inr b ↦ subst P (sym b ∙ same) (min_list-All P xs k h f)
      ]
]

pub nexts-All :
    (next : ℕ → ℕ → Option ℕ) (all ds : List ℕ) (t : ℕ)
    → ((d m : ℕ) → next d t ≡ some m → t ≤ m)
    → ((d : ℕ) → contains d ds ≡ true → contains d all ≡ true)
    → All (λ m. (t ≤ m) × Offered next all m) (nexts next ds t)
nexts-All next all [] t later part = tt
nexts-All next all (d ∷ ds) t later part =
    let rest = nexts-All next all ds t later (λ x h. part x (ground arith)) in
    elim (Option-cases (next d t)) [
      | inl n ↦ rw n rest
      | inr (m, e) ↦ rw e ((later d m e, (d, t, part d (ground (arith, ==_iff d d)), e)), rest)
    ]

pub first_accepted-All :
    (covers : ℕ → ℕ → Bool) (P : ℕ → Type 0) (es ts : List ℕ) (m : ℕ)
    → All P ts
    → first_accepted covers es ts ≡ some m
    → P m × (accepts covers es m ≡ true)
first_accepted-All covers P es [] m h e = cc
first_accepted-All covers P es (t ∷ ts) m (p, h) e = elim (Bool-cases (accepts covers es t)) [
  | inl a ↦
      let same : t ≡ m = ground (arith, a, e) in
      subst (λ x. P x × (accepts covers es x ≡ true)) same (p, a)
  | inr n ↦ first_accepted-All covers P es ts m h (ground (arith, n, e))
]

-- A date that is not accepted is covered by every excluded timeperiod.
pub refused-covered :
    (covers : ℕ → ℕ → Bool) (es : List ℕ) (t : ℕ)
    → any (λ e. not (covers e t)) es ≡ false
    → All (λ e. covers e t ≡ true) es
refused-covered covers [] t h = tt
refused-covered covers (e ∷ es) t h = (ground arith, refused-covered covers es t (ground arith))

pub leaves-All :
    (covers : ℕ → ℕ → Bool) (leaves : ℕ → ℕ → ℕ) (es : List ℕ) (t1 t : ℕ)
    → t ≤ t1
    → ((e t : ℕ) → covers e t ≡ true → t < leaves e t)
    → All (λ e. covers e t1 ≡ true) es
    → All (λ m. t < m) (map (λ e. leaves e t1) es)
leaves-All covers leaves [] t1 t le later h = tt
leaves-All covers leaves (e ∷ es) t1 t le later (c, h) =
    (omega (arith, later e t1 c), leaves-All covers leaves es t1 t le later h)

pub accepts-any :
    (covers : ℕ → ℕ → Bool) (es : List ℕ) (t : ℕ)
    → accepts covers es t ≡ false
    → any (λ e. not (covers e t)) es ≡ false
accepts-any covers [] t h = cc
accepts-any covers (e ∷ es) t h = h
