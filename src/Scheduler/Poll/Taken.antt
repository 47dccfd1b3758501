-- ===== src/Scheduler/Poll/Taken.antt =====
-- What the loop of `get_to_run_checks` over the checks takes.
use shinken_gpt.Prelude.{
  inl, inr, Option-cases, ◌||◌, ℕ, ◌+◌, ◌≤◌, ◌≡◌, refl, ap, sym, subst, ◌∙◌, Bool, true, false,
  ◌&&◌, Option, none, some, List, [], ◌∷◌, if◌then◌else◌, ◌==◌, contains, length, arith, Bool-cases,
  count_if,
}
use shinken_gpt.SchedulingItem.World.{World, Check}
use shinken_gpt.SchedulingItem.Consume.{set_check}
use shinken_gpt.Scheduler.Poll.{
  Request, has_enough, takes_check, hand_check, take_checks, insert_by, sorted_by,
}
use shinken_gpt.Scheduler.{Scheduler}

-- a check that was handed out is not handed out again
handed_once : (r r' : Request) (now : ℕ) (c : Check) → takes_check r' now (hand_check r c) ≡ false
unfolding takes_check
handed_once r r' now c = ground arith

-- how a step of the loop goes on
module _ (r : Request) (c : ℕ) (cs : List ℕ) (n : ℕ) (w : World) where
  abbrev next : World × List ℕ
  next = take_checks r cs (n + 1) (set_check c (hand_check r) w)

  take-full : has_enough r.max_actions n ≡ true → take_checks r (c ∷ cs) n w ≡ (w, [])
  unfolding take_checks
  take-full e = ground (arith, e)

  take-hit :
      has_enough r.max_actions n ≡ false
      → takes_check r w.now (w.checks c) ≡ true
      → take_checks r (c ∷ cs) n w ≡ (next.0, c ∷ next.1)
  unfolding take_checks
  take-hit e t = ground (arith, e, t)

  take-miss :
      has_enough r.max_actions n ≡ false
      → takes_check r w.now (w.checks c) ≡ false
      → take_checks r (c ∷ cs) n w ≡ take_checks r cs n w
  unfolding take_checks
  take-miss e t = ground (arith, e, t)

-- what a check handed out was and is, and that another one is as it was
abbrev pub Handed : Request → List ℕ → World → ℕ → World × List ℕ → Type 0
Handed r cs w d (w', taken) =
    if contains d taken
    then (contains d cs ≡ true)
      × (takes_check r w.now (w.checks d) ≡ true)
      × (w'.checks d ≡ hand_check r (w.checks d))
    else w'.checks d ≡ w.checks d

Handed-hit :
    (r : Request) (c : ℕ) (cs : List ℕ) (w : World) (d : ℕ) (w' : World) (taken : List ℕ)
    → takes_check r w.now (w.checks c) ≡ true
    → Handed r cs (set_check c (hand_check r) w) d (w', taken)
    → Handed r (c ∷ cs) w d (w', c ∷ taken)
Handed-hit r c cs w d w' taken t h = elim (Bool-cases (c == d)) [
  | inl e ↦ ground (arith, e, t, h, handed_once r r w.now (w.checks c))
  | inr e ↦ ground (arith, e, h)
]

Handed-miss :
    (r : Request) (c : ℕ) (cs : List ℕ) (w : World) (d : ℕ) (p : World × List ℕ)
    → Handed r cs w d p
    → Handed r (c ∷ cs) w d p
Handed-miss r c cs w d p h = ground (arith, h)

-- Every check that is handed out is one of the list, could be handed out, and is in a poller after;
-- every other check is as it was.
pub take_checks-hands :
    (r : Request) (cs : List ℕ) (n : ℕ) (w : World) (d : ℕ) → Handed r cs w d (take_checks r cs n w)
unfolding take_checks
take_checks-hands r [] n w d = refl
take_checks-hands r (c ∷ cs) n w d =
    let w' = set_check c (hand_check r) w in
    elim (Bool-cases (has_enough r.max_actions n)) [
      | inl e ↦ subst (Handed r (c ∷ cs) w d) (sym (take-full r c cs n w e)) refl
      | inr e ↦ elim (Bool-cases (takes_check r w.now (w.checks c))) [
        | inl t ↦ subst (Handed r (c ∷ cs) w d) (sym (take-hit r c cs n w e t)) (
            Handed-hit r c cs w d (next r c cs n w).0 (next r c cs n w).1 t
              (take_checks-hands r cs (n + 1) w' d))
        | inr t ↦
            subst (Handed r (c ∷ cs) w d) (sym (take-miss r c cs n w e t))
              (Handed-miss r c cs w d (take_checks r cs n w) (take_checks-hands r cs n w d))
      ]
    ]

-- The number handed out stays within `max_actions`, with the `n` before.
take_checks-max :
    (r : Request) (max : ℕ) (cs : List ℕ) (n : ℕ) (w : World)
    → (r.max_actions ≡ some max)
    → n ≤ max
    → n + length (take_checks r cs n w).1 ≤ max
unfolding take_checks
take_checks-max r max [] n w e h = ground (arith, h)
take_checks-max r max (c ∷ cs) n w e h =
    let w' = set_check c (hand_check r) w in
    elim (Bool-cases (has_enough r.max_actions n)) [
      | inl f ↦ ground (arith, f, h)
      | inr f ↦ elim (Bool-cases (takes_check r w.now (w.checks c))) [
        | inl t ↦
            (let room : n + 1 ≤ max = ground (arith, f, e) in
              ground (arith, f, t, take_checks-max r max cs (n + 1) w' e room))
        | inr t ↦ ground (arith, f, t, take_checks-max r max cs n w e h)
      ]
    ]

-- Without a bound, every check that could be handed out is.
take_checks-all :
    (r : Request) (cs : List ℕ) (n : ℕ) (w : World) (d : ℕ)
    → (r.max_actions ≡ none)
    → contains d (take_checks r cs n w).1 ≡ (contains d cs && takes_check r w.now (w.checks d))
unfolding take_checks
take_checks-all r [] n w d e = refl
take_checks-all r (c ∷ cs) n w d e =
    let w' = set_check c (hand_check r) w in
    elim (Bool-cases (takes_check r w.now (w.checks c))) [
      | inl t ↦
          ground
            (arith, e, t, take_checks-all r cs (n + 1) w' d e, handed_once r r w.now (w.checks c))
      | inr t ↦ ground (arith, e, t, take_checks-all r cs n w d e)
    ]

count-absent : (d : ℕ) (cs : List ℕ) → contains d cs ≡ false → count_if (λ c. c == d) cs ≡ 0
count-absent d [] h = refl
count-absent d (c ∷ cs) h = ground (arith, h, count-absent d cs)

not_again :
    (r : Request) (c : ℕ) (cs : List ℕ) (n : ℕ) (w : World)
    → contains c (take_checks r cs n (set_check c (hand_check r) w)).1 ≡ false
not_again r c cs n w =
    let w' = set_check c (hand_check r) w in
    ground (arith, take_checks-hands r cs n w' c, handed_once r r w.now (w.checks c))

-- No check is handed out twice.
pub take_checks-once :
    (r : Request) (cs : List ℕ) (n : ℕ) (w : World) (d : ℕ)
    → count_if (λ c. c == d) (take_checks r cs n w).1 ≤ 1
unfolding take_checks
take_checks-once r [] n w d = ground arith
take_checks-once r (c ∷ cs) n w d =
    let w' = set_check c (hand_check r) w in
    elim (Bool-cases (has_enough r.max_actions n)) [
      | inl e ↦ ground (arith, e)
      | inr e ↦ elim (Bool-cases (takes_check r w.now (w.checks c))) [
        | inl t ↦
            (let taken = (take_checks r cs (n + 1) w').1 in
              ground (
                arith,
                e,
                t,
                take_checks-once r cs (n + 1) w' d,
                count-absent d taken,
                not_again r c cs (n + 1) w,
              ))
        | inr t ↦ ground (arith, e, t, take_checks-once r cs n w d)
      ]
    ]

contains-insert :
    (key : ℕ → ℕ) (d x : ℕ) (xs : List ℕ) → contains d (insert_by key x xs) ≡ contains d (x ∷ xs)
contains-insert key d x [] = refl
contains-insert key d x (y ∷ ys) = ground (arith, contains-insert key d x ys)

pub contains-sorted :
    (key : ℕ → ℕ) (d : ℕ) (xs : List ℕ) → contains d (sorted_by key xs) ≡ contains d xs
unfolding sorted_by
contains-sorted key d [] = refl
contains-sorted key d (x ∷ xs) =
    contains-insert key d x (sorted_by key xs) ∙ ap (λ b. (x == d) || b) (contains-sorted key d xs)

abbrev pub by_priority : Scheduler → List ℕ
by_priority s = sorted_by (λ c. (s.world.checks c).priority) s.checks

pub Handed-sorted :
    (r : Request) (xs ys : List ℕ) (w : World) (d : ℕ) (p : World × List ℕ)
    → (contains d xs ≡ contains d ys)
    → Handed r xs w d p
    → Handed r ys w d p
Handed-sorted r xs ys w d p e h = ground (arith, e, h)

-- with no bound everything due is taken, and otherwise no more than the bound
abbrev pub Fits : Option ℕ → Bool → Bool → ℕ → Type 0
Fits none is_taken is_due n = is_taken ≡ is_due
Fits (some max) is_taken is_due n = n ≤ max

abbrev pub Enough : Request → Scheduler → ℕ → List ℕ → Type 0
Enough r s d taken =
    Fits r.max_actions (contains d taken)
      (contains d s.checks && takes_check r s.world.now (s.world.checks d)) (length taken)

pub take_checks-Enough :
    (r : Request) (s : Scheduler) (d : ℕ) → Enough r s d (take_checks r (by_priority s) 0 s.world).1
take_checks-Enough r s d =
    let taken = (take_checks r (by_priority s) 0 s.world).1 in
    let is_due = contains d s.checks && takes_check r s.world.now (s.world.checks d) in
    let P : Option ℕ → Type 0 = λ o. Fits o (contains d taken) is_due (length taken) in
    elim (Option-cases r.max_actions) [
      | inl e ↦ subst P (sym e) (
          take_checks-all r (by_priority s) 0 s.world d e
          ∙ ap (λ b. b && takes_check r s.world.now (s.world.checks d))
              (contains-sorted (λ c. (s.world.checks c).priority) d s.checks))
      | inr (max, e) ↦
          (let bound = take_checks-max r max (by_priority s) 0 s.world e (ground arith) in
            let bound' : length taken ≤ max = ground (arith, bound) in subst P (sym e) bound')
    ]
