-- ===== src/Scheduler/Internal/Managed.antt =====
-- The answers of the scheduler to the checks of business rules.
use Prim.Native.String.{String}
use shinken_gpt.Prelude.{
  ℕ, ◌≤◌, ◌≡◌, ◌⊎◌, refl, ap, ◌∙◌, true, false, some, List, [], ◌∷◌, ◌==◌, All, arith, ◌>>=◌,
  >>=-eq-some, map_some, Bool-cases, Option-cases, inl, inr,
}
use shinken_gpt.BusinessRule.{Percent, get_state}
use shinken_gpt.BusinessRule.Range.{get_state-le}
use shinken_gpt.SchedulingItem.Types.{Item, waitconsume}
use shinken_gpt.SchedulingItem.World.{World}
use shinken_gpt.SchedulingItem.Consume.{set_check}
use shinken_gpt.Scheduler.{Scheduler}
use shinken_gpt.Scheduler.Internal.{
  Internals, BusinessRule, Rules, set_got_business_rule, mark_business_rule, create_business_rules,
  manage_rule, bp_command, internal_host_up, rule_result, or_unknown, internal_result, answer,
  is_due_internal, manage_one, manage_each, manage_internal_checks,
}

-- An item is as it was, but that it may be marked as one of a business rule.
abbrev pub OnlyMarked : Item → Item → Type 0
OnlyMarked x x' = (x' ≡ x) ⊎ (x' ≡ record x { conf = record x.conf { got_business_rule = true } })

-- Of the world only checks change, and marks of business rules; a check that changes waits to be
-- consumed, with the number of a state.
pub record Answers (w w' : World) : Type 0 where
  pub rest : w' ≡ record w { items = w'.items; checks = w'.checks }
  pub items : (j : ℕ) → OnlyMarked (w.items j) (w'.items j)
  pub checks :
      (d : ℕ)
      → (w'.checks d ≡ w.checks d)
        ⊎ (((w'.checks d).status ≡ waitconsume) × ((w'.checks d).exit_status ≤ 3))

Answers-refl : (w : World) → Answers w w
Answers-refl w = record { rest = refl; items = λ j. inl refl; checks = λ d. inl refl }

OnlyMarked-trans : (x y z : Item) → OnlyMarked x y → OnlyMarked y z → OnlyMarked x z
OnlyMarked-trans x y z (inl p) (inl q) = inl (q ∙ p)
OnlyMarked-trans x y z (inl p) (inr q) = inr (q ∙ ap set_got_business_rule p)
OnlyMarked-trans x y z (inr p) (inl q) = inr (q ∙ p)
OnlyMarked-trans x y z (inr p) (inr q) = inr (q ∙ ap set_got_business_rule p)

Answers-trans : {w w' w'' : World} → Answers w w' → Answers w' w'' → Answers w w''
Answers-trans {w} {w'} {w''} p q = record {
  rest = q.rest ∙ ap (λ (v : World). record v { items = w''.items; checks = w''.checks }) p.rest;
  items = λ j. OnlyMarked-trans (w.items j) (w'.items j) (w''.items j) (p.items j) (q.items j);
  checks = λ d. elim (q.checks d) [
    | inr a ↦ inr a
    | inl e ↦ elim (p.checks d) [ inl f ↦ inl (e ∙ f) | inr a ↦ inr (ground (arith, e, a)) ]
  ];
}

now-Answers : {w w' : World} → Answers w w' → w'.now ≡ w.now
now-Answers p = ap (λ (v : World). v.now) p.rest

HasNumbers : World → Type 0
HasNumbers w = (j : ℕ) → (w.items j).last_hard_state_id ≤ 3

numbers-Answers : {w w' : World} → Answers w w' → HasNumbers w → HasNumbers w'
unfolding HasNumbers
numbers-Answers p h j = ground (arith, h j, p.items j)

marked : (i : Internals) (self : ℕ) (w : World) → Answers w (mark_business_rule i self w)
unfolding mark_business_rule
marked i self w = elim (Option-cases (i.rule_text self)) [
  | inl e ↦ rw (e, mark_business_rule) (Answers-refl w)
  | inr (text, e) ↦
      rw (e, mark_business_rule)
        (record {
          rest = refl;
          items = λ j. elim (Bool-cases (j == self)) [
            | inl f ↦ inr (ground (arith, f))
            | inr f ↦ inl (ground (arith, f))
          ];
          checks = λ d. inl refl;
        })
]

-- the result of a rule is a state
rule_result-le :
    (float : Percent) (i : Internals) (self : ℕ) (w : World) (r : BusinessRule)
    → HasNumbers w
    → (or_unknown i.error_output (rule_result float i self w r)).0 ≤ 3
unfolding rule_result HasNumbers
rule_result-le float i self w r h =
    let hard = λ (j : ℕ). (w.items j).last_hard_state_id in
    elim (Option-cases (rule_result float i self w r)) [
      | inl e ↦ ground (arith, e)
      | inr (q, e) ↦
          (let (rule, _, e1) = >>=-eq-some r.business_rule _ e in
            let (state, found, e2) = >>=-eq-some (get_state float hard rule) _ e1 in
            let (output, _, e3) = >>=-eq-some (i.output_of self w rule) _ e2 in
            let bound = get_state-le float hard 3 (ground arith) h rule state found in
            ground (arith, e, e3, bound))
    ]

-- what the answer of an internal check is to be
abbrev IsAnswer : World → (ℕ × String) × World × Rules → Type 0
IsAnswer w q = (q.0.0 ≤ 3) × Answers w q.1

manage_rule-IsAnswer :
    (float : Percent) (i : Internals) (self : ℕ) (w : World) (rules : Rules)
    → HasNumbers w
    → IsAnswer w (manage_rule float i self w rules)
unfolding manage_rule
manage_rule-IsAnswer float i self w rules h =
    let w' = mark_business_rule i self w in
    let p = marked i self w in
    elim (Option-cases (create_business_rules i self w' (rules self))) [
      | inl e ↦ rw (e, manage_rule) (ground arith, p)
      | inr (r, e) ↦ rw (e, manage_rule) (rule_result-le float i self w' r (numbers-Answers p h), p)
    ]

-- business rules, and hosts that are assumed to be up
abbrev pub IsAnswerable : Internals → ℕ → Type 0
IsAnswerable i c = (i.command_of c ≡ bp_command) ⊎ (i.command_of c ≡ internal_host_up)

internal_result-IsAnswer :
    (float : Percent) (i : Internals) (w : World) (rules : Rules) (c : ℕ)
    → HasNumbers w
    → IsAnswerable i c
    → (q : (ℕ × String) × World × Rules) × (internal_result float i w rules c ≡ some q)
      × IsAnswer w q
unfolding internal_result
internal_result-IsAnswer float i w rules c h (inl e) = (
  manage_rule float i (w.checks c).ref w rules,
  ground (arith, e),
  manage_rule-IsAnswer float i (w.checks c).ref w rules h,
)
internal_result-IsAnswer float i w rules c h (inr e) =
    (((0, "Host assumed to be UP"), w, rules), ground (arith, e), (ground arith, Answers-refl w))

answered :
    (now : ℕ) (r : ℕ × String) (w : World) (c : ℕ)
    → r.0 ≤ 3
    → Answers w (set_check c (answer now r) w)
unfolding answer
answered now r w c h = record {
  rest = refl;
  items = λ j. inl refl;
  checks = λ d. elim (Bool-cases (d == c)) [
    | inl e ↦ inr (ground (arith, e), ground (arith, e, h))
    | inr e ↦ inl (ground (arith, e))
  ];
}

-- an answer is not due
stays_done :
    {w w' : World}
    → Answers w w'
    → (d : ℕ) → is_due_internal w (w.checks d) ≡ false
    → is_due_internal w' (w'.checks d) ≡ false
unfolding is_due_internal
stays_done p d h = ground (arith, h, now-Answers p, p.checks d)

answered-done :
    (now : ℕ) (r : ℕ × String) (w : World) (c : ℕ)
    → let w' = set_check c (answer now r) w in is_due_internal w' (w'.checks c) ≡ false
unfolding answer is_due_internal
answered-done now r w c = ground arith

manage_one-Answers :
    (float : Percent) (i : Internals) (c : ℕ) (w : World) (rules : Rules)
    → HasNumbers w
    → IsAnswerable i c
    → (w' : World) × (rules' : Rules) × (manage_one float i c (w, rules) ≡ some (w', rules'))
      × Answers w w'
      × (is_due_internal w' (w'.checks c) ≡ false)
unfolding manage_one
manage_one-Answers float i c w rules h a = elim (Bool-cases (is_due_internal w (w.checks c))) [
  | inr e ↦ (w, rules, ground (arith, e), Answers-refl w, e)
  | inl e ↦
      (let (q, found, (bound, p)) = internal_result-IsAnswer float i w rules c h a in
        (
          set_check c (answer w.now q.0) q.1,
          q.2,
          ground (arith, e, found),
          Answers-trans p (answered w.now q.0 q.1 c bound),
          answered-done w.now q.0 q.1 c,
        ))
]

manage_each-Answers :
    (float : Percent) (i : Internals) (cs : List ℕ) (w : World) (rules : Rules)
    → HasNumbers w
    → All (IsAnswerable i) cs
    → (w' : World) × (rules' : Rules) × (manage_each float i cs (w, rules) ≡ some (w', rules'))
      × Answers w w'
      × All (λ c. is_due_internal w' (w'.checks c) ≡ false) cs
unfolding manage_each
manage_each-Answers float i [] w rules h a = (w, rules, refl, Answers-refl w, tt)
manage_each-Answers float i (c ∷ cs) w rules h (a, more) =
    let (w1, rules1, found, p, done) = manage_one-Answers float i c w rules h a in
    let (w2, rules2, found2, q, rest) =
      manage_each-Answers float i cs w1 rules1 (numbers-Answers p h) more in
    (
      w2,
      rules2,
      ap (λ o. o >>= manage_each float i cs) found ∙ found2,
      Answers-trans p q,
      (stays_done q c done, rest),
    )

-- Where the known internal checks are of business rules or of hosts assumed to be up, and the last
-- hard states are numbers of states, the scheduler answers all that are due, without an
-- exception: none of them is scheduled and due any more. Beside the rules of the items only checks
-- change, and the marks of items as ones of a business rule; a check that changes waits to be
-- consumed with an exit status of at most 3.
pub manage_internal_checks-Answers :
    (float : Percent) (i : Internals) (s : Scheduler) (rules : Rules)
    → ((j : ℕ) → (s.world.items j).last_hard_state_id ≤ 3)
    → All (IsAnswerable i) s.checks
    → (w' : World) × (rules' : Rules) × (manage_internal_checks float i s rules
        ≡ some (record s { world = w' }, rules'))
      × Answers s.world w'
      × All (λ c. is_due_internal w' (w'.checks c) ≡ false) s.checks
unfolding manage_internal_checks HasNumbers
manage_internal_checks-Answers float i s rules h a =
    let (w', rules', found, p, done) = manage_each-Answers float i s.checks s.world rules h a in
    (w', rules', ap (map_some (λ v. (record s { world = v.0 }, v.1))) found, p, done)
