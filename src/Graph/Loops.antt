-- ===== src/Graph/Loops.antt =====
-- The report of `loop_check`: it is empty only for a graph without a loop.
use shinken_gpt.Prelude.{
  ℕ, ◌<◌, ◌≡◌, ◌≢◌, ◌⊎◌, refl, true, false, some, List, [], ◌∷◌, inl, inr, if◌then◌else◌, contains,
  arith, Bool-cases, ==_iff, sym, ap, ◌∙◌,
}
use shinken_gpt.Graph.{Graph, is_known}
use shinken_gpt.Graph.Closed.{IsClosed}
use shinken_gpt.Graph.Paths.{IsGrounded}
use shinken_gpt.Graph.Fuel.{Fewer, count_unchecked, count_unchecked-le}
use shinken_gpt.Graph.Search.{
  LoopStatus, unchecked, temporary_checked, dfs_ok, near_loop, loop_inside, Tags, is_unchecked,
  is_inside, dfs_loop_search, visit, check_nodes,
}
use shinken_gpt.Graph.Sound.{kept, is_settled, IsGood}
use shinken_gpt.Graph.Sound.Judged.{kept-Fewer, kept_refl, first_or_rest}
use shinken_gpt.Graph.Sound.Children.{kept-temporary}
use shinken_gpt.Graph.Sound.Nodes.{dfs_loop_search-Runs}

-- Outside a search no node is temporarily checked.
abbrev pub NoneOpen : Tags → Type 0
NoneOpen t = (x : ℕ) → t x ≢ temporary_checked

record IsVisited (g : Graph) (n : ℕ) (t t' : Tags) : Type 0 where
  keeps : (x : ℕ) → kept (t x) (t' x) ≡ true
  good : IsGood g t'
  settled : is_settled (t' n) ≡ true

known_settled :
    (s : LoopStatus) → is_unchecked s ≡ false → s ≢ temporary_checked → is_settled s ≡ true
known_settled s u n = ground (arith, n)

visit-searched :
    (fuel : ℕ) (g : Graph) (n : ℕ) (t t1 : Tags)
    → is_unchecked (t n) ≡ true
    → dfs_loop_search fuel g n t ≡ some t1
    → visit fuel g n t ≡ some t1
visit-searched fuel g n t t1 u e = ground arith

visit-known :
    (fuel : ℕ) (g : Graph) (n : ℕ) (t : Tags)
    → is_unchecked (t n) ≡ false
    → visit fuel g n t ≡ some t
visit-known fuel g n t u = ground arith

visit-IsVisited :
    (fuel : ℕ) (g : Graph) (n : ℕ) (t : Tags)
    → IsClosed g
    → is_known n g ≡ true
    → IsGood g t
    → NoneOpen t
    → count_unchecked t g < fuel
    → (t' : Tags) × (visit fuel g n t ≡ some t') × IsVisited g n t t'
visit-IsVisited fuel g n t closed k good none_open few = elim (Bool-cases (is_unchecked (t n))) [
  | inl u ↦
      let (t1, e, s) = dfs_loop_search-Runs fuel g closed n t k u good few in
      (
        t1,
        visit-searched fuel g n t t1 u e,
        record { keeps = s.keeps; good = s.good; settled = s.settled },
      )
  | inr l ↦ (
    t,
    visit-known fuel g n t l,
    record {
      keeps = λ x. kept_refl (t x);
      good = good;
      settled = known_settled (t n) l (none_open n);
    },
  )
]

-- What a list of nodes that are reported says of the nodes that were gone through.
pub record IsReported (g : Graph) (ns : List ℕ) (t : Tags) (r : List ℕ) : Type 0 where
  pub reports : (c : ℕ) → contains c ns ≡ true → t c ≡ loop_inside → contains c r ≡ true
  pub grounded :
      r ≡ []
      → ((c : ℕ) → is_known c g ≡ true → (contains c ns ≡ true) ⊎ (t c ≡ dfs_ok))
      → (c : ℕ) → contains c ns ≡ true
      → IsGrounded g c

abbrev report : LoopStatus → ℕ → List ℕ → List ℕ
report s n in_loop = if is_inside s then n ∷ in_loop else in_loop

report-empty :
    (s : LoopStatus) (n : ℕ) (r : List ℕ) → report s n r ≡ [] → (is_inside s ≡ false) × (r ≡ [])
report-empty s n r h = ground arith

report-reports :
    (s : LoopStatus) (n c : ℕ) (r : List ℕ) → contains c r ≡ true → contains c (report s n r) ≡ true
report-reports s n c r h = ground arith

kept-inside : (a b : LoopStatus) → kept a b ≡ true → a ≡ loop_inside → b ≡ loop_inside
kept-inside a b h e = ground arith

kept-ok : (a b : LoopStatus) → kept a b ≡ true → a ≡ dfs_ok → b ≡ dfs_ok
kept-ok a b h e = ground arith

settled-cases :
    (s : LoopStatus) → is_settled s ≡ true → is_inside s ≡ false → (s ≡ dfs_ok) ⊎ (s ≡ near_loop)
settled-cases dfs_ok h i = inl refl
settled-cases near_loop h i = inr refl
settled-cases unchecked h i = cc
settled-cases temporary_checked h i = cc
settled-cases loop_inside h i = cc

module _ (g : Graph) (closed : IsClosed g) (n : ℕ) (ns : List ℕ) (t t1 : Tags) (r : List ℕ)
    (v : IsVisited g n t t1) (s : IsReported g ns t1 r) where
  reported_first :
      (c : ℕ)
      → contains c (n ∷ ns) ≡ true
      → t c ≡ loop_inside
      → contains c (report (t1 n) n r) ≡ true
  reported_first c m i = elim (first_or_rest n c ns m) [
    | inl e ↦
        let i' : t1 n ≡ loop_inside = ap t1 (sym e) ∙ kept-inside (t c) (t1 c) (v.keeps c) i in
        ground (arith, i', ==_iff n c, e)
    | inr m' ↦ report-reports (t1 n) n c r (s.reports c m' (kept-inside (t c) (t1 c) (v.keeps c) i))
  ]

  module _ (empty : report (t1 n) n r ≡ [])
      (rest : (c : ℕ) → is_known c g ≡ true → (contains c (n ∷ ns) ≡ true) ⊎ (t c ≡ dfs_ok)) where
    not_near : t1 n ≢ near_loop
    not_near near =
        let (c, e, i) = v.good.near n near in
        let r_empty : r ≡ [] = (report-empty (t1 n) n r empty).1 in
        elim (rest c (closed n c e)) [
          | inr ok ↦ absurd (ground (arith, kept-ok (t c) (t1 c) (v.keeps c) ok, i))
          | inl m ↦ elim (first_or_rest n c ns m) [
            | inl same ↦ absurd (ground (arith, ap t1 same, near, i))
            | inr m' ↦ absurd (ground (arith, s.reports c m' i, r_empty, ap (contains c) r_empty))
          ]
        ]

    first_ok : t1 n ≡ dfs_ok
    first_ok = elim (settled-cases (t1 n) v.settled (report-empty (t1 n) n r empty).0) [
      | inl ok ↦ ok
      | inr near ↦ absurd (not_near near)
    ]

    rest_after : (c : ℕ) → is_known c g ≡ true → (contains c ns ≡ true) ⊎ (t1 c ≡ dfs_ok)
    rest_after c k = elim (rest c k) [
      | inr ok ↦ inr (kept-ok (t c) (t1 c) (v.keeps c) ok)
      | inl m ↦ elim (first_or_rest n c ns m) [
        | inl same ↦ inr (ap t1 same ∙ first_ok)
        | inr m' ↦ inl m'
      ]
    ]

    IsGrounded-all : (c : ℕ) → contains c (n ∷ ns) ≡ true → IsGrounded g c
    IsGrounded-all c m = elim (first_or_rest n c ns m) [
      | inl same ↦ v.good.grounded c (ap t1 same ∙ first_ok)
      | inr m' ↦ s.grounded (report-empty (t1 n) n r empty).1 rest_after c m'
    ]

check_nodes-cons :
    (fuel : ℕ) (g : Graph) (n : ℕ) (ns : List ℕ) (t t1 : Tags) (r : List ℕ)
    → visit fuel g n t ≡ some t1
    → check_nodes fuel g ns t1 ≡ some r
    → check_nodes fuel g (n ∷ ns) t ≡ some (report (t1 n) n r)
unfolding check_nodes
check_nodes-cons fuel g n ns t t1 r e h = rw e (rw h refl)

pub check_nodes-IsReported :
    (fuel : ℕ) (g : Graph)
    → IsClosed g
    → (ns : List ℕ) (t : Tags) → ((c : ℕ) → contains c ns ≡ true → is_known c g ≡ true)
    → IsGood g t
    → NoneOpen t
    → count_unchecked t g < fuel
    → (r : List ℕ) × (check_nodes fuel g ns t ≡ some r) × IsReported g ns t r
unfolding check_nodes
check_nodes-IsReported fuel g closed [] t known good none_open few =
    ([], refl, record { reports = λ c m i. m; grounded = λ e rest c m. cc })
check_nodes-IsReported fuel g closed (n ∷ ns) t known good none_open few =
    let (t1, e, v) =
      visit-IsVisited fuel g n t closed (known n (ground (arith, ==_iff n n))) good none_open few in
    let fewer : Fewer t t1 = λ x. kept-Fewer (t x) (t1 x) (v.keeps x) in
    let (r, e', s) =
      check_nodes-IsReported fuel g closed ns t1 (λ c m. known c (ground arith)) v.good
        (λ x h. none_open x (kept-temporary (t x) (t1 x) (v.keeps x) h))
        (omega (arith, count_unchecked-le t t1 g fewer)) in
    (
      report (t1 n) n r,
      check_nodes-cons fuel g n ns t t1 r e e',
      record {
        reports = reported_first g closed n ns t t1 r v s;
        grounded = IsGrounded-all g closed n ns t t1 r v s;
      },
    )
