-- ===== src/Graph/Sound/Children.antt =====
-- The loop over the sons ends, and so does the search: its fuel is the number of nodes that are
-- not looked at yet.
use shinken_gpt.Prelude.{
  ℕ, ◌<◌, ◌≡◌, refl, true, false, Option, some, List, [], ◌∷◌, inl, inr, ◌==◌, contains, arith,
  Bool-cases, ==_iff, sym, ap, subst,
}
use shinken_gpt.Graph.{Graph, Edge, is_known}
use shinken_gpt.Graph.Closed.{IsClosed}
use shinken_gpt.Graph.Paths.{IsGrounded}
use shinken_gpt.Graph.Fuel.{Fewer, count_unchecked, count_unchecked-le}
use shinken_gpt.Graph.Search.{
  LoopStatus, temporary_checked, Tags, tag, is_unchecked, settle_root, judge_child, check_child,
  check_children,
}
use shinken_gpt.Graph.Sound.{kept, is_open, is_settled, IsGood, IsScanned, same_tag, still_near}
use shinken_gpt.Graph.Sound.Judged.{
  IsScanned-twice, IsSearched, IsSearched-IsScanned, first_or_rest, judge-IsScanned, kept-Fewer,
  kept-open, kept_refl, kept→kept_root,
}

IsScanned-Fewer :
    (g : Graph) (root : ℕ) {P : ℕ → Type 0} (t t' : Tags)
    → is_open (t root) ≡ true
    → IsScanned g root P t t'
    → Fewer t t'
IsScanned-Fewer g root t t' o s x u = elim (Bool-cases (x == root)) [
  | inl e ↦
      let same : x ≡ root = (==_iff x root).0 e in
      ground (arith, ap (λ y. t y) same, ap (λ y. t' y) same, s.keeps_root)
  | inr n ↦ kept-Fewer (t x) (t' x) (s.keeps x n) u
]

-- The search below each known node that is not looked at yet ends, with fuel for the nodes left.
abbrev pub Runs : ℕ → Graph → (ℕ → Tags → Option Tags) → Type 0
Runs fuel g search =
    (c : ℕ) (t : Tags)
    → is_known c g ≡ true
    → is_unchecked (t c) ≡ true
    → IsGood g t
    → count_unchecked t g < fuel
    → (t' : Tags) × (search c t ≡ some t') × IsSearched g c t t'

pub settled→looked_at : (s : LoopStatus) → is_settled s ≡ true → is_unchecked s ≡ false
settled→looked_at s h = ground arith

check_child-searched :
    (search : ℕ → Tags → Option Tags) (root c : ℕ) (t t1 : Tags)
    → is_unchecked (t c) ≡ true
    → search c t ≡ some t1
    → check_child search root c t ≡ some (judge_child root c (t1 c) t1)
unfolding check_child
check_child-searched search root c t t1 u e = ground arith

check_child-known :
    (search : ℕ → Tags → Option Tags) (root c : ℕ) (t : Tags)
    → is_unchecked (t c) ≡ false
    → check_child search root c t ≡ some (judge_child root c (t c) t)
unfolding check_child
check_child-known search root c t u = ground arith

module _ (fuel : ℕ) (g : Graph) (closed : IsClosed g) (search : ℕ → Tags → Option Tags)
    (runs : Runs fuel g search) (root : ℕ) where
  check_child-IsScanned :
      (c : ℕ) (t : Tags)
      → Edge g root c
      → IsGood g t
      → is_open (t root) ≡ true
      → count_unchecked t g < fuel
      → (t' : Tags) × (check_child search root c t ≡ some t') × IsScanned g root (λ x. x ≡ c) t t'
  check_child-IsScanned c t edge good o few = elim (Bool-cases (is_unchecked (t c))) [
    | inl u ↦
        let (t1, e, s) = runs c t (closed root c edge) u good few in
        let p = IsSearched-IsScanned g root c t t1 s in
        (
          judge_child root c (t1 c) t1,
          check_child-searched search root c t t1 u e,
          IsScanned-twice g root (λ x. ⊥) (λ x. x ≡ c) (λ x. x ≡ c) t t1
              (judge_child root c (t1 c) t1) o (λ x h. inr h) p
              (judge-IsScanned g root c edge t1 s.good (kept-open (t root) (t1 root) o p.keeps_root)
                (t1 c) refl (settled→looked_at (t1 c) s.settled)),
        )
    | inr l ↦ (
      judge_child root c (t c) t,
      check_child-known search root c t l,
      judge-IsScanned g root c edge t good o (t c) refl l,
    )
  ]

  pub check_children-IsScanned :
      (cs : List ℕ) (t : Tags)
      → ((c : ℕ) → contains c cs ≡ true → Edge g root c)
      → IsGood g t
      → is_open (t root) ≡ true
      → count_unchecked t g < fuel
      → (t' : Tags) × (check_children search root cs t ≡ some t')
        × IsScanned g root (λ x. contains x cs ≡ true) t t'
  unfolding check_children
  check_children-IsScanned [] t edges good o few = (
    t,
    refl,
    record {
      keeps = λ x n. kept_refl (t x);
      keeps_root = kept→kept_root (t root) (t root) (kept_refl (t root));
      good = good;
      grounded = λ c h. cc;
    },
  )
  check_children-IsScanned (c ∷ cs) t edges good o few =
      let (t1, e, s) =
        check_child-IsScanned c t (edges c (ground (arith, ==_iff c c))) good o few in
      let (t2, e2, s2) =
        check_children-IsScanned cs t1 (λ d h. edges d (ground arith)) s.good
          (kept-open (t root) (t1 root) o s.keeps_root)
          (omega (arith, count_unchecked-le t t1 g (IsScanned-Fewer g root t t1 o s))) in
      (
        t2,
        rw e e2,
        IsScanned-twice g root (λ x. x ≡ c) (λ x. contains x cs ≡ true)
            (λ x. contains x (c ∷ cs) ≡ true) t t1 t2 o (λ x h. first_or_rest c x cs h) s s2,
      )

-- The root before the loop over its sons, and after it.
pub root_opened :
    (g : Graph) (root : ℕ) (t : Tags)
    → is_unchecked (t root) ≡ true
    → IsGood g t
    → IsGood g (tag root temporary_checked t)
root_opened g root t u good = record {
  grounded = λ x h. good.grounded x (ground arith);
  near = λ x h.
      still_near g t (tag root temporary_checked t) good (λ y i. ground (arith, same_tag y root t))
        x (ground arith);
}

pub root_settled :
    (g : Graph) (root : ℕ) (t : Tags)
    → is_open (t root) ≡ true
    → IsGood g t
    → (t root ≡ temporary_checked → IsGrounded g root)
    → IsGood g (tag root (settle_root (t root)) t)
root_settled g root t o good below = record {
  grounded = λ x h. elim (Bool-cases (x == root)) [
    | inl e ↦
        let same : root ≡ x = sym ((==_iff x root).0 e) in
        subst (λ y. IsGrounded g y) same (below (ground arith))
    | inr n ↦ good.grounded x (ground arith)
  ];
  near = λ x h.
      still_near g t (tag root (settle_root (t root)) t) good
        (λ y i. ground (arith, same_tag y root t)) x (ground (arith, same_tag x root t));
}

pub settled_root :
    (root : ℕ) (t : Tags)
    → is_open (t root) ≡ true
    → is_settled (tag root (settle_root (t root)) t root) ≡ true
settled_root root t o = ground (arith, ==_iff root root)

pub searched_keeps :
    (g : Graph) (root x : ℕ) (t t' : Tags)
    → is_unchecked (t root) ≡ true
    → ((x == root) ≡ false → kept (tag root temporary_checked t x) (t' x) ≡ true)
    → kept (t x) (tag root (settle_root (t' root)) t' x) ≡ true
searched_keeps g root x t t' u h = ground (arith, same_tag x root t, h)

pub kept-temporary :
    (a b : LoopStatus) → kept a b ≡ true → b ≡ temporary_checked → a ≡ temporary_checked
kept-temporary a b h e = ground arith
