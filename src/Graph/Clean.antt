-- ===== src/Graph/Clean.antt =====
-- The loop over the sons where there is no loop: it tags no node as near one or inside one.
use shinken_gpt.Prelude.{
  ℕ, ◌≡◌, ◌≢◌, ◌⊎◌, refl, true, false, Option, some, List, [], ◌∷◌, inl, inr, contains, arith,
  Bool-cases, Option-cases, ==_iff, sym, subst, ◌∙◌, >>=-eq-some,
}
use shinken_gpt.Graph.{Graph, Edge}
use shinken_gpt.Graph.Paths.{Walk, one, further, HasLoop}
use shinken_gpt.Graph.Search.{
  LoopStatus, unchecked, temporary_checked, dfs_ok, near_loop, loop_inside, Tags, is_unchecked,
  judge_child, check_child, check_children,
}
use shinken_gpt.Graph.Sound.{is_troubled}

-- No tag tells of a loop.
abbrev pub IsClean : Tags → Type 0
IsClean t = (x : ℕ) → is_troubled (t x) ≡ false

-- A node that is temporarily checked now was so before.
abbrev pub NoneOpened : Tags → Tags → Type 0
NoneOpened t t' = (x : ℕ) → t' x ≡ temporary_checked → t x ≡ temporary_checked

-- The search below a node, when the nodes that are temporarily checked are above that node.
abbrev pub Clears : Graph → (ℕ → Tags → Option Tags) → Type 0
Clears g search =
    (c : ℕ) (t t' : Tags)
    → IsClean t
    → ((x : ℕ) → t x ≡ temporary_checked → Walk g x c)
    → search c t ≡ some t'
    → IsClean t' × NoneOpened t t'

judge_child-clean :
    (root c : ℕ) (s : LoopStatus) (t : Tags)
    → is_troubled s ≡ false
    → s ≢ temporary_checked
    → judge_child root c s t ≡ t
unfolding judge_child
judge_child-clean root c unchecked t h n = refl
judge_child-clean root c temporary_checked t h n = absurd (n refl)
judge_child-clean root c dfs_ok t h n = refl
judge_child-clean root c near_loop t h n = cc
judge_child-clean root c loop_inside t h n = cc

check_child-first :
    (search : ℕ → Tags → Option Tags) (root c : ℕ) (t t' : Tags)
    → is_unchecked (t c) ≡ true
    → check_child search root c t ≡ some t'
    → (t1 : Tags) × (search c t ≡ some t1) × (judge_child root c (t1 c) t1 ≡ t')
unfolding check_child
check_child-first search root c t t' u h = elim (Option-cases (search c t)) [
  | inl e ↦ absurd (ground arith)
  | inr (t1, e) ↦ (t1, e, ground arith)
]

check_child-later :
    (search : ℕ → Tags → Option Tags) (root c : ℕ) (t t' : Tags)
    → is_unchecked (t c) ≡ false
    → check_child search root c t ≡ some t'
    → judge_child root c (t c) t ≡ t'
unfolding check_child
check_child-later search root c t t' u h = ground arith

module _ (g : Graph) (no_loop : ¬ HasLoop g) (search : ℕ → Tags → Option Tags)
    (clears : Clears g search) (root : ℕ) where
  -- The nodes that are temporarily checked while the sons of the root are looked at.
  abbrev Above : Tags → Type 0
  Above t = (x : ℕ) → t x ≡ temporary_checked → (x ≡ root) ⊎ Walk g x root

  above-Walk : (c x : ℕ) → Edge g root c → (x ≡ root) ⊎ Walk g x root → Walk g x c
  above-Walk c x e (inl same) = subst (λ y. Walk g y c) (sym same) (one e)
  above-Walk c x e (inr w) = further w e

  son_not_open : (c : ℕ) (t : Tags) → Edge g root c → Above t → t c ≢ temporary_checked
  son_not_open c t e above h = no_loop (c, above-Walk c c e (above c h))

  check_child-IsClean :
      (c : ℕ) (t t' : Tags)
      → Edge g root c
      → IsClean t
      → Above t
      → check_child search root c t ≡ some t'
      → IsClean t' × NoneOpened t t'
  check_child-IsClean c t t' edge clean above h = elim (Bool-cases (is_unchecked (t c))) [
    | inl u ↦
        let (t1, e, e') = check_child-first search root c t t' u h in
        let (clean1, old) = clears c t t1 clean (λ x k. above-Walk c x edge (above x k)) e in
        let same : judge_child root c (t1 c) t1 ≡ t1 =
          judge_child-clean root c (t1 c) t1 (clean1 c)
            (λ k. son_not_open c t edge above (old c k)) in
        subst (λ u. IsClean u × NoneOpened t u) (sym same ∙ e') (clean1, old)
    | inr l ↦
        let same : judge_child root c (t c) t ≡ t =
          judge_child-clean root c (t c) t (clean c) (son_not_open c t edge above) in
        subst (λ u. IsClean u × NoneOpened t u)
          (sym same ∙ check_child-later search root c t t' l h) (clean, λ x k. k)
  ]

  pub check_children-IsClean :
      (cs : List ℕ) (t t' : Tags)
      → ((c : ℕ) → contains c cs ≡ true → Edge g root c)
      → IsClean t
      → Above t
      → check_children search root cs t ≡ some t'
      → IsClean t' × NoneOpened t t'
  unfolding check_children
  check_children-IsClean [] t t' edges clean above h =
      let same : t ≡ t' = cc in subst (λ u. IsClean u × NoneOpened t u) same (clean, λ x k. k)
  check_children-IsClean (c ∷ cs) t t' edges clean above h =
      let (t1, e, e') =
        >>=-eq-some (check_child search root c t) (λ u. check_children search root cs u) h in
      let (clean1, old1) =
        check_child-IsClean c t t1 (edges c (ground (arith, ==_iff c c))) clean above e in
      let (clean2, old2) =
        check_children-IsClean cs t1 t' (λ d m. edges d (ground arith)) clean1
          (λ x k. above x (old1 x k)) e' in
      (clean2, λ x k. old1 x (old2 x k))
