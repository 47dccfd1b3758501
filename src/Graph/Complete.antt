-- ===== src/Graph/Complete.antt =====
-- Where there is no loop the search tags no node as near one or inside one, and reports nothing.
use shinken_gpt.Prelude.{
  ℕ, zero, suc, ◌≡◌, ◌⊎◌, ◌↔◌, refl, true, some, List, [], ◌∷◌, inl, inr, ◌==◌, contains, arith,
  Bool-cases, ==_iff, sym, subst, length, ◌∙◌, >>=-eq-some,
}
use shinken_gpt.Graph.{Graph, sons_of, is_known}
use shinken_gpt.Graph.Closed.{IsClosed}
use shinken_gpt.Graph.Paths.{Walk, one, further, HasLoop, IsGrounded-no_walk}
use shinken_gpt.Graph.Fuel.{count_unchecked-le_length}
use shinken_gpt.Graph.Search.{
  unchecked, temporary_checked, Tags, tag, is_unchecked, settle_root, check_children,
  dfs_loop_search, visit, check_nodes, loop_check, keys,
}
use shinken_gpt.Graph.Loops.{NoneOpen, check_nodes-IsReported}
use shinken_gpt.Graph.Clean.{Clears, IsClean, NoneOpened, check_children-IsClean}

opened-IsClean : (root : ℕ) (t : Tags) → IsClean t → IsClean (tag root temporary_checked t)
opened-IsClean root t clean x = ground (arith, clean x)

opened_root :
    (root x : ℕ) (t : Tags)
    → tag root temporary_checked t x ≡ temporary_checked
    → (x ≡ root) ⊎ (t x ≡ temporary_checked)
opened_root root x t h = elim (Bool-cases (x == root)) [
  | inl e ↦ inl ((==_iff x root).0 e)
  | inr n ↦ inr (ground arith)
]

settled-IsClean : (root : ℕ) (t : Tags) → IsClean t → IsClean (tag root (settle_root (t root)) t)
settled-IsClean root t clean x = ground (arith, clean x, clean root)

settled_opened :
    (root x : ℕ) (t t1 : Tags)
    → tag root (settle_root (t1 root)) t1 x ≡ temporary_checked
    → (t1 x ≡ temporary_checked → tag root temporary_checked t x ≡ temporary_checked)
    → t x ≡ temporary_checked
settled_opened root x t t1 h old = ground (arith, old)

pub dfs_loop_search-Clears :
    (fuel : ℕ) (g : Graph) → ¬ HasLoop g → Clears g (dfs_loop_search fuel g)
unfolding dfs_loop_search
dfs_loop_search-Clears zero g no_loop root t t' clean above h = cc
dfs_loop_search-Clears (suc fuel) g no_loop root t t' clean above h =
    let (cs, e, h1) = >>=-eq-some (sons_of root g) _ h in
    let (t1, e1, h2) =
      >>=-eq-some (check_children (dfs_loop_search fuel g) root cs (tag root temporary_checked t)) _
        h1 in
    let (clean1, old) =
      check_children-IsClean g no_loop (dfs_loop_search fuel g)
        (dfs_loop_search-Clears fuel g no_loop) root cs (tag root temporary_checked t) t1
        (λ c m. ground (arith, e, m)) (opened-IsClean root t clean)
        (λ x k. elim (opened_root root x t k) [
          | inl same ↦ inl same
          | inr before ↦ inr (above x before)
        ])
        e1 in
    let same : tag root (settle_root (t1 root)) t1 ≡ t' = cc in
    subst (λ u. IsClean u × NoneOpened t u) same
      (settled-IsClean root t1 clean1, λ x k. settled_opened root x t t1 k (old x))

visit-IsClean :
    (fuel : ℕ) (g : Graph) (n : ℕ) (t t' : Tags)
    → ¬ HasLoop g
    → IsClean t
    → NoneOpen t
    → visit fuel g n t ≡ some t'
    → IsClean t' × NoneOpen t'
visit-IsClean fuel g n t t' no_loop clean none_open h = elim (Bool-cases (is_unchecked (t n))) [
  | inl u ↦
      let (clean1, old) =
        dfs_loop_search-Clears fuel g no_loop n t t' clean (λ x k. absurd (none_open x k))
          (ground (arith, u, h)) in
      (clean1, λ x k. none_open x (old x k))
  | inr l ↦
      let same : t ≡ t' = ground (arith, l, h) in
      subst (λ u. IsClean u × NoneOpen u) same (clean, none_open)
]

check_nodes-clean :
    (fuel : ℕ) (g : Graph)
    → ¬ HasLoop g
    → (ns : List ℕ) (t : Tags) (r : List ℕ) → IsClean t
    → NoneOpen t
    → check_nodes fuel g ns t ≡ some r
    → r ≡ []
unfolding check_nodes
check_nodes-clean fuel g no_loop [] t r clean none_open h = cc
check_nodes-clean fuel g no_loop (n ∷ ns) t r clean none_open h =
    let (t1, e, h1) = >>=-eq-some (visit fuel g n t) _ h in
    let (in_loop, e2, h2) = >>=-eq-some (check_nodes fuel g ns t1) _ h1 in
    let (clean1, none_open1) = visit-IsClean fuel g n t t1 no_loop clean none_open e in
    let rest : in_loop ≡ [] = check_nodes-clean fuel g no_loop ns t1 in_loop clean1 none_open1 e2 in
    ground (arith, rest, clean1 n, h2)

contains-keys : (n : ℕ) (g : Graph) → contains n (keys g) ≡ is_known n g
unfolding sons_of
contains-keys n [] = refl
contains-keys n ((k, cs) ∷ g) = ground (arith, contains-keys n g)

Walk-known : (g : Graph) {a b : ℕ} → Walk g a b → is_known a g ≡ true
Walk-known g (one e) = ground arith
Walk-known g (further w e) = Walk-known g w

-- On a graph that knows the sons of its nodes `loop_check` ends, and it returns no node exactly
-- when no walk along the edges leads from a node back to itself.
pub loop_check-exact :
    (g : Graph) → IsClosed g → (r : List ℕ) × (loop_check g ≡ some r) × ((r ≡ []) ↔ (¬ HasLoop g))
unfolding loop_check
loop_check-exact g closed =
    let start : Tags = λ n. unchecked in
    let (r, e, s) =
      check_nodes-IsReported (suc (length g)) g closed (keys g) start
        (λ c m. sym (contains-keys c g) ∙ m) (record { grounded = λ x h. cc; near = λ x h. cc })
        (λ x h. cc) (omega (arith, count_unchecked-le_length start g)) in
    (
      r,
      e,
      (
        λ empty (a, w).
            IsGrounded-no_walk g a
              (s.grounded empty (λ c k. inl (contains-keys c g ∙ k)) a
                (contains-keys a g ∙ Walk-known g w))
              w,
        λ no_loop.
            check_nodes-clean (suc (length g)) g no_loop (keys g) start r (λ x. refl) (λ x h. cc) e,
      ),
    )
