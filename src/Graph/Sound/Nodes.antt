-- ===== src/Graph/Sound/Nodes.antt =====
-- The search below a node ends, and the loop over the nodes that starts it: what it reports.
use mathlib.Core.WellFounded.{Acc}
use shinken_gpt.Prelude.{
  ℕ, zero, suc, ◌<◌, ◌≡◌, refl, true, some, List, inl, inr, contains, arith, Option-cases, ==_iff,
  sym, ◌∙◌,
}
use shinken_gpt.Graph.{Graph, has_edge, sons_of, is_known}
use shinken_gpt.Graph.Closed.{IsClosed}
use shinken_gpt.Graph.Fuel.{Fewer, count_unchecked, count_unchecked-lt}
use shinken_gpt.Graph.Search.{
  temporary_checked, Tags, tag, settle_root, check_children, dfs_loop_search,
}
use shinken_gpt.Graph.Sound.{is_open, same_tag}
use shinken_gpt.Graph.Sound.Judged.{kept-open}
use shinken_gpt.Graph.Sound.Children.{
  Runs, check_children-IsScanned, root_opened, root_settled, settled_root, searched_keeps,
}

known-sons : (n : ℕ) (g : Graph) → is_known n g ≡ true → (cs : List ℕ) × (sons_of n g ≡ some cs)
known-sons n g k = elim (Option-cases (sons_of n g)) [
  | inl e ↦ absurd (ground arith)
  | inr (cs, e) ↦ (cs, e)
]

sons-Edge :
    (n c : ℕ) (g : Graph) (cs : List ℕ) → sons_of n g ≡ some cs → has_edge n c g ≡ contains c cs
sons-Edge n c g cs e = ground arith

dfs_loop_search-sons :
    (fuel root : ℕ) (g : Graph) (t t' : Tags) (cs : List ℕ)
    → sons_of root g ≡ some cs
    → check_children (dfs_loop_search fuel g) root cs (tag root temporary_checked t) ≡ some t'
    → dfs_loop_search (suc fuel) g root t ≡ some (tag root (settle_root (t' root)) t')
unfolding dfs_loop_search
dfs_loop_search-sons fuel root g t t' cs e h = rw e (rw h refl)

pub dfs_loop_search-Runs :
    (fuel : ℕ) (g : Graph) → IsClosed g → Runs fuel g (dfs_loop_search fuel g)
dfs_loop_search-Runs zero g closed root t k u good few = absurd (omega arith)
dfs_loop_search-Runs (suc fuel) g closed root t k u good few =
    let (cs, e) = known-sons root g k in
    let t0 : Tags = tag root temporary_checked t in
    let opened : is_open (t0 root) ≡ true = ground (arith, ==_iff root root) in
    let fewer : Fewer t t0 = λ x h. ground (arith, same_tag x root t) in
    let less : count_unchecked t0 g < count_unchecked t g =
      count_unchecked-lt t t0 root g fewer k u (ground (arith, ==_iff root root)) in
    let (t1, e1, s) =
      check_children-IsScanned fuel g closed (dfs_loop_search fuel g)
        (dfs_loop_search-Runs fuel g closed) root cs t0 (λ c h. sons-Edge root c g cs e ∙ h)
        (root_opened g root t u good) opened (omega arith) in
    let open1 = kept-open (t0 root) (t1 root) opened s.keeps_root in
    (
      tag root (settle_root (t1 root)) t1,
      dfs_loop_search-sons fuel root g t t1 cs e e1,
      record {
        keeps = λ x. searched_keeps g root x t t1 u (s.keeps x);
        good =
            root_settled g root t1 open1 s.good
              (λ h. Acc.intro root (λ y d. s.grounded y (sym (sons-Edge root y g cs e) ∙ d) h));
        settled = settled_root root t1 open1;
      },
    )
