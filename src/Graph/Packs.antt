-- ===== src/Graph/Packs.antt =====
-- The accessibility packs (shinken/graph.py, get_accessibility_packs and dfs_get_all_childs).
-- A set is a list without duplicates, and the tag of a node is whether it was looked at.
use shinken_gpt.Prelude.{
  ℕ, zero, suc, Bool, true, false, Option, none, some, List, [], ◌∷◌, ◌++◌, ◌==◌, if◌then◌else◌,
  ◌>>=◌, length, uniq,
}
use shinken_gpt.Graph.{Graph, sons_of}
use shinken_gpt.Graph.Search.{keys}

-- node.dfs_loop_status == 'DFS_CHECKED'
abbrev pub Checked : Type 0
Checked = ℕ → Bool

abbrev checked_too : ℕ → Checked → Checked
checked_too n t x = if x == n then true else t x

-- The loop over the sons, where `all_childs` is the call for a son.
gather_childs :
    (ℕ → Checked → Option (List ℕ × Checked))
    → List ℕ
    → List ℕ
    → Checked
    → Option (List ℕ × Checked)
gather_childs all_childs [] ret t = some (ret, t)
gather_childs all_childs (c ∷ cs) ret t = elim (t c) [
  | true ↦ gather_childs all_childs cs ret t
  | false ↦ do (below, t') ← all_childs c t; gather_childs all_childs cs (ret ++ below) t'
]

-- `none` is a KeyError, or that the fuel ran out.
dfs_get_all_childs : ℕ → Graph → ℕ → Checked → Option (List ℕ × Checked)
unfolding gather_childs sons_of
dfs_get_all_childs zero g root t = none
dfs_get_all_childs (suc fuel) g root t = do
  sons ← sons_of root g
  (ret, t') ← gather_childs (dfs_get_all_childs fuel g) sons (root ∷ sons) (checked_too root t)
  some (uniq ret, t')

packs_of : ℕ → Graph → List ℕ → Checked → Option (List (List ℕ))
unfolding dfs_get_all_childs
packs_of fuel g [] t = some []
packs_of fuel g (n ∷ ns) t = elim (t n) [
  | true ↦ packs_of fuel g ns t
  | false ↦ do
    (pack, t') ← dfs_get_all_childs fuel g n t
    packs ← packs_of fuel g ns t'
    some (pack ∷ packs)
]

unfoldable pub get_accessibility_packs : Graph → Option (List (List ℕ))
unfolding packs_of
get_accessibility_packs g = packs_of (suc (length g)) g (keys g) (λ n. false)
