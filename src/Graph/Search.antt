-- ===== src/Graph/Search.antt =====
-- The search for loops (shinken/graph.py, loop_check and dfs_loop_search): the tag that a node
-- carries while it runs is a function of the node.
use shinken_gpt.Prelude.{
  ℕ, zero, suc, Bool, true, false, Option, none, some, List, [], ◌∷◌, ◌==◌, if◌then◌else◌, ◌>>=◌,
  length, map,
}
use shinken_gpt.Graph.{Graph, sons_of}

-- node.dfs_loop_status
pub data LoopStatus : Type 0 where
  unchecked : LoopStatus
  temporary_checked : LoopStatus
  dfs_ok : LoopStatus
  near_loop : LoopStatus
  loop_inside : LoopStatus

abbrev pub Tags : Type 0
Tags = ℕ → LoopStatus

abbrev pub tag : ℕ → LoopStatus → Tags → Tags
tag n s t x = if x == n then s else t x

abbrev pub is_unchecked : LoopStatus → Bool
is_unchecked unchecked = true
is_unchecked _ = false

abbrev pub is_inside : LoopStatus → Bool
is_inside loop_inside = true
is_inside _ = false

-- A son that is in a loop or near one: the root is near a loop at least.
unfoldable pub mark_trouble : ℕ → ℕ → Tags → Tags
mark_trouble root child t =
    tag child loop_inside (if is_inside (t root) then t else tag root near_loop t)

-- What the status of a son, once it is known, changes on the root and on the son.
unfoldable pub judge_child : ℕ → ℕ → LoopStatus → Tags → Tags
unfolding mark_trouble
judge_child root child temporary_checked t = tag root loop_inside (tag child loop_inside t)
judge_child root child near_loop t = mark_trouble root child t
judge_child root child loop_inside t = mark_trouble root child t
judge_child root child unchecked t = t
judge_child root child dfs_ok t = t

-- One turn of the loop over the sons, where `search` is the search below a son.
unfoldable pub check_child : (ℕ → Tags → Option Tags) → ℕ → ℕ → Tags → Option Tags
unfolding judge_child
check_child search root child t = elim (is_unchecked (t child)) [
  | true ↦ do t' ← search child t; some (judge_child root child (t' child) t')
  | false ↦ some (judge_child root child (t child) t)
]

unfoldable pub check_children : (ℕ → Tags → Option Tags) → ℕ → List ℕ → Tags → Option Tags
unfolding check_child
check_children search root [] t = some t
check_children search root (c ∷ cs) t = do
  t' ← check_child search root c t
  check_children search root cs t'

abbrev pub settle_root : LoopStatus → LoopStatus
settle_root temporary_checked = dfs_ok
settle_root s = s

-- `none` is a KeyError, or that the fuel ran out.
unfoldable pub dfs_loop_search : ℕ → Graph → ℕ → Tags → Option Tags
unfolding check_children sons_of
dfs_loop_search zero g root t = none
dfs_loop_search (suc fuel) g root t = do
  sons ← sons_of root g
  t' ← check_children (dfs_loop_search fuel g) root sons (tag root temporary_checked t)
  some (tag root (settle_root (t' root)) t')

abbrev pub visit : ℕ → Graph → ℕ → Tags → Option Tags
visit fuel g n t = elim (is_unchecked (t n)) [ true ↦ dfs_loop_search fuel g n t | false ↦ some t ]

unfoldable pub check_nodes : ℕ → Graph → List ℕ → Tags → Option (List ℕ)
unfolding dfs_loop_search
check_nodes fuel g [] t = some []
check_nodes fuel g (n ∷ ns) t = do
  t' ← visit fuel g n t
  in_loop ← check_nodes fuel g ns t'
  some (if is_inside (t' n) then n ∷ in_loop else in_loop)

abbrev pub keys : Graph → List ℕ
keys g = map (λ e. e.0) g

-- The nodes that are in a loop, as the search tells.
unfoldable pub loop_check : Graph → Option (List ℕ)
unfolding check_nodes
loop_check g = check_nodes (suc (length g)) g (keys g) (λ n. unchecked)
