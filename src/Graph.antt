-- ===== src/Graph.antt =====
-- Directed graphs (shinken/graph.py, Graph): the nodes with their sons, and how they are added.
-- A node object is a number, and `self.nodes` an association list in the order of insertion.
use shinken_gpt.Prelude.{
  ℕ, ◌≡◌, Bool, true, false, Option, none, some, List, [], ◌∷◌, ◌++◌, ◌==◌, if◌then◌else◌, contains,
}
pub mod Search
pub mod Closed
pub mod Paths
mod Fuel
mod Sound
mod Clean
mod Complete
mod Loops
pub mod Packs
mod Examples

abbrev pub Graph : Type 0
Graph = List (ℕ × List ℕ)

-- self.nodes[node], where `none` is a KeyError
unfoldable pub sons_of : ℕ → Graph → Option (List ℕ)
sons_of n [] = none
sons_of n ((k, cs) ∷ g) = if k == n then some cs else sons_of n g

-- self.nodes[node] = sons
unfoldable pub set_sons : ℕ → List ℕ → Graph → Graph
set_sons n sons [] = (n, sons) ∷ []
set_sons n sons ((k, cs) ∷ g) = if k == n then (k, sons) ∷ g else (k, cs) ∷ set_sons n sons g

unfoldable pub add_node : ℕ → Graph → Graph
unfolding set_sons
add_node n g = set_sons n [] g

unfoldable pub add_nodes : List ℕ → Graph → Graph
unfolding add_node
add_nodes [] g = g
add_nodes (n ∷ ns) g = add_nodes ns (add_node n g)

abbrev pub is_known : ℕ → Graph → Bool
is_known n g = elim (sons_of n g) [ none ↦ false | some cs ↦ true ]

unfoldable pub append_son : ℕ → ℕ → Graph → Graph
unfolding sons_of set_sons
append_son from to g = elim (sons_of from g) [
  | none ↦ set_sons from (to ∷ []) g
  | some cs ↦ set_sons from (cs ++ to ∷ []) g
]

unfoldable pub add_edge : ℕ → ℕ → Graph → Graph
unfolding add_node append_son
add_edge from to g = append_son from to (if is_known to g then g else add_node to g)

-- to_node in self.nodes[from_node]
abbrev pub has_edge : ℕ → ℕ → Graph → Bool
has_edge from to g = elim (sons_of from g) [ none ↦ false | some cs ↦ contains to cs ]

-- There is an edge from a to b.
abbrev pub Edge : Graph → ℕ → ℕ → Type 0
Edge g a b = has_edge a b g ≡ true
