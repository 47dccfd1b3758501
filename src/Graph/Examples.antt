-- ===== src/Graph/Examples.antt =====
-- The theorems on graphs, at concrete graphs.
use shinken_gpt.Prelude.{ℕ, ◌≡◌, ◌↔◌, refl, some, List, [], ◌∷◌, uniq, ◌||◌, ◌&&◌, ◌==◌}
use shinken_gpt.Graph.{Graph, sons_of, has_edge, is_known, add_nodes, add_edge}
use shinken_gpt.Graph.Search.{loop_check}
use shinken_gpt.Graph.Closed.{IsClosed, add_edge-IsClosed, add_edge_lem}
use shinken_gpt.Graph.Paths.{HasLoop}
use shinken_gpt.Graph.Complete.{loop_check-exact}
use shinken_gpt.Graph.Packs.{get_accessibility_packs}

-- Host 1 has the parents 2 and 3, and 2 has the parent 3.
abbrev parents : Graph
parents = add_edge 2 3 (add_edge 1 3 (add_edge 1 2 []))

no_host-IsClosed : IsClosed []
unfolding sons_of
no_host-IsClosed a b e = cc

parents-IsClosed : IsClosed parents
parents-IsClosed =
    add_edge-IsClosed 2 3 (add_edge 1 3 (add_edge 1 2 []))
      (add_edge-IsClosed 1 3 (add_edge 1 2 []) (add_edge-IsClosed 1 2 [] no_host-IsClosed))

loop_check-exact_example :
    (r : List ℕ) × (loop_check parents ≡ some r) × ((r ≡ []) ↔ (¬ HasLoop parents))
loop_check-exact_example = loop_check-exact parents parents-IsClosed

no_loop_found : loop_check parents ≡ some []
unfolding loop_check add_edge
no_loop_found = refl

loop_found : loop_check (add_edge 3 1 parents) ≡ some (2 ∷ 1 ∷ 3 ∷ [])
unfolding loop_check add_edge
loop_found = refl

-- 1 and 0 only lead to the loop of 2 on itself, and 1 is reported as well.
near_loop_found :
    loop_check (add_edge 2 2 (add_edge 1 2 (add_edge 0 1 (add_nodes (0 ∷ 1 ∷ 2 ∷ []) []))))
    ≡ some (1 ∷ 2 ∷ [])
unfolding loop_check add_edge add_nodes
near_loop_found = refl

two_packs :
    get_accessibility_packs (add_edge 4 3 (add_edge 3 4 (add_edge 2 1 (add_edge 1 2 []))))
    ≡ some ((1 ∷ 2 ∷ []) ∷ (3 ∷ 4 ∷ []) ∷ [])
unfolding get_accessibility_packs add_edge uniq
two_packs = refl

add_edge_lem_example :
    ((a b : ℕ) → has_edge a b (add_edge 3 1 parents) ≡ (has_edge a b parents || 3 == a && 1 == b))
    × ((k : ℕ) → is_known k (add_edge 3 1 parents) ≡ (3 == k || 1 == k || is_known k parents))
add_edge_lem_example = add_edge_lem 3 1 parents
