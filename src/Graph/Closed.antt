-- ===== src/Graph/Closed.antt =====
-- A graph that is built by `add_node` and `add_edge` has the edges that were added, and knows the
-- sons of its nodes.
use shinken_gpt.Prelude.{
  ℕ, ◌≡◌, inl, inr, refl, ap, true, false, not, ◌||◌, ◌&&◌, none, some, List, [], ◌∷◌, ◌++◌, ◌==◌,
  if◌then◌else◌, contains, arith, Bool-cases, Option-cases, ==_iff,
}
use shinken_gpt.Graph.{
  Graph, Edge, has_edge, sons_of, set_sons, is_known, add_node, append_son, add_edge,
}

-- Every son is a node of the graph.
abbrev pub IsClosed : Graph → Type 0
IsClosed g = (a b : ℕ) → Edge g a b → is_known b g ≡ true

pub sons_of-set_sons :
    (k n : ℕ) (cs : List ℕ) (g : Graph)
    → sons_of k (set_sons n cs g) ≡ (if n == k then some cs else sons_of k g)
unfolding sons_of set_sons
sons_of-set_sons k n cs [] = refl
sons_of-set_sons k n cs ((j, ds) ∷ g) =
    ground (arith, ==_iff j n, ==_iff n k, sons_of-set_sons k n cs g)

contains-snoc : (b c : ℕ) (cs : List ℕ) → contains b (cs ++ c ∷ []) ≡ (contains b cs || c == b)
contains-snoc b c [] = ground arith
contains-snoc b c (x ∷ cs) = ground (arith, contains-snoc b c cs)

is_known-add_node : (k n : ℕ) (g : Graph) → is_known k (add_node n g) ≡ (n == k || is_known k g)
unfolding add_node
is_known-add_node k n g = ground (arith, sons_of-set_sons k n [] g)

has_edge-add_node :
    (a b n : ℕ) (g : Graph) → has_edge a b (add_node n g) ≡ (not (n == a) && has_edge a b g)
unfolding add_node
has_edge-add_node a b n g = ground (arith, sons_of-set_sons a n [] g)

pub add_node-IsClosed : (n : ℕ) (g : Graph) → IsClosed g → IsClosed (add_node n g)
add_node-IsClosed n g closed a b e =
    ground (arith, has_edge-add_node a b n g, is_known-add_node b n g, closed a b)

same_sons : (a b : ℕ) (g : Graph) → (a == b) ≡ true → sons_of a g ≡ sons_of b g
same_sons a b g h = ap (λ k. sons_of k g) ((==_iff a b).0 h)

append_son-first :
    (from to : ℕ) (g : Graph)
    → sons_of from g ≡ none
    → append_son from to g ≡ set_sons from (to ∷ []) g
unfolding append_son
append_son-first from to g e = ground arith

append_son-next :
    (from to : ℕ) (g : Graph) {cs : List ℕ}
    → sons_of from g ≡ some cs
    → append_son from to g ≡ set_sons from (cs ++ to ∷ []) g
unfolding append_son
append_son-next from to g e = ground arith

has_edge-append_son :
    (a b from to : ℕ) (g : Graph)
    → has_edge a b (append_son from to g) ≡ (has_edge a b g || from == a && to == b)
has_edge-append_son a b from to g = elim (Option-cases (sons_of from g)) [
  | inl e ↦
      rw (append_son-first from to g e)
        (ground (arith, same_sons from a g, sons_of-set_sons a from (to ∷ []) g))
  | inr (cs, e) ↦ rw (append_son-next from to g e) (
      ground (
        arith,
        same_sons from a g,
        sons_of-set_sons a from (cs ++ to ∷ []) g,
        contains-snoc b to cs,
      ))
]

is_known-append_son :
    (k from to : ℕ) (g : Graph) → is_known k (append_son from to g) ≡ (from == k || is_known k g)
is_known-append_son k from to g = elim (Option-cases (sons_of from g)) [
  | inl e ↦ rw (append_son-first from to g e) (ground (arith, sons_of-set_sons k from (to ∷ []) g))
  | inr (cs, e) ↦
      rw (append_son-next from to g e) (ground (arith, sons_of-set_sons k from (cs ++ to ∷ []) g))
]

-- A node without sons that is added where it is not known changes no edge.
unknown-no_edge :
    (a b n : ℕ) (g : Graph)
    → is_known n g ≡ false
    → (not (n == a) && has_edge a b g) ≡ has_edge a b g
unknown-no_edge a b n g h = ground (arith, same_sons n a g)

-- After `add_edge` the graph has its edges from before and the new one, and no other; its nodes
-- are those from before and the two ends.
pub add_edge_lem :
    (from to : ℕ) (g : Graph)
    → ((a b : ℕ) → has_edge a b (add_edge from to g) ≡ (has_edge a b g || from == a && to == b))
      × ((k : ℕ) → is_known k (add_edge from to g) ≡ (from == k || to == k || is_known k g))
unfolding add_edge
add_edge_lem from to g = (
  λ a b. elim (Bool-cases (is_known to g)) [
    | inl k ↦ rw k (has_edge-append_son a b from to g)
    | inr u ↦ rw u (
        ground (
          arith,
          has_edge-append_son a b from to (add_node to g),
          has_edge-add_node a b to g,
          unknown-no_edge a b to g u,
        ))
  ],
  λ k. elim (Bool-cases (is_known to g)) [
    | inl s ↦ rw s (ground (arith, is_known-append_son k from to g, same_sons to k g))
    | inr u ↦
        rw u
          (ground (arith, is_known-append_son k from to (add_node to g), is_known-add_node k to g))
  ],
)

pub add_edge-IsClosed : (from to : ℕ) (g : Graph) → IsClosed g → IsClosed (add_edge from to g)
add_edge-IsClosed from to g closed a b e =
    ground (arith, (add_edge_lem from to g).0 a b, (add_edge_lem from to g).1 b, closed a b)
