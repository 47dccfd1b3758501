-- ===== src/Graph/Paths.antt =====
-- Walks along the edges of a graph, and the nodes from which every walk ends.
use mathlib.Core.WellFounded.{Acc}
use shinken_gpt.Prelude.{ℕ}
use shinken_gpt.Graph.{Graph, Edge}

-- A walk of one edge or more.
pub data Walk (g : Graph) (a : ℕ) : ℕ → Type 0 where
  one : {b : ℕ} → Edge g a b → Walk g a b
  further : {b c : ℕ} → Walk g a b → Edge g b c → Walk g a c

-- A node is in a loop if a walk leads from it to itself.
abbrev pub HasLoop : Graph → Type 0
HasLoop g = (a : ℕ) × Walk g a a

-- Every walk from the node comes to an end.
abbrev pub IsGrounded : Graph → ℕ → Type 0
IsGrounded g a = Acc (λ b a. Edge g a b) a

-- The first edge of a walk, and the walk from there on.
data Starts (g : Graph) (a : ℕ) (c : ℕ) : Type 0 where
  there : Edge g a c → Starts g a c
  via : (b : ℕ) → Edge g a b → Walk g b c → Starts g a c

Walk-Starts : (g : Graph) (a : ℕ) {c : ℕ} → Walk g a c → Starts g a c
Walk-Starts g a (one e) = there e
Walk-Starts g a (further {b} w e) = elim (Walk-Starts g a w) [
  | there d ↦ via b d (one e)
  | via x d v ↦ via x d (further v e)
]

pub IsGrounded-no_walk : (g : Graph) (a : ℕ) → IsGrounded g a → ¬ Walk g a a
IsGrounded-no_walk g a (Acc.intro _ below) w = elim (Walk-Starts g a w) [
  | there e ↦ IsGrounded-no_walk g a (below a e) w
  | via b e v ↦ IsGrounded-no_walk g b (below b e) (further v e)
]
