-- ===== src/Graph/Sound.antt =====
-- What one son changes in the search for loops: what the tags keep, and what a tag promises.
pub mod Judged
pub mod Children
pub mod Nodes
use mathlib.Core.WellFounded.{Acc}
use shinken_gpt.Prelude.{
  ℕ, ◌≡◌, refl, Bool, true, false, inl, inr, ◌==◌, if◌then◌else◌, arith, Bool-cases, ==_iff, ap,
  sym, subst,
}
use shinken_gpt.Graph.{Graph, Edge}
use shinken_gpt.Graph.Paths.{IsGrounded}
use shinken_gpt.Graph.Search.{
  LoopStatus, unchecked, temporary_checked, dfs_ok, near_loop, loop_inside, Tags, tag, is_inside,
  mark_trouble, judge_child,
}

-- What becomes of the tag of a node that is not the root.
abbrev pub kept : LoopStatus → LoopStatus → Bool
kept unchecked temporary_checked = false
kept unchecked t = true
kept temporary_checked temporary_checked = true
kept temporary_checked loop_inside = true
kept temporary_checked t = false
kept dfs_ok dfs_ok = true
kept dfs_ok t = false
kept near_loop near_loop = true
kept near_loop loop_inside = true
kept near_loop t = false
kept loop_inside loop_inside = true
kept loop_inside t = false

-- What becomes of the tag of the root while its sons are looked at.
abbrev pub kept_root : LoopStatus → LoopStatus → Bool
kept_root temporary_checked near_loop = true
kept_root s t = kept s t

-- The tags of a root while its sons are looked at, and afterwards.
abbrev pub is_open : LoopStatus → Bool
is_open temporary_checked = true
is_open near_loop = true
is_open loop_inside = true
is_open _ = false

abbrev pub is_settled : LoopStatus → Bool
is_settled dfs_ok = true
is_settled near_loop = true
is_settled loop_inside = true
is_settled _ = false

abbrev pub is_troubled : LoopStatus → Bool
is_troubled near_loop = true
is_troubled loop_inside = true
is_troubled _ = false

-- No walk from an OK node is endless, and a node near a loop has a son inside.
pub record IsGood (g : Graph) (t : Tags) : Type 0 where
  pub grounded : (x : ℕ) → t x ≡ dfs_ok → IsGrounded g x
  pub near : (x : ℕ) → t x ≡ near_loop → (c : ℕ) × Edge g x c × (t c ≡ loop_inside)

-- What the loop over the sons has done when it has looked at those of `cs`.
pub record IsScanned (g : Graph) (root : ℕ) (Sons : ℕ → Type 0) (t t' : Tags) : Type 0 where
  pub keeps : (x : ℕ) → (x == root) ≡ false → kept (t x) (t' x) ≡ true
  pub keeps_root : kept_root (t root) (t' root) ≡ true
  pub good : IsGood g t'
  pub grounded : (c : ℕ) → Sons c → t' root ≡ temporary_checked → IsGrounded g c

pub same_tag : (x y : ℕ) (t : Tags) → (x == y) ≡ true → t x ≡ t y
same_tag x y t h = ap t ((==_iff x y).0 h)

-- Tagging nodes as inside a loop, and nothing else, loses nothing.
pub still_near :
    (g : Graph) (t t' : Tags)
    → IsGood g t
    → ((x : ℕ) → t x ≡ loop_inside → t' x ≡ loop_inside)
    → (x : ℕ) → t x ≡ near_loop
    → (c : ℕ) × Edge g x c × (t' c ≡ loop_inside)
still_near g t t' good stays x h = let (c, e, i) = good.near x h in (c, e, stays c i)

module _ (g : Graph) (root c : ℕ) (edge : Edge g root c) (t : Tags) (good : IsGood g t)
    (open_root : is_open (t root) ≡ true) where
  pub judge_temporary :
      t c ≡ temporary_checked
      → IsScanned g root (λ x. x ≡ c) t (judge_child root c temporary_checked t)
  unfolding judge_child
  judge_temporary e = record {
    keeps = λ x n. ground (arith, same_tag x c t);
    keeps_root = ground arith;
    good = record {
      grounded = λ x h. good.grounded x (ground (arith, same_tag x c t));
      near = λ x h.
          still_near g t (judge_child root c temporary_checked t) good (λ y i. ground arith) x
            (ground (arith, same_tag x c t));
    };
    grounded = λ x p h. absurd (ground (arith, ==_iff root root));
  }

  marked_near :
      (is_inside (t root) ≡ false)
      → is_troubled (t c) ≡ true
      → (x : ℕ) → mark_trouble root c t x ≡ near_loop
      → (d : ℕ) × Edge g x d × (mark_trouble root c t d ≡ loop_inside)
  unfolding mark_trouble
  marked_near o tr x h = elim (Bool-cases (x == root)) [
    | inl r ↦
        let same : root ≡ x = sym ((==_iff x root).0 r) in
        (c, subst (λ y. Edge g y c) same edge, ground (arith, ==_iff c c))
    | inr n ↦
        let (d, e, i) = good.near x (ground arith) in (d, e, ground (arith, same_tag d root t))
  ]

  pub judge_trouble :
      is_troubled (t c) ≡ true → IsScanned g root (λ x. x ≡ c) t (mark_trouble root c t)
  unfolding mark_trouble
  judge_trouble tr = elim (Bool-cases (is_inside (t root))) [
    | inl i ↦ record {
      keeps = λ x n. ground (arith, same_tag x c t);
      keeps_root = ground (arith, same_tag root c t);
      good = record {
        grounded = λ x h. good.grounded x (ground arith);
        near = λ x h.
            still_near g t (mark_trouble root c t) good (λ y k. ground arith) x (ground arith);
      };
      grounded = λ x p h. absurd (ground (arith));
    }
    | inr o ↦ record {
      keeps = λ x n. ground (arith, same_tag x c t);
      keeps_root = ground (arith, same_tag root c t);
      good = record {
        grounded = λ x h. good.grounded x (ground arith);
        near = λ x h. marked_near o tr x h;
      };
      grounded = λ x p h. absurd (ground (arith, ==_iff root root));
    }
  ]
