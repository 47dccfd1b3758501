-- ===== src/Graph/Fuel.antt =====
-- The nodes that the search has not looked at yet, which bound the calls that it makes.
use shinken_gpt.Prelude.{
  ℕ, ◌≤◌, ◌<◌, ◌≡◌, true, false, [], ◌∷◌, ◌==◌, count_if, arith, inl, inr, Bool-cases, ap, ==_iff,
  length,
}
use shinken_gpt.Graph.{Graph, sons_of, is_known}
use shinken_gpt.Graph.Search.{Tags, is_unchecked}

abbrev pub count_unchecked : Tags → Graph → ℕ
count_unchecked t g = count_if (λ e. is_unchecked (t e.0)) g

-- No node is unchecked afterwards that was not before.
abbrev pub Fewer : Tags → Tags → Type 0
Fewer t t' = (x : ℕ) → is_unchecked (t' x) ≡ true → is_unchecked (t x) ≡ true

pub count_unchecked-le :
    (t t' : Tags) (g : Graph) → Fewer t t' → count_unchecked t' g ≤ count_unchecked t g
count_unchecked-le t t' [] h = omega arith
count_unchecked-le t t' ((k, cs) ∷ g) h = ground (arith, h k, count_unchecked-le t t' g h)

pub count_unchecked-lt :
    (t t' : Tags) (n : ℕ) (g : Graph)
    → Fewer t t'
    → is_known n g ≡ true
    → is_unchecked (t n) ≡ true
    → is_unchecked (t' n) ≡ false
    → count_unchecked t' g < count_unchecked t g
unfolding sons_of
count_unchecked-lt t t' n [] h k u c = cc
count_unchecked-lt t t' n ((j, cs) ∷ g) h k u c = elim (Bool-cases (j == n)) [
  | inl e ↦
      let same : j ≡ n = (==_iff j n).0 e in
      ground (
        arith,
        ap (λ x. is_unchecked (t x)) same,
        ap (λ x. is_unchecked (t' x)) same,
        count_unchecked-le t t' g h,
      )
  | inr e ↦ ground (arith, h j, count_unchecked-lt t t' n g h)
]

pub count_unchecked-le_length : (t : Tags) (g : Graph) → count_unchecked t g ≤ length g
count_unchecked-le_length t [] = omega arith
count_unchecked-le_length t (e ∷ g) = ground (arith, count_unchecked-le_length t g)
