-- ===== src/BusinessRule/Elements.antt =====
-- The hosts and services of a rule, and its validity.
use mathlib.Core.Path.{subst}
use shinken_gpt.Prelude.{
  ℕ, suc, ◌≤◌, ◌≡◌, refl, sym, Bool, true, false, ◌&&◌, ◌||◌, List, [], ◌∷◌, ◌++◌, ◌∙◌, ◌↔◌,
  count_if, arith, uniq, contains, if◌then◌else◌, ◌⊎◌, inl, inr, ◌==◌,
}
use shinken_gpt.Prelude.Int.{pos}
use shinken_gpt.BusinessRule.{
  Kind, Operand, Node, Nodes, leaf, node, nil, cons, OfValues, Threshold, number,
}

unfoldable mutual
  unfolding uniq

  pub list_all_elements : Node → List ℕ
  list_all_elements (leaf kind not_value son) = son ∷ []
  list_all_elements (node operand not_value is_of_mul of_values sons) = uniq (extend_elements sons)

  pub extend_elements : Nodes → List ℕ
  extend_elements nil = []
  extend_elements (cons s ss) = list_all_elements s ++ extend_elements ss

unfoldable mutual
  -- `not self.sons` fails for a leaf by its one son
  pub is_valid : Node → Bool
  is_valid (leaf kind not_value son) = true
  is_valid (node operand not_value is_of_mul of_values nil) = false
  is_valid (node operand not_value is_of_mul of_values (cons s ss)) = is_valid s && are_valid ss

  pub are_valid : Nodes → Bool
  are_valid nil = true
  are_valid (cons s ss) = is_valid s && are_valid ss

unfoldable pub count_sons : Nodes → ℕ
count_sons nil = 0
count_sons (cons s ss) = suc (count_sons ss)

-- A number is tested for 0, where the source compares its text with 0: they differ on 00 and -0.
abbrev switch_zero : ℕ → Threshold → Threshold
switch_zero nb_sons (number (pos n)) = if n == 0 then number (pos nb_sons) else number (pos n)
switch_zero nb_sons t = t

unfoldable pub switch_zeros_of_values : Node → Node
unfolding count_sons
switch_zeros_of_values (leaf kind not_value son) = leaf kind not_value son
switch_zeros_of_values (node operand not_value is_of_mul v sons) =
    let n = count_sons sons in
    node operand not_value is_of_mul
      (record { ok = switch_zero n v.ok; warn = switch_zero n v.warn; crit = switch_zero n v.crit })
      sons

-- The leaves of a rule, as a relation.
mutual
  pub data Below (i : ℕ) : Node → Type 0 where
    at_leaf : {k : Kind} {b : Bool} → Below i (leaf k b i)
    in_sons :
        {o : Operand} {b m : Bool} {v : OfValues} {ns : Nodes}
        → AmongSons i ns
        → Below i (node o b m v ns)

  pub data AmongSons (i : ℕ) : Nodes → Type 0 where
    here : {n : Node} {ns : Nodes} → Below i n → AmongSons i (cons n ns)
    there : {n : Node} {ns : Nodes} → AmongSons i ns → AmongSons i (cons n ns)

contains-append :
    (i : ℕ) (xs ys : List ℕ) → contains i (xs ++ ys) ≡ (contains i xs || contains i ys)
contains-append i [] ys = refl
contains-append i (x ∷ xs) ys = ground (arith, contains-append i xs ys)

contains-uniq : (i : ℕ) (xs : List ℕ) → contains i (uniq xs) ≡ contains i xs
unfolding uniq
contains-uniq i [] = refl
contains-uniq i (x ∷ xs) = ground (arith, contains-uniq i xs, contains-uniq x xs)

contains→count : (i : ℕ) (xs : List ℕ) → contains i xs ≡ false → count_if (λ x. x == i) xs ≡ 0
contains→count i [] h = refl
contains→count i (x ∷ xs) h = ground (arith, contains→count i xs)

count-uniq-le : (i : ℕ) (xs : List ℕ) → count_if (λ x. x == i) (uniq xs) ≤ 1
unfolding uniq
count-uniq-le i [] = omega arith
count-uniq-le i (x ∷ xs) =
    ground (arith, count-uniq-le i xs, contains→count x (uniq xs), contains→count i (uniq xs))

mutual
  unfolding list_all_elements

  Below→contains : (i : ℕ) {n : Node} → Below i n → contains i (list_all_elements n) ≡ true
  Below→contains i at_leaf = ground arith
  Below→contains i (in_sons {ns} m) = contains-uniq i (extend_elements ns) ∙ AmongSons→contains i m

  AmongSons→contains :
      (i : ℕ) {ns : Nodes} → AmongSons i ns → contains i (extend_elements ns) ≡ true
  AmongSons→contains i (here {n} {ns} b) =
      ground
        (arith, contains-append i (list_all_elements n) (extend_elements ns), Below→contains i b)
  AmongSons→contains i (there {n} {ns} b) =
      ground (
        arith,
        contains-append i (list_all_elements n) (extend_elements ns),
        AmongSons→contains i b,
      )

||-cases : (a b : Bool) → (a || b) ≡ true → (a ≡ true) ⊎ (b ≡ true)
||-cases true b h = inl refl
||-cases false b h = inr h

mutual
  unfolding list_all_elements

  contains→Below : (i : ℕ) (n : Node) → contains i (list_all_elements n) ≡ true → Below i n
  contains→Below i (leaf k b j) h =
      let e : j ≡ i = ground arith in subst (λ x. Below i (leaf k b x)) (sym e) at_leaf
  contains→Below i (node o b m v ns) h =
      in_sons (contains→AmongSons i ns (sym (contains-uniq i (extend_elements ns)) ∙ h))

  contains→AmongSons :
      (i : ℕ) (ns : Nodes) → contains i (extend_elements ns) ≡ true → AmongSons i ns
  contains→AmongSons i nil h = cc
  contains→AmongSons i (cons n ns) h =
      elim (||-cases _ _ (sym (contains-append i (list_all_elements n) (extend_elements ns)) ∙ h)) [
        | inl p ↦ here (contains→Below i n p)
        | inr q ↦ there (contains→AmongSons i ns q)
      ]

-- `list_all_elements` lists the hosts and services at the leaves of the rule and no other, and
-- none of them twice, when the rule has an operand.
pub list_all_elements-exact :
    (i : ℕ) (n : Node)
    → ((contains i (list_all_elements n) ≡ true) ↔ Below i n)
      × (count_if (λ x. x == i) (list_all_elements n) ≤ 1)
unfolding list_all_elements
list_all_elements-exact i (leaf k b j) =
    ((contains→Below i (leaf k b j), Below→contains i {n = leaf k b j}), ground arith)
list_all_elements-exact i (node o b m v ns) = (
  (contains→Below i (node o b m v ns), Below→contains i {n = node o b m v ns}),
  count-uniq-le i (extend_elements ns),
)
