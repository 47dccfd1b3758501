-- ===== src/BusinessRule/Examples.antt =====
-- The theorems on business rules, at concrete rules.
use mathlib.Core.List.{Permᴰ}
use shinken_gpt.Prelude.{
  ℕ, ◌*◌, ◌≤◌, ◌≡◌, ◌↔◌, refl, true, false, some, [], ◌∷◌, leb, ◌==◌, if◌then◌else◌, contains,
  count_if, arith,
}
use shinken_gpt.Prelude.Int.{pos}
use shinken_gpt.BusinessRule.{
  Kind, service, Node, Nodes, leaf, node, nil, cons, Percent, OfValues, any_of, all_of, xof, number,
  percent, get_state, get_complex_node_state,
}
use shinken_gpt.BusinessRule.Elements.{
  list_all_elements, Below, is_valid, count_sons, switch_zeros_of_values, list_all_elements-exact,
}
use shinken_gpt.BusinessRule.Total.{get_state-total}
use shinken_gpt.BusinessRule.Xof.{k_of, k_of-ok}
use shinken_gpt.BusinessRule.Logic.{negate_all, not-or}
use shinken_gpt.BusinessRule.Order.{get_complex_node_state-perm}

-- the quotient without rounding
abbrev exact : Percent
exact = record {
  reaches = λ a n s. leb (s * n) (a * 100);
  reaches_mono = λ a b n s h k. ground arith;
}

-- 1 is DOWN or WARNING, 2 is CRITICAL
abbrev hard : ℕ → ℕ
hard i = if i == 1 then 1 else if i == 2 then 2 else 0

abbrev no_values : OfValues
no_values = k_of 0

abbrev two_services : Nodes
two_services = cons (leaf service false 1) (cons (leaf service false 2) nil)

-- at least half of three services
abbrev half : Node
half =
    node xof false true
      (record { ok = percent (pos 50); warn = number (pos 3); crit = number (pos 3) })
      (cons (leaf service false 3) two_services)

abbrev mixed : Node
mixed = node all_of false false no_values (cons half (cons (leaf Kind.host true 1) nil))

list_all_elements-exact_example :
    ((contains 1 (list_all_elements mixed) ≡ true) ↔ Below 1 mixed)
    × (count_if (λ x. x == 1) (list_all_elements mixed) ≤ 1)
list_all_elements-exact_example = list_all_elements-exact 1 mixed

get_state-total_example : (s : ℕ) × (get_state exact hard mixed ≡ some s)
unfolding is_valid
get_state-total_example = get_state-total exact hard mixed refl

k_of-ok_example :
    (get_state exact hard (
        switch_zeros_of_values
          (node xof false false (k_of 1) (cons (leaf service false 3) two_services)))
      ≡ some 0)
    ↔ (1 ≤ count_if (λ s. s == 0) (0 ∷ 1 ∷ 2 ∷ []))
unfolding get_state count_sons
k_of-ok_example =
    k_of-ok exact hard 1 (cons (leaf service false 3) two_services) (0 ∷ 1 ∷ 2 ∷ []) (ground arith)
      (ground arith) refl

not-or_example :
    get_state exact hard (node any_of true false no_values two_services)
    ≡ get_state exact hard (node all_of false false no_values (negate_all two_services))
not-or_example =
    not-or exact hard false false no_values no_values two_services (λ i. ground arith)
      (tt, (tt, tt))

get_complex_node_state-perm_example :
    get_complex_node_state exact xof false false (k_of 1) (0 ∷ 1 ∷ 2 ∷ [])
    ≡ get_complex_node_state exact xof false false (k_of 1) (1 ∷ 0 ∷ 2 ∷ [])
get_complex_node_state-perm_example =
    get_complex_node_state-perm exact xof false false (k_of 1) (0 ∷ 1 ∷ 2 ∷ []) (1 ∷ 0 ∷ 2 ∷ [])
      ∣ Permᴰ.swap refl refl ∣₁
