-- ===== src/BusinessRule/Total.antt =====
-- A rule that `is_valid` accepts has a state: none of the exceptions is raised.
use shinken_gpt.Prelude.{
  ℕ, ◌≡◌, ◌≢◌, refl, Bool, true, false, ◌&&◌, Option, none, some, List, ◌∷◌, arith,
}
use shinken_gpt.BusinessRule.{
  Operand, Node, Nodes, leaf, node, nil, cons, Percent, OfValues, any_of, all_of, xof, object,
  get_complex_node_state, get_state, get_states,
}
use shinken_gpt.BusinessRule.Elements.{is_valid, are_valid}

&&-true : (a b : Bool) → (a && b) ≡ true → (a ≡ true) × (b ≡ true)
&&-true true b h = (refl, h)
&&-true false b h = cc

defined : {A : Type 0} (o : Option A) → o ≢ none → (a : A) × (o ≡ some a)
defined none h = absurd (h refl)
defined (some a) h = (a, refl)

module _ (float : Percent) where
  complex-defined :
      (o : Operand) (n m : Bool) (v : OfValues) (s : ℕ) (ss : List ℕ)
      → get_complex_node_state float o n m v (s ∷ ss) ≢ none
  unfolding get_complex_node_state
  complex-defined any_of n m v s ss = ground arith
  complex-defined all_of n m v s ss = ground arith
  complex-defined xof n m v s ss = ground arith
  complex-defined object n m v s ss = ground arith

module _ (float : Percent) (hard : ℕ → ℕ) where
  mutual
    unfolding get_state is_valid

    valid-defined : (n : Node) → is_valid n ≡ true → get_state float hard n ≢ none
    valid-defined (leaf k b i) h = λ e. cc
    valid-defined (node o b m v nil) h = λ e. cc
    valid-defined (node o b m v (cons n ns)) h =
        let (h0, h1) = &&-true (is_valid n) (are_valid ns) h in
        let (s, e) = defined _ (valid-defined n h0) in
        let (ss, es) = defined _ (all_defined ns h1) in
        rw (e, es) (complex-defined float o b m v s ss)

    all_defined : (ns : Nodes) → are_valid ns ≡ true → get_states float hard ns ≢ none
    all_defined nil h = λ e. cc
    all_defined (cons n ns) h =
        let (h0, h1) = &&-true (is_valid n) (are_valid ns) h in
        let (s, e) = defined _ (valid-defined n h0) in
        let (ss, es) = defined _ (all_defined ns h1) in rw (e, es) (λ x. cc)

-- A rule that `is_valid` accepts has a state, whatever the states of its hosts and services.
pub get_state-total :
    (float : Percent) (hard : ℕ → ℕ) (n : Node)
    → is_valid n ≡ true
    → (s : ℕ) × (get_state float hard n ≡ some s)
get_state-total float hard n h = defined _ (valid-defined float hard n h)
