-- ===== src/BusinessRule/Range.antt =====
-- Which states a rule can take.
use shinken_gpt.Prelude.{>>=-eq-some, ℕ, ◌≤◌, ◌≡◌, Bool, some, List, [], ◌∷◌, arith, All}
use mathlib.Core.Path.{subst}
use mathlib.Core.Option.{some-injective}
use shinken_gpt.BusinessRule.{
  Kind, host, service, Operand, Node, Nodes, leaf, node, nil, cons, Percent, OfValues, any_of,
  all_of, xof, object, reversed_if, get_simple_node_state, min_of, max_of, worst_state,
  get_state_for, xof_choice, get_complex_xof_node_state, get_complex_node_state, get_state,
  get_states,
}

pub min_of-le : (b s : ℕ) (ss : List ℕ) → s ≤ b → min_of s ss ≤ b
unfolding min_of
min_of-le b s [] h = h
min_of-le b s (t ∷ ts) h = omega arith

pub max_of-le : (b s : ℕ) (ss : List ℕ) → s ≤ b → All (λ t. t ≤ b) ss → max_of s ss ≤ b
unfolding max_of
max_of-le b s [] h hs = h
max_of-le b s (t ∷ ts) h hs = omega (arith, max_of-le b t ts hs.0 hs.1)

reversed_if-le : (not_value : Bool) (b s : ℕ) → 2 ≤ b → s ≤ b → reversed_if not_value s ≤ b
unfolding reversed_if
reversed_if-le not_value b s hb h = ground arith

worst_state-le :
    (states : List ℕ) (b s : ℕ)
    → 2 ≤ b
    → All (λ t. t ≤ b) states
    → worst_state states ≡ some s
    → s ≤ b
unfolding worst_state
worst_state-le [] b s hb h e = cc
worst_state-le (t ∷ ts) b s hb h e = ground (arith, max_of-le b t ts)

module _ (float : Percent) where
  xof_choice-le :
      (m : Bool) (states : List ℕ) (o w c : Bool) (b s : ℕ)
      → 2 ≤ b
      → All (λ t. t ≤ b) states
      → xof_choice float m states o w c ≡ some s
      → s ≤ b
  unfolding xof_choice
  xof_choice-le m states o w c b s hb h e = ground (arith, worst_state-le states b s hb h)

  xof-le :
      (not_value is_of_mul : Bool) (v : OfValues) (states : List ℕ) (b s : ℕ)
      → 2 ≤ b
      → All (λ t. t ≤ b) states
      → get_complex_xof_node_state float not_value is_of_mul v states ≡ some s
      → s ≤ b
  unfolding get_complex_xof_node_state
  xof-le n m v states b s hb h e =
      let (o, _, e1) = >>=-eq-some (get_state_for float _ _ v.ok) _ e in
      let (w, _, e2) = >>=-eq-some (get_state_for float _ _ v.warn) _ e1 in
      let (c, _, e3) = >>=-eq-some (get_state_for float _ _ v.crit) _ e2 in
      let (x, chosen, e4) = >>=-eq-some (xof_choice float m states o w c) _ e3 in
      let bound = reversed_if-le n b x hb (xof_choice-le m states o w c b x hb h chosen) in
      ground (arith, bound)

  complex-le :
      (operand : Operand) (not_value is_of_mul : Bool) (of_values : OfValues) (states : List ℕ)
      (b s : ℕ)
      → 2 ≤ b
      → All (λ t. t ≤ b) states
      → get_complex_node_state float operand not_value is_of_mul of_values states ≡ some s
      → s ≤ b
  unfolding get_complex_node_state
  complex-le any_of n m v [] b s hb h e = cc
  complex-le any_of n m v (t ∷ ts) b s hb h e = ground (arith, min_of-le b t ts)
  complex-le all_of n m v states b s hb h e =
      let (x, worst, e1) = >>=-eq-some (worst_state states) _ e in
      ground (arith, reversed_if-le n b x hb (worst_state-le states b x hb h worst))
  complex-le xof n m v states b s hb h e = xof-le n m v states b s hb h e
  complex-le object n m v states b s hb h e = xof-le n m v states b s hb h e

simple-le : (k : Kind) (n : Bool) (b s : ℕ) → 2 ≤ b → s ≤ b → get_simple_node_state k n s ≤ b
unfolding get_simple_node_state
simple-le host n b s hb h = ground arith
simple-le service n b s hb h = ground arith

module _ (float : Percent) (hard : ℕ → ℕ) (b : ℕ) (hb : 2 ≤ b) (known : (i : ℕ) → hard i ≤ b) where
  mutual
    unfolding get_state

    bounded : (n : Node) (s : ℕ) → get_state float hard n ≡ some s → s ≤ b
    bounded (leaf kind not_value son) s e =
        ground (arith, simple-le kind not_value b (hard son) hb (known son))
    bounded (node operand not_value is_of_mul v sons) s e =
        let (states, all, e1) = >>=-eq-some (get_states float hard sons) _ e in
        complex-le float operand not_value is_of_mul v states b s hb (All-bounded sons states all)
          e1

    All-bounded :
        (ns : Nodes) (ss : List ℕ) → get_states float hard ns ≡ some ss → All (λ s. s ≤ b) ss
    All-bounded nil ss e = subst (All (λ s. s ≤ b)) (some-injective _ _ e) tt
    All-bounded (cons n ns) ss e =
        let (x, first, e1) = >>=-eq-some (get_state float hard n) _ e in
        let (xs, rest, e2) = >>=-eq-some (get_states float hard ns) _ e1 in
        subst (All (λ s. s ≤ b)) (some-injective _ _ e2) (bounded n x first, All-bounded ns xs rest)

pub get_states-le :
    (float : Percent) (hard : ℕ → ℕ) (b : ℕ)
    → 2 ≤ b
    → ((i : ℕ) → hard i ≤ b)
    → (ns : Nodes) (ss : List ℕ) → get_states float hard ns ≡ some ss
    → All (λ s. s ≤ b) ss
get_states-le float hard b hb known ns ss e = All-bounded float hard b hb known ns ss e

-- With the hard states of the hosts and services at most `b`, and `b` at least 2, the state of a
-- rule is at most `b`: 2 where no service is UNKNOWN, and 3 otherwise. The rule may hold any
-- operands, NOTs and thresholds.
pub get_state-le :
    (float : Percent) (hard : ℕ → ℕ) (b : ℕ)
    → 2 ≤ b
    → ((i : ℕ) → hard i ≤ b)
    → (n : Node) (s : ℕ) → get_state float hard n ≡ some s
    → s ≤ b
get_state-le float hard b hb known n s e = bounded float hard b hb known n s e
