-- ===== src/BusinessRule/Logic.antt =====
-- NOT, and its laws with '|' and '&'.
use mathlib.Core.Option
use shinken_gpt.Prelude.{
  ℕ, ◌≤◌, ◌≡◌, ap, refl, Bool, true, false, not, Option, none, some, List, [], ◌∷◌, arith, All, ◌∙◌,
  sym, map, contains, ◌==◌,
}
use shinken_gpt.BusinessRule.{
  Kind, service, Operand, Node, Nodes, leaf, node, nil, cons, Percent, OfValues, any_of, all_of,
  xof, object, get_reverse_state, min_of, max_of, best_state, worst_state, get_complex_node_state,
  get_state, get_states, ◌>>=◌,
}
use shinken_gpt.BusinessRule.Range.{get_states-le, min_of-le, max_of-le}

abbrev pub reversed : Option ℕ → Option ℕ
reversed none = none
reversed (some s) = some (get_reverse_state s)

reverse_twice : (s : ℕ) → get_reverse_state (get_reverse_state s) ≡ s
unfolding get_reverse_state
reverse_twice s = ground arith

-- the same element, asked with the other `not_value`
abbrev pub negate : Node → Node
negate (leaf k b i) = leaf k (not b) i
negate (node o b m v ns) = node o (not b) m v ns

abbrev pub negate_all : Nodes → Nodes
negate_all nil = nil
negate_all (cons n ns) = cons (negate n) (negate_all ns)

-- not the leaf of a host
abbrev pub IsReversible : Node → Type 0
IsReversible (leaf Kind.host b i) = ⊥
IsReversible _ = Unit

abbrev pub AreReversible : Nodes → Type 0
AreReversible nil = Unit
AreReversible (cons n ns) = IsReversible n × AreReversible ns

-- min and max, mirrored
reverse-min_of :
    (s : ℕ) (ss : List ℕ)
    → s ≤ 2
    → All (λ t. t ≤ 2) ss
    → get_reverse_state (min_of s ss) ≡ max_of (get_reverse_state s) (map get_reverse_state ss)
unfolding get_reverse_state min_of max_of
reverse-min_of s [] h hs = refl
reverse-min_of s (t ∷ ts) h hs =
    ground (arith, reverse-min_of t ts hs.0 hs.1, min_of-le 2 t ts hs.0)

contains-max_of :
    (s : ℕ) (ss : List ℕ) → s ≤ 2 → All (λ t. t ≤ 2) ss → contains 2 (s ∷ ss) ≡ (max_of s ss == 2)
unfolding max_of
contains-max_of s [] h hs = ground arith
contains-max_of s (t ∷ ts) h hs =
    ground (arith, contains-max_of t ts hs.0 hs.1, max_of-le 2 t ts hs.0 hs.1)

All-reverse : (ss : List ℕ) → All (λ t. t ≤ 2) ss → All (λ t. t ≤ 2) (map get_reverse_state ss)
unfolding get_reverse_state
All-reverse [] h = tt
All-reverse (s ∷ ss) h = (ground arith, All-reverse ss h.1)

worst_state-small :
    (s : ℕ) (ss : List ℕ) → s ≤ 2 → All (λ t. t ≤ 2) ss → worst_state (s ∷ ss) ≡ some (max_of s ss)
unfolding worst_state
worst_state-small s ss h hs = ground (arith, contains-max_of s ss h hs)

reversed-best_state :
    (ss : List ℕ)
    → All (λ t. t ≤ 2) ss
    → reversed (best_state ss) ≡ worst_state (map get_reverse_state ss)
unfolding best_state
reversed-best_state [] h = unfold worst_state in refl
reversed-best_state (s ∷ ss) h =
    let (h0, h1) = All-reverse (s ∷ ss) h in
    ap some (reverse-min_of s ss h.0 h.1) ∙ sym (worst_state-small _ _ h0 h1)

module _ (float : Percent) where
  complex-not :
      (o : Operand) (m : Bool) (v : OfValues) (ss : List ℕ)
      → get_complex_node_state float o true m v ss
        ≡ reversed (get_complex_node_state float o false m v ss)
  unfolding get_complex_node_state
  complex-not any_of m v ss = ground arith
  complex-not all_of m v ss = ground arith
  complex-not xof m v ss = ground arith
  complex-not object m v ss = ground arith

reversed_twice : (o : Option ℕ) → reversed (reversed o) ≡ o
reversed_twice none = refl
reversed_twice (some s) = ap some (reverse_twice s)

module _ (float : Percent) where
  complex-flip :
      (b : Bool) (o : Operand) (m : Bool) (v : OfValues) (ss : List ℕ)
      → get_complex_node_state float o (not b) m v ss
        ≡ reversed (get_complex_node_state float o b m v ss)
  complex-flip false o m v ss = complex-not float o m v ss
  complex-flip true o m v ss =
      sym (reversed_twice _) ∙ ap reversed (sym (complex-not float o m v ss))

reversed-bind :
    (o : Option (List ℕ)) (f g : List ℕ → Option ℕ)
    → ((ss : List ℕ) → f ss ≡ reversed (g ss))
    → (o >>= f) ≡ reversed (o >>= g)
reversed-bind none f g h = refl
reversed-bind (some ss) f g h = h ss

abbrev gather : Option ℕ → Option (List ℕ) → Option (List ℕ)
gather o os = do s ← o; ss ← os; some (s ∷ ss)

gather-reversed :
    (o : Option ℕ) (os : Option (List ℕ))
    → gather (reversed o) (Option.map (map get_reverse_state) os)
      ≡ Option.map (map get_reverse_state) (gather o os)
gather-reversed none os = refl
gather-reversed (some s) none = refl
gather-reversed (some s) (some ss) = refl

module _ (float : Percent) (hard : ℕ → ℕ) where
  -- Asking a rule, or the leaf of a service, with the other NOT gives the reversed state, and the
  -- exceptions are the same.
  pub get_state-negate :
      (n : Node)
      → IsReversible n
      → get_state float hard (negate n) ≡ reversed (get_state float hard n)
  unfolding get_state
  get_state-negate (leaf Kind.host b i) h = absurd h
  get_state-negate (leaf service b i) h = unfold get_reverse_state in ground arith
  get_state-negate (node o b m v ns) h =
      reversed-bind (get_states float hard ns) _ _ (complex-flip float b o m v)

  get_states-negate :
      (ns : Nodes)
      → AreReversible ns
      → get_states float hard (negate_all ns)
        ≡ Option.map (map get_reverse_state) (get_states float hard ns)
  unfolding get_state
  get_states-negate nil h = refl
  get_states-negate (cons n ns) h =
      rw (get_state-negate n h.0, get_states-negate ns h.1)
        (gather-reversed (get_state float hard n) (get_states float hard ns))

  nor-states :
      (m m' : Bool) (v v' : OfValues) (o : Option (List ℕ))
      → ((ss : List ℕ) → o ≡ some ss → All (λ t. t ≤ 2) ss)
      → (o >>= get_complex_node_state float any_of true m v)
        ≡ (Option.map (map get_reverse_state) o >>= get_complex_node_state float all_of false m' v')
  unfolding get_complex_node_state
  nor-states m m' v v' none h = refl
  nor-states m m' v v' (some ss) h = ground (arith, reversed-best_state ss (h ss refl))

  -- De Morgan: while no hard state is above CRITICAL, the NOT of an '|' over rules and services
  -- has the state of the '&' over their NOTs.
  pub not-or :
      (m m' : Bool) (v v' : OfValues) (ns : Nodes)
      → ((i : ℕ) → hard i ≤ 2)
      → AreReversible ns
      → get_state float hard (node any_of true m v ns)
        ≡ get_state float hard (node all_of false m' v' (negate_all ns))
  unfolding get_state
  not-or m m' v v' ns known h = rw (get_states-negate ns h) (
      nor-states m m' v v' (get_states float hard ns)
        (get_states-le float hard 2 (omega arith) known ns))

  -- A NOT in front of a host that is DOWN changes nothing: the host still counts as CRITICAL.
  pub get_state-not_down :
      (i : ℕ)
      → hard i ≡ 1
      → (get_state float hard (leaf Kind.host true i) ≡ some 2)
        × (get_state float hard (leaf Kind.host false i) ≡ some 2)
  unfolding get_state
  get_state-not_down i h = (ground arith, ground arith)
