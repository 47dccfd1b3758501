-- ===== src/BusinessRule.antt =====
-- shinken/dependencynode.py: the tree of a business rule and the state that it computes.
-- A state is the integer of the source (0 OK, 1 WARNING, 2 CRITICAL, 3 UNKNOWN). `none` is an
-- exception: `min` or `max` of an empty list, or a division by zero.
-- The thresholds of an Xof rule are kept as the numbers that `int` reads from their text.
-- The quotient of floats that a percentage is compared with is the parameter `Percent`.
mod Elements
pub mod Range
mod Logic
mod Total
mod Xof
mod Order
mod Examples
use shinken_gpt.Prelude.{
  ℕ, suc, ◌+◌, ◌-◌, ◌≤◌, ◌≡◌, refl, Bool, true, false, ◌&&◌, ◌||◌, Option, none, some, List, [],
  ◌∷◌, ◌++◌, min, max, leb, ◌==◌, if◌then◌else◌, length, count_if, contains, ◌>>=◌, >>=-eq-some,
}
use shinken_gpt.Prelude.Int.{ℤ, pos, negsuc}

pub data Kind : Type 0 where
  host service : Kind

-- '|', '&', 'of:' and 'object', the operand of a name that was not found
pub data Operand : Type 0 where
  any_of all_of xof object : Operand

-- "3" and "30%"
pub data Threshold : Type 0 where
  number : ℤ → Threshold
  percent : ℤ → Threshold

pub record OfValues : Type 0 where
  pub ok : Threshold
  pub warn : Threshold
  pub crit : Threshold

mutual
  pub data Node : Type 0 where
    -- operand 'host' or 'service', `not_value`, and the only son, a host or a service
    leaf : Kind → Bool → ℕ → Node
    -- operand, `not_value`, `is_of_mul`, `of_values`, sons
    node : Operand → Bool → Bool → OfValues → Nodes → Node

  pub data Nodes : Type 0 where
    nil : Nodes
    cons : Node → Nodes → Nodes

-- `float(nb_real) / nb_tot * 100 >= nb_search` for `nb_tot` above 0: rounding keeps the order.
pub record Percent : Type 0 where
  pub reaches : (nb_real nb_tot nb_search : ℕ) → Bool
  pub reaches_mono : (a b n s : ℕ) → a ≤ b → reaches a n s ≡ true → reaches b n s ≡ true

unfoldable pub get_reverse_state : ℕ → ℕ
get_reverse_state state =
    if state == 1 then 1 else if state == 0 then 2 else if state == 2 then 0 else state

-- with the state of the son as an argument
unfoldable pub get_simple_node_state : Kind → Bool → ℕ → ℕ
get_simple_node_state Kind.host not_value hard =
    let state = if hard == 1 then 2 else hard in
    if not_value then if state == 1 then 0 else if state == 0 then 1 else state else state
get_simple_node_state service not_value hard =
    if not_value then if hard == 2 then 0 else if hard == 0 then 2 else hard else hard

unfoldable pub reversed_if : Bool → ℕ → ℕ
unfolding get_reverse_state
reversed_if not_value state = if not_value then get_reverse_state state else state

-- min(states), max(states)
unfoldable pub min_of : ℕ → List ℕ → ℕ
min_of s [] = s
min_of s (t ∷ ts) = min s (min_of t ts)

unfoldable pub max_of : ℕ → List ℕ → ℕ
max_of s [] = s
max_of s (t ∷ ts) = max s (max_of t ts)

unfoldable pub best_state : List ℕ → Option ℕ
unfolding min_of
best_state [] = none
best_state (s ∷ ss) = some (min_of s ss)

unfoldable pub worst_state : List ℕ → Option ℕ
unfolding max_of
worst_state [] = none
worst_state (s ∷ ss) = if contains 2 (s ∷ ss) then some 2 else some (max_of s ss)

unfoldable pub get_complex_or_node_state : Bool → List ℕ → Option ℕ
unfolding best_state reversed_if
get_complex_or_node_state not_value states = do
  best ← best_state states
  some (reversed_if not_value best)

unfoldable pub get_complex_and_node_state : Bool → List ℕ → Option ℕ
unfolding worst_state reversed_if
get_complex_and_node_state not_value states = do
  worst ← worst_state states
  some (reversed_if not_value worst)

-- max(nb_tot + nb_search, 0) for a negative `nb_search`
unfoldable pub nb_searched : ℕ → ℤ → ℕ
nb_searched nb_tot (pos n) = n
nb_searched nb_tot (negsuc n) = nb_tot - suc n

module _ (float : Percent) where
  unfoldable pub get_state_for : ℕ → ℕ → Threshold → Option Bool
  unfolding nb_searched
  get_state_for nb_tot nb_real (percent p) =
      if nb_tot == 0 then none else some (float.reaches nb_real nb_tot (nb_searched 100 p))
  get_state_for nb_tot nb_real (number n) = some (leb (nb_searched nb_tot n) nb_real)

  -- the choice among what applies
  unfoldable pub xof_choice : Bool → List ℕ → Bool → Bool → Bool → Option ℕ
  unfolding worst_state
  xof_choice is_of_mul states ok_apply warn_apply crit_apply =
      if crit_apply
      then some 2
      else if warn_apply
      then some 1
      else if ok_apply
      then some 0
      else if is_of_mul
      then some 0
      else worst_state states

  unfoldable pub get_complex_xof_node_state : Bool → Bool → OfValues → List ℕ → Option ℕ
  unfolding get_state_for xof_choice reversed_if
  get_complex_xof_node_state not_value is_of_mul of_values states = do
    let nb_sons = length states
    let nb_ok = count_if (λ s. s == 0) states
    let nb_warn = count_if (λ s. s == 1) states
    let nb_crit = count_if (λ s. s == 2) states
    ok_apply ← get_state_for nb_sons nb_ok of_values.ok
    warn_apply ← get_state_for nb_sons (nb_warn + nb_crit) of_values.warn
    crit_apply ← get_state_for nb_sons nb_crit of_values.crit
    s ← xof_choice is_of_mul states ok_apply warn_apply crit_apply
    some (reversed_if not_value s)

  unfoldable pub get_complex_node_state : Operand → Bool → Bool → OfValues → List ℕ → Option ℕ
  unfolding get_complex_or_node_state get_complex_and_node_state get_complex_xof_node_state
  get_complex_node_state any_of not_value is_of_mul of_values = get_complex_or_node_state not_value
  get_complex_node_state all_of not_value is_of_mul of_values = get_complex_and_node_state not_value
  get_complex_node_state _ not_value is_of_mul of_values =
      get_complex_xof_node_state not_value is_of_mul of_values

  -- `hard` gives the `last_hard_state_id` of a host or a service.
  unfoldable mutual
    unfolding get_complex_node_state get_simple_node_state

    pub get_state : (ℕ → ℕ) → Node → Option ℕ
    get_state hard (leaf kind not_value son) =
        some (get_simple_node_state kind not_value (hard son))
    get_state hard (node operand not_value is_of_mul of_values sons) = do
      states ← get_states hard sons
      get_complex_node_state operand not_value is_of_mul of_values states

    pub get_states : (ℕ → ℕ) → Nodes → Option (List ℕ)
    get_states hard nil = some []
    get_states hard (cons s ss) = do
      state ← get_state hard s
      states ← get_states hard ss
      some (state ∷ states)
