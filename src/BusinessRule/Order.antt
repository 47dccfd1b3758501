-- ===== src/BusinessRule/Order.antt =====
-- The order of the sons does not matter.
use mathlib.Core.List.{Perm, Permᴰ}
use mathlib.Core.Option
use native.Mathlib.Nat.{ℕ_set}
use mathlib.Core.Logic.{∥∥₁_elim}
use shinken_gpt.Prelude.{
  ℕ, suc, ◌≡◌, ap, refl, Bool, Option, none, some, List, [], ◌∷◌, arith, length, count_if, ◌==◌,
  contains, ◌∙◌, min, max, if◌then◌else◌,
}
use shinken_gpt.BusinessRule.{
  Operand, OfValues, Percent, any_of, all_of, xof, object, max_of, best_state, worst_state,
  get_complex_xof_node_state, get_complex_node_state,
}

abbrev Agree : {A : Type 0} → (List ℕ → A) → List ℕ → List ℕ → Type 0
Agree f xs ys = f xs ≡ f ys

length-perm : {xs ys : List ℕ} → Permᴰ xs ys → length xs ≡ length ys
length-perm Permᴰ.nil = refl
length-perm (Permᴰ.cons e p) = ap suc (length-perm p)
length-perm (Permᴰ.swap e e') = refl
length-perm (Permᴰ.trans p q) = length-perm p ∙ length-perm q

count_if-perm : (f : ℕ → Bool) {xs ys : List ℕ} → Permᴰ xs ys → count_if f xs ≡ count_if f ys
count_if-perm f Permᴰ.nil = refl
count_if-perm f (Permᴰ.cons {a} {b} e p) = ground (arith, count_if-perm f p)
count_if-perm f (Permᴰ.swap e e') = ground arith
count_if-perm f (Permᴰ.trans p q) = count_if-perm f p ∙ count_if-perm f q

-- the least and the greatest state, `none` of no state
abbrev join : (ℕ → ℕ → ℕ) → ℕ → Option ℕ → Option ℕ
join f s none = some s
join f s (some t) = some (f s t)

best_state-cons : (s : ℕ) (ss : List ℕ) → best_state (s ∷ ss) ≡ join min s (best_state ss)
unfolding best_state
best_state-cons s [] = refl
best_state-cons s (t ∷ ts) = refl

best_state-perm : {xs ys : List ℕ} → Permᴰ xs ys → best_state xs ≡ best_state ys
best_state-perm Permᴰ.nil = refl
best_state-perm (Permᴰ.cons {a} {b} {l₁} {l₂} e p) =
    ground (arith, best_state-perm p, best_state-cons a l₁, best_state-cons b l₂)
best_state-perm (Permᴰ.swap {a} {b} {a'} {b'} {l} e e') = ground (
  arith,
  best_state-cons a (b ∷ l),
  best_state-cons b l,
  best_state-cons a' (b' ∷ l),
  best_state-cons b' l,
)
best_state-perm (Permᴰ.trans p q) = best_state-perm p ∙ best_state-perm q

greatest : List ℕ → Option ℕ
greatest [] = none
greatest (s ∷ ss) = join max s (greatest ss)

greatest-max_of : (s : ℕ) (ss : List ℕ) → greatest (s ∷ ss) ≡ some (max_of s ss)
unfolding greatest max_of
greatest-max_of s [] = refl
greatest-max_of s (t ∷ ts) = ground (arith, greatest-max_of t ts)

greatest-perm : {xs ys : List ℕ} → Permᴰ xs ys → greatest xs ≡ greatest ys
unfolding greatest
greatest-perm Permᴰ.nil = refl
greatest-perm (Permᴰ.cons {a} {b} {l₁} {l₂} e p) = ground (arith, greatest-perm p)
greatest-perm (Permᴰ.swap {a} {b} {a'} {b'} {l} e e') = ground arith
greatest-perm (Permᴰ.trans p q) = greatest-perm p ∙ greatest-perm q

contains-perm : {xs ys : List ℕ} → Permᴰ xs ys → contains 2 xs ≡ contains 2 ys
contains-perm Permᴰ.nil = refl
contains-perm (Permᴰ.cons e p) = ground (arith, contains-perm p)
contains-perm (Permᴰ.swap e e') = ground arith
contains-perm (Permᴰ.trans p q) = contains-perm p ∙ contains-perm q

worst_state-greatest :
    (ss : List ℕ) → worst_state ss ≡ (if contains 2 ss then some 2 else greatest ss)
unfolding worst_state greatest
worst_state-greatest [] = refl
worst_state-greatest (s ∷ ss) = ground (arith, greatest-max_of s ss)

worst_state-perm : {xs ys : List ℕ} → Permᴰ xs ys → worst_state xs ≡ worst_state ys
worst_state-perm {xs} {ys} p =
    ground
      (arith, worst_state-greatest xs, worst_state-greatest ys, contains-perm p, greatest-perm p)

module _ (float : Percent) (n m : Bool) (v : OfValues) {xs ys : List ℕ} (p : Permᴰ xs ys) where
  xof-perm : get_complex_xof_node_state float n m v xs ≡ get_complex_xof_node_state float n m v ys
  unfolding get_complex_xof_node_state
  xof-perm = rw (
    length-perm p,
    count_if-perm (λ s. s == 0) p,
    count_if-perm (λ s. s == 1) p,
    count_if-perm (λ s. s == 2) p,
    worst_state-perm p,
  )

  complex-perm :
      (o : Operand)
      → get_complex_node_state float o n m v xs ≡ get_complex_node_state float o n m v ys
  unfolding get_complex_node_state
  complex-perm any_of = rw (best_state-perm p)
  complex-perm all_of = rw (worst_state-perm p)
  complex-perm xof = xof-perm
  complex-perm object = xof-perm

-- The state of a rule, or its exception, depends on the states of its sons and not on their order.
pub get_complex_node_state-perm :
    (float : Percent) (o : Operand) (n m : Bool) (v : OfValues) (xs ys : List ℕ)
    → Perm xs ys
    → get_complex_node_state float o n m v xs ≡ get_complex_node_state float o n m v ys
get_complex_node_state-perm float o n m v xs ys p =
    ∥∥₁_elim p (Option.is_set ℕ_set _ _) (λ q. complex-perm float n m v q o)
