-- ===== src/Prelude/Lists.antt =====
-- Lists measured by native numbers, and predicates on lists that compute to tuples.
use Prim.Native.Nat.{ℕ, zero, suc, min}
use mathlib.Core.Option.{Option, none, some}
use mathlib.Core.Bool.{Bool, false, not, ◌&&◌, ◌||◌}
use mathlib.Core.List.{List, [], ◌∷◌}
use shinken_gpt.Prelude.Tests.{if◌then◌else◌, ◌==◌}

module _ {ℓ} {A : Type ℓ} where
  abbrev pub length : List A → ℕ
  length [] = 0
  length (x ∷ xs) = suc (length xs)

  abbrev pub All {κ} : (A → Type κ) → List A → Type κ
  All P [] = Unit
  All P (x ∷ xs) = P x × All P xs

  abbrev pub get_elem? : List A → ℕ → Option A
  get_elem? [] i = none
  get_elem? (x ∷ xs) zero = some x
  get_elem? (x ∷ xs) (suc i) = get_elem? xs i

  -- any(p(x) for x in xs)
  abbrev pub any : (A → Bool) → List A → Bool
  any p [] = false
  any p (x ∷ xs) = p x || any p xs

  -- len([x for x in xs if p(x)])
  abbrev pub count_if : (A → Bool) → List A → ℕ
  count_if p [] = 0
  count_if p (x ∷ xs) = let rest = count_if p xs in if p x then suc rest else rest

  -- [x for x in xs if p(x)]
  abbrev pub keep : (A → Bool) → List A → List A
  keep p [] = []
  keep p (x ∷ xs) = let rest = keep p xs in if p x then x ∷ rest else rest

-- x in xs, on numbers
abbrev pub contains : ℕ → List ℕ → Bool
contains a = any (λ x. x == a)

-- list(set(xs)); the order of a set is not specified, and here it is that of the last occurrences
unfoldable pub uniq : List ℕ → List ℕ
uniq [] = []
uniq (x ∷ xs) = let rest = uniq xs in if contains x rest then rest else x ∷ rest

-- set(xs) == set(ys)
abbrev pub same_set : List ℕ → List ℕ → Bool
same_set xs ys = not (any (λ x. not (contains x ys)) xs) && not (any (λ y. not (contains y xs)) ys)

-- xs.remove(x), for the first x; where there is none Python raises and here nothing is removed
unfoldable pub remove_first : ℕ → List ℕ → List ℕ
remove_first a [] = []
remove_first a (x ∷ xs) = if x == a then xs else x ∷ remove_first a xs

-- min(xs), where `none` is the ValueError on an empty list
unfoldable pub min_list : List ℕ → Option ℕ
min_list [] = none
min_list (x ∷ xs) = elim (min_list xs) [ none ↦ some x | some m ↦ some (min x m) ]
