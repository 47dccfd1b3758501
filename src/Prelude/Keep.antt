-- ===== src/Prelude/Keep.antt =====
-- What a list keeps.
use Prim.Native.Nat.{ℕ}
use mathlib.Core.Path.{◌≡◌, refl, ap}
use mathlib.Core.Logic.{inl, inr}
use mathlib.Core.Bool.{Bool, ◌&&◌}
use mathlib.Core.List.{List, [], ◌∷◌}
use native.Mathlib.Omega.{arith}
use shinken_gpt.Prelude.Tests.{◌==◌, Bool-cases}
use shinken_gpt.Prelude.Lists.{contains, keep}

pub contains-keep :
    (p : ℕ → Bool) (a : ℕ) (xs : List ℕ) → contains a (keep p xs) ≡ (contains a xs && p a)
contains-keep p a [] = refl
contains-keep p a (x ∷ xs) = elim (Bool-cases (x == a)) [
  | inl e ↦
      (let same : x ≡ a = ground (arith, e) in ground (arith, e, ap p same, contains-keep p a xs))
  | inr e ↦ ground (arith, e, contains-keep p a xs)
]
