-- ===== src/SchedulingItem/Dependencies/Depth.antt =====
-- When a dependency keeps an item from being checked, and the depth that the search for it needs.
use shinken_gpt.Prelude.{
  ℕ, zero, suc, ◌<◌, ◌≤◌, ◌≡◌, ◌⊎◌, refl, sym, subst, inl, inr, Bool, true, false, ◌&&◌, some, List,
  [], ◌∷◌, any, All, arith, get_elem?, Bool-cases,
}
use shinken_gpt.SchedulingItem.Types.{Dependency, Wanted, open_at}
use shinken_gpt.SchedulingItem.States.{is_state}
use shinken_gpt.SchedulingItem.World.{World}
use shinken_gpt.SchedulingItem.Dependencies.{
  any_dependency, do_i_raise_dependency, is_no_check_dependent,
}

-- Along `chk_depend_of` the rank of the items falls, so the dependencies have no cycle.
abbrev pub Falls : World → (ℕ → ℕ) → Type 0
Falls w rank = (i : ℕ) → All (λ d. rank d.dep < rank i) (w.items i).chk_depend_of

-- An item raises a dependency: it is in one of the states, or one that it inherits from raises
-- its own, in an open period.
pub data Raises (w : World) : ℕ → List Wanted → Bool → Type 0 where
  in_state :
      (self : ℕ) (status : List Wanted) (inherits : Bool)
      → any (is_state (w.items self)) status ≡ true
      → Raises w self status inherits
  inherited :
      (self k : ℕ) (status : List Wanted) (d : Dependency)
      → get_elem? (w.items self).chk_depend_of k ≡ some d
      → open_at d.tp w.now ≡ true
      → Raises w d.dep d.status d.inherits_parent
      → Raises w self status true

-- A dependency of the list raises, in an open period.
abbrev pub OneRaises : World → List Dependency → Type 0
OneRaises w ds =
    (k : ℕ) × (d : Dependency) × (get_elem? ds k ≡ some d)
    × (open_at d.tp w.now ≡ true)
    × Raises w d.dep d.status d.inherits_parent

any-found :
    (w : World) (call : Dependency → Bool) (ds : List Dependency)
    → any_dependency w call ds ≡ true
    → (k : ℕ) × (d : Dependency) × (get_elem? ds k ≡ some d)
      × (open_at d.tp w.now ≡ true)
      × (call d ≡ true)
unfolding any_dependency
any-found w call [] h = cc
any-found w call (d ∷ ds) h = elim (Bool-cases (call d && open_at d.tp w.now)) [
  | inl e ↦ (0, d, refl, ground (arith, e), ground (arith, e))
  | inr e ↦
      let (k, d', m, o, c) = any-found w call ds (ground (arith, h, e)) in (suc k, d', m, o, c)
]

any-of :
    (w : World) (call : Dependency → Bool) (ds : List Dependency) (k : ℕ) (d : Dependency)
    → get_elem? ds k ≡ some d
    → open_at d.tp w.now ≡ true
    → call d ≡ true
    → any_dependency w call ds ≡ true
unfolding any_dependency
any-of w call [] k d m o c = cc
any-of w call (e ∷ ds) zero d m o c = let same : e ≡ d = cc m in ground (arith, same, o, c)
any-of w call (e ∷ ds) (suc k) d m o c = ground (arith, any-of w call ds k d m o c)

rank-of :
    (rank : ℕ → ℕ) (r : ℕ) (ds : List Dependency) (k : ℕ) (d : Dependency)
    → All (λ d. rank d.dep < r) ds
    → get_elem? ds k ≡ some d
    → rank d.dep < r
rank-of rank r [] k d a m = cc
rank-of rank r (e ∷ ds) zero d a m = let same : e ≡ d = cc m in subst (λ x. rank x.dep < r) same a.0
rank-of rank r (e ∷ ds) (suc k) d a m = rank-of rank r ds k d a.1 m

module _ (w : World) where
  raised-Raises :
      (fuel self : ℕ) (status : List Wanted) (inherits : Bool)
      → do_i_raise_dependency fuel w self status inherits ≡ true
      → Raises w self status inherits
  unfolding do_i_raise_dependency
  raised-Raises zero self status inherits h = cc
  raised-Raises (suc fuel) self status inherits h =
      elim (Bool-cases (any (is_state (w.items self)) status)) [
        | inl e ↦ in_state self status inherits e
        | inr e ↦
            let call =
              λ (d : Dependency). do_i_raise_dependency fuel w d.dep d.status d.inherits_parent in
            let on : inherits ≡ true = ground (arith, h, e) in
            let (k, d, m, o, c) =
              any-found w call (w.items self).chk_depend_of (ground (arith, h, e)) in
            subst (Raises w self status) (sym on) (
              inherited self k status d m o (raised-Raises fuel d.dep d.status d.inherits_parent c))
      ]

module _ (w : World) (rank : ℕ → ℕ) (falls : Falls w rank) where
  Raises-raised :
      (fuel self : ℕ) (status : List Wanted) (inherits : Bool)
      → rank self < fuel
      → Raises w self status inherits
      → do_i_raise_dependency fuel w self status inherits ≡ true
  unfolding do_i_raise_dependency
  Raises-raised zero self status inherits l r = ground (arith, l)
  Raises-raised (suc fuel) self status inherits l (in_state _ _ _ h) = ground (arith, h)
  Raises-raised (suc fuel) self status _ l (inherited _ k _ d m o r) =
      let lower = rank-of rank (rank self) (w.items self).chk_depend_of k d (falls self) m in
      let below = Raises-raised fuel d.dep d.status d.inherits_parent (omega (arith, l, lower)) r in
      let call =
        λ (d : Dependency). do_i_raise_dependency fuel w d.dep d.status d.inherits_parent in
      ground (arith, any-of w call (w.items self).chk_depend_of k d m o below)

  -- Where the dependencies of checks have no cycle, as a rank of the items shows, and the fuel is at
  -- least the rank of the item, `is_no_check_dependent` is True exactly when a dependency of the
  -- item raises in an open period: the item that it names is in one of the states, or it is asked to
  -- inherit, and a dependency of that item raises in an open period.
  pub is_no_check_dependent-OneRaises :
      (fuel self : ℕ)
      → rank self ≤ fuel
      → ((is_no_check_dependent fuel w self ≡ true) × OneRaises w (w.items self).chk_depend_of)
        ⊎ ((is_no_check_dependent fuel w self ≡ false) × ¬ OneRaises w (w.items self).chk_depend_of)
  unfolding is_no_check_dependent
  is_no_check_dependent-OneRaises fuel self h =
      let ds = (w.items self).chk_depend_of in
      let call =
        λ (d : Dependency). do_i_raise_dependency fuel w d.dep d.status d.inherits_parent in
      elim (Bool-cases (any_dependency w call ds)) [
        | inl e ↦
            let (k, d, m, o, c) = any-found w call ds e in
            inl (e, (k, d, m, o, raised-Raises w fuel d.dep d.status d.inherits_parent c))
        | inr e ↦ inr (
          e,
          λ (k, d, m, o, r).
              let lower = rank-of rank (rank self) ds k d (falls self) m in
              let c =
                Raises-raised fuel d.dep d.status d.inherits_parent (omega (arith, h, lower)) r in
              let t = any-of w call ds k d m o c in ground (arith, e, t),
        )
      ]
