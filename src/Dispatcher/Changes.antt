-- ===== src/Dispatcher/Changes.antt =====
-- What the check of one configuration does to it and to the rest.
use shinken_gpt.Prelude.{
  ℕ, ◌≡◌, ◌⊎◌, refl, ap, ◌∙◌, Bool, true, false, none, some, ◌==◌, if◌then◌else◌, inl, inr, arith,
  Bool-cases, Option-cases, ==_iff,
}
use shinken_gpt.SatelliteLink.{do_i_manage}
use shinken_gpt.Dispatcher.{Dispatcher, take_conf, drop_dead, drop_unmanaged, check_assigned}

-- A configuration waits for a dispatch, or a living scheduler has it and says that it manages it.
pub data IsSettled (d : Dispatcher) (c : ℕ) : Type 0 where
  waiting : (d.confs c).assigned_to ≡ none → d.dispatch_ok ≡ false → IsSettled d c
  served :
      (s : ℕ)
      → (d.confs c).assigned_to ≡ some s
      → (d.schedulers s).link.alive ≡ true
      → do_i_manage (d.schedulers s).link c (d.confs c).push_flavor ≡ true
      → IsSettled d c

-- What a check does to the rest.
pub record IsKept (d d' : Dispatcher) : Type 0 where
  pub links : (x : ℕ) → (d'.schedulers x).link ≡ (d.schedulers x).link
  pub confs :
      (y : ℕ)
      → (d'.confs y ≡ d.confs y) ⊎ (((d'.confs y).assigned_to ≡ none) × (d'.dispatch_ok ≡ false))
  pub taken : (x : ℕ) → (d'.schedulers x ≡ d.schedulers x) ⊎ ((d'.schedulers x).conf ≡ none)
  pub not_ok : d.dispatch_ok ≡ false → d'.dispatch_ok ≡ false

pub IsKept-refl : (d : Dispatcher) → IsKept d d
IsKept-refl d = record {
  links = λ x. refl;
  confs = λ y. inl refl;
  taken = λ x. inl refl;
  not_ok = λ h. h;
}

pub IsKept-trans : (d d1 d2 : Dispatcher) → IsKept d d1 → IsKept d1 d2 → IsKept d d2
IsKept-trans d d1 d2 p q = record {
  links = λ x. q.links x ∙ p.links x;
  confs = λ y. elim (q.confs y) [
    | inr gone ↦ inr gone
    | inl same ↦ elim (p.confs y) [
      | inl before ↦ inl (same ∙ before)
      | inr (gone, ok) ↦ inr (ap (λ f. f.assigned_to) same ∙ gone, q.not_ok ok)
    ]
  ];
  taken = λ x. elim (q.taken x) [
    | inr gone ↦ inr gone
    | inl same ↦ elim (p.taken x) [
      | inl before ↦ inl (same ∙ before)
      | inr gone ↦ inr (ap (λ l. l.conf) same ∙ gone)
    ]
  ];
  not_ok = λ h. q.not_ok (p.not_ok h);
}

same_link :
    (d : Dispatcher) (s x : ℕ) → (x == s) ≡ true → (d.schedulers x).link ≡ (d.schedulers s).link
same_link d s x h = ap (λ y. (d.schedulers y).link) ((==_iff x s).0 h)

pub take_conf-IsKept : (s : ℕ) (need : Bool) (d : Dispatcher) → IsKept d (take_conf s need d)
unfolding take_conf
take_conf-IsKept s need d = elim (Option-cases (d.schedulers s).conf) [
  | inl e ↦ rw e record {
    links = λ x. ground (arith, same_link d s x);
    confs = λ y. inl refl;
    taken = λ x. elim (Bool-cases (x == s)) [ inl t ↦ rw t (inr refl) | inr f ↦ rw f (inl refl) ];
    not_ok = λ h. refl;
  }
  | inr (c, e) ↦ rw e record {
    links = λ x. ground (arith, same_link d s x);
    confs = λ y. elim (Bool-cases (y == c)) [
      | inl t ↦ rw t (inr (refl, refl))
      | inr f ↦ rw f (inl refl)
    ];
    taken = λ x. elim (Bool-cases (x == s)) [ inl t ↦ rw t (inr refl) | inr f ↦ rw f (inl refl) ];
    not_ok = λ h. refl;
  }
]

-- What the check of an assigned configuration does.
pub data Change (c s : ℕ) (d : Dispatcher) : Dispatcher → Type 0 where
  stays :
      {d' : Dispatcher}
      → d' ≡ d
      → (d.schedulers s).link.alive ≡ true
      → do_i_manage (d.schedulers s).link c (d.confs c).push_flavor ≡ true
      → Change c s d d'
  leaves : {d' : Dispatcher} (need : Bool) → d' ≡ take_conf s need d → Change c s d d'
  leaves_twice :
      {d' : Dispatcher} (need : Bool) → d' ≡ take_conf s true (take_conf s need d) → Change c s d d'

-- The second test of the check, after the first has made d1.
abbrev second_test : ℕ → ℕ → ℕ → Dispatcher → Dispatcher
second_test c push_flavor s d1 =
    if do_i_manage (d1.schedulers s).link c push_flavor then d1 else drop_unmanaged s d1

managed-second_test :
    (c f s : ℕ) (d1 : Dispatcher)
    → do_i_manage (d1.schedulers s).link c f ≡ true
    → second_test c f s d1 ≡ d1
managed-second_test c f s d1 m = ap (λ b. if b then d1 else drop_unmanaged s d1) m

unmanaged-second_test :
    (c f s : ℕ) (d1 : Dispatcher)
    → do_i_manage (d1.schedulers s).link c f ≡ false
    → second_test c f s d1 ≡ take_conf s true d1
unfolding drop_unmanaged
unmanaged-second_test c f s d1 m = ap (λ b. if b then d1 else drop_unmanaged s d1) m

dead_taken : (s : ℕ) (d : Dispatcher) → drop_dead s d ≡ take_conf s (d.schedulers s).need_conf d
unfolding drop_dead
dead_taken s d = refl

pub check_assigned-Change :
    (c s : ℕ) (d : Dispatcher) → Change c s d (check_assigned c (d.confs c).push_flavor s d)
unfolding check_assigned
check_assigned-Change c s d =
    let f = (d.confs c).push_flavor in
    elim (Bool-cases (d.schedulers s).link.alive) [
      | inl a ↦
          let e = ap (λ b. second_test c f s (if b then d else drop_dead s d)) a in
          elim (Bool-cases (do_i_manage (d.schedulers s).link c f)) [
            | inl m ↦ stays (e ∙ managed-second_test c f s d m) a m
            | inr u ↦ leaves true (e ∙ unmanaged-second_test c f s d u)
          ]
      | inr k ↦
          let e = ap (λ b. second_test c f s (if b then d else drop_dead s d)) k in
          elim (Bool-cases (do_i_manage ((drop_dead s d).schedulers s).link c f)) [
            | inl m ↦
                leaves (d.schedulers s).need_conf
                  (e ∙ managed-second_test c f s (drop_dead s d) m ∙ dead_taken s d)
            | inr u ↦ leaves_twice (d.schedulers s).need_conf (
                e
                ∙ unmanaged-second_test c f s (drop_dead s d) u
                ∙ ap (take_conf s true) (dead_taken s d))
          ]
    ]

pub IsSettled-IsKept : (d d' : Dispatcher) (c : ℕ) → IsKept d d' → IsSettled d c → IsSettled d' c
IsSettled-IsKept d d' c kept settled = elim (kept.confs c) [
  | inr (gone, ok) ↦ waiting gone ok
  | inl same ↦ elim settled [
    | waiting a ok ↦ waiting (ap (λ f. f.assigned_to) same ∙ a) (kept.not_ok ok)
    | served s a alive m ↦
        served s (ap (λ f. f.assigned_to) same ∙ a) (ap (λ l. l.alive) (kept.links s) ∙ alive) (
          ap (λ l. do_i_manage l c (d'.confs c).push_flavor) (kept.links s)
          ∙ ap (λ f. do_i_manage (d.schedulers s).link c f.push_flavor) same
          ∙ m)
  ]
]

pub taken-IsSettled :
    (c s : ℕ) (need : Bool) (d : Dispatcher)
    → (d.schedulers s).conf ≡ some c
    → IsSettled (take_conf s need d) c
unfolding take_conf
taken-IsSettled c s need d e = rw e (waiting (ground (arith, ==_iff c c)) refl)
