-- ===== src/Dispatcher/Assigned.antt =====
-- When there are schedulers enough, the dispatch of a realm assigns all its configurations.
use shinken_gpt.Prelude.{
  ℕ, suc, ◌≤◌, ◌≡◌, ◌⊎◌, refl, sym, ap, ◌∙◌, subst, Bool, true, false, not, List, [], ◌∷◌, ◌==◌,
  if◌then◌else◌, inl, inr, arith, Bool-cases, ==_iff, All, contains, keep, contains-keep, if_cases,
  count_if, length,
}
use shinken_gpt.Dispatcher.{
  Dispatcher, Realm, Pushes, has_none, record_push, place, place_all, dispatch_realm,
  get_scheduler_ordered_list,
}
use shinken_gpt.Dispatcher.Matching.{IsMatched}
use shinken_gpt.Dispatcher.Placed.{
  IsReady, IsDistinct, Unassigned, place-IsPlaced, Unassigned-kept, rest-Unassigned,
  keep-IsDistinct,
}

abbrev pub needs : Dispatcher → ℕ → Bool
needs d s = (d.schedulers s).need_conf

-- What the loop over the schedulers gives when one of them needs a configuration.
record IsGiven (c : ℕ) (ss : List ℕ) (d : Dispatcher) (q : List ℕ × Dispatcher) : Type 0 where
  given : has_none (q.1.confs c).assigned_to ≡ false
  distinct : IsDistinct q.0
  enough : count_if (needs d) ss ≤ suc (count_if (needs q.1) q.0)

pushed_needs :
    (flavor c s x : ℕ) (d : Dispatcher)
    → (x == s) ≡ false
    → needs (record_push flavor c s d) x ≡ needs d x
unfolding record_push
pushed_needs flavor c s x d h = ground (arith, h)

count-pushed :
    (flavor c s : ℕ) (ss : List ℕ) (d : Dispatcher)
    → contains s ss ≡ false
    → count_if (needs d) ss ≡ count_if (needs (record_push flavor c s d)) ss
count-pushed flavor c s [] d h = refl
count-pushed flavor c s (x ∷ ss) d h =
    let same = pushed_needs flavor c s x d (ground arith) in
    let rest = count-pushed flavor c s ss d (ground arith) in
    ap (λ n. if needs d x then suc n else n) rest
    ∙ ap
        (λ b.
          if b
          then suc (count_if (needs (record_push flavor c s d)) ss)
          else count_if (needs (record_push flavor c s d)) ss)
        (sym same)

pushed_given :
    (flavor c s : ℕ) (d : Dispatcher)
    → has_none ((record_push flavor c s d).confs c).assigned_to ≡ false
unfolding record_push
pushed_given flavor c s d = ground (arith, ==_iff c c)

module _ (pushes : Pushes) (all_sent : (c s : ℕ) → pushes.is_sent c s ≡ true) where
  place-IsGiven :
      (c : ℕ) (ss : List ℕ) (d : Dispatcher)
      → IsDistinct ss
      → 1 ≤ count_if (needs d) ss
      → IsGiven c ss d (place pushes c ss d)
  unfolding place
  place-IsGiven c [] d h n = absurd (omega arith)
  place-IsGiven c (s ∷ ss) d (fresh, h) n =
      if_cases (λ (q : List ℕ × Dispatcher). IsGiven c (s ∷ ss) d q) (needs d s)
        (λ e.
          if_cases (λ (q : List ℕ × Dispatcher). IsGiven c (s ∷ ss) d q) (pushes.is_sent c s)
            (λ sent. record {
              given = pushed_given (pushes.flavor c s) c s d;
              distinct = h;
              enough = ground (arith, e, count-pushed (pushes.flavor c s) c s ss d fresh);
            })
            (λ failed. absurd (ground (arith, all_sent c s, failed))))
        (λ e.
          let g = place-IsGiven c ss d h (ground (arith, e, n)) in
          record { given = g.given; distinct = g.distinct; enough = ground (arith, e, g.enough) })

  place_all-assigns :
      (cs ss : List ℕ) (d : Dispatcher)
      → IsDistinct cs
      → IsDistinct ss
      → length cs ≤ count_if (needs d) ss
      → Unassigned d cs
      → IsMatched d
      → IsReady d
      → (y : ℕ) → (has_none (d.confs y).assigned_to ≡ false) ⊎ (contains y cs ≡ true)
      → has_none ((place_all pushes cs ss d).confs y).assigned_to ≡ false
  unfolding place_all
  place_all-assigns [] ss d dc ds le a m r y (inl h) = h
  place_all-assigns [] ss d dc ds le a m r y (inr h) = cc
  place_all-assigns (c ∷ cs) ss d (fresh, dc) ds le (free, a) m r y h =
      let q = place pushes c ss d in
      let p = place-IsPlaced pushes c ss d m r free in
      let g = place-IsGiven c ss d ds (omega arith) in
      place_all-assigns cs q.0 q.1 dc g.distinct (omega (arith, g.enough))
        (rest-Unassigned c cs d q.1 p.others fresh a) p.matched p.ready y
        (elim (Bool-cases (y == c)) [
          | inl t ↦ inl (
              subst (λ z. has_none (q.1.confs z).assigned_to ≡ false) (sym ((==_iff y c).0 t))
                g.given)
          | inr f ↦ elim h [
            | inl before ↦ inl (ap has_none (p.others y f) ∙ before)
            | inr later ↦ inr (ground (arith, later, ==_iff c y, f, ==_iff y c))
          ]
        ])

-- The schedulers that a realm's dispatch takes, in their order.
abbrev pub candidates : Dispatcher → Realm → List ℕ
candidates d r = keep (λ s. (d.schedulers s).link.alive) (get_scheduler_ordered_list d r)

abbrev pub unassigned : Dispatcher → Realm → List ℕ
unassigned d r = keep (λ c. not (d.confs c).is_assigned) r.confs

realm_assigns :
    (pushes : Pushes) (r : Realm) (d : Dispatcher)
    → ((c s : ℕ) → pushes.is_sent c s ≡ true)
    → IsDistinct r.confs
    → IsDistinct (candidates d r)
    → length (unassigned d r) ≤ count_if (needs d) (candidates d r)
    → IsMatched d
    → IsReady d
    → (c : ℕ) → contains c r.confs ≡ true
    → has_none ((dispatch_realm pushes r d).confs c).assigned_to ≡ false
unfolding dispatch_realm
realm_assigns pushes r d sent dc ds le m ready c h =
    place_all-assigns pushes sent (unassigned d r) (candidates d r) d
      (keep-IsDistinct (λ c. not (d.confs c).is_assigned) r.confs dc) ds le
      (Unassigned-kept d r.confs m) m ready c
      (elim (Bool-cases (d.confs c).is_assigned) [
        | inl a ↦ inl (ground (arith, a, m.flagged c))
        | inr n ↦
            inr (contains-keep (λ c. not (d.confs c).is_assigned) c r.confs ∙ ground (arith, h, n))
      ])

within :
    (pushes : Pushes) (r : Realm) (d : Dispatcher) (cs : List ℕ)
    → ((c : ℕ)
        → contains c r.confs ≡ true
        → has_none ((dispatch_realm pushes r d).confs c).assigned_to ≡ false)
    → ((c : ℕ) → contains c cs ≡ true → contains c r.confs ≡ true)
    → All (λ c. has_none ((dispatch_realm pushes r d).confs c).assigned_to ≡ false) cs
within pushes r d [] h part = tt
within pushes r d (c ∷ cs) h part = (
  h c (part c (ground (arith, ==_iff c c))),
  within pushes r d cs h (λ x k. part x (ground (arith, k))),
)

-- After the dispatch of a realm each of its configurations is assigned, when configurations and
-- schedulers were matched and no scheduler with a configuration needed one, all pushes get
-- through, and as many distinct living schedulers of the realm, or spares of the realms above,
-- need a configuration as configurations are unassigned.
pub dispatch_realm-assigns :
    (pushes : Pushes) (r : Realm) (d : Dispatcher)
    → ((c s : ℕ) → pushes.is_sent c s ≡ true)
    → IsDistinct r.confs
    → IsDistinct (candidates d r)
    → length (unassigned d r) ≤ count_if (needs d) (candidates d r)
    → IsMatched d
    → IsReady d
    → All (λ c. has_none ((dispatch_realm pushes r d).confs c).assigned_to ≡ false) r.confs
dispatch_realm-assigns pushes r d sent dc ds le m ready =
    within pushes r d r.confs (realm_assigns pushes r d sent dc ds le m ready) (λ c h. h)
