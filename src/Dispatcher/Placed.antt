-- ===== src/Dispatcher/Placed.antt =====
-- The placement of the configurations on the schedulers that need one.
use shinken_gpt.Prelude.{
  ℕ, ◌≡◌, refl, sym, ap, ◌∙◌, subst, Bool, true, false, not, ◌&&◌, none, some, List, [], ◌∷◌, ◌==◌,
  inl, inr, arith, Bool-cases, ==_iff, All, contains, keep, contains-keep, if_cases,
}
use shinken_gpt.Dispatcher.{
  Dispatcher, Realm, Pushes, record_push, fail_push, place, place_all, dispatch_realm,
  dispatch_realms,
}
use shinken_gpt.Dispatcher.Matching.{IsMatched, same_conf, same_assigned}

-- No scheduler that has a configuration needs one.
pub record IsReady (d : Dispatcher) : Type 0 where
  pub free : (s : ℕ) → (d.schedulers s).need_conf ≡ true → (d.schedulers s).conf ≡ none

pub record IsPlaced (c : ℕ) (d d' : Dispatcher) : Type 0 where
  pub matched : IsMatched d'
  pub ready : IsReady d'
  pub others : (y : ℕ) → (y == c) ≡ false → (d'.confs y).assigned_to ≡ (d.confs y).assigned_to

same_need :
    (d : Dispatcher) (s x : ℕ)
    → (x == s) ≡ true
    → (d.schedulers x).need_conf ≡ (d.schedulers s).need_conf
same_need d s x h = ap (λ y. (d.schedulers y).need_conf) ((==_iff x s).0 h)

same_flag :
    (d : Dispatcher) (c y : ℕ) → (y == c) ≡ true → (d.confs y).is_assigned ≡ (d.confs c).is_assigned
same_flag d c y h = ap (λ z. (d.confs z).is_assigned) ((==_iff y c).0 h)

module _ (flavor c s : ℕ) (d : Dispatcher) (matched : IsMatched d) (ready : IsReady d) where
  fail_push-IsPlaced : IsPlaced c d (fail_push flavor c s d)
  unfolding fail_push
  fail_push-IsPlaced = record {
    matched = record {
      held = λ y x h. ground (arith, matched.held y x, same_conf d s x, same_assigned d c y);
      given = λ x y h. ground (arith, matched.given x y, same_conf d s x, same_assigned d c y);
      flagged = λ y. ground (arith, matched.flagged y, same_assigned d c y, same_flag d c y);
    };
    ready = record { free = λ x h. ground (arith, ready.free x, same_need d s x, same_conf d s x) };
    others = λ y h. ground (arith, h);
  }

  record_push-IsPlaced :
      (d.confs c).assigned_to ≡ none
      → (d.schedulers s).need_conf ≡ true
      → IsPlaced c d (record_push flavor c s d)
  unfolding record_push
  record_push-IsPlaced a n =
      let idle = ready.free s n in
      record {
        matched = record {
          held = λ y x h.
              ground (
                arith,
                idle,
                matched.held y x,
                same_conf d s x,
                ==_iff y c,
                ==_iff x s,
                ==_iff s s,
              );
          given = λ x y h. ground (
            arith,
            a,
            matched.given x y,
            same_assigned d c y,
            ==_iff y c,
            ==_iff x s,
            ==_iff c c,
          );
          flagged = λ y. ground (arith, matched.flagged y);
        };
        ready = record { free = λ x h. ground (arith, ready.free x) };
        others = λ y h. ground (arith, h);
      }

IsPlaced-trans :
    (c : ℕ) (d d1 d2 : Dispatcher) → IsPlaced c d d1 → IsPlaced c d1 d2 → IsPlaced c d d2
IsPlaced-trans c d d1 d2 p q = record {
  matched = q.matched;
  ready = q.ready;
  others = λ y h. q.others y h ∙ p.others y h;
}

failed_unassigned :
    (flavor : ℕ) (d : Dispatcher) (c s : ℕ)
    → (d.confs c).assigned_to ≡ none
    → ((fail_push flavor c s d).confs c).assigned_to ≡ none
unfolding fail_push
failed_unassigned flavor d c s a = ground (arith, ==_iff c c)

pub place-IsPlaced :
    (pushes : Pushes) (c : ℕ) (ss : List ℕ) (d : Dispatcher)
    → IsMatched d
    → IsReady d
    → (d.confs c).assigned_to ≡ none
    → IsPlaced c d (place pushes c ss d).1
unfolding place
place-IsPlaced pushes c [] d m r a = record {
  matched = record { held = m.held; given = m.given; flagged = m.flagged };
  ready = record { free = r.free };
  others = λ y h. refl;
}
place-IsPlaced pushes c (s ∷ ss) d m r a =
    if_cases (λ (q : List ℕ × Dispatcher). IsPlaced c d q.1) (d.schedulers s).need_conf
      (λ n.
        if_cases (λ (q : List ℕ × Dispatcher). IsPlaced c d q.1) (pushes.is_sent c s)
          (λ e. record_push-IsPlaced (pushes.flavor c s) c s d m r a n)
          (λ e.
            let d1 = fail_push (pushes.flavor c s) c s d in
            let p = fail_push-IsPlaced (pushes.flavor c s) c s d m r in
            IsPlaced-trans c d d1 (place pushes c ss d1).1 p (
              place-IsPlaced pushes c ss d1 p.matched p.ready
                (failed_unassigned (pushes.flavor c s) d c s a))))
      (λ n. place-IsPlaced pushes c ss d m r a)

-- No two entries are the same.
abbrev pub IsDistinct : List ℕ → Type 0
IsDistinct [] = Unit {0}
IsDistinct (c ∷ cs) = (contains c cs ≡ false) × IsDistinct cs

abbrev pub Unassigned : Dispatcher → List ℕ → Type 0
Unassigned d = All (λ c. (d.confs c).assigned_to ≡ none)

pub rest-Unassigned :
    (c : ℕ) (cs : List ℕ) (d d' : Dispatcher)
    → ((y : ℕ) → (y == c) ≡ false → (d'.confs y).assigned_to ≡ (d.confs y).assigned_to)
    → contains c cs ≡ false
    → Unassigned d cs
    → Unassigned d' cs
rest-Unassigned c [] d d' others h a = tt
rest-Unassigned c (y ∷ cs) d d' others h (a, rest) =
    (others y (ground arith) ∙ a, rest-Unassigned c cs d d' others (ground arith) rest)

-- Every configuration that is assigned is one of the list.
pub record IsCovered (all : List ℕ) (d : Dispatcher) : Type 0 where
  pub known : (c s : ℕ) → (d.confs c).assigned_to ≡ some s → contains c all ≡ true

pub record IsSound (all : List ℕ) (d : Dispatcher) : Type 0 where
  pub matched : IsMatched d
  pub ready : IsReady d
  pub covered : IsCovered all d

placed-IsCovered :
    (all : List ℕ) (c : ℕ) (d d' : Dispatcher)
    → contains c all ≡ true
    → ((y : ℕ) → (y == c) ≡ false → (d'.confs y).assigned_to ≡ (d.confs y).assigned_to)
    → IsCovered all d
    → IsCovered all d'
placed-IsCovered all c d d' k others h = record {
  known = λ y s e. elim (Bool-cases (y == c)) [
    | inl t ↦ subst (λ z. contains z all ≡ true) (sym ((==_iff y c).0 t)) k
    | inr f ↦ h.known y s (sym (others y f) ∙ e)
  ];
}

place_all-IsSound :
    (pushes : Pushes) (all cs ss : List ℕ) (d : Dispatcher)
    → IsDistinct cs
    → All (λ c. contains c all ≡ true) cs
    → Unassigned d cs
    → IsSound all d
    → IsSound all (place_all pushes cs ss d)
unfolding place_all
place_all-IsSound pushes all [] ss d distinct known a sound = sound
place_all-IsSound pushes all (c ∷ cs) ss d (fresh, distinct) (k, known) (free, a) sound =
    let (left, d1) = place pushes c ss d in
    let p = place-IsPlaced pushes c ss d sound.matched sound.ready free in
    place_all-IsSound pushes all cs left d1 distinct known
      (rest-Unassigned c cs d d1 p.others fresh a)
      (record {
        matched = p.matched;
        ready = p.ready;
        covered = placed-IsCovered all c d d1 k p.others sound.covered;
      })

pub keep-IsDistinct : (p : ℕ → Bool) (cs : List ℕ) → IsDistinct cs → IsDistinct (keep p cs)
keep-IsDistinct p [] h = tt
keep-IsDistinct p (c ∷ cs) (fresh, h) =
    if_cases IsDistinct (p c)
      (λ e. (contains-keep p c cs ∙ ap (λ b. b && p c) fresh, keep-IsDistinct p cs h))
      (λ e. keep-IsDistinct p cs h)

keep-All : (P : ℕ → Type 0) (p : ℕ → Bool) (cs : List ℕ) → All P cs → All P (keep p cs)
keep-All P p [] h = tt
keep-All P p (c ∷ cs) (x, h) =
    if_cases (All P) (p c) (λ e. (x, keep-All P p cs h)) (λ e. keep-All P p cs h)

pub Unassigned-kept :
    (d : Dispatcher) (cs : List ℕ)
    → IsMatched d
    → Unassigned d (keep (λ c. not (d.confs c).is_assigned) cs)
Unassigned-kept d [] m = tt
Unassigned-kept d (c ∷ cs) m =
    if_cases (Unassigned d) (not (d.confs c).is_assigned)
      (λ e. (ground (arith, m.flagged c, e), Unassigned-kept d cs m)) (λ e. Unassigned-kept d cs m)

dispatch_realm-IsSound :
    (pushes : Pushes) (all : List ℕ) (r : Realm) (d : Dispatcher)
    → IsDistinct r.confs
    → All (λ c. contains c all ≡ true) r.confs
    → IsSound all d
    → IsSound all (dispatch_realm pushes r d)
unfolding dispatch_realm
dispatch_realm-IsSound pushes all r d distinct known sound =
    let p = λ (c : ℕ). not (d.confs c).is_assigned in
    place_all-IsSound pushes all (keep p r.confs) _ d (keep-IsDistinct p r.confs distinct)
      (keep-All (λ c. contains c all ≡ true) p r.confs known)
      (Unassigned-kept d r.confs sound.matched) sound

-- Each realm has each of its configurations once, and they are among those of the dispatcher.
abbrev pub IsRealm : List ℕ → Realm → Type 0
IsRealm all r = IsDistinct r.confs × All (λ c. contains c all ≡ true) r.confs

pub dispatch_realms-IsSound :
    (pushes : Pushes) (all : List ℕ) (rs : List Realm) (d : Dispatcher)
    → All (IsRealm all) rs
    → IsSound all d
    → IsSound all (dispatch_realms pushes rs d)
unfolding dispatch_realms
dispatch_realms-IsSound pushes all [] d h sound = sound
dispatch_realms-IsSound pushes all (r ∷ rs) d ((distinct, known), h) sound =
    dispatch_realms-IsSound pushes all rs (dispatch_realm pushes r d) h
      (dispatch_realm-IsSound pushes all r d distinct known sound)
