-- ===== src/Dispatcher/Rounds.antt =====
-- A turn of the arbiter's loop: `check_alive`, `check_dispatch` and `dispatch` (shinken/daemons/
-- arbiterdaemon.py, run).
use shinken_gpt.Prelude.{
  ℕ, ◌≡◌, refl, sym, ap, ◌∙◌, subst, true, not, ◌&&◌, some, List, [], ◌∷◌, ◌==◌, inl, inr, arith,
  Bool-cases, Option-cases, ==_iff, All, contains, if_cases,
}
use shinken_gpt.Dispatcher.{
  Dispatcher, Realm, Pushes, News, has_none, check_alive, set_scheduler, check_dispatch,
  calm_schedulers, dispatch_realms, dispatch, all_assigned, turn,
}
use shinken_gpt.Dispatcher.Matching.{IsMatched, same_conf}
use shinken_gpt.Dispatcher.Changes.{IsSettled, waiting, served, IsKept}
use shinken_gpt.Dispatcher.Checked.{check_dispatch-IsKept, check_dispatch-IsSettled}
use shinken_gpt.Dispatcher.Placed.{
  IsReady, IsCovered, IsSound, IsRealm, IsDistinct, dispatch_realms-IsSound,
}
use shinken_gpt.Dispatcher.Asked.{
  Asks, IsAsking, IsSame, IsSame-IsCovered, IsSame-IsMatched, IsSame-trans, ReadyAt,
  check_alive-IsAsking,
}

IsKept-IsAsking : (d d' : Dispatcher) → IsKept d d' → IsAsking d → IsAsking d'
IsKept-IsAsking d d' kept a = record {
  asking = λ x. elim (kept.taken x) [
    | inl same ↦ subst Asks (sym same) (a.asking x)
    | inr gone ↦ λ n. inr gone
  ];
}

IsKept-IsCovered :
    (all : List ℕ) (d d' : Dispatcher) → IsKept d d' → IsCovered all d → IsCovered all d'
IsKept-IsCovered all d d' kept h = record {
  known = λ c s a. elim (kept.confs c) [
    | inl same ↦ h.known c s (sym (ap (λ f. f.assigned_to) same) ∙ a)
    | inr (gone, ok) ↦ absurd (ground (arith, gone, a))
  ];
}

All-contains : (P : ℕ → Type 0) (cs : List ℕ) (c : ℕ) → All P cs → contains c cs ≡ true → P c
All-contains P [] c h e = cc
All-contains P (x ∷ cs) c (p, h) e = elim (Bool-cases (x == c)) [
  | inl t ↦ subst P ((==_iff x c).0 t) p
  | inr f ↦ All-contains P cs c h (ground (arith, f, e))
]

settled-alive :
    (d : Dispatcher) (c s : ℕ)
    → IsSettled d c
    → (d.confs c).assigned_to ≡ some s
    → (d.schedulers s).link.alive ≡ true
settled-alive d c s (waiting a ok) e = absurd (ground (arith, a, e))
settled-alive d c s (served x a alive m) e =
    let same : x ≡ s = cc (a, e) in subst (λ y. (d.schedulers y).link.alive ≡ true) same alive

-- After the check a scheduler that needs a configuration has none.
checked-IsReady :
    (all : List ℕ) (d : Dispatcher)
    → IsMatched d
    → IsCovered all d
    → IsAsking d
    → All (IsSettled d) all
    → IsReady d
checked-IsReady all d m covered a settled = record {
  free = λ s n. elim (a.asking s n) [
    | inr e ↦ e
    | inl dead ↦ elim (Option-cases (d.schedulers s).conf) [
      | inl e ↦ e
      | inr (c, e) ↦
          let assigned = m.given s c e in
          let alive =
            settled-alive d c s
              (All-contains (IsSettled d) all c settled (covered.known c s assigned)) assigned in
          absurd (ground (arith, alive, dead))
    ]
  ];
}

calm-IsSame : (ss : List ℕ) (d : Dispatcher) → IsSame d (calm_schedulers ss d)
unfolding calm_schedulers
calm-IsSame [] d = record { confs = λ c. refl; held = λ s. refl }
calm-IsSame (s ∷ ss) d =
    let l = d.schedulers s in
    let d1 = set_scheduler s (record l { need_conf = not (has_none l.conf) && l.need_conf }) d in
    IsSame-trans d d1 (calm_schedulers ss d1)
      (record { confs = λ c. refl; held = λ x. ground (arith, same_conf d s x) })
      (calm-IsSame ss d1)

calm-IsReady : (ss : List ℕ) (d : Dispatcher) → IsReady d → IsReady (calm_schedulers ss d)
unfolding calm_schedulers
calm-IsReady [] d r = r
calm-IsReady (s ∷ ss) d r =
    let l = d.schedulers s in
    calm-IsReady ss
      (set_scheduler s (record l { need_conf = not (has_none l.conf) && l.need_conf }) d)
      (record { free = λ x n. ground (arith, r.free x, r.free s, same_conf d s x) })

dispatch-IsSound :
    (pushes : Pushes) (rs : List Realm) (all ss : List ℕ) (d : Dispatcher)
    → All (IsRealm all) rs
    → IsSound all d
    → IsSound all (dispatch pushes rs all ss d)
unfolding dispatch
dispatch-IsSound pushes rs all ss d realms sound =
    let d' = record d { first_dispatch_done = true } in
    let begun : IsSound all d' = record {
      matched = record {
        held = sound.matched.held;
        given = sound.matched.given;
        flagged = sound.matched.flagged;
      };
      ready = record { free = sound.ready.free };
      covered = record { known = sound.covered.known };
    } in
    if_cases (IsSound all) d.dispatch_ok (λ ok. begun)
      (λ not_ok.
        let d1 = dispatch_realms pushes rs d' in
        let s1 = dispatch_realms-IsSound pushes all rs d' realms begun in
        let d2 = record d1 { dispatch_ok = true } in
        let same =
          IsSame-trans d1 d2 (calm_schedulers ss d2)
            (record { confs = λ c. refl; held = λ s. refl }) (calm-IsSame ss d2) in
        if_cases (IsSound all) (all_assigned all d1)
          (λ full. record {
            matched = IsSame-IsMatched d1 (calm_schedulers ss d2) same s1.matched;
            ready = calm-IsReady ss d2 (record { free = s1.ready.free });
            covered = IsSame-IsCovered all d1 (calm_schedulers ss d2) same s1.covered;
          })
          (λ missing. s1))

all_ready : (d : Dispatcher) (ss : List ℕ) → IsReady d → All (ReadyAt d) ss
all_ready d [] r = tt
all_ready d (s ∷ ss) r = (r.free s, all_ready d ss r)

-- A turn of the arbiter keeps the dispatch sound, whatever the schedulers answer and whichever
-- pushes fail: the configurations that are assigned and the schedulers that have them are matched
-- with one another, no scheduler that has a configuration needs one, and only configurations of
-- the arbiter are assigned. It does so when the schedulers are distinct and each realm has its
-- configurations once, all of them among those that are checked.
pub turn-IsSound :
    (now : ℕ) (news : News) (pushes : Pushes) (rs : List Realm) (all ss : List ℕ) (d : Dispatcher)
    → IsDistinct ss
    → All (IsRealm all) rs
    → IsSound all d
    → IsSound all (turn now news pushes rs all ss d)
unfolding turn
turn-IsSound now news pushes rs all ss d distinct realms sound =
    let d1 = check_alive now news ss d in
    let (same, asking) =
      check_alive-IsAsking now news ss d distinct (all_ready d ss sound.ready)
        (record { asking = λ s n. inr (sound.ready.free s n) }) in
    let m1 = IsSame-IsMatched d d1 same sound.matched in
    let d2 = check_dispatch all d1 in
    let kept = check_dispatch-IsKept all d1 m1 in
    let (m2, settled) = check_dispatch-IsSettled all d1 m1 in
    let covered = IsKept-IsCovered all d1 d2 kept (IsSame-IsCovered all d d1 same sound.covered) in
    dispatch-IsSound pushes rs all ss d2 realms (record {
      matched = m2;
      ready = checked-IsReady all d2 m2 covered (IsKept-IsAsking d1 d2 kept asking) settled;
      covered = covered;
    })
