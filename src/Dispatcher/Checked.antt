-- ===== src/Dispatcher/Checked.antt =====
-- What `check_dispatch` leaves: the configurations that are on living schedulers, and the others.
use shinken_gpt.Prelude.{
  ℕ, ◌≡◌, refl, sym, ap, subst, true, false, none, some, List, [], ◌∷◌, inl, inr, Option-cases, All,
}
use shinken_gpt.Dispatcher.{
  Dispatcher, take_conf, check_assigned, check_by, check_conf, check_dispatch,
}
use shinken_gpt.Dispatcher.Matching.{IsMatched, take_conf-IsMatched}
use shinken_gpt.Dispatcher.Changes.{
  Change, IsKept, IsKept-refl, IsKept-trans, IsSettled, IsSettled-IsKept, check_assigned-Change,
  leaves, leaves_twice, served, stays, take_conf-IsKept, taken-IsSettled, waiting,
}

-- What `check_conf` has done, when the configurations and the schedulers were matched.
record IsChecked (d d' : Dispatcher) (c : ℕ) : Type 0 where
  matched : IsMatched d'
  kept : IsKept d d'
  settled : IsSettled d' c

Change-IsChecked :
    (c s : ℕ) (d d' : Dispatcher)
    → IsMatched d
    → (d.confs c).assigned_to ≡ some s
    → Change c s d d'
    → IsChecked d d' c
Change-IsChecked c s d d' m a (stays e alive managed) =
    subst (λ x. IsChecked d x c) (sym e)
      (record { matched = m; kept = IsKept-refl d; settled = served s a alive managed })
Change-IsChecked c s d d' m a (leaves need e) =
    subst (λ x. IsChecked d x c) (sym e)
      (record {
        matched = take_conf-IsMatched d m s need;
        kept = take_conf-IsKept s need d;
        settled = taken-IsSettled c s need d (m.held c s a);
      })
Change-IsChecked c s d d' m a (leaves_twice need e) =
    let d1 = take_conf s need d in
    let again = take_conf-IsKept s true d1 in
    subst (λ x. IsChecked d x c) (sym e)
      (record {
        matched = take_conf-IsMatched d1 (take_conf-IsMatched d m s need) s true;
        kept = IsKept-trans d d1 (take_conf s true d1) (take_conf-IsKept s need d) again;
        settled =
            IsSettled-IsKept d1 (take_conf s true d1) c again
              (taken-IsSettled c s need d (m.held c s a));
      })

check_conf-waiting :
    (c : ℕ) (d : Dispatcher)
    → (d.confs c).assigned_to ≡ none
    → check_conf c d ≡ record d { dispatch_ok = false }
unfolding check_conf
check_conf-waiting c d e = ap (check_by c d) e

check_conf-assigned :
    (c s : ℕ) (d : Dispatcher)
    → (d.confs c).assigned_to ≡ some s
    → check_conf c d ≡ check_assigned c (d.confs c).push_flavor s d
unfolding check_conf
check_conf-assigned c s d e = ap (check_by c d) e

check_conf-IsChecked : (c : ℕ) (d : Dispatcher) → IsMatched d → IsChecked d (check_conf c d) c
check_conf-IsChecked c d m = elim (Option-cases (d.confs c).assigned_to) [
  | inl e ↦
      subst (λ x. IsChecked d x c) (sym (check_conf-waiting c d e))
        (record {
          matched = record { held = m.held; given = m.given; flagged = m.flagged };
          kept = record {
            links = λ x. refl;
            confs = λ y. inl refl;
            taken = λ x. inl refl;
            not_ok = λ h. refl;
          };
          settled = waiting e refl;
        })
  | inr (s, e) ↦
      subst (λ x. IsChecked d x c) (sym (check_conf-assigned c s d e))
        (Change-IsChecked c s d (check_assigned c (d.confs c).push_flavor s d) m e
          (check_assigned-Change c s d))
]

pub check_dispatch-IsKept :
    (cs : List ℕ) (d : Dispatcher) → IsMatched d → IsKept d (check_dispatch cs d)
unfolding check_dispatch
check_dispatch-IsKept [] d m = IsKept-refl d
check_dispatch-IsKept (c ∷ cs) d m =
    let p = check_conf-IsChecked c d m in
    IsKept-trans d (check_conf c d) (check_dispatch cs (check_conf c d)) p.kept
      (check_dispatch-IsKept cs (check_conf c d) p.matched)

-- When configurations and schedulers are matched, they are matched after `check_dispatch`. Each
-- configuration that it has checked then either waits, and a dispatch is asked for, or is on a
-- living scheduler that says that it manages it with the flavor of its last push.
pub check_dispatch-IsSettled :
    (cs : List ℕ) (d : Dispatcher)
    → IsMatched d
    → IsMatched (check_dispatch cs d) × All (IsSettled (check_dispatch cs d)) cs
unfolding check_dispatch
check_dispatch-IsSettled [] d m = (m, tt)
check_dispatch-IsSettled (c ∷ cs) d m =
    let p = check_conf-IsChecked c d m in
    let (m', rest) = check_dispatch-IsSettled cs (check_conf c d) p.matched in
    (
      m',
      (
        IsSettled-IsKept (check_conf c d) (check_dispatch cs (check_conf c d)) c
            (check_dispatch-IsKept cs (check_conf c d) p.matched) p.settled,
        rest,
      ),
    )
