-- ===== src/Dispatcher/Matching.antt =====
-- The configurations and the schedulers that have them are matched with one another.
use shinken_gpt.Prelude.{
  ℕ, ◌≡◌, ap, Bool, true, not, none, some, ◌==◌, inl, inr, arith, Option-cases, ==_iff,
}
use shinken_gpt.Dispatcher.{Dispatcher, has_none, take_conf}

-- A configuration is assigned to the scheduler that has it, and marked as assigned then.
pub record IsMatched (d : Dispatcher) : Type 0 where
  pub held : (c s : ℕ) → (d.confs c).assigned_to ≡ some s → (d.schedulers s).conf ≡ some c
  pub given : (s c : ℕ) → (d.schedulers s).conf ≡ some c → (d.confs c).assigned_to ≡ some s
  pub flagged : (c : ℕ) → (d.confs c).is_assigned ≡ not (has_none (d.confs c).assigned_to)

pub same_conf :
    (d : Dispatcher) (s x : ℕ) → (x == s) ≡ true → (d.schedulers x).conf ≡ (d.schedulers s).conf
same_conf d s x h = ap (λ y. (d.schedulers y).conf) ((==_iff x s).0 h)

pub same_assigned :
    (d : Dispatcher) (c y : ℕ) → (y == c) ≡ true → (d.confs y).assigned_to ≡ (d.confs c).assigned_to
same_assigned d c y h = ap (λ z. (d.confs z).assigned_to) ((==_iff y c).0 h)

module _ (d : Dispatcher) (matched : IsMatched d) (s : ℕ) (need : Bool) where
  take_nothing : (d.schedulers s).conf ≡ none → IsMatched (take_conf s need d)
  unfolding take_conf
  take_nothing e = rw e record {
    held = λ c x h. ground (arith, matched.held c x, same_conf d s x);
    given = λ x c h. ground (arith, matched.given x c, same_conf d s x);
    flagged = matched.flagged;
  }

  take_one : (c : ℕ) → (d.schedulers s).conf ≡ some c → IsMatched (take_conf s need d)
  unfolding take_conf
  take_one c e = rw e record {
    held = λ y x h. ground (arith, matched.held y x, same_conf d s x, ==_iff y c);
    given = λ x y h.
        ground (arith, matched.given x y, matched.given s c e, same_assigned d c y, ==_iff x s);
    flagged = λ y. ground (arith, matched.flagged y);
  }

  pub take_conf-IsMatched : IsMatched (take_conf s need d)
  take_conf-IsMatched = elim (Option-cases (d.schedulers s).conf) [
    | inl e ↦ take_nothing e
    | inr (c, e) ↦ take_one c e
  ]
