-- ===== src/SchedulingItem/Attempts/Sets.antt =====
-- What the parts of the cases of `consume_state_result` do to the attempts of their item.
use shinken_gpt.Prelude.{
  ◌≤◌, ℕ, ◌≡◌, refl, ap, ◌∙◌, Bool, true, false, none, if◌then◌else◌, ◌==◌, arith,
}
use shinken_gpt.SchedulingItem.Types.{Item, Tries, hard, problem, NotificationType}
use shinken_gpt.SchedulingItem.World.{World, on}
use shinken_gpt.SchedulingItem.Notify.{get_event_handlers}
use shinken_gpt.SchedulingItem.Acks.{unacknowledge_problem, unacknowledge_problem_if_not_sticky}
use shinken_gpt.SchedulingItem.Phases.{update_hard_unknown_phase_state}
use shinken_gpt.SchedulingItem.Cases.{first_attempt, notify_unless, problem_unless, renotify}
use shinken_gpt.SchedulingItem.Keeps.{
  Keeps, Keeps-refl, ◌⨾◌, Keeps-if, Keeps-on, create-Keeps, remove-Keeps,
}
use shinken_gpt.SchedulingItem.Keeps.Problems.{set_myself_as_problem-Keeps}
use shinken_gpt.SchedulingItem.Attempts.{rested}

-- `w'` differs from `w` in the tries of one item, which are `t` there, and otherwise as `Keeps` says.
pub record Sets (self : ℕ) (t : Tries) (w w' : World) : Type 0 where
  pub checks : w'.checks ≡ w.checks
  pub next_id : w.next_id ≤ w'.next_id
  pub conf : (i : ℕ) → (w'.items i).conf ≡ (w.items i).conf
  pub tries : (i : ℕ) → (w'.items i).tries ≡ (if i == self then t else (w.items i).tries)

module _ {self : ℕ} {t : Tries} {w w' w'' : World} where
  pub Sets-then : Sets self t w w' → Keeps w' w'' → Sets self t w w''
  Sets-then p q = record {
    checks = q.checks ∙ p.checks;
    next_id = ground (arith, p.next_id, q.next_id);
    conf = λ i. q.conf i ∙ p.conf i;
    tries = λ i. q.tries i ∙ p.tries i;
  }

  pub then-Sets : Keeps w w' → Sets self t w' w'' → Sets self t w w''
  then-Sets p q = record {
    checks = q.checks ∙ p.checks;
    next_id = ground (arith, p.next_id, q.next_id);
    conf = λ i. q.conf i ∙ p.conf i;
    tries = λ i. q.tries i ∙ ap (λ r. if i == self then t else r) (p.tries i);
  }

  pub Sets-Sets : {s : Tries} → Sets self s w w' → Sets self t w' w'' → Sets self t w w''
  Sets-Sets p q = record {
    checks = q.checks ∙ p.checks;
    next_id = ground (arith, p.next_id, q.next_id);
    conf = λ i. q.conf i ∙ p.conf i;
    tries = λ i. ground (arith, q.tries i, p.tries i);
  }

pub Sets-on :
    {self : ℕ} {t : Tries} (f : Item → Item) (w : World)
    → ((f (w.items self)).conf ≡ (w.items self).conf)
    → ((f (w.items self)).tries ≡ t)
    → Sets self t w (on self f w)
Sets-on f w p q = record {
  checks = refl;
  next_id = ground arith;
  conf = λ i. ground arith;
  tries = λ i. ground arith;
}

-- an item's tries, set to what they are
pub Sets-same : (self : ℕ) (w w' : World) → Keeps w w' → Sets self (w.items self).tries w w'
Sets-same self w w' p = record {
  checks = p.checks;
  next_id = p.next_id;
  conf = p.conf;
  tries = λ i. ground (arith, p.tries i);
}

pub notify_unless-Keeps :
    (no_action : Bool) (self : ℕ) (type : NotificationType) (w : World)
    → Keeps w (notify_unless no_action self type w)
unfolding notify_unless
notify_unless-Keeps no_action self type w =
    Keeps-if no_action (Keeps-refl w) (create-Keeps self type none w)

pub problem_unless-Keeps :
    (fuel : ℕ) (no_action : Bool) (self : ℕ) (w : World)
    → Keeps w (problem_unless fuel no_action self w)
unfolding problem_unless
problem_unless-Keeps fuel no_action self w =
    Keeps-if no_action (Keeps-refl w) (set_myself_as_problem-Keeps fuel self true w)

pub renotify-Keeps : (self : ℕ) (no_action : Bool) (w : World) → Keeps w (renotify self no_action w)
unfolding renotify
renotify-Keeps self no_action w = remove-Keeps self w ⨾ notify_unless-Keeps no_action self problem _

pub handlers-same :
    (x : Item) → ((get_event_handlers x).conf ≡ x.conf) × ((get_event_handlers x).tries ≡ x.tries)
unfolding get_event_handlers
handlers-same x = (ground arith, ground arith)

pub unack-same :
    (x : Item)
    → ((unacknowledge_problem x).conf ≡ x.conf)
      × ((unacknowledge_problem x).tries ≡ x.tries)
      × ((unacknowledge_problem x).stat ≡ x.stat)
unfolding unacknowledge_problem
unack-same x = (ground arith, ground arith, ground arith)

pub unack_sticky-same :
    (x : Item)
    → ((unacknowledge_problem_if_not_sticky x).conf ≡ x.conf)
      × ((unacknowledge_problem_if_not_sticky x).tries ≡ x.tries)
unfolding unacknowledge_problem_if_not_sticky
unack_sticky-same x = (ground (arith, unack-same x), ground (arith, unack-same x))

pub phase-same :
    (x : Item)
    → ((update_hard_unknown_phase_state x).conf ≡ x.conf)
      × ((update_hard_unknown_phase_state x).tries ≡ x.tries)
      × ((update_hard_unknown_phase_state x).stat ≡ x.stat)
unfolding update_hard_unknown_phase_state
phase-same x = (refl, refl, refl)

pub handlers-Keeps : (self : ℕ) (w : World) → Keeps w (on self get_event_handlers w)
handlers-Keeps self w =
    let h = handlers-same (w.items self) in Keeps-on self get_event_handlers w h.0 h.1

pub unack-Keeps : (self : ℕ) (w : World) → Keeps w (on self unacknowledge_problem w)
unack-Keeps self w =
    let h = unack-same (w.items self) in Keeps-on self unacknowledge_problem w h.0 h.1

pub Sets-to :
    {self : ℕ} {t t' : Tries} {w w' : World} → t ≡ t' → Sets self t w w' → Sets self t' w w'
Sets-to e p = record {
  checks = p.checks;
  next_id = p.next_id;
  conf = p.conf;
  tries = λ i. ground (arith, e, p.tries i);
}

pub Sets-if :
    (b : Bool) {self : ℕ} {t t' : Tries} {w v v' : World}
    → Sets self t w v
    → Sets self t' w v'
    → Sets self (if b then t else t') w (if b then v else v')
Sets-if true p q = p
Sets-if false p q = q

pub rest-Sets :
    (self : ℕ) (w : World)
    → Sets self
        (rested (w.items self).tries)
        w
        (on self (λ x. first_attempt hard (get_event_handlers x)) w)
rest-Sets self w =
    let h = handlers-same (w.items self) in
    Sets-on (λ x. first_attempt hard (get_event_handlers x)) w h.0 (ap rested h.1)
