-- ===== src/SchedulingItem/Attempts/Others.antt =====
-- What `consume_state_result` does to the other checks: the time of one in progress at most.
use shinken_gpt.Prelude.{
  ℕ, ◌∙◌, true, List, [], ◌∷◌, ◌++◌, contains, ◌<◌, ◌≤◌, ◌≡◌, ◌≢◌, ap, sym, subst, arith,
}
use shinken_gpt.SchedulingItem.World.{World, on}
use shinken_gpt.SchedulingItem.Consume.{
  wait_for_dependencies, take_exit_status, settle, conclude, consume_state_result, set_check,
  set_status,
}
use shinken_gpt.SchedulingItem.Types.{waitdep}
use shinken_gpt.SchedulingItem.Dependencies.{raise_dependencies_check, check_and_set_unreachability}
use shinken_gpt.SchedulingItem.Attempts.Launch.{raise_dependencies_check-Launches}
use shinken_gpt.SchedulingItem.Attempts.Numbers.{update_event_and_problem_id-Numbers}
use shinken_gpt.SchedulingItem.Attempts.Parts.{noted, set_state-Keeps, conclude-checks}
use shinken_gpt.SchedulingItem.Attempts.Stages.{
  received, waiting, changed, settled, reacted, react-settled, consume-chain,
}

contains-++ : (d : ℕ) (xs ys : List ℕ) → contains d xs ≡ true → contains d (xs ++ ys) ≡ true
contains-++ d [] ys h = cc
contains-++ d (x ∷ xs) ys h = ground (arith, h, contains-++ d xs ys)

-- Every check that there was, but `c`, is as it was, up to its time, and `c` still waits for the
-- checks that it waited for, and has the same checks that wait for it.
pub record Others (c : ℕ) (w w' : World) : Type 0 where
  pub next_id : w.next_id ≤ w'.next_id
  pub checks :
      (d : ℕ)
      → d < w.next_id
      → d ≢ c
      → w'.checks d ≡ record (w.checks d) { t_to_go = (w'.checks d).t_to_go }
  pub depend_on_me : c < w.next_id → (w'.checks c).depend_on_me ≡ (w.checks c).depend_on_me
  pub depend_on :
      c < w.next_id
      → (d : ℕ) → contains d (w.checks c).depend_on ≡ true
      → contains d (w'.checks c).depend_on ≡ true

pub Others-trans : {c : ℕ} {w w' w'' : World} → Others c w w' → Others c w' w'' → Others c w w''
Others-trans {c} {w} {w'} {w''} p q = record {
  next_id = ground (arith, p.next_id, q.next_id);
  checks = λ d h n. ground (arith, p.checks d h n, q.checks d (ground (arith, h, p.next_id)) n);
  depend_on_me = λ h. q.depend_on_me (ground (arith, h, p.next_id)) ∙ p.depend_on_me h;
  depend_on = λ h d k. q.depend_on (ground (arith, h, p.next_id)) d (p.depend_on h d k);
}

same-Others : {c : ℕ} {w w' : World} → w.next_id ≤ w'.next_id → w'.checks ≡ w.checks → Others c w w'
same-Others {c} {w} {w'} h e = record {
  next_id = h;
  checks = λ d k n. ground (arith, ap (λ f. f d) e);
  depend_on_me = λ k. ap (λ f. (f c).depend_on_me) e;
  depend_on = λ k d p. ap (λ f. contains d (f c).depend_on) e ∙ p;
}

module _ (fuel self c : ℕ) (w : World) where
  received-Others : Others c w (received fuel self c w)
  unfolding received
  received-Others = record {
    next_id = ground arith;
    checks = λ d h n. ground arith;
    depend_on_me = λ h. ground arith;
    depend_on = λ h d k. ground (arith, k);
  }

  wait-Others : Others c w (wait_for_dependencies fuel self c w)
  unfolding wait_for_dependencies
  wait-Others =
      let v = set_check c (set_status waitdep) w in
      let p = raise_dependencies_check-Launches fuel self c v in
      let ids = (raise_dependencies_check fuel self c v).1 in
      record {
        next_id = ground (arith, p.next_id);
        checks = λ d h n. ground (arith, h, p.checks d h);
        depend_on_me = λ h. ground (arith, h, p.checks c h);
        depend_on =
            λ h d k. ground (arith, h, k, p.checks c h, contains-++ d (w.checks c).depend_on ids k);
      }

  take_exit-Others : Others c w (take_exit_status self c w)
  unfolding take_exit_status
  take_exit-Others =
      let w' =
        on self (λ x. record x { tries = record x.tries { last_state_type = x.state_type } }) w in
      let p = set_state-Keeps self (w.checks c).exit_status w' in same-Others p.next_id p.checks

  settle-Others : Others c w (settle self c w).0
  unfolding settle check_and_set_unreachability
  settle-Others = record {
    next_id = ground arith;
    checks = λ d h n. ground arith;
    depend_on_me = λ h. ground arith;
    depend_on = λ h d k. ground (arith, k);
  }

  conclude-Others : Others c w (conclude self w)
  unfolding conclude
  conclude-Others =
      same-Others (update_event_and_problem_id-Numbers self (noted self w)).next_id
        (conclude-checks self w)

module _ (fuel self c : ℕ) (w : World) where
  changed-Others : Others c w (changed fuel self c w)
  unfolding changed waiting
  changed-Others =
      let v = received fuel self c w in
      Others-trans (received-Others fuel self c w) (
        Others-trans (wait-Others fuel self c v)
          (take_exit-Others fuel self c (wait_for_dependencies fuel self c v)))

  settled-Others : Others c w (settled fuel self c w)
  unfolding settled
  settled-Others = Others-trans changed-Others (settle-Others fuel self c (changed fuel self c w))

  reacted-Others : Others c w (reacted fuel self c w)
  reacted-Others =
      let p = react-settled fuel self c w in
      Others-trans settled-Others (same-Others p.next_id p.checks)

  -- Consuming a check takes no id back, and leaves every other known check as it was, but for the
  -- time of one that it asks to be run again.
  pub consume-Others : Others c w (consume_state_result fuel self c w)
  consume-Others =
      subst (λ v. Others c w v) (sym (consume-chain fuel self c w))
        (Others-trans reacted-Others (conclude-Others fuel self c (reacted fuel self c w)))
