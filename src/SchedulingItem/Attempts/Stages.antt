-- ===== src/SchedulingItem/Attempts/Stages.antt =====
-- The worlds that `consume_state_result` goes through, and what is known of each.
use shinken_gpt.Prelude.{ℕ, ◌<◌, ◌≡◌, refl, ap, Bool, not, ◌⊎◌, arith, ◌==◌}
use shinken_gpt.SchedulingItem.Types.{waitconsume, waitdep, pending, same_state, ok_up}
use shinken_gpt.SchedulingItem.World.{World, on, ◌▷◌}
use shinken_gpt.SchedulingItem.States.{true_state}
use shinken_gpt.SchedulingItem.Cases.{react}
use shinken_gpt.SchedulingItem.Consume.{
  exit_status_of, take_result, wait_for_dependencies, take_exit_status, settle, conclude,
  done_status, consume_state_result, set_check,
}
use shinken_gpt.SchedulingItem.Attempts.{Outcome, step}
use shinken_gpt.SchedulingItem.Attempts.React.{outcome, react-Sets}
use shinken_gpt.SchedulingItem.Attempts.Sets.{Sets}
use shinken_gpt.SchedulingItem.Attempts.Parts.{
  wait-check, wait-item, take_exit-item, take_exit-check, settle-item, settle-check,
}

module _ (fuel self c : ℕ) (w : World) where
  -- the worlds on the way
  unfoldable pub received : World
  received =
      w
      ▷ on self (take_result (w.checks c))
      ▷ set_check c
          (λ k. record k { exit_status = exit_status_of w.now (w.items self) k.exit_status })

  unfoldable pub waiting : World
  waiting = wait_for_dependencies fuel self c received

  unfoldable pub changed : World
  changed = take_exit_status self c waiting

  unfoldable pub settled : World
  settled = (settle self c changed).0

  unfoldable pub no_action : Bool
  no_action = (settle self c changed).1

  unfoldable pub reacted : World
  reacted =
      react fuel self (settled.checks c).exit_status (settled.checks c).dependency_check no_action
        settled

  -- the result that the item takes, from what it and the check were before
  abbrev pub outcome_of : Outcome
  outcome_of =
      let x = w.items self in
      let k = w.checks c in
      record {
        bad = not (exit_status_of w.now x k.exit_status == 0);
        after_ok = same_state (true_state x) (ok_up x.kind);
        after_pending = same_state (true_state x) pending;
        volatile = x.is_volatile;
        dependent = k.dependency_check;
      }

  received-check :
      let k = w.checks c in
      let k' = received.checks c in
      (received.next_id ≡ w.next_id)
      × (k'.exit_status ≡ exit_status_of w.now (w.items self) k.exit_status)
      × (k'.dependency_check ≡ k.dependency_check)
      × (k'.depend_on_me ≡ k.depend_on_me)
      × (k'.status ≡ k.status)
  unfolding received
  received-check = ground arith

  received-item :
      let x = w.items self in
      let x' = received.items self in
      (x'.conf ≡ x.conf) × (x'.tries ≡ x.tries) × (x'.stat ≡ x.stat) × (x'.impact ≡ x.impact)
  unfolding received take_result
  received-item = ground arith

  received-others : (i : ℕ) → (received.items i).tries ≡ (w.items i).tries
  unfolding received take_result
  received-others i = ground arith

  waiting-check :
      c < w.next_id
      → let k = w.checks c in
        let k' = waiting.checks c in
        (k'.exit_status ≡ exit_status_of w.now (w.items self) k.exit_status)
        × (k'.dependency_check ≡ k.dependency_check)
        × (k'.depend_on_me ≡ k.depend_on_me)
        × ((k'.status ≡ k.status) ⊎ ((k.status ≡ waitconsume) × (k'.status ≡ waitdep)))
  unfolding waiting
  waiting-check h =
      let r = received-check in
      ground (arith, r, wait-check fuel self c received (ground (arith, h, r)))

  waiting-item :
      let x = w.items self in
      let x' = waiting.items self in
      (x'.conf ≡ x.conf) × (x'.tries ≡ x.tries) × (true_state x' ≡ true_state x)
  unfolding waiting true_state
  waiting-item = ground (arith, received-item, wait-item fuel self c received self)

  changed-check : changed.checks c ≡ waiting.checks c
  unfolding changed
  changed-check = ap (λ f. f c) (take_exit-check self c waiting)

  changed-item :
      let x = w.items self in
      let x' = changed.items self in
      (x'.conf ≡ x.conf)
      × (x'.tries ≡ record x.tries { last_state_type = x.state_type })
      × (x'.last_state ≡ true_state x)
  unfolding changed
  changed-item = ground (arith, waiting-item, take_exit-item self c waiting)

  pub settled-check :
      c < w.next_id
      → let k = w.checks c in
        let k' = settled.checks c in
        (k'.exit_status ≡ exit_status_of w.now (w.items self) k.exit_status)
        × (k'.dependency_check ≡ k.dependency_check)
        × ((k.status ≡ waitconsume) ⊎ (k.status ≡ waitdep) → k'.status ≡ done_status k)
  unfolding settled done_status
  settled-check h = ground (arith, waiting-check h, changed-check, settle-check self c changed)

  pub settled-item :
      let x = w.items self in
      let x' = settled.items self in
      (x'.conf ≡ x.conf)
      × (x'.tries ≡ record x.tries { last_state_type = x.state_type })
      × (x'.last_state ≡ true_state x)
  unfolding settled
  settled-item = ground (arith, changed-item, settle-item self c changed)

  pub react-settled :
      Sets self
        (step
          (outcome
            (settled.checks c).exit_status
            (settled.checks c).dependency_check
            (settled.items self))
          (settled.items self).max_check_attempts
          (settled.items self).tries)
        settled
        reacted
  unfolding reacted
  react-settled =
      react-Sets fuel self (settled.checks c).exit_status (settled.checks c).dependency_check
        no_action settled

  pub consume-chain : consume_state_result fuel self c w ≡ conclude self reacted
  unfolding consume_state_result received waiting changed settled no_action reacted
  consume-chain = refl
