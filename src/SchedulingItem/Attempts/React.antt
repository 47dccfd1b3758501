-- ===== src/SchedulingItem/Attempts/React.antt =====
-- The five cases of `consume_state_result` take the step of the machine of attempts.
use shinken_gpt.Prelude.{
  ℕ, ◌+◌, refl, ap, Bool, true, not, ◌&&◌, if◌then◌else◌, ◌==◌, leb, min, arith,
}
use shinken_gpt.SchedulingItem.Types.{
  Item, soft, hard, pending, problem, recovery, same_state, ok_up,
}
use shinken_gpt.SchedulingItem.World.{World, on}
use shinken_gpt.SchedulingItem.Blocked.{is_soft}
use shinken_gpt.SchedulingItem.Notify.{get_event_handlers}
use shinken_gpt.SchedulingItem.States.{add_attempt, is_max_attempts}
use shinken_gpt.SchedulingItem.Acks.{unacknowledge_problem, unacknowledge_problem_if_not_sticky}
use shinken_gpt.SchedulingItem.Phases.{update_hard_unknown_phase_state}
use shinken_gpt.SchedulingItem.Cases.{
  raise_alert_log_entry, set_state_type, first_attempt, was_fine, add_attempt_unless, stay_ok,
  ok_after_ok, recovers_soft, recovers_hard, ok_after_bad, bad_volatile, goes_hard, bad_after_ok,
  stays_bad_soft, changes_bad, stays_bad_hard, react,
}
use shinken_gpt.SchedulingItem.Keeps.{
  Keeps, Keeps-refl, ◌⨾◌, Keeps-if, Keeps-on, remove-Keeps, check_for_flexible_downtime-Keeps,
}
use shinken_gpt.SchedulingItem.Keeps.Problems.{no_more_a_problem-Keeps}
use shinken_gpt.SchedulingItem.Attempts.{Outcome, typed, rested, step_ok, step_bad, step}
use shinken_gpt.SchedulingItem.Attempts.Sets.{
  Sets, Sets-then, then-Sets, Sets-Sets, Sets-on, Sets-same, notify_unless-Keeps,
  problem_unless-Keeps, renotify-Keeps, handlers-same, unack-same, unack_sticky-same, phase-same,
  handlers-Keeps, unack-Keeps, Sets-to, Sets-if, rest-Sets,
}

ok_after_ok-Sets :
    (self : ℕ) (w : World)
    → let x = w.items self in
      Sets self
        (if is_soft x.state_type && not (same_state x.last_state pending)
          then typed x.max_check_attempts x.attempt x.tries
          else rested x.tries)
        w
        (ok_after_ok self w)
unfolding ok_after_ok stay_ok is_max_attempts
ok_after_ok-Sets self w =
    let h = unack-same (w.items self) in
    Sets-on (λ x. stay_ok (unacknowledge_problem x)) w (ground (arith, h)) (ground (arith, h))

recovers_soft-Sets :
    (self : ℕ) (dependent : Bool) (w : World)
    → Sets self (rested (w.items self).tries) w (recovers_soft self dependent w)
unfolding recovers_soft raise_alert_log_entry add_attempt_unless add_attempt
recovers_soft-Sets self dependent w =
    let h = handlers-same (raise_alert_log_entry (add_attempt_unless dependent (w.items self))) in
    record {
      checks = refl;
      next_id = ground arith;
      conf = λ i. ground (arith, h);
      tries = λ i. ground (arith, h);
    }

recovers_hard-Sets :
    (self : ℕ) (no_action : Bool) (w : World)
    → Sets self (rested (w.items self).tries) w (recovers_hard self no_action w)
unfolding recovers_hard raise_alert_log_entry
recovers_hard-Sets self no_action w =
    let p =
      Keeps-on self raise_alert_log_entry w refl refl
      ⨾ remove-Keeps self _
      ⨾ notify_unless-Keeps no_action self recovery _ in
    Sets-then (then-Sets p (Sets-to (ap rested (p.tries self)) (rest-Sets self _)))
      (no_more_a_problem-Keeps self true _)

ok_after_bad-Sets :
    (self : ℕ) (dependent no_action : Bool) (w : World)
    → Sets self (rested (w.items self).tries) w (ok_after_bad self dependent no_action w)
unfolding ok_after_bad
ok_after_bad-Sets self dependent no_action w =
    let p = unack-Keeps self w in
    let w' = on self unacknowledge_problem w in
    then-Sets p (
      Sets-to (ground (arith, p.tries self)) (
        Sets-if (is_soft (w'.items self).state_type) (recovers_soft-Sets self dependent w')
          (recovers_hard-Sets self no_action w')))

bad_volatile-Sets :
    (fuel self : ℕ) (no_action : Bool) (w : World)
    → Sets self (rested (w.items self).tries) w (bad_volatile fuel self no_action w)
unfolding bad_volatile raise_alert_log_entry
bad_volatile-Sets fuel self no_action w =
    Sets-then (Sets-on (λ x. raise_alert_log_entry (first_attempt hard x)) w refl refl) (
      check_for_flexible_downtime-Keeps fuel self _
      ⨾ remove-Keeps self _
      ⨾ notify_unless-Keeps no_action self problem _
      ⨾ handlers-Keeps self _
      ⨾ problem_unless-Keeps fuel no_action self _)

goes_hard-Sets :
    (fuel self : ℕ) (no_action : Bool) (w : World)
    → Sets self
        (record (w.items self).tries { state_type = hard })
        w
        (goes_hard fuel self no_action w)
unfolding goes_hard raise_alert_log_entry
goes_hard-Sets fuel self no_action w =
    Sets-then (Sets-on (λ x. raise_alert_log_entry (set_state_type hard x)) w refl refl) (
      remove-Keeps self _
      ⨾ check_for_flexible_downtime-Keeps fuel self _
      ⨾ notify_unless-Keeps no_action self problem _
      ⨾ handlers-Keeps self _
      ⨾ problem_unless-Keeps fuel no_action self _)

bad_after_ok-Sets :
    (fuel self : ℕ) (no_action : Bool) (w : World)
    → let x = w.items self in
      Sets self
        (if leb x.max_check_attempts x.attempt
          then record x.tries { state_type = hard }
          else record x.tries { attempt = 1; state_type = soft })
        w
        (bad_after_ok fuel self no_action w)
unfolding bad_after_ok is_max_attempts raise_alert_log_entry
bad_after_ok-Sets fuel self no_action w =
    let h = handlers-same (raise_alert_log_entry (first_attempt soft (w.items self))) in
    Sets-if _ (goes_hard-Sets fuel self no_action w)
      (Sets-on (λ x. get_event_handlers (raise_alert_log_entry (first_attempt soft x))) w h.0 h.1)

-- the number of the attempt, after a bad result in a SOFT state
abbrev more : Bool → Item → ℕ
more dependent x = if dependent then x.attempt else min (x.attempt + 1) x.max_check_attempts

attempt-Sets :
    (self : ℕ) (dependent : Bool) (w : World)
    → let x = w.items self in
      Sets self
        (record x.tries { attempt = more dependent x })
        w
        (on self (add_attempt_unless dependent) w)
unfolding add_attempt_unless add_attempt
attempt-Sets self dependent w =
    Sets-on (add_attempt_unless dependent) w (ground arith) (ground arith)

alert-Keeps :
    (self : ℕ) (w : World) → Keeps w (on self (λ x. get_event_handlers (raise_alert_log_entry x)) w)
unfolding raise_alert_log_entry
alert-Keeps self w =
    let h = handlers-same (raise_alert_log_entry (w.items self)) in
    Keeps-on self (λ x. get_event_handlers (raise_alert_log_entry x)) w h.0 h.1

stays_bad_soft-Sets :
    (fuel self : ℕ) (dependent no_action : Bool) (w : World)
    → let x = w.items self in
      let t = record x.tries { attempt = more dependent x } in
      Sets self
        (if leb x.max_check_attempts t.attempt then record t { state_type = hard } else t)
        w
        (stays_bad_soft fuel self dependent no_action w)
unfolding stays_bad_soft is_max_attempts
stays_bad_soft-Sets fuel self dependent no_action w =
    let p = attempt-Sets self dependent w in
    let w' = on self (add_attempt_unless dependent) w in
    Sets-to (ground (arith, p.tries self, p.conf self)) (
      Sets-Sets p (
        Sets-if (leb (w'.items self).max_check_attempts (w'.items self).attempt)
          (goes_hard-Sets fuel self no_action w') (Sets-same self w' _ (alert-Keeps self w'))))

changes_bad-Keeps :
    (self : ℕ) (no_action : Bool) (w : World) → Keeps w (changes_bad self no_action w)
unfolding changes_bad raise_alert_log_entry
changes_bad-Keeps self no_action w =
    let q = phase-same (w.items self) in
    let p = Keeps-on self update_hard_unknown_phase_state w q.0 q.1 in
    let w' = on self update_hard_unknown_phase_state w in
    let h = unack_sticky-same (w'.items self) in
    Keeps-if _
      (p
        ⨾ Keeps-on self (λ y. raise_alert_log_entry (unacknowledge_problem_if_not_sticky y)) w' h.0
            h.1
        ⨾ renotify-Keeps self no_action _)
      p

stays_bad_hard-Keeps :
    (fuel self : ℕ) (no_action : Bool) (w : World) → Keeps w (stays_bad_hard fuel self no_action w)
unfolding stays_bad_hard
stays_bad_hard-Keeps fuel self no_action w =
    Keeps-if _ (changes_bad-Keeps self no_action w)
      (Keeps-if _ (renotify-Keeps self no_action w) (Keeps-refl w))
    ⨾ problem_unless-Keeps fuel no_action self _

-- what the result is, from the item after `set_state_from_exit_status`
abbrev pub outcome : ℕ → Bool → Item → Outcome
outcome exit_status dependent x = record {
  bad = not (exit_status == 0);
  after_ok = same_state x.last_state (ok_up x.kind);
  after_pending = same_state x.last_state pending;
  volatile = x.is_volatile;
  dependent = dependent;
}

-- `react` changes the attempts of its item as `step` says, and neither the attempts of another item
-- nor a check.
pub react-Sets :
    (fuel self exit_status : ℕ) (dependent no_action : Bool) (w : World)
    → let x = w.items self in
      Sets self
        (step (outcome exit_status dependent x) x.max_check_attempts x.tries)
        w
        (react fuel self exit_status dependent no_action w)
unfolding react step step_ok step_bad
react-Sets fuel self exit_status dependent no_action w =
    let x = w.items self in
    Sets-to (ground arith) (
      Sets-if (exit_status == 0 && was_fine x) (ok_after_ok-Sets self w) (
        Sets-if (exit_status == 0) (ok_after_bad-Sets self dependent no_action w) (
          Sets-if x.is_volatile (bad_volatile-Sets fuel self no_action w) (
            Sets-if (was_fine x) (bad_after_ok-Sets fuel self no_action w) (
              Sets-if (is_soft x.state_type) (stays_bad_soft-Sets fuel self dependent no_action w)
                (Sets-same self w _ (stays_bad_hard-Keeps fuel self no_action w)))))))
