-- ===== src/SchedulingItem/Cases.antt =====
-- The five cases of `consume_state_result` of shinken/objects/schedulingitem.py: OK or not, after
-- an OK or not, and the volatile services.
use shinken_gpt.Prelude.{ℕ, Bool, true, not, ◌&&◌, ◌||◌, none, if◌then◌else◌, ◌==◌}
use shinken_gpt.SchedulingItem.Types.{
  Item, StateType, soft, hard, pending, NotificationType, problem, recovery, alert, same_state,
  ok_up,
}
use shinken_gpt.SchedulingItem.World.{World, on, log, ◌▷◌}
use shinken_gpt.SchedulingItem.Blocked.{is_soft}
use shinken_gpt.SchedulingItem.Notify.{
  create_notifications, remove_in_progress_notifications, get_event_handlers,
}
use shinken_gpt.SchedulingItem.States.{add_attempt, is_max_attempts}
use shinken_gpt.SchedulingItem.Impacts.{set_myself_as_problem, no_more_a_problem}
use shinken_gpt.SchedulingItem.Downtimes.{check_for_flexible_downtime}
use shinken_gpt.SchedulingItem.Acks.{unacknowledge_problem, unacknowledge_problem_if_not_sticky}
use shinken_gpt.SchedulingItem.Phases.{update_hard_unknown_phase_state}

unfoldable pub raise_alert_log_entry : Item → Item
raise_alert_log_entry x = log (alert x.state x.state_type x.attempt) x

abbrev pub set_state_type : StateType → Item → Item
set_state_type t x = record x { tries = record x.tries { state_type = t } }

-- attempt = 1 and the state type
abbrev pub first_attempt : StateType → Item → Item
first_attempt t x = record x { tries = record x.tries { attempt = 1; state_type = t } }

-- `last_state in (OK_UP, 'PENDING')`
abbrev pub was_fine : Item → Bool
was_fine x = same_state x.last_state (ok_up x.kind) || same_state x.last_state pending

-- if not no_action: self.create_notifications(type)
unfoldable pub notify_unless : Bool → ℕ → NotificationType → World → World
notify_unless no_action self type w = if no_action then w else create_notifications self type none w

-- if not no_action: self.set_myself_as_problem()
unfoldable pub problem_unless : ℕ → Bool → ℕ → World → World
problem_unless fuel no_action self w =
    if no_action then w else set_myself_as_problem fuel self true w

-- if not c.is_dependent(): self.add_attempt()
unfoldable pub add_attempt_unless : Bool → Item → Item
unfolding add_attempt
add_attempt_unless dependent x = if dependent then x else add_attempt x

-- case 1, the new state type
unfoldable pub stay_ok : Item → Item
unfolding is_max_attempts
stay_ok x =
    if is_soft x.state_type && not (same_state x.last_state pending)
    then set_state_type (if is_max_attempts x then hard else soft) x
    else first_attempt hard x

-- case 1
unfoldable pub ok_after_ok : ℕ → World → World
unfolding unacknowledge_problem stay_ok
ok_after_ok self w = w ▷ on self (λ x. stay_ok (unacknowledge_problem x))

-- case 2, in a SOFT state
unfoldable pub recovers_soft : ℕ → Bool → World → World
unfolding add_attempt_unless raise_alert_log_entry get_event_handlers
recovers_soft self dependent w =
    w
    ▷ on self (λ x. raise_alert_log_entry (add_attempt_unless dependent x))
    ▷ on self (λ x. first_attempt hard (get_event_handlers x))

-- case 2, in a HARD state
unfoldable pub recovers_hard : ℕ → Bool → World → World
unfolding raise_alert_log_entry get_event_handlers notify_unless
recovers_hard self no_action w =
    w
    ▷ on self raise_alert_log_entry
    ▷ remove_in_progress_notifications self
    ▷ notify_unless no_action self recovery
    ▷ on self (λ x. first_attempt hard (get_event_handlers x))
    ▷ no_more_a_problem self true

unfoldable pub ok_after_bad : ℕ → Bool → Bool → World → World
unfolding unacknowledge_problem recovers_soft recovers_hard
ok_after_bad self dependent no_action w =
    let w' = w ▷ on self unacknowledge_problem in
    if is_soft (w'.items self).state_type
    then recovers_soft self dependent w'
    else recovers_hard self no_action w'

-- case 3
unfoldable pub bad_volatile : ℕ → ℕ → Bool → World → World
unfolding raise_alert_log_entry get_event_handlers notify_unless problem_unless
bad_volatile fuel self no_action w =
    w
    ▷ on self (λ x. raise_alert_log_entry (first_attempt hard x))
    ▷ check_for_flexible_downtime fuel self
    ▷ remove_in_progress_notifications self
    ▷ notify_unless no_action self problem
    ▷ on self get_event_handlers
    ▷ problem_unless fuel no_action self

-- what the cases 4 and 5 do when the last attempt has been made
unfoldable pub goes_hard : ℕ → ℕ → Bool → World → World
unfolding raise_alert_log_entry get_event_handlers notify_unless problem_unless
goes_hard fuel self no_action w =
    w
    ▷ on self (λ x. raise_alert_log_entry (set_state_type hard x))
    ▷ remove_in_progress_notifications self
    ▷ check_for_flexible_downtime fuel self
    ▷ notify_unless no_action self problem
    ▷ on self get_event_handlers
    ▷ problem_unless fuel no_action self

-- case 4
unfoldable pub bad_after_ok : ℕ → ℕ → Bool → World → World
unfolding is_max_attempts raise_alert_log_entry get_event_handlers goes_hard
bad_after_ok fuel self no_action w =
    if is_max_attempts (w.items self)
    then goes_hard fuel self no_action w
    else w ▷ on self (λ x. get_event_handlers (raise_alert_log_entry (first_attempt soft x)))

-- case 5, in a SOFT state
unfoldable pub stays_bad_soft : ℕ → ℕ → Bool → Bool → World → World
unfolding add_attempt_unless is_max_attempts raise_alert_log_entry get_event_handlers goes_hard
stays_bad_soft fuel self dependent no_action w =
    let w' = w ▷ on self (add_attempt_unless dependent) in
    if is_max_attempts (w'.items self)
    then goes_hard fuel self no_action w'
    else w' ▷ on self (λ x. get_event_handlers (raise_alert_log_entry x))

-- another notification of the problem
unfoldable pub renotify : ℕ → Bool → World → World
unfolding notify_unless
renotify self no_action w =
    w ▷ remove_in_progress_notifications self ▷ notify_unless no_action self problem

-- case 5, in a HARD state, when the state is another one
unfoldable pub changes_bad : ℕ → Bool → World → World
unfolding update_hard_unknown_phase_state unacknowledge_problem_if_not_sticky raise_alert_log_entry
changes_bad self no_action w =
    let w' = w ▷ on self update_hard_unknown_phase_state in
    let x = w'.items self in
    if not x.in_hard_unknown_reach_phase && not x.was_in_hard_unknown_reach_phase
    then w'
      ▷ on self (λ y. raise_alert_log_entry (unacknowledge_problem_if_not_sticky y))
      ▷ renotify self no_action
    else w'

-- case 5, in a HARD state
unfoldable pub stays_bad_hard : ℕ → ℕ → Bool → World → World
unfolding changes_bad renotify problem_unless
stays_bad_hard fuel self no_action w =
    let x = w.items self in
    let w' =
      if not (same_state x.state x.last_state)
      then changes_bad self no_action w
      else if x.in_scheduled_downtime_during_last_check
      then renotify self no_action w
      else w in
    w' ▷ problem_unless fuel no_action self

-- the chain of the cases; the test of case 5, `last_state != OK_UP`, holds when case 4 does not
unfoldable pub react : ℕ → ℕ → ℕ → Bool → Bool → World → World
unfolding ok_after_ok ok_after_bad bad_volatile bad_after_ok stays_bad_soft stays_bad_hard
react fuel self exit_status dependent no_action w =
    let x = w.items self in
    if exit_status == 0 && was_fine x
    then ok_after_ok self w
    else if exit_status == 0
    then ok_after_bad self dependent no_action w
    else if x.is_volatile
    then bad_volatile fuel self no_action w
    else if was_fine x
    then bad_after_ok fuel self no_action w
    else if is_soft x.state_type
    then stays_bad_soft fuel self dependent no_action w
    else stays_bad_hard fuel self no_action w
