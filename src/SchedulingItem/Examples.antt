-- ===== src/SchedulingItem/Examples.antt =====
-- The theorems on hosts and services, at the samples.

use shinken_gpt.Prelude.{
  ℕ, ◌≡◌, ◌⊎◌, ◌≤◌, refl, inr, true, false, ◌&&◌, none, some, [], ◌∷◌, ◌==◌, if◌then◌else◌, arith,
}
use shinken_gpt.BusinessRule.{service}
use shinken_gpt.SchedulingItem.Types.{
  Item, state_discrete, letter_discrete, Comment, problem, recovery, zombie,
}
use shinken_gpt.SchedulingItem.Blocked.{
  service_is_blocked, blocked_by_options, blocked_by_state, business_rule_blocks,
  notification_is_blocked_by_item, is_problem_or_recovery,
}
use shinken_gpt.SchedulingItem.Blocked.Quiet.{Permitted, quiet_times, unblocked_is_Permitted}
use shinken_gpt.SchedulingItem.Notify.{create_notifications, remove_in_progress_notifications}
use shinken_gpt.SchedulingItem.Notify.Queue.{remove_in_progress_notifications_lem}
use shinken_gpt.SchedulingItem.Notify.Creates.{Wish, Created, create_notifications_lem}
use shinken_gpt.SchedulingItem.Flapping.{update_flapping, is_full}
use shinken_gpt.SchedulingItem.Flapping.Hysteresis.{update_flapping_lem}
use shinken_gpt.SchedulingItem.States.{set_state_from_exit_status}
use shinken_gpt.SchedulingItem.States.Follows.{
  StateFor, RealState, changes, set_state_from_exit_status_lem,
}
use shinken_gpt.SchedulingItem.Dependencies.{is_no_check_dependent}
use shinken_gpt.SchedulingItem.Dependencies.Depth.{
  Falls, OneRaises, is_no_check_dependent-OneRaises,
}
use shinken_gpt.SchedulingItem.Acks.{
  acknowledge_problem, unacknowledge_problem, acknowledge-unacknowledge,
}
use shinken_gpt.SchedulingItem.Samples.{the_host, the_service, the_world}

quiet_times_example : notification_is_blocked_by_item the_world the_service problem 1000 ≡ true
quiet_times_example = quiet_times the_world the_service problem 1000 (inr (inr (refl, refl)))

-- the recovery of the service
unblocked_is_Permitted_example :
    Permitted the_service recovery 1000
    × ((is_problem_or_recovery recovery && the_service.is_flapping) ≡ false)
unfolding notification_is_blocked_by_item state_discrete letter_discrete service_is_blocked
    blocked_by_options blocked_by_state business_rule_blocks
unblocked_is_Permitted_example = unblocked_is_Permitted the_world the_service recovery 1000 refl

remove_in_progress_notifications_lem_example :
    (((remove_in_progress_notifications 1 the_world).items 1).notifications_in_progress ≡ [])
    × ((remove_in_progress_notifications 1 the_world).notifications 3
        ≡ record (the_world.notifications 3) { status = zombie })
remove_in_progress_notifications_lem_example = remove_in_progress_notifications_lem 1 3 the_world

-- the problem of the host
create_notifications_lem_example :
    let w' = create_notifications 0 problem none the_world in
    (t : ℕ) × Wish 1000 the_host problem none t
    × (((w' ≡ the_world)
          × (notification_is_blocked_by_item the_world the_host problem t ≡ true)
          × (the_host.first_notification_delay ≡ 0)
          × (the_host.notification_interval ≡ 0))
        ⊎ (((notification_is_blocked_by_item the_world the_host problem t ≡ false)
              ⊎ ((1 ≤ the_host.first_notification_delay) ⊎ (1 ≤ the_host.notification_interval)))
            × Created 0 problem none t the_world w'))
create_notifications_lem_example = create_notifications_lem 0 problem none the_world

-- too short a history
update_flapping_lem_example :
    (update_flapping 1 the_world ≡ the_world)
    × (((update_flapping 1 the_world).items 1).is_flapping ≡ false)
unfolding is_full
update_flapping_lem_example = update_flapping_lem 1 the_world (ground arith)

-- the service is OK again
set_state_from_exit_status_lem_example :
    let x' = (set_state_from_exit_status 1 0 the_world).items 1 in
    StateFor service 0 x'.state x'.state_id
    × RealState the_service x'.last_state
    × (x'.last_state_update ≡ 1000)
    × (x'.last_state_change ≡ (
        if changes the_service x'.state x'.last_state then 1000 else the_service.last_state_change))
set_state_from_exit_status_lem_example = set_state_from_exit_status_lem 1 0 the_world

-- the service depends on the host, which depends on nothing
is_no_check_dependent-OneRaises_example :
    ((is_no_check_dependent 1 the_world 1 ≡ true) × OneRaises the_world the_service.chk_depend_of)
    ⊎ ((is_no_check_dependent 1 the_world 1 ≡ false)
        × ¬ OneRaises the_world the_service.chk_depend_of)
is_no_check_dependent-OneRaises_example =
    is_no_check_dependent-OneRaises the_world (λ i. if i == 0 then 0 else 1) falls 1 1
      (ground arith)
  where
    falls : Falls the_world (λ i. if i == 0 then 0 else 1)
    falls i = ground arith

-- the service with two comments of an acknowledgement
abbrev comment : ℕ → Comment
comment id = record { id = id; entry_type = 4; persistent = false; can_be_deleted = false }

abbrev acknowledged : Item
acknowledged = record the_service {
  ack = record {
    problem_has_been_acknowledged = true;
    acknowledgement = some (record { sticky = false; end_time = 0 });
    comments = comment 1 ∷ comment 2 ∷ [];
  };
}

acknowledge-unacknowledge_example :
    let w' = acknowledge_problem 1 2 true false 0 4 the_world in
    let y = unacknowledge_problem (w'.items 1) in
    ((w'.items 1).problem_has_been_acknowledged ≡ true)
    × (y.problem_has_been_acknowledged ≡ false)
    × (y.acknowledgement ≡ none)
unfolding state_discrete
acknowledge-unacknowledge_example = acknowledge-unacknowledge 1 2 true false 0 4 the_world
