-- ===== src/Escalation/Examples.antt =====
-- The theorem on the next notification, with an escalation that starts early.
use shinken_gpt.Prelude.{◌+◌, ◌*◌, ◌<◌, ◌≤◌, ◌≡◌, ◌⊎◌, ℕ, true, none, some, [], ◌∷◌, max, All}
use shinken_gpt.SchedulingItem.Types.{Item, Letter}
use shinken_gpt.SchedulingItem.World.{Notification}
use shinken_gpt.SchedulingItem.Samples.{the_service, the_world}
use shinken_gpt.Escalation.{Escalation, standard_time, early_start, get_next_notification_time}
use shinken_gpt.Escalation.Earliest.{NotAfter, get_next_notification_time-earliest}

-- two minutes after the notification was created, at 900
abbrev after_two : Escalation
after_two = record {
  first_notification = 0;
  last_notification = 0;
  first_notification_time = 2;
  last_notification_time = 0;
  notification_interval = none;
  escalation_period = none;
  escalation_options = Letter.c ∷ Letter.w ∷ [];
  contacts = 1 ∷ [];
  time_based = true;
}

abbrev escalating : Item
escalating = record the_service { conf = record the_service.conf { escalations = 4 ∷ [] } }

abbrev master : Notification
master = the_world.notifications 3

get_next_notification_time-earliest_example :
    let book = λ (i : ℕ). after_two in
    let std_time = standard_time book 1000 escalating master 900 in
    let r = get_next_notification_time book 1000 escalating master 900 in
    (1000 ≤ r)
    × (r ≤ std_time)
    × (std_time ≤ max 900 1000 + 60 * 60)
    × ((r ≡ std_time)
        ⊎ ((1000 < r) × ((i : ℕ) × (early_start book std_time escalating master i ≡ some r))))
    × All (λ i. NotAfter 1000 r (early_start book std_time escalating master i)) (4 ∷ [])
get_next_notification_time-earliest_example =
    get_next_notification_time-earliest (λ i. after_two) 1000 escalating master 900
