-- ===== src/SchedulingItem/Notify.antt =====
-- The master notifications that an item creates and withdraws, and its event handlers.
-- The macros of a command are not resolved: an action holds the command that it will run.
pub mod Queue
pub mod Creates
use shinken_gpt.Prelude.{
  ℕ, zero, suc, ◌+◌, ◌*◌, ◌≡◌, refl, Bool, true, false, not, ◌&&◌, ◌||◌, Option, none, some, List,
  [], ◌∷◌, ◌++◌, ◌==◌, if◌then◌else◌, ltb, min, arith, contains, keep,
}
use shinken_gpt.BusinessRule.{Kind, host, service}
use shinken_gpt.SchedulingItem.Types.{
  Item, Period, Outbox, NotificationType, problem, recovery, scheduled, zombie, Action,
  notification, event_handler, event_handler_log,
}
use shinken_gpt.SchedulingItem.World.{
  untagged, fork, World, Notification, update, put_item, on, act, log,
}
use shinken_gpt.SchedulingItem.Blocked.{is_problem_type, notification_is_blocked_by_item}

-- min of the times after `ok`, 0 if there is none
unfoldable pub first_after : ℕ → List ℕ → ℕ
first_after ok_time [] = 0
first_after ok_time (x ∷ xs) =
    let rest = first_after ok_time xs in
    if ltb ok_time x then if rest == 0 then x else min x rest else rest

abbrev last_time_by_kind : Kind → Item → ℕ
last_time_by_kind service x =
    first_after x.last_time_ok
      (x.last_time_warning ∷ x.last_time_critical ∷ x.last_time_unknown ∷ [])
last_time_by_kind host x = if ltb x.last_time_up x.last_time_down then x.last_time_down else 0

unfoldable pub last_time_non_ok_or_up : Item → ℕ
unfolding first_after
last_time_non_ok_or_up x = last_time_by_kind x.kind x

-- The time that a notification is wished for when none is asked for.
unfoldable pub default_t_wished : ℕ → Item → NotificationType → ℕ
unfolding last_time_non_ok_or_up
default_t_wished now x type =
    if x.current_notification_number == 0 && is_problem_type type
    then (let last = last_time_non_ok_or_up x in
        (if last == 0 then now else last) + x.first_notification_delay * x.interval_length)
    else now

abbrev next_valid : Option Period → ℕ → ℕ → Option ℕ
next_valid none now t_wished = some now
next_valid (some p) now t_wished = p.get_next_valid_time_from_t t_wished

-- `t_wished` and `t`
unfoldable pub notification_times : ℕ → Item → NotificationType → Option ℕ → ℕ × Option ℕ
unfolding default_t_wished
notification_times now x type none =
    let t_wished = default_t_wished now x type in
    (t_wished, next_valid x.notification_period now t_wished)
notification_times now x type (some t) = (t, some t)

-- the new `current_notification_number`, and the number of the notification
unfoldable pub notification_number : ℕ → NotificationType → ℕ × ℕ
notification_number current problem = (current, current + 1)
notification_number current recovery = (0, 0)
notification_number current _ = (current, current)

unfoldable pub create_notifications : ℕ → NotificationType → Option ℕ → World → World
unfolding notification_times notification_number
create_notifications self type wished w =
    let x = w.items self in
    let (t_wished, t) = notification_times w.now x type wished in
    if notification_is_blocked_by_item w x type t_wished
      && x.first_notification_delay == 0
      && x.notification_interval == 0
    then w
    else let (current, nb) = notification_number x.current_notification_number type in
      let id = w.next_id in
      let n : Notification = record {
        type = type;
        status = scheduled;
        ref = self;
        contact = none;
        t_to_go = t;
        notif_nb = nb;
        creation_time = w.now;
        command = none;
        escalated = false;
        already_start_escalations = [];
        reactionner_tag = untagged;
        module_type = fork;
        priority = 100;
        worker = untagged;
      } in
      let out : Outbox = record x.outbox {
        current_notification_number = current;
        notifications_in_progress = x.notifications_in_progress ++ id ∷ [];
        actions = x.actions ++ notification id ∷ [];
      } in
      record (put_item self (record x { outbox = out }) w) {
        next_id = id + 1;
        notifications = update w.notifications id n;
      }

-- n.status = 'zombie', for the notifications of a list
unfoldable pub zombify : List ℕ → (ℕ → Notification) → ℕ → Notification
zombify ids heap j = if contains j ids then record (heap j) { status = zombie } else heap j

unfoldable pub remove_in_progress_notification : ℕ → ℕ → World → World
unfolding zombify
remove_in_progress_notification self n w =
    let x = w.items self in
    if contains n x.notifications_in_progress
    then (let rest = keep (λ k. not (k == n)) x.notifications_in_progress in
        let out : Outbox = record x.outbox { notifications_in_progress = rest } in
        record (put_item self (record x { outbox = out }) w) {
          notifications = zombify (n ∷ []) w.notifications;
        })
    else w

unfoldable pub remove_each : ℕ → List ℕ → World → World
remove_each self [] w = w
remove_each self (n ∷ ns) w = remove_each self ns (remove_in_progress_notification self n w)

-- the loop runs over a copy of the dictionary's values
unfoldable pub remove_in_progress_notifications : ℕ → World → World
unfolding remove_each remove_in_progress_notification
remove_in_progress_notifications self w =
    remove_each self (w.items self).notifications_in_progress w

abbrev chosen_handler : Option ℕ → Option ℕ → Option ℕ
chosen_handler (some e) other = some e
chosen_handler none other = other

abbrev launch_handler : Option ℕ → Item → Item
launch_handler none x = x
launch_handler (some e) x = act (event_handler e) (log event_handler_log x)

-- with `externalcmd` False, as in the handling of a result
unfoldable pub get_event_handlers : Item → Item
get_event_handlers x =
    if not x.event_handler_enabled
      || not x.enable_event_handlers
      || (x.no_event_handlers_during_downtimes && x.in_scheduled_downtime)
    then x
    else launch_handler (chosen_handler x.event_handler x.global_event_handler) x
