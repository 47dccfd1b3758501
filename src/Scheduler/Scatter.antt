-- ===== src/Scheduler/Scatter.antt =====
-- A master notification is split into one notification for each contact and command:
-- `scatter_notification` of shinken/objects/schedulingitem.py and `scatter_master_notifications` of
-- shinken/scheduler.py. The macros of a command are not resolved and log entries and broks are
-- left out. `none` is a TypeError: a notification without a time is compared with the time.
pub mod Children
pub mod Masters
use shinken_gpt.Prelude.{
  ℕ, ◌+◌, Bool, true, false, not, ◌&&◌, ◌||◌, Option, none, some, List, [], ◌∷◌, ◌++◌,
  if◌then◌else◌, leb, ◌==◌, contains, ◌>>=◌,
}
use shinken_gpt.SchedulingItem.Types.{Item, NotificationType, problem, recovery, scheduled, zombie}
use shinken_gpt.SchedulingItem.World.{World, Notification, update, on, ◌▷◌}
use shinken_gpt.SchedulingItem.Blocked.{is_problem_type, notification_is_blocked_by_item}
use shinken_gpt.SchedulingItem.Consume.{nobody}
use shinken_gpt.SchedulingItem.Notify.{remove_in_progress_notification}
use shinken_gpt.Escalation.{
  Escalation, is_escalable, get_escalable_contacts, get_next_notification_time,
}
use shinken_gpt.Contact.{Contact, get_notification_commands}
use shinken_gpt.Contact.Wants.{wants}
use shinken_gpt.Scheduler.{Scheduler, is_scheduled, set_notification}
use shinken_gpt.Scheduler.Poll.{is_master, is_launchable}

-- objects/command.py, what a notification takes of its command
pub record Command : Type 0 where
  pub reactionner_tag : ℕ
  pub module_type : ℕ

-- the configured objects that a number stands for
pub record Book : Type 0 where
  pub escalations : ℕ → Escalation
  pub contacts : ℕ → Contact
  pub commands : ℕ → Command

-- Notification(n.type, 'scheduled', 'VOID', cmd, self, contact, n.t_to_go, ...)
unfoldable pub child_of : Book → ℕ → Notification → Bool → ℕ → ℕ → Notification
child_of book now n escalated contact cmd = record {
  type = n.type;
  status = scheduled;
  ref = n.ref;
  contact = some contact;
  t_to_go = n.t_to_go;
  notif_nb = n.notif_nb;
  creation_time = now;
  command = some cmd;
  escalated = escalated;
  already_start_escalations = [];
  reactionner_tag = (book.commands cmd).reactionner_tag;
  module_type = (book.commands cmd).module_type;
  priority = 100;
  worker = 0;
}

-- self.notified_contacts.add(contact)
abbrev add_contact : ℕ → List ℕ → List ℕ
add_contact c cs = if contains c cs then cs else cs ++ c ∷ []

-- the child is in progress, and a contact that is told of a problem is kept
unfoldable pub keep_child : NotificationType → ℕ → ℕ → Item → Item
keep_child type contact id x = record x {
  outbox = record x.outbox { notifications_in_progress = x.notifications_in_progress ++ id ∷ [] };
  planning = record x.planning {
    notified_contacts =
        if is_problem_type type
        then add_contact contact x.notified_contacts
        else x.notified_contacts;
  };
}

-- the loop over the commands of a contact; `x` is the item, whose state the loop does not change
unfoldable pub scatter_commands :
    Book → Item → Notification → Bool → ℕ → List ℕ → World → World × List ℕ
unfolding child_of keep_child
scatter_commands book x n escalated contact [] w = (w, [])
scatter_commands book x n escalated contact (cmd ∷ cmds) w =
    let id = w.next_id in
    let wanted =
      wants x.kind (book.contacts contact) x.last_chk x.state n.type x.business_impact (some cmd) in
    let made = record w {
      next_id = id + 1;
      notifications = update w.notifications id (child_of book w.now n escalated contact cmd);
    } in
    let kept = if wanted then made ▷ on n.ref (keep_child n.type contact id) else made in
    let (w', children) = scatter_commands book x n escalated contact cmds kept in
    (w', if wanted then id ∷ children else children)

-- the contact was told before and is not told again
abbrev pub is_skipped : Item → Notification → ℕ → World → Bool
is_skipped x n contact w =
    is_problem_type n.type
    && x.notification_interval == 0
    && contains contact (w.items n.ref).notified_contacts

unfoldable pub scatter_contacts :
    Book → Item → Notification → Bool → List ℕ → World → World × List ℕ
unfolding scatter_commands get_notification_commands
scatter_contacts book x n escalated [] w = (w, [])
scatter_contacts book x n escalated (c ∷ cs) w =
    let cmds =
      if is_skipped x n c w then [] else get_notification_commands (book.contacts c) x.kind in
    let (w1, children) = scatter_commands book x n escalated c cmds w in
    let (w2, more) = scatter_contacts book x n escalated cs w1 in (w2, children ++ more)

abbrev pub is_recovery : NotificationType → Bool
is_recovery recovery = true
is_recovery _ = false

-- the contacts of a recovery: nobody, if no notification was sent during `first_notification_delay`
abbrev pub told_of_problem : Item → List ℕ
told_of_problem x =
    if not (x.first_notification_delay == 0) && nobody x.notified_contacts
    then []
    else x.notified_contacts

-- self.notified_contacts.clear()
abbrev pub clear_contacts : Item → Item
clear_contacts x = record x { planning = record x.planning { notified_contacts = [] } }

-- `a` is the notification, `t` its time
unfoldable pub scatter_notification : Book → ℕ → ℕ → World → World × List ℕ
unfolding scatter_contacts is_escalable get_escalable_contacts
scatter_notification book a t w =
    let n = w.notifications a in
    let x = w.items n.ref in
    if not (is_master n)
    then (w, [])
    else if is_recovery n.type
    then scatter_contacts book x n false (told_of_problem x) (w ▷ on n.ref clear_contacts)
    else if is_escalable book.escalations w.now x n t
    then (let (n', contacts) = get_escalable_contacts book.escalations w.now x n t in
        scatter_contacts book x n true contacts (w ▷ set_notification a (λ _. n')))
    else scatter_contacts book x n false x.contacts w

-- the master is wiped out
unfoldable pub wipe_out : ℕ → ℕ → World → World
unfolding remove_in_progress_notification
wipe_out item a w =
    w
    ▷ remove_in_progress_notification item a
    ▷ set_notification a (λ n. record n { status = zombie })

-- the counter is that of the notification, if children were made
abbrev pub count_sent : ℕ → List ℕ → ℕ → World → World
count_sent item children nb w =
    if nobody children
    then w
    else w
      ▷ on item (λ x. record x { outbox = record x.outbox { current_notification_number = nb } })

-- the next notification, or none
unfoldable pub plan_next : Book → ℕ → ℕ → ℕ → World → World
unfolding get_next_notification_time wipe_out
plan_next book item a t w =
    let x = w.items item in
    if x.notification_interval == 0
    then wipe_out item a w
    else w
      ▷ set_notification a (λ n. record n {
        t_to_go = some (get_next_notification_time book.escalations w.now x n t);
        notif_nb = x.current_notification_number + 1;
        status = scheduled;
      })

-- what is done with a master notification that can be launched
unfoldable pub scatter_master : Book → ℕ → ℕ → Scheduler → Scheduler
unfolding scatter_notification plan_next wipe_out
scatter_master book a t s =
    let w = s.world in
    let n = w.notifications a in
    let item = n.ref in
    let (w1, children) =
      if notification_is_blocked_by_item w (w.items item) n.type w.now
      then (w, [])
      else scatter_notification book a t w in
    record s {
      world =
          if is_problem_type n.type
          then plan_next book item a t (count_sent item children n.notif_nb w1)
          else wipe_out item a w1;
      actions = s.actions ++ children;
    }

unfoldable pub scatter_one : Book → ℕ → Scheduler → Option Scheduler
unfolding scatter_master
scatter_one book a s =
    let n = s.world.notifications a in
    if is_scheduled n.status
    then elim n.t_to_go [
      | none ↦ none
      | some t ↦ some (if leb t s.world.now && is_master n then scatter_master book a t s else s)
    ]
    else some s

-- the loop over a copy of the actions
unfoldable pub scatter_each : Book → List ℕ → Scheduler → Option Scheduler
unfolding scatter_one
scatter_each book [] s = some s
scatter_each book (a ∷ more) s = do s' ← scatter_one book a s; scatter_each book more s'

unfoldable pub scatter_master_notifications : Book → Scheduler → Option Scheduler
unfolding scatter_each
scatter_master_notifications book s = scatter_each book s.actions s
