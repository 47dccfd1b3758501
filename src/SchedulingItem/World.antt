-- ===== src/SchedulingItem/World.antt =====
-- The objects that the methods share: the hosts and services, and the notifications, checks and
-- downtimes that point at them. Each heap is a function from references. The counters are those of
-- the classes Action and SchedulingItem, and `now` is what `time.time()` returns during a call.
use Prim.Native.String.{String}
use shinken_gpt.Prelude.{ℕ, Bool, Option, List, [], ◌∷◌, ◌++◌, ◌==◌, if◌then◌else◌}
use shinken_gpt.SchedulingItem.Types.{Item, NotificationType, ActionStatus, Log, Brok, Action}

-- Names of tags, module types and workers are numbers, since they are only compared: 'None', or 'none'
-- of a worker, is 0, and 'fork' is 0.
abbrev pub untagged : ℕ
untagged = 0

abbrev pub fork : ℕ
fork = 0

-- shinken/notification.py; `contact` is `none` in a master notification
pub record Notification : Type 0 where
  pub type : NotificationType
  pub status : ActionStatus
  pub ref : ℕ
  pub contact : Option ℕ
  pub t_to_go : Option ℕ
  pub notif_nb : ℕ
  pub creation_time : ℕ
  -- `command_call`
  pub command : Option ℕ
  pub escalated : Bool
  pub already_start_escalations : List ℕ
  pub reactionner_tag : ℕ
  pub module_type : ℕ
  pub priority : ℕ
  pub worker : ℕ

-- shinken/check.py
pub record Check : Type 0 where
  pub status : ActionStatus
  pub ref : ℕ
  pub exit_status : ℕ
  pub output : String
  pub long_output : String
  pub t_to_go : ℕ
  pub check_time : ℕ
  pub depend_on : List ℕ
  pub depend_on_me : List ℕ
  pub dependency_check : Bool
  pub from_trigger : Bool
  pub poller_tag : ℕ
  pub module_type : ℕ
  pub priority : ℕ
  pub internal : Bool
  pub worker : ℕ

-- shinken/downtime.py
pub record Downtime : Type 0 where
  pub ref : ℕ
  pub start_time : ℕ
  pub end_time : ℕ
  pub real_end_time : ℕ
  pub duration : ℕ
  pub fixed : Bool
  pub trigger_id : ℕ
  pub activate_me : List ℕ
  pub is_in_effect : Bool
  pub can_be_deleted : Bool
  -- the id of `extra_comment`
  pub comment_id : Option ℕ

pub record World : Type 0 where
  pub now : ℕ
  pub items : ℕ → Item
  pub notifications : ℕ → Notification
  pub checks : ℕ → Check
  pub downtimes : ℕ → Downtime
  -- the keys of `downtimes` of the scheduler
  pub known_downtimes : List ℕ
  -- Action.id
  pub next_id : ℕ
  -- SchedulingItem.current_event_id, SchedulingItem.current_problem_id
  pub event_id : ℕ
  pub problem_id : ℕ
  -- A ValueError has left a method, and the caller ends there: from then on the world is of no account.
  pub raised : Bool

-- A heap with one object replaced.
abbrev pub update : {A : Type 0} → (ℕ → A) → ℕ → A → ℕ → A
update heap i a j = if j == i then a else heap j

abbrev pub put_item : ℕ → Item → World → World
put_item i x w = record w { items = update w.items i x }

-- self.method(), for a method that works on one object
abbrev pub on : ℕ → (Item → Item) → World → World
on i f w = put_item i (f (w.items i)) w

infixl 2 ◌▷◌
abbrev pub ◌▷◌ : World → (World → World) → World
w ▷ f = f w

-- naglog_result, for the entries of this item
abbrev pub log : Log → Item → Item
log l x = record x { outbox = record x.outbox { logs = x.outbox.logs ++ l ∷ [] } }

-- self.broks.append(self.get_update_status_brok())
abbrev pub brok : Brok → Item → Item
brok b x = record x { outbox = record x.outbox { broks = x.outbox.broks ++ b ∷ [] } }

abbrev pub act : Action → Item → Item
act a x = record x { outbox = record x.outbox { actions = x.outbox.actions ++ a ∷ [] } }
