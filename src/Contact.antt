-- ===== src/Contact.antt =====
-- Contacts and their notification ways: shinken/objects/contact.py, shinken/objects/notificationway.py,
-- and the downtimes of contacts, shinken/contactdowntime.py. A command is a number.
pub mod Wants
mod Examples
use shinken_gpt.Prelude.{
  ℕ, Bool, true, false, not, ◌&&◌, ◌||◌, Option, none, some, List, [], ◌∷◌, ◌++◌, if◌then◌else◌,
  ltb, leb, ◌==◌, any, contains,
}
use shinken_gpt.BusinessRule.{Kind, host, service}
use shinken_gpt.SchedulingItem.Types.{State, Letter, NotificationType, Period, has_letter}

pub record ContactDowntime : Type 0 where
  pub start_time : ℕ
  pub end_time : ℕ
  pub is_in_effect : Bool
  pub can_be_deleted : Bool

pub record NotificationWay : Type 0 where
  pub host_notifications_enabled : Bool
  pub service_notifications_enabled : Bool
  pub host_notification_period : Period
  pub service_notification_period : Period
  pub host_notification_options : List Letter
  pub service_notification_options : List Letter
  pub host_notification_commands : List ℕ
  pub service_notification_commands : List ℕ
  pub min_business_impact : ℕ

pub record Contact : Type 0 where
  pub host_notifications_enabled : Bool
  pub service_notifications_enabled : Bool
  pub downtimes : List ContactDowntime
  pub notificationways : List NotificationWay

-- cmd and cmd not in commands
abbrev is_foreign : Option ℕ → List ℕ → Bool
is_foreign none commands = false
is_foreign (some c) commands = not (contains c commands)

-- `t` of want_service_notification, at a state
abbrev service_letter : State → Option Letter
service_letter State.warning = some Letter.w
service_letter State.unknown = some Letter.u
service_letter State.critical = some Letter.c
service_letter _ = none

abbrev host_letter : State → Option Letter
host_letter State.down = some Letter.d
host_letter State.unreachable = some Letter.u
host_letter _ = none

abbrev has_optional : Option Letter → List Letter → Bool
has_optional none options = false
has_optional (some l) options = has_letter l options

-- the chain of tests on the type; `own` are the options of the kind, `down` those for a downtime
unfoldable pub by_type : Option Letter → List Letter → List Letter → NotificationType → Bool
by_type letter own down NotificationType.problem = has_optional letter own
by_type letter own down NotificationType.recovery = has_letter Letter.r own
by_type letter own down NotificationType.acknowledgement = true
by_type letter own down NotificationType.flappingstart = has_letter Letter.f own
by_type letter own down NotificationType.flappingstop = has_letter Letter.f own
by_type letter own down NotificationType.flappingdisabled = has_letter Letter.f own
by_type letter own down NotificationType.downtimestart = has_letter Letter.s down
by_type letter own down NotificationType.downtimeend = has_letter Letter.s down
by_type letter own down NotificationType.downtimecancelled = has_letter Letter.s down

-- NotificationWay.want_service_notification
unfoldable pub way_wants_service :
    NotificationWay → ℕ → State → NotificationType → ℕ → Option ℕ → Bool
unfolding by_type
way_wants_service nw t state type business_impact cmd =
    if not nw.service_notifications_enabled
    then false
    else if is_foreign cmd nw.service_notification_commands
    then false
    else if ltb business_impact nw.min_business_impact
    then false
    else if has_letter Letter.n nw.service_notification_options
    then false
    else nw.service_notification_period.is_time_valid t
      && by_type (service_letter state) nw.service_notification_options nw.host_notification_options
          type

-- NotificationWay.want_host_notification
unfoldable pub way_wants_host : NotificationWay → ℕ → State → NotificationType → ℕ → Option ℕ → Bool
unfolding by_type
way_wants_host nw t state type business_impact cmd =
    if not nw.host_notifications_enabled
    then false
    else if ltb business_impact nw.min_business_impact
    then false
    else if is_foreign cmd nw.host_notification_commands
    then false
    else if has_letter Letter.n nw.host_notification_options
    then false
    else nw.host_notification_period.is_time_valid t
      && by_type (host_letter state) nw.host_notification_options nw.host_notification_options type

-- NotificationWay.get_notification_commands
abbrev pub way_commands : Kind → NotificationWay → List ℕ
way_commands host nw = nw.host_notification_commands
way_commands service nw = nw.service_notification_commands

unfoldable pub want_service_notification :
    Contact → ℕ → State → NotificationType → ℕ → Option ℕ → Bool
unfolding way_wants_service
want_service_notification c t state type business_impact cmd =
    if not c.service_notifications_enabled
    then false
    else if any (λ dt. dt.is_in_effect) c.downtimes
    then false
    else any (λ nw. way_wants_service nw t state type business_impact cmd) c.notificationways

unfoldable pub want_host_notification : Contact → ℕ → State → NotificationType → ℕ → Option ℕ → Bool
unfolding way_wants_host
want_host_notification c t state type business_impact cmd =
    if not c.host_notifications_enabled
    then false
    else if any (λ dt. dt.is_in_effect) c.downtimes
    then false
    else any (λ nw. way_wants_host nw t state type business_impact cmd) c.notificationways

unfoldable pub commands_of : Kind → List NotificationWay → List ℕ
commands_of kind [] = []
commands_of kind (nw ∷ nws) = way_commands kind nw ++ commands_of kind nws

unfoldable pub get_notification_commands : Contact → Kind → List ℕ
unfolding commands_of
get_notification_commands c kind = commands_of kind c.notificationways

-- ContactDowntime.check_activation, but for the log
unfoldable pub check_activation : ℕ → ContactDowntime → ContactDowntime
check_activation now dt =
    let is_in_effect = leb dt.start_time now && leb now dt.end_time in
    record dt {
      is_in_effect = is_in_effect;
      can_be_deleted = dt.can_be_deleted || (dt.is_in_effect && not is_in_effect);
    }
