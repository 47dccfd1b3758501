-- ===== src/SchedulingItem/Blocked.antt =====
-- Which notifications an item blocks: `notification_is_blocked_by_item` of a host and of a service,
-- and `business_rule_notification_is_blocked`.
pub mod Quiet
use shinken_gpt.Prelude.{
  ℕ, suc, ◌+◌, ◌≡◌, ◌≢◌, ◌⊎◌, inl, inr, Bool, true, false, not, ◌&&◌, ◌||◌, Option, none, some,
  List, [], ◌∷◌, ◌==◌, if◌then◌else◌, length, count_if, arith,
}
use shinken_gpt.Prelude.Int.{ℤ, pos, ltb_ℤ, ◌<ℤ◌}
use shinken_gpt.BusinessRule.{Kind, host, service}
use shinken_gpt.SchedulingItem.Types.{
  Item, State, ok, warning, critical, unknown, up, down, unreachable, StateType, soft, hard, Letter,
  NotificationType, problem, recovery, acknowledgement, flappingstart, flappingstop,
  flappingdisabled, downtimestart, downtimeend, downtimecancelled, has_letter, ok_up, open_at,
  same_state,
}
use shinken_gpt.SchedulingItem.World.{World}

abbrev pub is_problem_type : NotificationType → Bool
is_problem_type problem = true
is_problem_type _ = false

abbrev pub is_problem_or_recovery : NotificationType → Bool
is_problem_or_recovery problem = true
is_problem_or_recovery recovery = true
is_problem_or_recovery _ = false

abbrev pub is_flapping_type : NotificationType → Bool
is_flapping_type flappingstart = true
is_flapping_type flappingstop = true
is_flapping_type flappingdisabled = true
is_flapping_type _ = false

abbrev pub is_downtime_type : NotificationType → Bool
is_downtime_type downtimestart = true
is_downtime_type downtimeend = true
is_downtime_type downtimecancelled = true
is_downtime_type _ = false

abbrev pub is_downtime_over : NotificationType → Bool
is_downtime_over downtimeend = true
is_downtime_over downtimecancelled = true
is_downtime_over _ = false

abbrev pub is_acknowledgement : NotificationType → Bool
is_acknowledgement acknowledgement = true
is_acknowledgement _ = false

abbrev pub is_soft : StateType → Bool
is_soft soft = true
is_soft hard = false

-- the letter that `notification_options` must hold for a problem or a recovery in this state
unfoldable pub option_of : Kind → State → Option Letter
option_of service unknown = some Letter.u
option_of service warning = some Letter.w
option_of service critical = some Letter.c
option_of service ok = some Letter.r
option_of host down = some Letter.d
option_of host up = some Letter.r
option_of host unreachable = some Letter.u
option_of _ _ = none

abbrev pub lacks : Option Letter → List Letter → Bool
lacks none options = false
lacks (some l) options = not (has_letter l options)

abbrev pub is_service : Kind → Bool
is_service host = false
is_service service = true

-- a problem that counts as taken care of
unfoldable pub accounted : World → Item → Item → Bool
accounted w self p =
    not (p.last_hard_state_id == 0)
    && (p.problem_has_been_acknowledged
        || (self.business_rule_downtime_as_ack
            && (ltb_ℤ (pos 0) p.scheduled_downtime_depth
                || (is_service p.kind && ltb_ℤ (pos 0) (w.items p.host).scheduled_downtime_depth))))

unfoldable pub business_rule_notification_is_blocked : World → Item → Bool
unfolding accounted
business_rule_notification_is_blocked w self =
    count_if (λ i. accounted w self (w.items i)) self.source_problems == length self.source_problems

-- the last test of both methods
unfoldable pub business_rule_blocks : World → Item → NotificationType → Bool
unfolding business_rule_notification_is_blocked
business_rule_blocks w self type =
    self.got_business_rule
    && self.business_rule_smart_notifications
    && business_rule_notification_is_blocked w self
    && is_problem_type type

-- The tests that Host and Service share, in order, up to the one on acknowledgements of an item
-- that is OK or UP.
unfoldable pub blocked_by_options : Item → NotificationType → ℕ → Bool
unfolding option_of
blocked_by_options self type t_wished =
    not self.enable_notifications
    || not (open_at self.notification_period t_wished)
    || not self.notifications_enabled
    || has_letter Letter.n self.notification_options
    || (is_problem_or_recovery type
        && lacks (option_of self.kind self.state) self.notification_options)
    || (is_flapping_type type && not (has_letter Letter.f self.notification_options))
    || (is_downtime_type type && not (has_letter Letter.s self.notification_options))
    || (is_acknowledgement type && same_state self.state (ok_up self.kind))

-- soft problems, acknowledged problems, flapping
unfoldable pub blocked_by_state : Item → NotificationType → Bool
blocked_by_state self type =
    (is_soft self.state_type && is_problem_type type)
    || (self.problem_has_been_acknowledged && not (is_acknowledgement type))
    || (self.is_flapping && not (is_flapping_type type))

unfoldable pub host_is_blocked : World → Item → NotificationType → ℕ → Bool
host_is_blocked w self type t_wished =
    blocked_by_options self type t_wished
    || (is_flapping_type type && ltb_ℤ (pos 0) self.scheduled_downtime_depth)
    || (ltb_ℤ (pos 1) self.scheduled_downtime_depth && not (is_downtime_over type))
    || (ltb_ℤ (pos 0) self.scheduled_downtime_depth && is_problem_or_recovery type)
    || blocked_by_state self type
    || business_rule_blocks w self type

unfoldable pub service_is_blocked : World → Item → NotificationType → ℕ → Bool
service_is_blocked w self type t_wished =
    let its_host = w.items self.host in
    blocked_by_options self type t_wished
    || (ltb_ℤ (pos 1) self.scheduled_downtime_depth && not (is_downtime_over type))
    || ltb_ℤ (pos 0) its_host.scheduled_downtime_depth
    || (ltb_ℤ (pos 0) self.scheduled_downtime_depth
        && (is_problem_or_recovery type || is_flapping_type type))
    || blocked_by_state self type
    || not (same_state its_host.state (ok_up its_host.kind))
    || business_rule_blocks w self type

abbrev pub blocked_by_kind : Kind → World → Item → NotificationType → ℕ → Bool
blocked_by_kind host = host_is_blocked
blocked_by_kind service = service_is_blocked

unfoldable pub notification_is_blocked_by_item : World → Item → NotificationType → ℕ → Bool
notification_is_blocked_by_item w self type t_wished =
    blocked_by_kind self.kind w self type t_wished
