-- ===== src/SchedulingItem/Blocked/Quiet.antt =====
-- When notifications are kept back, and what one that is not kept back has passed.
use mathlib.Core.Path.{subst}
use shinken_gpt.Prelude.{ℕ, ◌≡◌, ◌≢◌, ◌⊎◌, inl, inr, true, false, ◌&&◌, arith}
use shinken_gpt.Prelude.Int.{pos, ◌<ℤ◌}
use shinken_gpt.BusinessRule.{Kind, host, service}
use shinken_gpt.SchedulingItem.Types.{
  Item, soft, NotificationType, problem, acknowledgement, ok_up, open_at,
}
use shinken_gpt.SchedulingItem.World.{World}
use shinken_gpt.SchedulingItem.Blocked.{
  is_problem_or_recovery, lacks, option_of, blocked_by_options, blocked_by_state, host_is_blocked,
  service_is_blocked, blocked_by_kind, notification_is_blocked_by_item,
}

abbrev pub Quiet : Item → NotificationType → Type 0
Quiet self type =
    ((pos 0 <ℤ self.scheduled_downtime_depth) × (is_problem_or_recovery type ≡ true))
    ⊎ ((self.problem_has_been_acknowledged ≡ true) × (type ≢ acknowledgement))
    ⊎ ((self.state_type ≡ soft) × (type ≡ problem))

blocked_by_state-quiet :
    (self : Item) (type : NotificationType)
    → ((self.problem_has_been_acknowledged ≡ true) × (type ≢ acknowledgement))
      ⊎ ((self.state_type ≡ soft) × (type ≡ problem))
    → blocked_by_state self type ≡ true
unfolding blocked_by_state
blocked_by_state-quiet self type h = ground arith

blocked_by_kind-quiet :
    (k : Kind) (w : World) (self : Item) (type : NotificationType) (t : ℕ)
    → Quiet self type
    → blocked_by_kind k w self type t ≡ true
unfolding host_is_blocked service_is_blocked
blocked_by_kind-quiet host w self type t (inl h) = ground arith
blocked_by_kind-quiet host w self type t (inr h) =
    ground (arith, blocked_by_state-quiet self type h)
blocked_by_kind-quiet service w self type t (inl h) = ground arith
blocked_by_kind-quiet service w self type t (inr h) =
    ground (arith, blocked_by_state-quiet self type h)

abbrev pub Permitted : Item → NotificationType → ℕ → Type 0
Permitted self type t =
    (self.enable_notifications ≡ true)
    × (self.notifications_enabled ≡ true)
    × (open_at self.notification_period t ≡ true)
    × ((is_problem_or_recovery type
          && lacks (option_of self.kind self.state) self.notification_options)
        ≡ false)

Permitted-by_options :
    (self : Item) (type : NotificationType) (t : ℕ)
    → blocked_by_options self type t ≡ false
    → Permitted self type t
unfolding blocked_by_options
Permitted-by_options self type t h = ground arith

steady_by_state :
    (self : Item) (type : NotificationType)
    → blocked_by_state self type ≡ false
    → (is_problem_or_recovery type && self.is_flapping) ≡ false
unfolding blocked_by_state
steady_by_state self type h = ground arith

host_parts :
    (w : World) (self : Item) (type : NotificationType) (t : ℕ)
    → host_is_blocked w self type t ≡ false
    → (blocked_by_options self type t ≡ false) × (blocked_by_state self type ≡ false)
unfolding host_is_blocked
host_parts w self type t h = ground arith

service_parts :
    (w : World) (self : Item) (type : NotificationType) (t : ℕ)
    → service_is_blocked w self type t ≡ false
    → (blocked_by_options self type t ≡ false)
      × (blocked_by_state self type ≡ false)
      × ((w.items self.host).state ≡ ok_up (w.items self.host).kind)
      × ¬ (pos 0 <ℤ (w.items self.host).scheduled_downtime_depth)
unfolding service_is_blocked
service_parts w self type t h = ground arith

parts_by_kind :
    (k : Kind) (w : World) (self : Item) (type : NotificationType) (t : ℕ)
    → blocked_by_kind k w self type t ≡ false
    → (blocked_by_options self type t ≡ false) × (blocked_by_state self type ≡ false)
parts_by_kind host w self type t h = host_parts w self type t h
parts_by_kind service w self type t h = let p = service_parts w self type t h in (p.0, p.1)

-- Whatever the configuration of a host or a service, a problem or a recovery is blocked while the
-- item is in a downtime, any notification but an acknowledgement while its problem is
-- acknowledged, and a problem while its state is SOFT.
pub quiet_times :
    (w : World) (self : Item) (type : NotificationType) (t : ℕ)
    → Quiet self type
    → notification_is_blocked_by_item w self type t ≡ true
unfolding notification_is_blocked_by_item
quiet_times w self type t h = blocked_by_kind-quiet self.kind w self type t h

-- A notification that is not blocked finds notifications enabled in the program and for the item,
-- and the notification period open; if it is a problem or a recovery, the option for its state is
-- set and the item is not flapping.
pub unblocked_is_Permitted :
    (w : World) (self : Item) (type : NotificationType) (t : ℕ)
    → notification_is_blocked_by_item w self type t ≡ false
    → Permitted self type t × ((is_problem_or_recovery type && self.is_flapping) ≡ false)
unfolding notification_is_blocked_by_item
unblocked_is_Permitted w self type t h =
    let p = parts_by_kind self.kind w self type t h in
    (Permitted-by_options self type t p.0, steady_by_state self type p.1)

-- A notification of a service that is not blocked finds its host UP and in no downtime.
pub unblocked_service_has_host :
    (w : World) (self : Item) (type : NotificationType) (t : ℕ)
    → self.kind ≡ service
    → notification_is_blocked_by_item w self type t ≡ false
    → ((w.items self.host).state ≡ ok_up (w.items self.host).kind)
      × ¬ (pos 0 <ℤ (w.items self.host).scheduled_downtime_depth)
unfolding notification_is_blocked_by_item
unblocked_service_has_host w self type t k h =
    let p =
      service_parts w self type t (subst (λ x. blocked_by_kind x w self type t ≡ false) k h) in
    (p.2, p.3)
