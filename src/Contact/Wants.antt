-- ===== src/Contact/Wants.antt =====
-- What a contact that wants a notification stands for.
use shinken_gpt.Prelude.{
  ℕ, ◌≡◌, refl, inl, inr, Bool-cases, Bool, true, false, ◌&&◌, ◌||◌, Option, some, List, [], ◌∷◌,
  ◌++◌, leb, any, contains, arith,
}
use shinken_gpt.BusinessRule.{Kind, host, service}
use shinken_gpt.SchedulingItem.Types.{State, NotificationType}
use shinken_gpt.Contact.{
  Contact, NotificationWay, way_wants_service, way_wants_host, want_service_notification,
  want_host_notification, commands_of, get_notification_commands,
}

-- want_host_notification or want_service_notification
abbrev pub wants : Kind → Contact → ℕ → State → NotificationType → ℕ → Option ℕ → Bool
wants host c t state type business_impact cmd =
    want_host_notification c t state type business_impact cmd
wants service c t state type business_impact cmd =
    want_service_notification c t state type business_impact cmd

-- the period and the least business impact of a way
abbrev pub accepts : Kind → ℕ → ℕ → NotificationWay → Bool
accepts host t business_impact nw =
    nw.host_notification_period.is_time_valid t && leb nw.min_business_impact business_impact
accepts service t business_impact nw =
    nw.service_notification_period.is_time_valid t && leb nw.min_business_impact business_impact

contains-append :
    (d : ℕ) (xs ys : List ℕ) → contains d (xs ++ ys) ≡ (contains d xs || contains d ys)
contains-append d [] ys = refl
contains-append d (x ∷ xs) ys = ground (arith, contains-append d xs ys)

-- what follows from a wish of one of the ways
abbrev Owned : Kind → ℕ → ℕ → ℕ → List NotificationWay → Type 0
Owned kind t business_impact cmd nws =
    (contains cmd (commands_of kind nws) ≡ true) × (any (accepts kind t business_impact) nws ≡ true)

module _ (t : ℕ) (state : State) (type : NotificationType) (business_impact cmd : ℕ) where
  way_service-owned :
      (nw : NotificationWay)
      → way_wants_service nw t state type business_impact (some cmd) ≡ true
      → (contains cmd nw.service_notification_commands ≡ true)
        × (accepts service t business_impact nw ≡ true)
  unfolding way_wants_service
  way_service-owned nw h = (ground (arith, h), ground (arith, h))

  way_host-owned :
      (nw : NotificationWay)
      → way_wants_host nw t state type business_impact (some cmd) ≡ true
      → (contains cmd nw.host_notification_commands ≡ true)
        × (accepts host t business_impact nw ≡ true)
  unfolding way_wants_host
  way_host-owned nw h = (ground (arith, h), ground (arith, h))

  services-Owned :
      (nws : List NotificationWay)
      → any (λ nw. way_wants_service nw t state type business_impact (some cmd)) nws ≡ true
      → Owned service t business_impact cmd nws
  unfolding commands_of
  services-Owned [] h = cc
  services-Owned (nw ∷ nws) h =
      let c = contains-append cmd nw.service_notification_commands (commands_of service nws) in
      elim (Bool-cases (way_wants_service nw t state type business_impact (some cmd))) [
        | inl e ↦
            (ground (arith, c, way_service-owned nw e), ground (arith, way_service-owned nw e))
        | inr e ↦
            (let rest = services-Owned nws (ground (arith, h, e)) in
              (ground (arith, c, rest), ground (arith, rest)))
      ]

  hosts-Owned :
      (nws : List NotificationWay)
      → any (λ nw. way_wants_host nw t state type business_impact (some cmd)) nws ≡ true
      → Owned host t business_impact cmd nws
  unfolding commands_of
  hosts-Owned [] h = cc
  hosts-Owned (nw ∷ nws) h =
      let c = contains-append cmd nw.host_notification_commands (commands_of host nws) in
      elim (Bool-cases (way_wants_host nw t state type business_impact (some cmd))) [
        | inl e ↦ (ground (arith, c, way_host-owned nw e), ground (arith, way_host-owned nw e))
        | inr e ↦
            (let rest = hosts-Owned nws (ground (arith, h, e)) in
              (ground (arith, c, rest), ground (arith, rest)))
      ]

  -- A contact that wants a notification by a command is not in a downtime, has the command
  -- among its own for hosts or for services, and has a way whose period holds at the time and whose
  -- `min_business_impact` is not above that of the item.
  pub wants-own :
      (kind : Kind) (c : Contact)
      → wants kind c t state type business_impact (some cmd) ≡ true
      → (any (λ dt. dt.is_in_effect) c.downtimes ≡ false)
        × (contains cmd (get_notification_commands c kind) ≡ true)
        × (any (accepts kind t business_impact) c.notificationways ≡ true)
  unfolding want_service_notification want_host_notification get_notification_commands
  wants-own host c h =
      let all = hosts-Owned c.notificationways (ground (arith, h)) in
      (ground (arith, h), all.0, all.1)
  wants-own service c h =
      let all = services-Owned c.notificationways (ground (arith, h)) in
      (ground (arith, h), all.0, all.1)
