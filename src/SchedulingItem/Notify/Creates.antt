-- ===== src/SchedulingItem/Notify/Creates.antt =====
-- What `create_notifications` adds to an item.
use shinken_gpt.Prelude.{
  ◌≤◌, ℕ, ◌+◌, ◌*◌, ◌≡◌, ◌⊎◌, inl, inr, refl, subst, Bool, Bool-cases, true, false, some, ◌&&◌,
  Option, none, [], ◌∷◌, ◌++◌, ◌==◌, if◌then◌else◌, arith,
}
use shinken_gpt.SchedulingItem.Types.{
  Item, NotificationType, problem, recovery, scheduled, notification,
}
use shinken_gpt.SchedulingItem.World.{World}
use shinken_gpt.SchedulingItem.Blocked.{is_problem_type, notification_is_blocked_by_item}
use shinken_gpt.SchedulingItem.Notify.{
  create_notifications, notification_times, default_t_wished, last_time_non_ok_or_up,
}

-- The time that a notification is wished for: the one asked for, or for a problem of which none was
-- sent yet the `first_notification_delay` after the last bad state, or else now.
pub data Wish (now : ℕ) (x : Item) (type : NotificationType) : Option ℕ → ℕ → Type 0 where
  asked : (t : ℕ) → Wish now x type (some t) t
  delayed :
      x.current_notification_number ≡ 0
      → is_problem_type type ≡ true
      → (last : ℕ)
      → (last ≡ (if last_time_non_ok_or_up x == 0 then now else last_time_non_ok_or_up x))
      → Wish now x type none (last + x.first_notification_delay * x.interval_length)
  sent_before : 1 ≤ x.current_notification_number → Wish now x type none now
  no_problem : is_problem_type type ≡ false → Wish now x type none now

default-Wish :
    (now : ℕ) (x : Item) (type : NotificationType)
    → Wish now x type none (default_t_wished now x type)
unfolding default_t_wished
default-Wish now x type = elim (Bool-cases (is_problem_type type)) [
  | inr e ↦ subst (Wish now x type none) (ground (arith, e)) (no_problem e)
  | inl e ↦ elim (Bool-cases (x.current_notification_number == 0)) [
    | inr f ↦ subst (Wish now x type none) (ground (arith, f)) (sent_before (ground (arith, f)))
    | inl f ↦
        subst (Wish now x type none) (ground (arith, e, f)) (delayed (ground (arith, f)) e _ refl)
  ]
]

times-Wish :
    (now : ℕ) (x : Item) (type : NotificationType) (wished : Option ℕ)
    → Wish now x type wished (notification_times now x type wished).0
unfolding notification_times
times-Wish now x type none = default-Wish now x type
times-Wish now x type (some t) = asked t

-- `w'` is `w` with one new master notification of the item, scheduled, with a fresh id, and last in
-- progress and in the actions.
pub record Created (self : ℕ) (type : NotificationType) (wished : Option ℕ) (t_wished : ℕ)
    (w w' : World) : Type 0 where
  pub next_id : w'.next_id ≡ w.next_id + 1
  pub rest :
      w' ≡ record w { items = w'.items; notifications = w'.notifications; next_id = w'.next_id }
  pub others : (j : ℕ) → (j == w.next_id) ≡ false → w'.notifications j ≡ w.notifications j
  pub items : (j : ℕ) → (j == self) ≡ false → w'.items j ≡ w.items j
  pub own : w'.items self ≡ record (w.items self) {
    outbox = record (w.items self).outbox {
      current_notification_number = elim type [
        | recovery ↦ 0
        | _ ↦ (w.items self).current_notification_number
      ];
      notifications_in_progress = (w.items self).notifications_in_progress ++ w.next_id ∷ [];
      actions = (w.items self).actions ++ notification w.next_id ∷ [];
    };
  }
  pub status : (w'.notifications w.next_id).status ≡ scheduled
  pub ref : (w'.notifications w.next_id).ref ≡ self
  pub contact : (w'.notifications w.next_id).contact ≡ none
  pub type_of : (w'.notifications w.next_id).type ≡ type
  -- the time asked for, or the next one of the notification_period from the wished one on
  pub t_to_go : (w'.notifications w.next_id).t_to_go ≡ elim wished [
    | some t ↦ some t
    | none ↦ elim (w.items self).notification_period [
      | none ↦ some w.now
      | some p ↦ p.get_next_valid_time_from_t t_wished
    ]
  ]
  pub notif_nb : (w'.notifications w.next_id).notif_nb ≡ elim type [
    | problem ↦ (w.items self).current_notification_number + 1
    | recovery ↦ 0
    | _ ↦ (w.items self).current_notification_number
  ]

module _ (self : ℕ) (type : NotificationType) (wished : Option ℕ) (w : World) where
  abbrev t_wished : ℕ
  t_wished = (notification_times w.now (w.items self) type wished).0

  abbrev is_dropped : Bool
  is_dropped =
      notification_is_blocked_by_item w (w.items self) type t_wished
      && (w.items self).first_notification_delay == 0
      && (w.items self).notification_interval == 0

  created :
      is_dropped ≡ false
      → Created self type wished t_wished w (create_notifications self type wished w)
  unfolding create_notifications notification_times
  created e = record {
    next_id = ground (arith, e);
    rest = ground (arith, e);
    others = λ j f. ground (arith, e, f);
    items = λ j f. ground (arith, e, f);
    own = ground (arith, e);
    status = ground (arith, e);
    ref = ground (arith, e);
    contact = ground (arith, e);
    type_of = ground (arith, e);
    t_to_go = ground (arith, e);
    notif_nb = ground (arith, e);
  }

  -- `create_notifications` leaves the world alone when the item blocks the notification at the
  -- wished time, has no `first_notification_delay` and no `notification_interval`, and only then.
  -- Otherwise it adds one new scheduled master notification of the item to those in progress and to
  -- the actions, and nothing else changes but the item's number of notifications, which a recovery
  -- sets to 0. Its number is one more than that for a problem, 0 for a recovery, and it for the other
  -- types; its time is the one asked for, or the next one of the `notification_period`, or now where
  -- there is no such period.
  pub create_notifications_lem :
      let x = w.items self in
      let w' = create_notifications self type wished w in
      (t : ℕ) × Wish w.now x type wished t
      × (((w' ≡ w)
            × (notification_is_blocked_by_item w x type t ≡ true)
            × (x.first_notification_delay ≡ 0)
            × (x.notification_interval ≡ 0))
          ⊎ (((notification_is_blocked_by_item w x type t ≡ false)
                ⊎ ((1 ≤ x.first_notification_delay) ⊎ (1 ≤ x.notification_interval)))
              × Created self type wished t w w'))
  unfolding create_notifications
  create_notifications_lem =
      let x = w.items self in
      let blocked = notification_is_blocked_by_item w x type t_wished in
      (
        t_wished,
        times-Wish w.now x type wished,
        elim (Bool-cases is_dropped) [
          | inl e ↦ inl (ground (arith, e), ground (arith, e), ground (arith, e), ground (arith, e))
          | inr e ↦ inr (kept e, created e)
        ],
      )
    where
      kept :
          is_dropped ≡ false
          → (notification_is_blocked_by_item w (w.items self) type t_wished ≡ false)
            ⊎ ((1 ≤ (w.items self).first_notification_delay)
                ⊎ (1 ≤ (w.items self).notification_interval))
      kept e = ground (arith, e)
