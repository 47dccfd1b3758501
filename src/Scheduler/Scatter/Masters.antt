-- ===== src/Scheduler/Scatter/Masters.antt =====
-- What becomes of a master notification.
use shinken_gpt.Prelude.{
  contains-keep, ℕ, ◌≤◌, ◌≡◌, refl, subst, ◌∙◌, Bool, true, false, not, ◌&&◌, none, some, List, [],
  ◌∷◌, ◌++◌, ap, if◌then◌else◌, ◌==◌, contains, keep, arith,
}
use shinken_gpt.SchedulingItem.Types.{Conf, scheduled, zombie}
use shinken_gpt.SchedulingItem.World.{World}
use shinken_gpt.SchedulingItem.Blocked.{is_problem_type, notification_is_blocked_by_item}
use shinken_gpt.SchedulingItem.Notify.{remove_in_progress_notification}
use shinken_gpt.Escalation.{get_next_notification_time}
use shinken_gpt.Escalation.Earliest.{get_next_notification_time-earliest}
use shinken_gpt.Scheduler.{Scheduler, is_scheduled}
use shinken_gpt.Scheduler.Scatter.{
  Book, scatter_notification, wipe_out, count_sent, plan_next, scatter_master, scatter_one,
}
use shinken_gpt.Scheduler.Scatter.Children.{scatter_notification-keeps, if-one}

contains-kept_out : (a : ℕ) (xs : List ℕ) → contains a (keep (λ k. not (k == a)) xs) ≡ false
contains-kept_out a xs = ground (arith, contains-keep (λ k. not (k == a)) a xs)

-- the master is done, and its item has forgotten it
abbrev pub IsWiped : ℕ → ℕ → World → Type 0
IsWiped item a w =
    ((w.notifications a).status ≡ zombie)
    × (contains a (w.items item).notifications_in_progress ≡ false)

-- the master waits for its next time
abbrev pub IsPlanned : ℕ → ℕ → World → Type 0
IsPlanned now a w =
    ((w.notifications a).status ≡ scheduled)
    × ((r : ℕ) × ((w.notifications a).t_to_go ≡ some r) × (now ≤ r))

wipe_out-IsWiped : (item a : ℕ) (w : World) → IsWiped item a (wipe_out item a w)
unfolding wipe_out remove_in_progress_notification
wipe_out-IsWiped item a w =
    (ground arith, ground (arith, contains-kept_out a (w.items item).notifications_in_progress))

if-own :
    {B : Type 0} (P Q : B → Type 0) (b : Bool) {u v : B}
    → P u
    → Q v
    → let r = if b then u else v in if b then P r else Q r
if-own P Q true p q = p
if-own P Q false p q = q

if-not : (P Q : Type 0) (b : Bool) → (if b then P else Q) → if not b then Q else P
if-not P Q true h = h
if-not P Q false h = h

module _ (book : Book) (item a t : ℕ) (w : World) where
  plan_next-result :
      let w' = plan_next book item a t w in
      if (w.items item).notification_interval == 0 then IsWiped item a w' else IsPlanned w.now a w'
  unfolding plan_next
  plan_next-result =
      let r =
        get_next_notification_time book.escalations w.now (w.items item) (w.notifications a) t in
      let h =
        get_next_notification_time-earliest book.escalations w.now (w.items item)
          (w.notifications a) t in
      if-own (IsWiped item a) (IsPlanned w.now a) ((w.items item).notification_interval == 0)
        (wipe_out-IsWiped item a w) (ground arith, (r, ground arith, h.0))

-- A problem that is notified again is planned, and any other master is wiped out.
abbrev pub Fate : World → ℕ → World → Type 0
Fate w a w' =
    let n = w.notifications a in
    if is_problem_type n.type && not ((w.items n.ref).notification_interval == 0)
    then IsPlanned w.now a w'
    else IsWiped n.ref a w'

fate-if :
    (b : Bool) (book : Book) (item a t : ℕ) (w v u : World)
    → (v.now ≡ w.now)
    → ((v.items item).conf ≡ (w.items item).conf)
    → let w' = if b then plan_next book item a t v else wipe_out item a u in
      if b && not ((w.items item).notification_interval == 0)
      then IsPlanned w.now a w'
      else IsWiped item a w'
fate-if true book item a t w v u e k =
    let w' = plan_next book item a t v in
    let h = plan_next-result book item a t v in
    let h' =
      subst
        (λ now.
          if (v.items item).notification_interval == 0
          then IsWiped item a w'
          else IsPlanned now a w')
        e h in
    if-not (IsWiped item a w') (IsPlanned w.now a w') ((w.items item).notification_interval == 0) (
      subst
        (λ (c : Conf).
          if c.notification_interval == 0 then IsWiped item a w' else IsPlanned w.now a w')
        k h')
fate-if false book item a t w v u e k = wipe_out-IsWiped item a u

count_sent-keeps :
    (item : ℕ) (children : List ℕ) (nb : ℕ) (w : World)
    → ((count_sent item children nb w).now ≡ w.now)
      × (((count_sent item children nb w).items item).conf ≡ (w.items item).conf)
count_sent-keeps item [] nb w = (refl, refl)
count_sent-keeps item (_ ∷ _) nb w = (ground arith, ground arith)

if-snd : {A B : Type 0} (b : Bool) (u v : A × B) → (if b then u else v).1 ≡ (if b then u.1 else v.1)
if-snd true u v = refl
if-snd false u v = refl

module _ (book : Book) (a t : ℕ) (s : Scheduler) where
  scatter_master-Fate : Fate s.world a (scatter_master book a t s).world
  unfolding scatter_master
  scatter_master-Fate =
      let w = s.world in
      let n = w.notifications a in
      let blocked = notification_is_blocked_by_item w (w.items n.ref) n.type w.now in
      let r : World × List ℕ = if blocked then (w, []) else scatter_notification book a t w in
      let Q : World × List ℕ → Type 0 =
        λ r. (r.0.now ≡ w.now) × ((i : ℕ) → (r.0.items i).conf ≡ (w.items i).conf) in
      let same = if-one Q blocked (refl, λ i. refl) (scatter_notification-keeps book a t w) in
      let counted = count_sent n.ref r.1 n.notif_nb r.0 in
      let keeps = count_sent-keeps n.ref r.1 n.notif_nb r.0 in
      fate-if (is_problem_type n.type) book n.ref a t w counted r.0 (keeps.0 ∙ same.0)
        (keeps.1 ∙ same.1 n.ref)

  scatter_master-actions :
      let w = s.world in
      let n = w.notifications a in
      (scatter_master book a t s).actions
      ≡ s.actions
        ++ (if notification_is_blocked_by_item w (w.items n.ref) n.type w.now
            then []
            else (scatter_notification book a t w).1)
  unfolding scatter_master
  scatter_master-actions =
      let w = s.world in
      let n = w.notifications a in
      ap (λ l. s.actions ++ l)
        (if-snd (notification_is_blocked_by_item w (w.items n.ref) n.type w.now) (w, [])
          (scatter_notification book a t w))

  -- A scheduled master notification whose time has come is scattered: the notifications that
  -- `scatter_notification` makes of it are added to the actions, and none when the item blocks it. A
  -- problem of an item with a `notification_interval` is scheduled again, for a time that is not in
  -- the past; any other master becomes a zombie, and is not among the notifications in progress of
  -- its item.
  pub scatter_one-master :
      is_scheduled (s.world.notifications a).status ≡ true
      → ((s.world.notifications a).t_to_go ≡ some t)
      → t ≤ s.world.now
      → ((s.world.notifications a).contact ≡ none)
      → let w = s.world in
        let n = w.notifications a in
        (s' : Scheduler) × (scatter_one book a s ≡ some s')
        × (s'.actions
            ≡ s.actions
              ++ (if notification_is_blocked_by_item w (w.items n.ref) n.type w.now
                  then []
                  else (scatter_notification book a t w).1))
        × Fate w a s'.world
  unfolding scatter_one
  scatter_one-master h e k m = (
    scatter_master book a t s,
    ground (arith, h, e, k, m),
    scatter_master-actions,
    scatter_master-Fate,
  )
