-- ===== src/SchedulingItem/Downtimes/Depth.antt =====
-- What entering and leaving a downtime does to the attributes of its item and to the downtimes.
use shinken_gpt.Prelude.{
  ℕ, ◌≡◌, refl, true, false, ◌&&◌, Option, none, ◌==◌, if◌then◌else◌, arith, ◌∙◌, ap,
}
use shinken_gpt.Prelude.Int.{pos, negsuc, ◌+ℤ◌, leb_ℤ}
use shinken_gpt.SchedulingItem.Types.{
  Item, NotificationType, downtimestart, downtimeend, downtimecancelled, enter_downtime,
  exit_downtime, InDowntime,
}
use shinken_gpt.SchedulingItem.World.{World, Downtime, ◌▷◌, on, log}
use shinken_gpt.SchedulingItem.Notify.{create_notifications}
use shinken_gpt.SchedulingItem.Notify.Queue.{create_notifications-OnlyQueues}
use shinken_gpt.SchedulingItem.Downtimes.{
  announce, announce_end, announce_cancel, is_zero, set_in_effect, set_depth, close, out_of_effect,
  on_downtime, enter_one, leave, withdraw, cancel_one,
}

-- `w'` differs from `w` in no item's downtime attributes, and in no downtime.
pub record SameDowntimes (w w' : World) : Type 0 where
  pub items : (i : ℕ) → (w'.items i).downtime ≡ (w.items i).downtime
  pub heap : w'.downtimes ≡ w.downtimes
  pub known : w'.known_downtimes ≡ w.known_downtimes

pub create-SameDowntimes :
    (self : ℕ) (type : NotificationType) (t : Option ℕ) (w : World)
    → SameDowntimes w (create_notifications self type t w)
create-SameDowntimes self type t w =
    let q = create_notifications-OnlyQueues self type t w in
    record {
      items = λ i. ap (λ (x : Item). x.downtime) (q.at i);
      heap = q.downtimes;
      known = q.known;
    }

announce-SameDowntimes : (ref : ℕ) (w : World) → SameDowntimes w (announce ref w)
unfolding announce
announce-SameDowntimes ref w =
    let w' = w ▷ on ref (log enter_downtime) in
    let q = create-SameDowntimes ref downtimestart none w' in
    record {
      items = λ i. ground (arith, q.items i);
      heap = ground (arith, q.heap);
      known = ground (arith, q.known);
    }

module _ (dt : ℕ) (w : World) where
  abbrev pub ref : ℕ
  ref = (w.downtimes dt).ref

  announced : SameDowntimes (set_in_effect dt w) (announce ref (set_in_effect dt w))
  announced = announce-SameDowntimes ref (set_in_effect dt w)

  pub enter_one-item :
      (i : ℕ)
      → ((enter_one dt w).items i).downtime ≡ (
          if i == ref
          then record (w.items i).downtime {
            scheduled_downtime_depth = (w.items i).scheduled_downtime_depth +ℤ pos 1;
            in_scheduled_downtime = true;
          }
          else (w.items i).downtime)
  unfolding enter_one
  enter_one-item i = ground (arith, announced.items i)

  pub enter_one-in_effect :
      (d : ℕ)
      → ((enter_one dt w).downtimes d).is_in_effect
        ≡ (if d == dt then true else (w.downtimes d).is_in_effect)
  unfolding enter_one
  enter_one-in_effect d =
      ground (arith, ap (λ (h : ℕ → Downtime). (h d).is_in_effect) announced.heap)

  pub enter_one-ref : (d : ℕ) → ((enter_one dt w).downtimes d).ref ≡ (w.downtimes d).ref
  unfolding enter_one
  enter_one-ref d = ground (arith, ap (λ (h : ℕ → Downtime). (h d).ref) announced.heap)

  pub enter_one-known : (enter_one dt w).known_downtimes ≡ w.known_downtimes
  unfolding enter_one
  enter_one-known = ground (arith, announced.known)

announce_end-downtime :
    (ref : ℕ) (w : World) (i : ℕ)
    → ((announce_end ref w).items i).downtime ≡ (
        if i == ref && leb_ℤ (w.items ref).scheduled_downtime_depth (pos 0)
        then record (w.items i).downtime { in_scheduled_downtime = false }
        else (w.items i).downtime)
unfolding announce_end
announce_end-downtime ref w i =
    let w' = w ▷ on ref (log exit_downtime) in
    let q = create-SameDowntimes ref downtimeend none w' in ground (arith, q.items i)

announce_end-heap :
    (ref : ℕ) (w : World)
    → ((announce_end ref w).downtimes ≡ w.downtimes)
      × ((announce_end ref w).known_downtimes ≡ w.known_downtimes)
unfolding announce_end
announce_end-heap ref w =
    let w' = w ▷ on ref (log exit_downtime) in
    let q = create-SameDowntimes ref downtimeend none w' in
    (ground (arith, q.heap), ground (arith, q.known))

-- the attributes after exit()
abbrev pub after_exit : InDowntime → InDowntime
after_exit r =
    let depth = r.scheduled_downtime_depth +ℤ negsuc 0 in
    record r {
      scheduled_downtime_depth = depth;
      in_scheduled_downtime = if leb_ℤ depth (pos 0) then false else r.in_scheduled_downtime;
    }

pub leave-downtime :
    (ref : ℕ) (w : World) (i : ℕ)
    → ((leave ref w).items i).downtime
      ≡ (if i == ref then after_exit (w.items i).downtime else (w.items i).downtime)
unfolding leave
leave-downtime ref w i =
    let w' =
      w
      ▷ on ref
          (λ x. set_depth (x.scheduled_downtime_depth +ℤ negsuc 0) x.in_scheduled_downtime x) in
    ground (arith, announce_end-downtime ref w' i)

pub leave-heap :
    (ref : ℕ) (w : World)
    → ((leave ref w).downtimes ≡ w.downtimes) × ((leave ref w).known_downtimes ≡ w.known_downtimes)
unfolding leave
leave-heap ref w =
    let w' =
      w
      ▷ on ref
          (λ x. set_depth (x.scheduled_downtime_depth +ℤ negsuc 0) x.in_scheduled_downtime x) in
    announce_end-heap ref w'

pub close-depth :
    (dt : ℕ) (w : World) (i : ℕ)
    → (((close dt w).items i).scheduled_downtime_depth ≡ (w.items i).scheduled_downtime_depth)
      × (((close dt w).items i).in_scheduled_downtime ≡ (w.items i).in_scheduled_downtime)
unfolding close
close-depth dt w i = (ground arith, ground arith)

pub close-heap :
    (dt : ℕ) (w : World) (d : ℕ)
    → (((close dt w).downtimes d).is_in_effect ≡ (w.downtimes d).is_in_effect)
      × (((close dt w).downtimes d).ref ≡ (w.downtimes d).ref)
      × ((close dt w).known_downtimes ≡ w.known_downtimes)
unfolding close
close-heap dt w d = (ground arith, ground arith, refl)

announce_cancel-downtime :
    (ref : ℕ) (w : World) (i : ℕ)
    → ((announce_cancel ref w).items i).downtime ≡ (
        if i == ref && is_zero (w.items ref).scheduled_downtime_depth
        then record (w.items i).downtime { in_scheduled_downtime = false }
        else (w.items i).downtime)
unfolding announce_cancel
announce_cancel-downtime ref w i = ground arith

announce_cancel-heap :
    (ref : ℕ) (w : World)
    → ((announce_cancel ref w).downtimes ≡ w.downtimes)
      × ((announce_cancel ref w).known_downtimes ≡ w.known_downtimes)
unfolding announce_cancel
announce_cancel-heap ref w = (ground arith, ground arith)

-- the attributes after cancel()
abbrev pub after_cancel : InDowntime → InDowntime
after_cancel r =
    let depth = r.scheduled_downtime_depth +ℤ negsuc 0 in
    record r {
      scheduled_downtime_depth = depth;
      in_scheduled_downtime = if is_zero depth then false else r.in_scheduled_downtime;
    }

pub withdraw-downtime :
    (ref : ℕ) (w : World) (i : ℕ)
    → ((withdraw ref w).items i).downtime
      ≡ (if i == ref then after_cancel (w.items i).downtime else (w.items i).downtime)
unfolding withdraw
withdraw-downtime ref w i =
    let w' =
      w
      ▷ on ref
          (λ x. set_depth (x.scheduled_downtime_depth +ℤ negsuc 0) x.in_scheduled_downtime x) in
    ground (arith, announce_cancel-downtime ref w' i)

pub withdraw-heap :
    (ref : ℕ) (w : World)
    → ((withdraw ref w).downtimes ≡ w.downtimes)
      × ((withdraw ref w).known_downtimes ≡ w.known_downtimes)
unfolding withdraw
withdraw-heap ref w =
    let w' =
      w
      ▷ on ref
          (λ x. set_depth (x.scheduled_downtime_depth +ℤ negsuc 0) x.in_scheduled_downtime x) in
    announce_cancel-heap ref w'

pub enter_one-activate_me :
    (dt : ℕ) (w : World)
    → ((enter_one dt w).downtimes dt).activate_me ≡ (w.downtimes dt).activate_me
unfolding enter_one
enter_one-activate_me dt w =
    ground (arith, ap (λ (h : ℕ → Downtime). (h dt).activate_me) (announced dt w).heap)

close-activate_me :
    (dt : ℕ) (w : World) → ((close dt w).downtimes dt).activate_me ≡ (w.downtimes dt).activate_me
unfolding close
close-activate_me dt w = ground arith

pub cancel_one-activate_me :
    (dt : ℕ) (w : World)
    → ((cancel_one dt w).downtimes dt).activate_me ≡ (w.downtimes dt).activate_me
unfolding cancel_one
cancel_one-activate_me dt w =
    let ref = (w.downtimes dt).ref in
    let w' = on_downtime dt out_of_effect w in
    let q = create-SameDowntimes ref downtimecancelled none (close dt (withdraw ref w')) in
    ap (λ (h : ℕ → Downtime). (h dt).activate_me) q.heap
    ∙ close-activate_me dt (withdraw ref w')
    ∙ ap (λ (h : ℕ → Downtime). (h dt).activate_me) (withdraw-heap ref w').0
    ∙ ground arith
