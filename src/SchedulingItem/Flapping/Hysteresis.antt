-- ===== src/SchedulingItem/Flapping/Hysteresis.antt =====
-- The history of changes is bounded, and the two thresholds of flap detection work as a hysteresis.
use shinken_gpt.Prelude.{
  ℕ, zero, suc, ◌*◌, ◌≤◌, ◌≡◌, Bool, true, false, not, ◌&&◌, none, List, [], ◌∷◌, ◌++◌,
  if◌then◌else◌, length, arith, ap, refl,
}
use shinken_gpt.SchedulingItem.Types.{
  Item, NotificationType, flappingstart, flappingstop, flapping_start, flapping_stop,
}
use shinken_gpt.SchedulingItem.World.{World, on, log}
use shinken_gpt.SchedulingItem.Notify.{create_notifications, remove_in_progress_notifications}
use shinken_gpt.SchedulingItem.Notify.Queue.{
  OnlyQueues-trans, create_notifications-OnlyQueues, remove_in_progress_notifications-OnlyQueues,
}
use shinken_gpt.SchedulingItem.Flapping.{
  or_global, flapping_ratio_below, is_full, stops_flapping, starts_flapping, set_flapping,
  stop_flapping, start_flapping, update_flapping, push_change, pop_first,
}

length-snoc : (bs : List Bool) (b : Bool) → length (bs ++ b ∷ []) ≡ suc (length bs)
length-snoc [] b = refl
length-snoc (x ∷ bs) b = ap suc (length-snoc bs b)

push_bound : (h : ℕ) (cs : List Bool) → length cs ≤ suc h → length (pop_first h cs) ≤ h
push_bound h [] p = ground arith
push_bound h (c ∷ cs) p = ground arith

-- A history that is not longer than `flap_history` does not get longer than that by a change.
pub length-push_change :
    (h : ℕ) (b : Bool) (cs : List Bool) → length cs ≤ h → length (push_change h b cs) ≤ h
unfolding push_change
length-push_change h b cs p = push_bound h (cs ++ b ∷ []) (ground (arith, length-snoc cs b, p))

announced :
    (self : ℕ) (type : NotificationType) (w : World) (i : ℕ)
    → let x =
        (create_notifications self type none (remove_in_progress_notifications self w)).items i in
      (x.stat ≡ (w.items i).stat) × (x.conf ≡ (w.items i).conf)
announced self type w i =
    let q =
      OnlyQueues-trans (remove_in_progress_notifications-OnlyQueues self w) (
        create_notifications-OnlyQueues self type none (remove_in_progress_notifications self w)) in
    (ap (λ (x : Item). x.stat) (q.at i), ap (λ (x : Item). x.conf) (q.at i))

stopped :
    (self : ℕ) (w : World)
    → let x = (stop_flapping self w).items self in
      let y = w.items self in (x.stat ≡ record y.stat { is_flapping = false }) × (x.conf ≡ y.conf)
unfolding stop_flapping
stopped self w = ground (
  arith,
  announced self flappingstop (on self (λ x. log flapping_stop (set_flapping false x)) w) self,
)

started :
    (self : ℕ) (w : World)
    → let x = (start_flapping self w).items self in
      let y = w.items self in (x.stat ≡ record y.stat { is_flapping = true }) × (x.conf ≡ y.conf)
unfolding start_flapping
started self w = ground (
  arith,
  announced self flappingstart (on self (λ x. log flapping_start (set_flapping true x)) w) self,
)

abbrev pub low : Item → ℕ
low x = or_global x.low_flap_threshold x.global_low_flap_threshold

abbrev pub high : Item → ℕ
high x = or_global x.high_flap_threshold x.global_high_flap_threshold

times_mono : (a b c : ℕ) → a ≤ b → a * c ≤ b * c
times_mono a b zero h = ground arith
times_mono a b (suc c) h = ground (arith, times_mono a b c h)

ratio_mono :
    (x : Item)
    → low x ≤ high x
    → flapping_ratio_below x (low x) ≡ true
    → flapping_ratio_below x (high x) ≡ true
unfolding flapping_ratio_below
ratio_mono x h k =
    ground (arith, times_mono (low x) (high x) (x.flap_history * x.flap_history) h, k)

-- whether it starts to flap, from the configuration and the status alone
starts-same :
    (y x : Item)
    → (y.stat ≡ record x.stat { is_flapping = false })
    → (y.conf ≡ x.conf)
    → starts_flapping y ≡ (not (flapping_ratio_below x (high x)) && is_full x)
unfolding starts_flapping flapping_ratio_below is_full
starts-same y x p q = ground (arith, p, q)

starts_lem :
    (x : Item)
    → starts_flapping x ≡ (not x.is_flapping && not (flapping_ratio_below x (high x)) && is_full x)
unfolding starts_flapping
starts_lem x = refl

flag-update :
    (self : ℕ) (w : World)
    → let x = w.items self in
      low x ≤ high x
      → ((update_flapping self w).items self).is_flapping ≡ (
          if is_full x
          then (if x.is_flapping
              then not (flapping_ratio_below x (low x))
              else not (flapping_ratio_below x (high x)))
          else x.is_flapping)
unfolding update_flapping stops_flapping
flag-update self w h =
    let v = stop_flapping self w in
    let x = w.items self in
    ground (
      arith,
      stopped self w,
      started self w,
      started self v,
      ratio_mono x h,
      starts-same (v.items self) x (stopped self w).0 (stopped self w).1,
      starts_lem x,
    )

-- With a low threshold at most as high as the high one, `update_flapping` stops the flapping of an
-- item that flaps below the low threshold, starts it for one that does not flap at or above the high
-- threshold, both with a full history only, and otherwise leaves the world as it is; never does it
-- do both. After that the item flaps, with a full history, as the threshold for it says.
pub update_flapping_lem :
    (self : ℕ) (w : World)
    → let x = w.items self in
      low x ≤ high x
      → (update_flapping self w ≡ (
          if x.is_flapping && is_full x && flapping_ratio_below x (low x)
          then stop_flapping self w
          else if not x.is_flapping && is_full x && not (flapping_ratio_below x (high x))
          then start_flapping self w
          else w))
        × (((update_flapping self w).items self).is_flapping ≡ (
            if is_full x
            then (if x.is_flapping
                then not (flapping_ratio_below x (low x))
                else not (flapping_ratio_below x (high x)))
            else x.is_flapping))
unfolding update_flapping stops_flapping
update_flapping_lem self w h =
    let v = stop_flapping self w in
    let x = w.items self in
    (
      ground (
        arith,
        ratio_mono x h,
        starts-same (v.items self) x (stopped self w).0 (stopped self w).1,
        starts_lem x,
      ),
      flag-update self w h,
    )
