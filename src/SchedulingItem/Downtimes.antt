-- ===== src/SchedulingItem/Downtimes.antt =====
-- shinken/downtime.py: `enter`, `exit` and `cancel`; `check_for_flexible_downtime` of
-- schedulingitem.py; the checks of start and stop times in `update_downtimes_and_comments` of
-- shinken/scheduler.py. `enter` and `cancel` go along `activate_me`; the fuel bounds the depth.
pub mod Depth
pub mod Count
pub mod Keeps
pub mod Delete
pub mod Steps
pub mod Gone
mod Examples
use shinken_gpt.Prelude.{
  ℕ, zero, suc, ◌+◌, ◌≡◌, refl, Bool, true, false, not, ◌&&◌, ◌||◌, Option, none, some, List, [],
  ◌∷◌, ◌++◌, ◌==◌, if◌then◌else◌, ltb, leb, map, arith,
}
use shinken_gpt.Prelude.Int.{ℤ, pos, negsuc, ◌+ℤ◌, leb_ℤ}
use shinken_gpt.SchedulingItem.Types.{
  Item, Comment, InDowntime, downtimestart, downtimeend, downtimecancelled, enter_downtime,
  exit_downtime, cancel_downtime, update_status,
}
use shinken_gpt.SchedulingItem.World.{World, Downtime, update, put_item, on, ◌▷◌, log, brok}
use shinken_gpt.SchedulingItem.Notify.{create_notifications}

abbrev pub on_downtime : ℕ → (Downtime → Downtime) → World → World
on_downtime dt f w = record w { downtimes = update w.downtimes dt (f (w.downtimes dt)) }

abbrev pub is_zero : ℤ → Bool
is_zero (pos n) = n == 0
is_zero (negsuc n) = false

abbrev pub set_depth : ℤ → Bool → Item → Item
set_depth depth b x = record x {
  downtime = record x.downtime { scheduled_downtime_depth = depth; in_scheduled_downtime = b };
}

-- the downtime's own attributes, when it enters
unfoldable pub set_in_effect : ℕ → World → World
set_in_effect dt w =
    on_downtime dt
      (λ e. record e {
        is_in_effect = true;
        real_end_time = if e.fixed then e.real_end_time else w.now + e.duration;
      })
      w

unfoldable pub announce : ℕ → World → World
announce ref w =
    if is_zero (w.items ref).scheduled_downtime_depth
    then w ▷ on ref (log enter_downtime) ▷ create_notifications ref downtimestart none
    else w

-- enter() up to the loop over `activate_me`
unfoldable pub enter_one : ℕ → World → World
unfolding set_in_effect announce
enter_one dt w =
    let d = w.downtimes dt in
    w
    ▷ set_in_effect dt
    ▷ announce d.ref
    ▷ on d.ref (λ x. set_depth (x.scheduled_downtime_depth +ℤ pos 1) true x)

unfoldable pub for_each : (ℕ → World → World) → List ℕ → World → World
for_each call [] w = w
for_each call (d ∷ ds) w = for_each call ds (call d w)

unfoldable pub enter : ℕ → ℕ → World → World
unfolding for_each
enter zero dt w = w
enter (suc fuel) dt w =
    let w' = enter_one dt w in for_each (λ d. enter fuel d) (w'.downtimes dt).activate_me w'

-- extra_comment.can_be_deleted = True, for a comment that its item still holds
unfoldable pub mark_comment : Option ℕ → Item → Item
mark_comment none x = x
mark_comment (some c) x = record x {
  ack = record x.ack {
    comments = map (λ m. if m.id == c then record m { can_be_deleted = true } else m) x.comments;
  };
}

abbrev during_last_check : Item → Item
during_last_check x = record x {
  downtime = record x.downtime { in_scheduled_downtime_during_last_check = true };
}

-- `log` and DOWNTIMEEND, when the last downtime of the item ends
unfoldable pub announce_end : ℕ → World → World
announce_end ref w =
    if leb_ℤ (w.items ref).scheduled_downtime_depth (pos 0)
    then w
      ▷ on ref (log exit_downtime)
      ▷ create_notifications ref downtimeend none
      ▷ on ref (λ x. set_depth x.scheduled_downtime_depth false x)
    else w

-- the branch of exit() for a downtime in effect
unfoldable pub leave : ℕ → World → World
unfolding announce_end
leave ref w =
    w
    ▷ on ref (λ x. set_depth (x.scheduled_downtime_depth +ℤ negsuc 0) x.in_scheduled_downtime x)
    ▷ announce_end ref

-- the end of exit() and of cancel(): the automatic comment and the marks
unfoldable pub close : ℕ → World → World
unfolding mark_comment
close dt w =
    let d = w.downtimes dt in
    w
    ▷ on d.ref (mark_comment d.comment_id)
    ▷ on_downtime dt (λ e. record e { can_be_deleted = true })
    ▷ on d.ref during_last_check

abbrev pub out_of_effect : Downtime → Downtime
out_of_effect d = record d { is_in_effect = false }

unfoldable pub exit : ℕ → World → World
unfolding leave close
exit dt w =
    let d = w.downtimes dt in
    (if d.is_in_effect then w ▷ on_downtime dt out_of_effect ▷ leave d.ref else w) ▷ close dt

unfoldable pub announce_cancel : ℕ → World → World
announce_cancel ref w =
    if is_zero (w.items ref).scheduled_downtime_depth
    then w ▷ on ref (λ x. set_depth x.scheduled_downtime_depth false (log cancel_downtime x))
    else w

-- cancel() up to the automatic comment
unfoldable pub withdraw : ℕ → World → World
unfolding announce_cancel
withdraw ref w =
    w
    ▷ on ref (λ x. set_depth (x.scheduled_downtime_depth +ℤ negsuc 0) x.in_scheduled_downtime x)
    ▷ announce_cancel ref

-- cancel() up to the loop over `activate_me`
unfoldable pub cancel_one : ℕ → World → World
cancel_one dt w =
    let ref = (w.downtimes dt).ref in
    w
    ▷ on_downtime dt out_of_effect
    ▷ withdraw ref
    ▷ close dt
    ▷ create_notifications ref downtimecancelled none

unfoldable pub cancel : ℕ → ℕ → World → World
unfolding for_each
cancel zero dt w = w
cancel (suc fuel) dt w =
    let w' = cancel_one dt w in for_each (λ d. cancel fuel d) (w'.downtimes dt).activate_me w'

-- a flexible downtime that a problem starts now
unfoldable pub starts_flexible : Downtime → Item → Bool
starts_flexible d x =
    not d.fixed
    && not d.is_in_effect
    && leb d.start_time x.last_chk
    && not (x.state_id == 0)
    && d.trigger_id == 0

-- the loop, and whether it has started a downtime
unfoldable pub start_flexible : ℕ → ℕ → List ℕ → World → World × Bool
unfolding starts_flexible
start_flexible fuel self [] w = (w, false)
start_flexible fuel self (dt ∷ dts) w =
    let starts = starts_flexible (w.downtimes dt) (w.items self) in
    let (w', updated) = start_flexible fuel self dts (if starts then enter fuel dt w else w) in
    (w', starts || updated)

unfoldable pub check_for_flexible_downtime : ℕ → ℕ → World → World
unfolding start_flexible
check_for_flexible_downtime fuel self w =
    let (w', updated) = start_flexible fuel self (w.items self).downtimes w in
    if updated then w' ▷ on self (brok update_status) else w'

-- "Check start and stop times", for one downtime; the brok that goes
-- with `enter` is left out
unfoldable pub check_times : ℕ → ℕ → World → World
check_times fuel dt w =
    let d = w.downtimes dt in
    if ltb d.real_end_time w.now
    then exit dt w
    else if leb d.start_time w.now && d.fixed && not d.is_in_effect && not d.can_be_deleted
    then enter fuel dt w
    else w

unfoldable pub check_all_times : ℕ → World → World
unfolding check_times for_each
check_all_times fuel w = for_each (check_times fuel) w.known_downtimes w
