-- ===== src/SchedulingItem/Keeps.antt =====
-- What most of the operations leave alone: the configuration, the attempts and the state types of
-- every item, and every check.
pub mod Problems
use shinken_gpt.Prelude.{
  ◌≤◌, ℕ, zero, suc, ◌+◌, ◌≡◌, refl, ap, ◌∙◌, Bool, true, false, not, ◌&&◌, ◌||◌, Option, none,
  some, List, [], ◌∷◌, ◌++◌, if◌then◌else◌, arith, Bool-cases, inl, inr,
}
use shinken_gpt.Prelude.Int.{ℤ, pos, ◌+ℤ◌}
use shinken_gpt.SchedulingItem.Types.{
  Item, Conf, Tries, Dependency, Wanted, NotificationType, flappingstart, flappingstop,
  flapping_start, flapping_stop, update_status, enter_downtime, downtimestart,
}
use shinken_gpt.SchedulingItem.World.{World, Check, on, ◌▷◌, log, brok}
use shinken_gpt.SchedulingItem.Notify.{create_notifications, remove_in_progress_notifications}
use shinken_gpt.SchedulingItem.Notify.Queue.{
  OnlyQueues, create_notifications-OnlyQueues, remove_in_progress_notifications-OnlyQueues,
}
use shinken_gpt.SchedulingItem.Flapping.{
  add_flapping_change, update_flapping, stop_flapping, start_flapping, set_flapping, push_change,
}
use shinken_gpt.SchedulingItem.Downtimes.{
  announce, enter_one, for_each, enter, start_flexible, check_for_flexible_downtime, set_depth,
  set_in_effect,
}

pub record Keeps (w w' : World) : Type 0 where
  pub checks : w'.checks ≡ w.checks
  pub next_id : w.next_id ≤ w'.next_id
  pub conf : (i : ℕ) → (w'.items i).conf ≡ (w.items i).conf
  pub tries : (i : ℕ) → (w'.items i).tries ≡ (w.items i).tries

pub Keeps-refl : (w : World) → Keeps w w
Keeps-refl w = record { checks = refl; next_id = ground arith; conf = λ i. refl; tries = λ i. refl }

infixl 3 ◌⨾◌
pub ◌⨾◌ : {w w' w'' : World} → Keeps w w' → Keeps w' w'' → Keeps w w''
p ⨾ q = record {
  checks = q.checks ∙ p.checks;
  next_id = ground (arith, p.next_id, q.next_id);
  conf = λ i. q.conf i ∙ p.conf i;
  tries = λ i. q.tries i ∙ p.tries i;
}

pub Keeps-if : (b : Bool) {w v v' : World} → Keeps w v → Keeps w v' → Keeps w (if b then v else v')
Keeps-if true p q = p
Keeps-if false p q = q

of_queues : {w w' : World} → OnlyQueues w w' → Keeps w w'
of_queues q = record {
  checks = q.checks;
  next_id = q.next_id;
  conf = λ i. ap (λ (x : Item). x.conf) (q.at i);
  tries = λ i. ap (λ (x : Item). x.tries) (q.at i);
}

pub Keeps-on :
    (self : ℕ) (f : Item → Item) (w : World)
    → ((f (w.items self)).conf ≡ (w.items self).conf)
    → ((f (w.items self)).tries ≡ (w.items self).tries)
    → Keeps w (on self f w)
Keeps-on self f w p q = record {
  checks = refl;
  next_id = ground arith;
  conf = λ i. ground arith;
  tries = λ i. ground arith;
}

pub create-Keeps :
    (self : ℕ) (type : NotificationType) (t : Option ℕ) (w : World)
    → Keeps w (create_notifications self type t w)
create-Keeps self type t w = of_queues (create_notifications-OnlyQueues self type t w)

pub remove-Keeps : (self : ℕ) (w : World) → Keeps w (remove_in_progress_notifications self w)
remove-Keeps self w = of_queues (remove_in_progress_notifications-OnlyQueues self w)

stop_flapping-Keeps : (self : ℕ) (w : World) → Keeps w (stop_flapping self w)
unfolding stop_flapping
stop_flapping-Keeps self w =
    Keeps-on self (λ x. log flapping_stop (set_flapping false x)) w refl refl
    ⨾ remove-Keeps self _
    ⨾ create-Keeps self flappingstop none _
    ⨾ Keeps-on self (brok update_status) _ refl refl

start_flapping-Keeps : (self : ℕ) (w : World) → Keeps w (start_flapping self w)
unfolding start_flapping
start_flapping-Keeps self w =
    Keeps-on self (λ x. log flapping_start (set_flapping true x)) w refl refl
    ⨾ remove-Keeps self _
    ⨾ create-Keeps self flappingstart none _
    ⨾ Keeps-on self (brok update_status) _ refl refl

update_flapping-Keeps : (self : ℕ) (w : World) → Keeps w (update_flapping self w)
unfolding update_flapping
update_flapping-Keeps self w =
    Keeps-if _ (stop_flapping-Keeps self w) (Keeps-refl w)
    ⨾ Keeps-if _ (start_flapping-Keeps self _) (Keeps-refl _)

pub add_flapping_change-Keeps :
    (self : ℕ) (b : Bool) (w : World) → Keeps w (add_flapping_change self b w)
unfolding add_flapping_change
add_flapping_change-Keeps self b w = Keeps-if _ (Keeps-refl w) (
    Keeps-on self
      (λ y. record y {
        stat = record y.stat { flapping_changes = push_change y.flap_history b y.flapping_changes };
      })
      w refl refl
    ⨾ update_flapping-Keeps self _)

for_each-Keeps :
    (f : ℕ → World → World) (h : (i : ℕ) (w : World) → Keeps w (f i w)) (is : List ℕ) (w : World)
    → Keeps w (for_each f is w)
unfolding for_each
for_each-Keeps f h [] w = Keeps-refl w
for_each-Keeps f h (i ∷ is) w = h i w ⨾ for_each-Keeps f h is (f i w)

announce-Keeps : (ref : ℕ) (w : World) → Keeps w (announce ref w)
unfolding announce
announce-Keeps ref w =
    Keeps-if _
      (Keeps-on ref (log enter_downtime) w refl refl ⨾ create-Keeps ref downtimestart none _)
      (Keeps-refl w)

set_in_effect-Keeps : (dt : ℕ) (w : World) → Keeps w (set_in_effect dt w)
unfolding set_in_effect
set_in_effect-Keeps dt w = record {
  checks = refl;
  next_id = ground arith;
  conf = λ i. refl;
  tries = λ i. refl;
}

enter_one-Keeps : (dt : ℕ) (w : World) → Keeps w (enter_one dt w)
unfolding enter_one
enter_one-Keeps dt w =
    let ref = (w.downtimes dt).ref in
    set_in_effect-Keeps dt w
    ⨾ announce-Keeps ref _
    ⨾ Keeps-on ref (λ x. set_depth (x.scheduled_downtime_depth +ℤ pos 1) true x) _ refl refl

pub enter-Keeps : (fuel dt : ℕ) (w : World) → Keeps w (enter fuel dt w)
unfolding enter
enter-Keeps zero dt w = Keeps-refl w
enter-Keeps (suc fuel) dt w =
    enter_one-Keeps dt w
    ⨾ for_each-Keeps (enter fuel) (enter-Keeps fuel) ((enter_one dt w).downtimes dt).activate_me
        (enter_one dt w)

start_flexible-Keeps :
    (fuel self : ℕ) (dts : List ℕ) (w : World) → Keeps w (start_flexible fuel self dts w).0
unfolding start_flexible
start_flexible-Keeps fuel self [] w = Keeps-refl w
start_flexible-Keeps fuel self (dt ∷ dts) w =
    Keeps-if _ (enter-Keeps fuel dt w) (Keeps-refl w) ⨾ start_flexible-Keeps fuel self dts _

pub check_for_flexible_downtime-Keeps :
    (fuel self : ℕ) (w : World) → Keeps w (check_for_flexible_downtime fuel self w)
unfolding check_for_flexible_downtime
check_for_flexible_downtime-Keeps fuel self w =
    let p = start_flexible-Keeps fuel self (w.items self).downtimes w in
    Keeps-if _ (p ⨾ Keeps-on self (brok update_status) _ refl refl) p
