-- ===== src/SchedulingItem/Flapping.antt =====
-- Flap detection: `add_flapping_change` and `update_flapping` of schedulingitem.py.
-- The change ratio in percent is kept exactly, as a multiple of 1 / flap_history ^ 2: a change at
-- position i of the history weighs 40 i / flap_history + 80, so no rounding of floats is modelled.
-- The display copy `percent_state_change` is left out.
pub mod Hysteresis
use shinken_gpt.Prelude.{
  ℕ, suc, ◌+◌, ◌*◌, ◌≤◌, ◌<◌, ◌≡◌, refl, Bool, true, false, not, ◌&&◌, ◌||◌, Option, none, some,
  List, [], ◌∷◌, ◌++◌, if◌then◌else◌, ltb, leb, length, arith,
}
use shinken_gpt.SchedulingItem.Types.{
  Item, flappingstart, flappingstop, flapping_start, flapping_stop, update_status,
}
use shinken_gpt.SchedulingItem.World.{World, on, log, brok, ◌▷◌}
use shinken_gpt.SchedulingItem.Notify.{create_notifications, remove_in_progress_notifications}

-- the sum of the loop, from position i + 1
unfoldable pub change_weight : ℕ → ℕ → List Bool → ℕ
change_weight flap_history i [] = 0
change_weight flap_history i (b ∷ bs) =
    (if b then 40 * suc i + 80 * flap_history else 0) + change_weight flap_history (suc i) bs

abbrev pub or_global : Option ℕ → ℕ → ℕ
or_global none global = global
or_global (some own) global = own

unfoldable pub flapping_ratio_below : Item → ℕ → Bool
unfolding change_weight
flapping_ratio_below x threshold =
    ltb (change_weight x.flap_history 0 x.flapping_changes)
      (threshold * (x.flap_history * x.flap_history))

unfoldable pub is_full : Item → Bool
is_full x = leb x.flap_history (length x.flapping_changes)

unfoldable pub stops_flapping : Item → Bool
unfolding flapping_ratio_below is_full
stops_flapping x =
    x.is_flapping
    && flapping_ratio_below x (or_global x.low_flap_threshold x.global_low_flap_threshold)
    && is_full x

unfoldable pub starts_flapping : Item → Bool
unfolding flapping_ratio_below is_full
starts_flapping x =
    not x.is_flapping
    && not (flapping_ratio_below x (or_global x.high_flap_threshold x.global_high_flap_threshold))
    && is_full x

abbrev pub set_flapping : Bool → Item → Item
set_flapping b x = record x { stat = record x.stat { is_flapping = b } }

unfoldable pub stop_flapping : ℕ → World → World
stop_flapping self w =
    w
    ▷ on self (λ x. log flapping_stop (set_flapping false x))
    ▷ remove_in_progress_notifications self
    ▷ create_notifications self flappingstop none
    ▷ on self (brok update_status)

unfoldable pub start_flapping : ℕ → World → World
start_flapping self w =
    w
    ▷ on self (λ x. log flapping_start (set_flapping true x))
    ▷ remove_in_progress_notifications self
    ▷ create_notifications self flappingstart none
    ▷ on self (brok update_status)

-- the second test reads the attributes that the first branch has left
unfoldable pub update_flapping : ℕ → World → World
update_flapping self w =
    let w' = if stops_flapping (w.items self) then stop_flapping self w else w in
    if starts_flapping (w'.items self) then start_flapping self w' else w'

-- flapping_changes.pop(0) when it is longer than the history
abbrev pub pop_first : ℕ → List Bool → List Bool
pop_first flap_history [] = []
pop_first flap_history (b ∷ bs) = if ltb flap_history (suc (length bs)) then bs else b ∷ bs

unfoldable pub push_change : ℕ → Bool → List Bool → List Bool
push_change flap_history b changes = pop_first flap_history (changes ++ b ∷ [])

unfoldable pub add_flapping_change : ℕ → Bool → World → World
add_flapping_change self b w =
    let x = w.items self in
    if not x.flap_detection_enabled || not x.enable_flap_detection
    then w
    else w
      ▷ on self (λ y. record y {
        stat = record y.stat { flapping_changes = push_change y.flap_history b y.flapping_changes };
      })
      ▷ update_flapping self
