-- ===== src/Scheduler/Clean.antt =====
-- `clean_queues` of shinken/scheduler.py: the queues are cut when nobody takes from them. `none` is
-- an exception: a ValueError of `remove`, or the AttributeError of `c_temp.depen_on_me`, which a
-- number of `depend_on` does not have.
pub mod Errors
use shinken_gpt.Prelude.{
  ℕ, ◌+◌, ◌-◌, ◌*◌, Bool, true, false, not, ◌&&◌, Option, none, some, List, [], ◌∷◌, map,
  if◌then◌else◌, ltb, ◌==◌, max, contains, keep, length, remove_first, ◌>>=◌, map_some,
}
use shinken_gpt.SchedulingItem.Types.{Item}
use shinken_gpt.SchedulingItem.World.{World, on, ◌▷◌}
use shinken_gpt.SchedulingItem.Consume.{nobody}
use shinken_gpt.SchedulingItem.Notify.{remove_in_progress_notification}
use shinken_gpt.Scheduler.{Scheduler, release}

-- the setting and the numbers of objects that the limits are computed from
pub record Sizes : Type 0 where
  pub cleaning_queues_interval : ℕ
  pub hosts : ℕ
  pub services : ℕ
  pub contacts : ℕ

abbrev pub max_checks : Sizes → ℕ
max_checks z = 5 * (z.hosts + z.services)

abbrev pub max_broks : Sizes → ℕ
max_broks z = 5 * (z.hosts + z.services)

abbrev pub max_actions : Sizes → ℕ
max_actions z = 5 * z.contacts * (z.hosts + z.services)

-- max(keys)
unfoldable pub max_key : List ℕ → ℕ
max_key [] = 0
max_key (k ∷ ks) = max k (max_key ks)

-- the keys below max(keys) - limit
unfoldable pub to_del : ℕ → List ℕ → List ℕ
unfolding max_key
to_del limit keys = keep (λ k. ltb (k + limit) (max_key keys)) keys

abbrev pub remove_in_progress_check : ℕ → Item → Item
remove_in_progress_check c x = record x {
  result = record x.result { checks_in_progress = remove_first c x.checks_in_progress };
}

-- the links of a check that is dropped
unfoldable pub drop_check : ℕ → World → Option World
unfolding release
drop_check c w =
    release c (w.checks c).depend_on_me (w ▷ on (w.checks c).ref (remove_in_progress_check c))
    >>= λ w'. if nobody (w'.checks c).depend_on then some w' else none

unfoldable pub drop_checks : List ℕ → World → Option World
unfolding drop_check
drop_checks [] w = some w
drop_checks (c ∷ cs) w = do w' ← drop_check c w; drop_checks cs w'

unfoldable pub clean_checks : ℕ → Scheduler → Option Scheduler
unfolding drop_checks to_del
clean_checks limit s =
    if ltb limit (length s.checks)
    then map_some
        (λ w. record s {
          world = w;
          checks = keep (λ k. not (contains k (to_del limit s.checks))) s.checks;
        })
        (drop_checks (to_del limit s.checks) s.world)
    else some s

-- del broks[-count:], for the `count` broks over the limit
unfoldable pub clean_broks : ℕ → List ℕ → List ℕ
clean_broks limit [] = []
clean_broks limit (b ∷ bs) =
    let rest = clean_broks (limit - 1) bs in if ltb 0 limit then b ∷ rest else []

unfoldable pub drop_actions : List ℕ → World → World
unfolding remove_in_progress_notification
drop_actions [] w = w
drop_actions (a ∷ more) w =
    drop_actions more (remove_in_progress_notification (w.notifications a).ref a w)

unfoldable pub clean_actions : ℕ → Scheduler → Scheduler
unfolding drop_actions to_del
clean_actions limit s =
    if ltb limit (length s.actions)
    then record s {
      world = drop_actions (to_del limit s.actions) s.world;
      actions = keep (λ k. not (contains k (to_del limit s.actions))) s.actions;
    }
    else s

-- with the queues of broks, of the scheduler and of the brokers
unfoldable pub clean_queues : Sizes → List (List ℕ) → Scheduler → Option (Scheduler × List (List ℕ))
unfolding clean_checks clean_broks clean_actions
clean_queues z broks s =
    if z.cleaning_queues_interval == 0
    then some (s, broks)
    else map_some (λ s'. (clean_actions (max_actions z) s', map (clean_broks (max_broks z)) broks))
        (clean_checks (max_checks z) s)
