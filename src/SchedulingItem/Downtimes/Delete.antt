-- ===== src/SchedulingItem/Downtimes/Delete.antt =====
-- The downtimes that the scheduler gets and drops: `add_downtime` and `del_downtime` of
-- shinken/objects/item.py, `add_Downtime`, `del_downtime` and the loop over what can be deleted of
-- `update_downtimes_and_comments` of shinken/scheduler.py.
use shinken_gpt.Prelude.{
  ℕ, true, not, List, [], ◌∷◌, ◌++◌, ◌==◌, if◌then◌else◌, contains, keep, remove_first,
}
use shinken_gpt.SchedulingItem.Types.{Item, update_status}
use shinken_gpt.SchedulingItem.World.{World, on, ◌▷◌, brok}
use shinken_gpt.SchedulingItem.Downtimes.{on_downtime}

abbrev set_downtimes : (List ℕ → List ℕ) → Item → Item
set_downtimes f x = record x { downtime = record x.downtime { downtimes = f x.downtimes } }

-- ref.add_downtime(dt), and the scheduler's own dictionary
unfoldable pub add_downtime : ℕ → World → World
add_downtime dt w =
    let w' = w ▷ on (w.downtimes dt).ref (set_downtimes (λ ds. ds ++ dt ∷ [])) in
    record w' {
      known_downtimes =
          if contains dt w.known_downtimes then w.known_downtimes else w.known_downtimes ++ dt ∷ [];
    }

-- Item.del_downtime
unfoldable pub item_del_downtime : ℕ → ℕ → World → World
item_del_downtime item dt w =
    if contains dt (w.items item).downtimes
    then w
      ▷ on_downtime dt (λ d. record d { can_be_deleted = true })
      ▷ on item (set_downtimes (remove_first dt))
    else w

-- Scheduler.del_downtime
unfoldable pub del_downtime : ℕ → World → World
unfolding item_del_downtime
del_downtime dt w =
    if contains dt w.known_downtimes
    then record (item_del_downtime (w.downtimes dt).ref dt w) {
      known_downtimes = keep (λ d. not (d == dt)) w.known_downtimes;
    }
    else w

-- the loop over a copy of the downtimes
unfoldable pub delete_each : List ℕ → World → World
unfolding del_downtime
delete_each [] w = w
delete_each (dt ∷ dts) w = delete_each dts (
    if (w.downtimes dt).can_be_deleted
    then w ▷ del_downtime dt ▷ on (w.downtimes dt).ref (brok update_status)
    else w)

unfoldable pub delete_downtimes : World → World
unfolding delete_each
delete_downtimes w = delete_each w.known_downtimes w
