-- ===== src/SchedulingItem/Downtimes/Gone.antt =====
-- What the scheduler keeps of its downtimes.
use shinken_gpt.Prelude.{
  ℕ, ◌≡◌, ap, not, ◌&&◌, List, [], ◌∷◌, ◌==◌, if◌then◌else◌, contains, contains-keep, arith,
  Bool-cases, inl, inr,
}
use shinken_gpt.SchedulingItem.Types.{update_status}
use shinken_gpt.SchedulingItem.World.{World, on, ◌▷◌, brok}
use shinken_gpt.SchedulingItem.Downtimes.Delete.{
  item_del_downtime, del_downtime, delete_each, delete_downtimes,
}

module _ (dt : ℕ) (w : World) where
  abbrev one : World
  one =
      if (w.downtimes dt).can_be_deleted
      then w ▷ del_downtime dt ▷ on (w.downtimes dt).ref (brok update_status)
      else w

  one-known :
      (d : ℕ)
      → contains d one.known_downtimes
        ≡ (contains d w.known_downtimes && not (dt == d && (w.downtimes dt).can_be_deleted))
  unfolding del_downtime item_del_downtime
  one-known d = ground (arith, contains-keep (λ x. not (x == dt)) d w.known_downtimes)

  one-can_be_deleted : (d : ℕ) → (one.downtimes d).can_be_deleted ≡ (w.downtimes d).can_be_deleted
  unfolding del_downtime item_del_downtime
  one-can_be_deleted d = ground arith

delete_each-known :
    (dts : List ℕ) (w : World) (d : ℕ)
    → contains d (delete_each dts w).known_downtimes
      ≡ (contains d w.known_downtimes && not (contains d dts && (w.downtimes d).can_be_deleted))
unfolding delete_each
delete_each-known [] w d = ground arith
delete_each-known (dt ∷ dts) w d =
    let rest = delete_each-known dts (one dt w) d in
    elim (Bool-cases (dt == d)) [
      | inl e ↦
          (let same : dt ≡ d = ground (arith, e) in
            ground (
              arith,
              e,
              rest,
              one-known dt w d,
              one-can_be_deleted dt w d,
              ap (λ x. (w.downtimes x).can_be_deleted) same,
            ))
      | inr e ↦ ground (arith, e, rest, one-known dt w d, one-can_be_deleted dt w d)
    ]

-- After the loop of the scheduler over what can be deleted, it knows exactly the downtimes that it
-- knew before and that could not be deleted.
pub delete_downtimes-known :
    (w : World) (d : ℕ)
    → contains d (delete_downtimes w).known_downtimes
      ≡ (contains d w.known_downtimes && not (w.downtimes d).can_be_deleted)
unfolding delete_downtimes
delete_downtimes-known w d = ground (arith, delete_each-known w.known_downtimes w d)
