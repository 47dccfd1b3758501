-- ===== src/Scheduler/Links.antt =====
-- The links between the checks that wait and those that they wait for.
use shinken_gpt.Prelude.{
  ℕ, ◌<◌, ◌≤◌, ◌≡◌, refl, Bool, true, false, ◌&&◌, ◌||◌, List, [], ◌∷◌, ltb, contains, arith,
}
use shinken_gpt.SchedulingItem.World.{World}
use shinken_gpt.Scheduler.{is_zombie}

-- At most one check waits for `c`: a check is launched for one other check, or for none. That one
-- has `c` in its `depend_on`, as long as `c` is not a zombie.
abbrev pub waited_for_by : World → ℕ → List ℕ → Bool
waited_for_by w c [] = true
waited_for_by w c (d ∷ []) = ltb d w.next_id && contains c (w.checks d).depend_on
waited_for_by w c (_ ∷ _ ∷ _) = false

abbrev pub is_linked : World → ℕ → Bool
is_linked w c = is_zombie (w.checks c).status || waited_for_by w c (w.checks c).depend_on_me

-- A check that is waited for still is, where no list of the checks waited for loses it.
pub waited_for_by-keeps :
    (w w' : World) (d : ℕ) (ds : List ℕ)
    → w.next_id ≤ w'.next_id
    → ((e : ℕ)
        → e < w.next_id
        → contains d (w.checks e).depend_on ≡ true
        → contains d (w'.checks e).depend_on ≡ true)
    → waited_for_by w d ds ≡ true
    → waited_for_by w' d ds ≡ true
waited_for_by-keeps w w' d [] h k p = refl
waited_for_by-keeps w w' d (e ∷ []) h k p =
    let e_known : e < w.next_id = ground (arith, p) in
    let e_waits : contains d (w.checks e).depend_on ≡ true = ground (arith, p) in
    ground (arith, h, e_known, k e e_known e_waits)
waited_for_by-keeps w w' d (_ ∷ _ ∷ _) h k p = p
