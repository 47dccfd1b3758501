-- ===== src/SchedulingItem/Attempts/Launch.antt =====
-- What launching the checks of the dependencies leaves alone.
use shinken_gpt.Prelude.{
  ℕ, ◌+◌, ◌<◌, ◌≤◌, ◌≡◌, refl, ◌∙◌, Bool, true, false, ◌&&◌, Option, none, some, List, [], ◌∷◌,
  if◌then◌else◌, arith, ltb,
}
use shinken_gpt.SchedulingItem.Types.{Dependency, open_at}
use shinken_gpt.SchedulingItem.World.{World}
use shinken_gpt.SchedulingItem.Dependencies.{
  new_check, launch_new_check, launch_check, raise_each, raise_dependencies_check,
}

-- Only the checks in progress and the actions of the items can differ, and the times of the checks
-- that there were.
pub record Launches (w w' : World) : Type 0 where
  pub now : w'.now ≡ w.now
  pub next_id : w.next_id ≤ w'.next_id
  pub items :
      (i : ℕ)
      → w'.items i ≡ record (w.items i) {
        result = record (w.items i).result { checks_in_progress = (w'.items i).checks_in_progress };
        outbox = (w'.items i).outbox;
      }
  pub checks :
      (c : ℕ)
      → c < w.next_id
      → w'.checks c ≡ record (w.checks c) { t_to_go = (w'.checks c).t_to_go }

pub Launches-refl : (w : World) → Launches w w
Launches-refl w = record {
  now = refl;
  next_id = ground arith;
  items = λ i. refl;
  checks = λ c h. refl;
}

pub Launches-trans : {w w' w'' : World} → Launches w w' → Launches w' w'' → Launches w w''
Launches-trans {w} {w'} {w''} p q = record {
  now = q.now ∙ p.now;
  next_id = ground (arith, p.next_id, q.next_id);
  items = λ i. ground (arith, p.items i, q.items i);
  checks = λ c h. ground (arith, p.checks c h, q.checks c (ground (arith, h, p.next_id)));
}

launch_new_check-Launches :
    (fuel self t : ℕ) (ref : Option ℕ) (force dependent : Bool) (w : World)
    → Launches w (launch_new_check fuel self t ref force dependent w).0
unfolding launch_new_check new_check
launch_new_check-Launches fuel self t ref force dependent w = record {
  now = ground arith;
  next_id = ground arith;
  items = λ i. ground arith;
  checks = λ c h. ground arith;
}

pub launch_check-Launches :
    (fuel self t : ℕ) (ref : Option ℕ) (force dependent : Bool) (w : World)
    → Launches w (launch_check fuel self t ref force dependent w).0
unfolding launch_check new_check
launch_check-Launches fuel self t ref force dependent w =
    let h = launch_new_check-Launches fuel self t ref force dependent w in
    record {
      now = ground (arith, h.now);
      next_id = ground (arith, h.next_id);
      items = λ i. ground (arith, h.items i);
      checks = λ c k. ground (arith, k, h.checks c);
    }

Launches-if :
    (b : Bool) (w : World) (r : World × Option ℕ)
    → Launches w r.0
    → Launches w (if◌then◌else◌ {A = World × Option ℕ} b r (w, none)).0
Launches-if true w r h = h
Launches-if false w r h = Launches-refl w

raise_each-Launches :
    (fuel horizon ref : ℕ) (ds : List Dependency) (w : World)
    → Launches w (raise_each fuel horizon ref ds w).0
unfolding raise_each
raise_each-Launches fuel horizon ref [] w = Launches-refl w
raise_each-Launches fuel horizon ref (d ∷ ds) w =
    Launches-trans
      (Launches-if (open_at d.tp w.now && ltb ((w.items d.dep).last_state_update + horizon) w.now) w
        (launch_check fuel d.dep w.now (some ref) false true w)
        (launch_check-Launches fuel d.dep w.now (some ref) false true w))
      (raise_each-Launches fuel horizon ref ds _)

pub raise_dependencies_check-Launches :
    (fuel self ref : ℕ) (w : World) → Launches w (raise_dependencies_check fuel self ref w).0
unfolding raise_dependencies_check
raise_dependencies_check-Launches fuel self ref w =
    raise_each-Launches fuel (w.items self).cached_check_horizon ref (w.items self).act_depend_of w
