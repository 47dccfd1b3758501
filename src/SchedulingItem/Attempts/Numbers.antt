-- ===== src/SchedulingItem/Attempts/Numbers.antt =====
-- The numbering of events and problems leaves everything else alone.
use shinken_gpt.Prelude.{◌≤◌, ℕ, ◌≡◌, refl, Bool, true, false, if◌then◌else◌, arith}
use shinken_gpt.SchedulingItem.World.{World}
use shinken_gpt.SchedulingItem.Phases.{
  has_event, next_event, next_problem, end_problem, update_problem_id, update_event_and_problem_id,
}

-- the numbers of the event and of the problem, and the counters
pub record Numbers (w w' : World) : Type 0 where
  pub checks : w'.checks ≡ w.checks
  pub next_id : w.next_id ≤ w'.next_id
  pub items :
      (i : ℕ)
      → w'.items i ≡ record (w.items i) {
        hard = record (w.items i).hard {
          last_event_id = (w'.items i).last_event_id;
          current_event_id = (w'.items i).current_event_id;
          last_problem_id = (w'.items i).last_problem_id;
          current_problem_id = (w'.items i).current_problem_id;
        };
      }

Numbers-refl : (w : World) → Numbers w w
Numbers-refl w = record { checks = refl; next_id = ground arith; items = λ i. refl }

Numbers-if :
    (b : Bool) {w v v' : World} → Numbers w v → Numbers w v' → Numbers w (if b then v else v')
Numbers-if true p q = p
Numbers-if false p q = q

next_problem-Numbers : (self : ℕ) (w : World) → Numbers w (next_problem self w)
next_problem-Numbers self w = record {
  checks = refl;
  next_id = ground arith;
  items = λ i. ground arith;
}

end_problem-Numbers : (self : ℕ) (w : World) → Numbers w (end_problem self w)
end_problem-Numbers self w = record {
  checks = refl;
  next_id = ground arith;
  items = λ i. ground arith;
}

update_problem_id-Numbers : (self : ℕ) (w : World) → Numbers w (update_problem_id self w)
unfolding update_problem_id
update_problem_id-Numbers self w = Numbers-if _ (next_problem-Numbers self w) (
    Numbers-if _ (Numbers-refl w)
      (Numbers-if _ (end_problem-Numbers self w) (next_problem-Numbers self w)))

next_event-Numbers : (self : ℕ) (w : World) → Numbers w (next_event self w)
next_event-Numbers self w = record {
  checks = refl;
  next_id = ground arith;
  items = λ i. ground arith;
}

Numbers-trans : {w w' w'' : World} → Numbers w w' → Numbers w' w'' → Numbers w w''
Numbers-trans p q = record {
  checks = ground (arith, p.checks, q.checks);
  next_id = ground (arith, p.next_id, q.next_id);
  items = λ i. ground (arith, p.items i, q.items i);
}

pub update_event_and_problem_id-Numbers :
    (self : ℕ) (w : World) → Numbers w (update_event_and_problem_id self w)
unfolding update_event_and_problem_id
update_event_and_problem_id-Numbers self w =
    Numbers-if (has_event (w.items self))
      (Numbers-trans (next_event-Numbers self w)
        (update_problem_id-Numbers self (next_event self w)))
      (Numbers-refl w)
