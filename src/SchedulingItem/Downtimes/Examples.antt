-- ===== src/SchedulingItem/Downtimes/Examples.antt =====
-- The theorems on downtimes, with one downtime of the sample host.
use shinken_gpt.Prelude.{◌==◌, ◌≡◌, refl, inl, true, if◌then◌else◌, arith}
use shinken_gpt.Prelude.Int.{pos, ◌+ℤ◌}
use shinken_gpt.SchedulingItem.World.{World}
use shinken_gpt.SchedulingItem.Samples.{the_host, the_service, the_world, planned}
use shinken_gpt.SchedulingItem.Downtimes.{enter, cancel}
use shinken_gpt.SchedulingItem.Downtimes.Count.{DepthIsCount, active}
use shinken_gpt.SchedulingItem.Downtimes.Keeps.{cancel-pending}
use shinken_gpt.SchedulingItem.Downtimes.Steps.{
  Steps, enters, none_yet, then_step, Steps-DepthIsCount,
}

-- the downtime in effect
abbrev in_effect : World
in_effect = record the_world {
  items = λ i.
      if i == 0
      then record the_host {
        downtime = record the_host.downtime {
          scheduled_downtime_depth = pos 1;
          in_scheduled_downtime = true;
        };
      }
      else the_service;
  downtimes = λ d. record planned { is_in_effect = true };
}

the_world-DepthIsCount : DepthIsCount the_world
the_world-DepthIsCount = record { depth = λ i. ground arith; flag = λ i. ground arith }

in_effect-DepthIsCount : DepthIsCount in_effect
in_effect-DepthIsCount = record { depth = λ i. ground arith; flag = λ i. ground arith }

-- the downtime enters effect
entering-Steps : Steps the_world (enter 1 0 the_world)
entering-Steps = then_step none_yet (enters 0 0 the_world (inl (refl, refl)) refl refl)

Steps-DepthIsCount_example : DepthIsCount (enter 1 0 the_world)
Steps-DepthIsCount_example = Steps-DepthIsCount entering-Steps the_world-DepthIsCount

-- the downtime is over, and can be deleted
abbrev deletable : World
deletable = record the_world { downtimes = λ d. record planned { can_be_deleted = true } }

cancel-pending_example :
    let w' = cancel 1 0 the_world in
    (w'.items 0).scheduled_downtime_depth +ℤ pos 1 ≡ pos (active w' 0)
cancel-pending_example = cancel-pending 0 0 the_world the_world-DepthIsCount refl refl
