-- ===== src/SchedulingItem/Schedule/Examples.antt =====
-- The theorem on the next check, with the sample service, once it is not in checking.
use shinken_gpt.Prelude.{◌≡◌, refl, if◌then◌else◌, some, none, false, [], ◌==◌, arith}
use shinken_gpt.SchedulingItem.Types.{Item}
use shinken_gpt.SchedulingItem.World.{World}
use shinken_gpt.SchedulingItem.Samples.{the_host, the_service, the_world}
use shinken_gpt.SchedulingItem.Schedule.{interval_of, is_in_checking, schedule_state_check}
use shinken_gpt.SchedulingItem.Schedule.Times.{IsNext, schedule_state_check-IsNext}

abbrev idle_service : Item
idle_service = record the_service {
  conf = record the_service.conf { check_period = none };
  result = record the_service.result { checks_in_progress = [] };
}

abbrev idle_world : World
idle_world = record the_world { items = λ i. if i == 0 then the_host else idle_service }

schedule_state_check-IsNext_example :
    (w' : World) × (schedule_state_check (λ n. n) 9 1 false none idle_world ≡ some w')
    × (if is_in_checking idle_service
        then w' ≡ idle_world
        else IsNext 1000 (interval_of idle_service) idle_service (w'.items 1))
schedule_state_check-IsNext_example =
    schedule_state_check-IsNext (λ n. n) 9 1 idle_world (ground arith) refl (ground arith) refl
