-- ===== src/SchedulingItem/Attempts/Examples.antt =====
-- The theorems on results and attempts, with the third bad result in a row of the sample service.
use shinken_gpt.Prelude.{◌≤◌, ◌≡◌, refl, inl, ◌==◌, if◌then◌else◌, true, false, arith}
use shinken_gpt.SchedulingItem.Types.{soft, zombie, state_discrete}
use shinken_gpt.SchedulingItem.Samples.{the_host, the_service, rested_service, the_world}
use shinken_gpt.SchedulingItem.Consume.{consume_state_result, exit_status_of}
use shinken_gpt.SchedulingItem.States.{true_state}
use shinken_gpt.SchedulingItem.Attempts.{step}
use shinken_gpt.SchedulingItem.Attempts.Parts.{Noted}
use shinken_gpt.SchedulingItem.Attempts.Stages.{outcome_of}
use shinken_gpt.SchedulingItem.Attempts.Consumes.{
  consume-step, consume-done, consume-last_hard_state,
}
use shinken_gpt.SchedulingItem.Attempts.Results.{IsFailure, first, failures-attempts, consume-bound}
use shinken_gpt.SchedulingItem.World.{World}

consume-step_example :
    ((consume_state_result 9 1 5 the_world).items 1).tries
    ≡ step (outcome_of 9 1 5 the_world) 3 the_service.tries
consume-step_example = consume-step 9 1 5 the_world (ground arith)

consume-done_example : ((consume_state_result 9 1 5 the_world).checks 5).status ≡ zombie
consume-done_example = consume-done 9 1 5 the_world (ground arith) (inl refl)

consume-last_hard_state_example :
    let x = (consume_state_result 9 1 5 the_world).items 1 in
    (x.in_scheduled_downtime_during_last_check ≡ false) × Noted x x
consume-last_hard_state_example = consume-last_hard_state 9 1 5 the_world

-- the service at rest, before its first bad result
abbrev rested_world : World
rested_world = record the_world { items = λ i. if i == 0 then the_host else rested_service }

first-IsFailure : IsFailure 9 1 3 5 true rested_world
unfolding exit_status_of true_state state_discrete
first-IsFailure = record { known = ground arith; result = refl; limited = refl }

failures-attempts_example :
    let w' = consume_state_result 9 1 5 rested_world in
    ((w'.items 1).attempt ≡ 1) × ((w'.items 1).state_type ≡ soft)
failures-attempts_example =
    failures-attempts 9 1 3 rested_world (ground arith) refl refl (first first-IsFailure)

consume-bound_example : ((consume_state_result 9 1 5 the_world).items 1).attempt ≤ 3
consume-bound_example = consume-bound 9 1 5 the_world (ground arith) (ground arith) (ground arith)

-- an OK result
abbrev recovering : World
recovering = record the_world { checks = λ c. record (the_world.checks c) { exit_status = 0 } }
