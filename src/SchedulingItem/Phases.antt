-- ===== src/SchedulingItem/Phases.antt =====
-- The bookkeeping of hard states: `update_hard_unknown_phase_state` and
-- `update_event_and_problem_id` of schedulingitem.py, and the lines of `consume_state_result` that
-- set `state_type_id`, `last_hard_state` and `last_hard_state_change`.
use shinken_gpt.Prelude.{ℕ, ◌+◌, Bool, true, false, not, ◌&&◌, ◌||◌, if◌then◌else◌}
use shinken_gpt.SchedulingItem.Types.{
  Item, Hard, State, pending, unknown, unreachable, same_state, ok_up,
}
use shinken_gpt.SchedulingItem.World.{World, on, ◌▷◌}
use shinken_gpt.SchedulingItem.Blocked.{is_soft}

-- UNKNOWN or UNREACHABLE now, and another state before
unfoldable pub enters_unknown : State → State → Bool
enters_unknown state last =
    (same_state state unknown && not (same_state last unknown))
    || (same_state state unreachable && not (same_state last unreachable))

-- the phase starts, goes on or ends, from whether it is on
unfoldable pub next_phase : State → State → Bool → Hard → Hard
unfolding enters_unknown
next_phase state last false h =
    if enters_unknown state last
    then record h {
      in_hard_unknown_reach_phase = true;
      state_before_hard_unknown_reach_phase = last;
    }
    else record h { in_hard_unknown_reach_phase = false }
next_phase state last true h = record h {
  in_hard_unknown_reach_phase = same_state state unknown || same_state state unreachable;
}

-- at the end of the phase, in another state than before it
abbrev forget_phase : State → Hard → Hard
forget_phase state h =
    if not h.in_hard_unknown_reach_phase
      && h.was_in_hard_unknown_reach_phase
      && not (same_state state h.state_before_hard_unknown_reach_phase)
    then record h { was_in_hard_unknown_reach_phase = false }
    else h

-- A phase that starts returns early, and then `forget_phase` would change nothing: it is on.
unfoldable pub update_hard_unknown_phase_state : Item → Item
unfolding next_phase
update_hard_unknown_phase_state x =
    let was = x.in_hard_unknown_reach_phase in
    let still = was && not (is_soft x.state_type) && not (is_soft x.last_state_type) in
    let h = record x.hard { was_in_hard_unknown_reach_phase = was } in
    record x { hard = forget_phase x.state (next_phase x.state x.last_state still h) }

-- state_type_id, last_hard_state and last_hard_state_id
unfoldable pub note_state_type : Item → Item
note_state_type x =
    if is_soft x.state_type
    then record x { hard = record x.hard { state_type_id = 0 } }
    else record x {
      hard = record x.hard {
        state_type_id = 1;
        last_hard_state = x.state;
        last_hard_state_id = x.state_id;
      };
    }

unfoldable pub note_hard_change : ℕ → Item → Item
note_hard_change now x =
    if not (is_soft x.state_type)
      && (is_soft x.last_state_type || not (same_state x.last_state x.state))
    then record x { hard = record x.hard { last_hard_state_change = now } }
    else x

unfoldable pub has_event : Item → Bool
has_event x =
    (not (same_state x.state x.last_state) && not (same_state x.last_state pending))
    || (not (same_state x.state (ok_up x.kind)) && same_state x.last_state pending)

abbrev pub next_event : ℕ → World → World
next_event self w =
    let id = w.event_id + 1 in
    record (on self
      (λ x. record x {
        hard = record x.hard { last_event_id = x.hard.current_event_id; current_event_id = id };
      })
      w) { event_id = id }

abbrev pub next_problem : ℕ → World → World
next_problem self w =
    let id = w.problem_id + 1 in
    record (on self
      (λ x. record x {
        hard = record x.hard {
          last_problem_id = x.hard.current_problem_id;
          current_problem_id = id;
        };
      })
      w) { problem_id = id }

abbrev pub end_problem : ℕ → World → World
end_problem self w =
    on self
      (λ x. record x {
        hard = record x.hard {
          last_problem_id = x.hard.current_problem_id;
          current_problem_id = 0;
        };
      })
      w

unfoldable pub update_problem_id : ℕ → World → World
update_problem_id self w =
    let x = w.items self in
    let is_ok = same_state x.state (ok_up x.kind) in
    if not is_ok && same_state x.last_state pending
    then next_problem self w
    else if not is_ok && not (same_state x.last_state (ok_up x.kind))
    then w
    else if is_ok
    then end_problem self w
    else next_problem self w

unfoldable pub update_event_and_problem_id : ℕ → World → World
unfolding has_event update_problem_id
update_event_and_problem_id self w =
    if has_event (w.items self) then next_event self w ▷ update_problem_id self else w
