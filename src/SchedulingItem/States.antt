-- ===== src/SchedulingItem/States.antt =====
-- The state of an item: `set_state_from_exit_status`, `is_state`, `set_unreachable`,
-- `set_impact_state` and `unset_impact_state` of host.py and service.py, `add_attempt` and
-- `is_max_attempts` of schedulingitem.py. The display value `duration_sec` is left out.
pub mod Follows
use shinken_gpt.Prelude.{
  ℕ, zero, suc, ◌+◌, ◌≡◌, refl, Bool, true, false, not, ◌&&◌, ◌||◌, Option, none, some, List, [],
  ◌∷◌, ◌++◌, ◌==◌, if◌then◌else◌, ltb, leb, min, arith,
}
use shinken_gpt.BusinessRule.{Kind, host, service}
use shinken_gpt.SchedulingItem.Types.{
  Item, State, Status, pending, ok, warning, critical, unknown, up, down, unreachable, Letter,
  Wanted, long, short, same_state, has_letter,
}
use shinken_gpt.SchedulingItem.World.{World, on, ◌▷◌}
use shinken_gpt.SchedulingItem.Blocked.{is_service}
use shinken_gpt.SchedulingItem.Flapping.{add_flapping_change}

unfoldable pub matches_letter : Kind → Letter → State → Bool
matches_letter service Letter.o ok = true
matches_letter service Letter.c critical = true
matches_letter service Letter.w warning = true
matches_letter service Letter.u unknown = true
matches_letter host Letter.o up = true
matches_letter host Letter.d down = true
matches_letter host Letter.u unreachable = true
matches_letter _ _ _ = false

unfoldable pub is_state : Item → Wanted → Bool
unfolding matches_letter
is_state x (long s) = same_state s x.state
is_state x (short l) = matches_letter x.kind l x.state

-- a host that is unreachable; nothing for a service
unfoldable pub set_unreachable : ℕ → Item → Item
set_unreachable now x = elim x.kind [
  | host ↦ record x {
    stat = record x.stat { state_id = 2; state = unreachable; last_time_unreachable = now };
  }
  | service ↦ x
]

-- UNREACHABLE and 2, UNKNOWN and 3
abbrev pub impact_state : Kind → State × ℕ
impact_state host = (unreachable, 2)
impact_state service = (unknown, 3)

unfoldable pub set_impact_state : Item → Item
set_impact_state x =
    if x.enable_problem_impacts_states_change
    then record x {
      impact = record x.impact {
        state_before_impact = x.state;
        state_id_before_impact = x.state_id;
        state_changed_since_impact = false;
      };
      stat = record x.stat { state = (impact_state x.kind).0; state_id = (impact_state x.kind).1 };
    }
    else x

unfoldable pub unset_impact_state : Item → Item
unset_impact_state x =
    if x.enable_problem_impacts_states_change && not x.state_changed_since_impact
    then record x {
      stat = record x.stat { state = x.state_before_impact; state_id = x.state_id_before_impact };
    }
    else x

-- the real last state
unfoldable pub true_state : Item → State
true_state x =
    if x.enable_problem_impacts_states_change && x.is_impact && not x.state_changed_since_impact
    then x.state_before_impact
    else x.state

-- state, state_id and state_code of an exit status
unfoldable pub service_state_of : ℕ → State × ℕ × Letter
service_state_of zero = (ok, 0, Letter.o)
service_state_of (suc zero) = (warning, 1, Letter.w)
service_state_of (suc (suc zero)) = (critical, 2, Letter.c)
service_state_of (suc (suc (suc zero))) = (unknown, 3, Letter.u)
service_state_of (suc (suc (suc (suc _)))) = (critical, 2, Letter.c)

unfoldable pub host_state_of : ℕ → State × ℕ × Letter
host_state_of zero = (up, 0, Letter.u)
host_state_of (suc _) = (down, 1, Letter.d)

unfoldable pub state_of : Kind → ℕ → State × ℕ × Letter
unfolding service_state_of host_state_of
state_of host = host_state_of
state_of service = service_state_of

-- the `last_time_...` of the new state
unfoldable pub stamp : State → ℕ → Status → Status
stamp ok now r = record r { last_time_ok = now }
stamp warning now r = record r { last_time_warning = now }
stamp critical now r = record r { last_time_critical = now }
stamp unknown now r = record r { last_time_unknown = now }
stamp up now r = record r { last_time_up = now }
stamp down now r = record r { last_time_down = now }
stamp _ now r = r

unfoldable pub take_state : ℕ → ℕ → Item → Item
unfolding state_of stamp true_state
take_state now exit_status x =
    let (new, id, code) = state_of x.kind exit_status in
    let last = true_state x in
    record x {
      stat = stamp new now (record x.stat {
        last_state_update = now;
        last_state = last;
        state = new;
        state_id = id;
      });
    }

-- the time of the last change; DOWN after UNREACHABLE is no change for a host
unfoldable pub mark_change : Item → Item
mark_change x =
    if not (same_state x.state x.last_state)
      && (is_service x.kind || not (same_state x.state down && same_state x.last_state unreachable))
    then record x { stat = record x.stat { last_state_change = x.last_state_update } }
    else x

unfoldable pub set_state_from_exit_status : ℕ → ℕ → World → World
unfolding take_state mark_change
set_state_from_exit_status self exit_status w =
    let w' = w ▷ on self (take_state w.now exit_status) in
    let x = w'.items self in
    let code = (state_of x.kind exit_status).2 in
    let w'' =
      if has_letter code x.flap_detection_options
      then add_flapping_change self (not (same_state x.state x.last_state)) w'
      else w' in
    w'' ▷ on self mark_change

unfoldable pub add_attempt : Item → Item
add_attempt x = record x {
  tries = record x.tries { attempt = min (x.attempt + 1) x.max_check_attempts };
}

unfoldable pub is_max_attempts : Item → Bool
is_max_attempts x = leb x.max_check_attempts x.attempt
