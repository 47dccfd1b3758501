-- ===== src/SchedulingItem/Consume.antt =====
-- `consume_state_result` of shinken/objects/schedulingitem.py: the result of a check changes the
-- state of its item, and everything that follows from that. `module_return` of
-- shinken/objects/resultmodulation.py. Left out: `manage_stalking` (it only logs), the figures on
-- latency, run time and performance data, and the triggers, which run the user's code.
use shinken_gpt.Prelude.{
  ℕ, Bool, true, false, not, ◌&&◌, Option, none, some, List, [], ◌∷◌, ◌++◌, if◌then◌else◌, ◌==◌,
  contains, remove_first,
}
use shinken_gpt.BusinessRule.{host, service}
use shinken_gpt.SchedulingItem.Types.{
  Item, ResultModulation, ActionStatus, waitconsume, waitdep, havetoresolvedep, zombie, Dependency,
  check_result, open_at,
}
use shinken_gpt.SchedulingItem.World.{World, Check, update, on, ◌▷◌, brok}
use shinken_gpt.SchedulingItem.States.{set_state_from_exit_status}
use shinken_gpt.SchedulingItem.Dependencies.{
  raise_dependencies_check, is_no_action_dependent, check_and_set_unreachability,
}
use shinken_gpt.SchedulingItem.Handlers.{get_obsessive_command, get_perfdata_command, get_snapshot}
use shinken_gpt.SchedulingItem.Phases.{
  update_hard_unknown_phase_state, note_state_type, note_hard_change, update_event_and_problem_id,
}
use shinken_gpt.SchedulingItem.Cases.{react}

abbrev modulate : Option ℕ → List ℕ → ℕ → ℕ
modulate none codes code = code
modulate (some new) codes code = if contains code codes then new else code

unfoldable pub module_return : ℕ → ResultModulation → ℕ → ℕ
module_return now m code =
    if open_at m.modulation_period now
    then modulate m.exit_code_modulation m.exit_codes_match code
    else code

unfoldable pub module_all : ℕ → List ResultModulation → ℕ → ℕ
unfolding module_return
module_all now [] code = code
module_all now (m ∷ ms) code = module_all now ms (module_return now m code)

-- a warning of a host is DOWN or UP
unfoldable pub aggressive : Item → ℕ → ℕ
aggressive x code = elim x.kind [
  | host ↦ if code == 1 then (if x.use_aggressive_host_checking then 2 else 0) else code
  | service ↦ code
]

-- c.exit_status, after the modulations
unfoldable pub exit_status_of : ℕ → Item → ℕ → ℕ
unfolding module_all aggressive
exit_status_of now x code = aggressive x (module_all now x.resultmodulations code)

abbrev pub set_check : ℕ → (Check → Check) → World → World
set_check c f w = record w { checks = update w.checks c (f (w.checks c)) }

abbrev pub set_status : ActionStatus → Check → Check
set_status s c = record c { status = s }

-- the data of the check
unfoldable pub take_result : Check → Item → Item
take_result c x = record x {
  result = record x.result {
    has_been_checked = true;
    last_chk = c.check_time;
    output = c.output;
    long_output = c.long_output;
  };
}

abbrev pub is_waitconsume : ActionStatus → Bool
is_waitconsume waitconsume = true
is_waitconsume _ = false

abbrev pub is_waitdep : ActionStatus → Bool
is_waitdep waitdep = true
is_waitdep _ = false

abbrev pub no_deps : List Dependency → Bool
no_deps [] = true
no_deps (_ ∷ _) = false

abbrev pub nobody : List ℕ → Bool
nobody [] = true
nobody (_ ∷ _) = false

-- a bad result of an item that depends on others: it waits, and their checks are launched
unfoldable pub wait_for_dependencies : ℕ → ℕ → ℕ → World → World
unfolding raise_dependencies_check
wait_for_dependencies fuel self c w =
    let k = w.checks c in
    if not (k.exit_status == 0)
      && is_waitconsume k.status
      && not (no_deps (w.items self).act_depend_of)
    then (let (w', ids) =
          raise_dependencies_check fuel self c (set_check c (set_status waitdep) w) in
        set_check c (λ j. record j { depend_on = j.depend_on ++ ids }) w')
    else w

-- last_state_type, the state, return_code, state_changed_since_impact, the checks in progress
unfoldable pub take_exit_status : ℕ → ℕ → World → World
unfolding set_state_from_exit_status
take_exit_status self c w =
    let code = (w.checks c).exit_status in
    w
    ▷ on self (λ x. record x { tries = record x.tries { last_state_type = x.state_type } })
    ▷ set_state_from_exit_status self code
    ▷ on self (λ x. record x {
      result = record x.result {
        return_code = code;
        checks_in_progress = remove_first c x.checks_in_progress;
      };
      impact = record x.impact { state_changed_since_impact = true };
    })

-- zombie, or havetoresolvedep if another check waits for this one
unfoldable pub done_status : Check → ActionStatus
done_status k = if nobody k.depend_on_me then zombie else havetoresolvedep

-- `no_action`, in the state that the second test of `waitdep` sees
unfoldable pub settle : ℕ → ℕ → World → World × Bool
unfolding done_status is_no_action_dependent check_and_set_unreachability
settle self c w =
    let k = w.checks c in
    if is_waitconsume k.status
    then (set_check c (set_status (done_status k)) w, false)
    else if is_waitdep k.status
    then (let w' = set_check c (set_status (done_status k)) w in
        (check_and_set_unreachability self w', is_no_action_dependent self w'))
    else (w, false)

-- what follows the cases
unfoldable pub conclude : ℕ → World → World
unfolding update_hard_unknown_phase_state note_state_type note_hard_change
    update_event_and_problem_id get_obsessive_command get_perfdata_command get_snapshot
conclude self w =
    w
    ▷ on self update_hard_unknown_phase_state
    ▷ on self (λ x. record x {
      downtime = record x.downtime { in_scheduled_downtime_during_last_check = false };
    })
    ▷ on self note_state_type
    ▷ on self (note_hard_change w.now)
    ▷ update_event_and_problem_id self
    ▷ on self (brok check_result)
    ▷ on self (λ x. get_snapshot w.now (get_perfdata_command (get_obsessive_command x)))

unfoldable pub consume_state_result : ℕ → ℕ → ℕ → World → World
unfolding exit_status_of take_result wait_for_dependencies take_exit_status settle react conclude
consume_state_result fuel self c w =
    let x = w.items self in
    let w1 =
      w
      ▷ on self (take_result (w.checks c))
      ▷ set_check c (λ k. record k { exit_status = exit_status_of w.now x k.exit_status })
      ▷ wait_for_dependencies fuel self c
      ▷ take_exit_status self c in
    let (w2, no_action) = settle self c w1 in
    w2
    ▷ react fuel self (w2.checks c).exit_status (w2.checks c).dependency_check no_action
    ▷ conclude self
