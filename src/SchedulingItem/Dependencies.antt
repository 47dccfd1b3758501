-- ===== src/SchedulingItem/Dependencies.antt =====
-- Dependencies: `is_no_action_dependent`, `check_and_set_unreachability`, `do_i_raise_dependency`,
-- `is_no_check_dependent`, `launch_check` and `raise_dependencies_check` of schedulingitem.py, for
-- the check variant 'state'. What only fills in the command of a check is left out.
-- `do_i_raise_dependency` goes along `chk_depend_of`; the fuel bounds the depth.
pub mod Depth
use shinken_gpt.Prelude.{
  ℕ, zero, suc, ◌+◌, ◌≡◌, refl, Bool, true, false, not, ◌&&◌, ◌||◌, Option, none, some, List, [],
  ◌∷◌, ◌++◌, ◌==◌, if◌then◌else◌, ltb, any, arith,
}
use Prim.Native.String
use shinken_gpt.BusinessRule.{Kind, host, service}
use shinken_gpt.SchedulingItem.Types.{
  Item, Dependency, DependencyType, logic_dep, network_dep, business_dep, Letter, Wanted, Action,
  scheduled, has_letter, open_at,
}
use shinken_gpt.SchedulingItem.World.{World, Check, update, untagged, put_item, on, ◌▷◌, act}
use shinken_gpt.SchedulingItem.Blocked.{is_service}
use shinken_gpt.SchedulingItem.States.{is_state, set_unreachable}

-- whether the item depended on is in one of the statuses
unfoldable pub is_raised : World → Dependency → Bool
is_raised w d = any (is_state (w.items d.dep)) d.status

abbrev pub is_logic : DependencyType → Bool
is_logic logic_dep = true
is_logic _ = false

abbrev pub is_network : DependencyType → Bool
is_network network_dep = true
is_network _ = false

-- a logical dependency that is raised
unfoldable pub logic_raised : World → List Dependency → Bool
unfolding is_raised
logic_raised w = any (λ d. is_logic d.dep_type && is_raised w d)

-- `False in parent_is_down`
unfoldable pub some_parent_up : (DependencyType → Bool) → World → List Dependency → Bool
unfolding is_raised
some_parent_up counts w = any (λ d. counts d.dep_type && not (is_raised w d))

unfoldable pub is_no_action_dependent : ℕ → World → Bool
unfolding logic_raised some_parent_up
is_no_action_dependent self w =
    let x = w.items self in
    if logic_raised w x.act_depend_of
    then true
    else if some_parent_up (λ t. not (is_logic t)) w x.act_depend_of
    then false
    else not (has_letter Letter.u x.notification_options)

unfoldable pub check_and_set_unreachability : ℕ → World → World
unfolding some_parent_up
check_and_set_unreachability self w =
    let x = w.items self in
    if not (any (λ d. is_network d.dep_type) x.act_depend_of)
      || some_parent_up is_network w x.act_depend_of
    then w
    else w ▷ on self (set_unreachable w.now)

-- the loop over `chk_depend_of`; the test of the period follows the call
unfoldable pub any_dependency : World → (Dependency → Bool) → List Dependency → Bool
any_dependency w call = any (λ d. call d && open_at d.tp w.now)

unfoldable pub do_i_raise_dependency : ℕ → World → ℕ → List Wanted → Bool → Bool
do_i_raise_dependency zero w self status inherit_parents = false
do_i_raise_dependency (suc fuel) w self status inherit_parents =
    any (is_state (w.items self)) status
    || (inherit_parents
        && any_dependency w (λ d. do_i_raise_dependency fuel w d.dep d.status d.inherits_parent)
            (w.items self).chk_depend_of)

unfoldable pub is_no_check_dependent : ℕ → World → ℕ → Bool
is_no_check_dependent fuel w self =
    any_dependency w (λ d. do_i_raise_dependency fuel w d.dep d.status d.inherits_parent)
      (w.items self).chk_depend_of

-- Check('scheduled', ...), with its id from the counter, and its tag, module type and priority
unfoldable pub new_check : ℕ → ℕ → List ℕ → Bool → ℕ × ℕ × ℕ → World → World
new_check self t depend_on_me dependency_check (tag, type, prio) w = record w {
  next_id = w.next_id + 1;
  checks = update w.checks w.next_id (record {
    status = scheduled;
    ref = self;
    exit_status = 3;
    output = String.[];
    long_output = String.[];
    t_to_go = t;
    check_time = 0;
    depend_on = [];
    depend_on_me = depend_on_me;
    dependency_check = dependency_check;
    from_trigger = false;
    poller_tag = tag;
    module_type = type;
    priority = prio;
    internal = (w.items self).got_business_rule || (w.items self).internal_command;
    worker = untagged;
  });
}

abbrev tags_of : Check → ℕ × ℕ × ℕ
tags_of c = (c.poller_tag, c.module_type, c.priority)

abbrev keep_trace : ℕ → Item → Item
keep_trace c x = record x {
  result = record x.result { checks_in_progress = x.checks_in_progress ++ c ∷ [] };
}

abbrev dep_list : Option ℕ → List ℕ
dep_list none = []
dep_list (some c) = c ∷ []

abbrev is_given : Option ℕ → Bool
is_given none = false
is_given (some _) = true

-- the item is not in checking
unfoldable pub launch_new_check : ℕ → ℕ → ℕ → Option ℕ → Bool → Bool → World → World × Option ℕ
unfolding new_check
launch_new_check fuel self t ref_check force dependent w =
    let x = w.items self in
    if force || not (is_no_check_dependent fuel w self)
    then if dependent
        && not (is_service x.kind)
        && x.passive_checks_enabled
        && not x.active_checks_enabled
      then (w, none)
      else (
        new_check self t (dep_list ref_check) false (x.poller_tag, x.check_module_type, x.priority)
              w
            ▷ on self (λ y. act (Action.check w.next_id) (keep_trace w.next_id y)),
        some w.next_id,
      )
    else (w, none)

unfoldable pub launch_check : ℕ → ℕ → ℕ → Option ℕ → Bool → Bool → World → World × Option ℕ
unfolding launch_new_check new_check
launch_check fuel self t ref_check force dependent w = elim (w.items self).checks_in_progress [
  | [] ↦ launch_new_check fuel self t ref_check force dependent w
  | first ∷ _ ↦
      if force
      then (
        record w { checks = update w.checks first (record (w.checks first) { t_to_go = w.now }) },
        some first,
      )
      else if is_given ref_check
      then (
        new_check self t (dep_list ref_check) true (tags_of (w.checks first)) w
            ▷ on self (act (Action.check w.next_id)),
        some w.next_id,
      )
      else launch_new_check fuel self t ref_check force dependent w
]

-- raise_dependencies_check(ref_check): the ids of the checks that were launched
unfoldable pub raise_each : ℕ → ℕ → ℕ → List Dependency → World → World × List ℕ
raise_each fuel horizon ref_check [] w = (w, [])
raise_each fuel horizon ref_check (d ∷ ds) w =
    let (w', launched) =
      if open_at d.tp w.now && ltb ((w.items d.dep).last_state_update + horizon) w.now
      then launch_check fuel d.dep w.now (some ref_check) false true w
      else (w, none) in
    let (w'', more) = raise_each fuel horizon ref_check ds w' in (w'', dep_list launched ++ more)

unfoldable pub raise_dependencies_check : ℕ → ℕ → ℕ → World → World × List ℕ
unfolding raise_each
raise_dependencies_check fuel self ref_check w =
    let x = w.items self in raise_each fuel x.cached_check_horizon ref_check x.act_depend_of w
