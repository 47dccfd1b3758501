-- ===== src/SchedulingItem/Samples.antt =====
-- A host, a service on it, a check and a downtime, for the examples.
use Prim.Native.String
use shinken_gpt.Prelude.{ℕ, ◌==◌, true, false, none, some, [], ◌∷◌, List, if◌then◌else◌}
use shinken_gpt.Prelude.Int.{pos}
use shinken_gpt.BusinessRule.{Kind, host, service}
use shinken_gpt.SchedulingItem.Types.{
  Conf, Tries, Status, Item, State, ok, up, critical, soft, hard, Letter, Dependency, network_dep,
  long, down, Period, scheduled, waitconsume, problem,
}
use shinken_gpt.SchedulingItem.World.{World, Downtime}

abbrev pub always : Period
always = record { is_time_valid = λ t. true; get_next_valid_time_from_t = λ t. some t }

-- a service depends on its host, 0
abbrev pub host_dep : Dependency
host_dep = record {
  dep = 0;
  status = long down ∷ [];
  dep_type = network_dep;
  tp = some always;
  inherits_parent = true;
}

abbrev conf_of : Kind → List Dependency → Conf
conf_of kind deps = record {
  kind = kind;
  interval_length = 60;
  enable_problem_impacts_states_change = true;
  enable_flap_detection = true;
  flap_history = 20;
  global_low_flap_threshold = 20;
  global_high_flap_threshold = 30;
  enable_notifications = true;
  enable_event_handlers = true;
  no_event_handlers_during_downtimes = false;
  global_event_handler = none;
  use_aggressive_host_checking = false;
  max_check_attempts = 3;
  is_volatile = false;
  flap_detection_enabled = true;
  flap_detection_options = Letter.o ∷ Letter.c ∷ [];
  low_flap_threshold = none;
  high_flap_threshold = none;
  notifications_enabled = true;
  notification_interval = 60;
  first_notification_delay = 0;
  notification_period = some always;
  notification_options = Letter.c ∷ Letter.w ∷ Letter.r ∷ Letter.d ∷ Letter.u ∷ [];
  event_handler_enabled = true;
  event_handler = some 7;
  obsess_over = false;
  obsess_over_self = false;
  obsess_command = 0;
  process_performance_data = true;
  process_perf_data = true;
  perfdata_command = none;
  snapshot_command = none;
  snapshot_enabled = false;
  snapshot_criteria = [];
  snapshot_interval = 5;
  snapshot_period = none;
  resultmodulations = [];
  active_checks_enabled = true;
  passive_checks_enabled = true;
  cached_check_horizon = 0;
  act_depend_of = deps;
  act_depend_of_me = [];
  chk_depend_of = deps;
  business_impact_modulations = [];
  host = 0;
  got_business_rule = false;
  business_rule_smart_notifications = false;
  business_rule_downtime_as_ack = false;
  retry_interval = 1;
  execute_checks = true;
  max_check_spread = 30;
  check_period = some always;
  global_check_freshness = true;
  check_freshness = false;
  freshness_threshold = 0;
  additional_freshness_latency = 15;
  check_for_orphaned = true;
  time_to_orphanage = 300;
  poller_tag = 0;
  check_module_type = 0;
  priority = 100;
  internal_command = false;
  escalations = [];
  contacts = 0 ∷ [];
}

abbrev status_of : State → ℕ → State → Status
status_of state id last = record {
  state = state;
  state_id = id;
  last_state = last;
  last_state_update = 900;
  last_state_change = 100;
  last_time_ok = 100;
  last_time_warning = 0;
  last_time_critical = 900;
  last_time_unknown = 0;
  last_time_up = 900;
  last_time_down = 0;
  last_time_unreachable = 0;
  is_flapping = false;
  flapping_changes = true ∷ false ∷ [];
}

abbrev pub item_of : Kind → List Dependency → Tries → Status → Item
item_of kind deps tries status = record {
  conf = conf_of kind deps;
  tries = tries;
  stat = status;
  result = record {
    has_been_checked = true;
    last_chk = 900;
    output = String.[];
    long_output = String.[];
    return_code = 2;
    last_snapshot = 0;
    checks_in_progress = 5 ∷ [];
  };
  hard = record {
    state_type_id = 0;
    last_hard_state = ok;
    last_hard_state_id = 0;
    last_hard_state_change = 100;
    in_hard_unknown_reach_phase = false;
    was_in_hard_unknown_reach_phase = false;
    state_before_hard_unknown_reach_phase = ok;
    last_event_id = 0;
    current_event_id = 1;
    last_problem_id = 0;
    current_problem_id = 1;
  };
  impact = record {
    is_problem = false;
    is_impact = false;
    impacts = [];
    source_problems = [];
    state_before_impact = ok;
    state_id_before_impact = 0;
    state_changed_since_impact = true;
    business_impact = 2;
    my_own_business_impact = none;
  };
  ack = record { problem_has_been_acknowledged = false; acknowledgement = none; comments = [] };
  downtime = record {
    scheduled_downtime_depth = pos 0;
    in_scheduled_downtime = false;
    in_scheduled_downtime_during_last_check = false;
    downtimes = [];
  };
  planning = record {
    next_chk = some 0;
    check_interval = 5;
    notified_contacts = [];
    last_notification = 0;
  };
  outbox = record {
    actions = [];
    broks = [];
    logs = [];
    notifications_in_progress = 3 ∷ [];
    current_notification_number = 1;
  };
}

-- the host, UP, and the service, CRITICAL for the second time
abbrev pub the_host : Item
the_host =
    item_of host [] (record { attempt = 1; state_type = hard; last_state_type = hard })
      (status_of up 0 up)

abbrev pub the_service : Item
the_service =
    item_of service (host_dep ∷ [])
      (record { attempt = 2; state_type = soft; last_state_type = soft })
      (status_of critical 2 critical)

-- the service, OK
abbrev pub rested_service : Item
rested_service =
    item_of service (host_dep ∷ [])
      (record { attempt = 1; state_type = hard; last_state_type = hard }) (status_of ok 0 ok)

-- a downtime of the host, not in effect
abbrev pub planned : Downtime
planned = record {
  ref = 0;
  start_time = 1000;
  end_time = 2000;
  real_end_time = 2000;
  duration = 1000;
  fixed = true;
  trigger_id = 0;
  activate_me = [];
  is_in_effect = false;
  can_be_deleted = false;
  comment_id = none;
}

-- check 5 of the service is CRITICAL again and waits to be consumed; one downtime, 0, of the host
abbrev pub the_world : World
the_world = record {
  now = 1000;
  items = λ i. if i == 0 then the_host else the_service;
  notifications = λ n. record {
    type = problem;
    status = scheduled;
    ref = 1;
    contact = none;
    t_to_go = some 900;
    notif_nb = 1;
    creation_time = 900;
    command = none;
    escalated = false;
    already_start_escalations = [];
    reactionner_tag = 0;
    module_type = 0;
    priority = 100;
    worker = 0;
  };
  checks = λ c. record {
    status = waitconsume;
    ref = 1;
    exit_status = 2;
    output = String.[];
    long_output = String.[];
    t_to_go = 900;
    check_time = 950;
    depend_on = [];
    depend_on_me = [];
    dependency_check = false;
    from_trigger = false;
    poller_tag = 0;
    module_type = 0;
    priority = 100;
    internal = false;
    worker = 0;
  };
  downtimes = λ d. planned;
  known_downtimes = 0 ∷ [];
  next_id = 10;
  event_id = 1;
  problem_id = 1;
  raised = false;
}
