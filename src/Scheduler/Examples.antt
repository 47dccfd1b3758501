-- ===== src/Scheduler/Examples.antt =====
-- The theorems on the scheduler, with the sample host and service.
use Prim.Native.String
use shinken_gpt.Prelude.{
  leb, ◌*◌, inl, ℕ, ◌≤◌, ◌≡◌, refl, List, [], ◌∷◌, none, some, true, false, All, count_if, length,
  ◌++◌, if◌then◌else◌, ◌==◌, arith,
}
use shinken_gpt.BusinessRule.{Percent, leaf, service}
use shinken_gpt.Scheduler.Internal.{
  Internals, Rules, bp_command, is_due_internal, manage_internal_checks,
}
use shinken_gpt.Scheduler.Internal.Managed.{Answers, manage_internal_checks-Answers}
use shinken_gpt.SchedulingItem.Types.{scheduled, hard, Letter, state_discrete, letter_discrete}
use shinken_gpt.SchedulingItem.World.{World}
use shinken_gpt.SchedulingItem.Samples.{the_world, the_host, the_service, always}
use shinken_gpt.Scheduler.{Scheduler, of_check}
use shinken_gpt.Scheduler.Poll.{Request, get_to_run_checks}
use shinken_gpt.Scheduler.Poll.Due.{Polled, get_to_run_checks-poller}
use shinken_gpt.Scheduler.Clean.{Sizes, clean_queues, max_key}
use shinken_gpt.Scheduler.Clean.Errors.{clean_queues-error}
use shinken_gpt.SchedulingItem.Blocked.{
  notification_is_blocked_by_item, service_is_blocked, blocked_by_options, blocked_by_state,
  business_rule_blocks,
}
use shinken_gpt.Contact.{want_service_notification}
use shinken_gpt.Scheduler.Scatter.{Book, scatter_notification, scatter_one}
use shinken_gpt.Scheduler.Scatter.Children.{AreChildren, audience, scatter_notification-children}
use shinken_gpt.Scheduler.Scatter.Masters.{Fate, scatter_one-master}

-- two checks of the service are known, and the result of one has come back
abbrev two_checks : Scheduler
two_checks = record {
  world = the_world;
  checks = 5 ∷ 6 ∷ [];
  actions = 3 ∷ [];
  waiting_results =
      of_check (record {
        id = 5;
        timed_out = false;
        exit_status = 2;
        output = String.[];
        long_output = String.[];
        check_time = 950;
      })
      ∷ [];
  status_broks = [];
  timeout_exit_status = 2;
}

-- a poller that takes one check
abbrev poller : Request
poller = record {
  do_checks = true;
  do_actions = false;
  poller_tags = 0 ∷ [];
  reactionner_tags = 0 ∷ [];
  worker_name = 4;
  module_types = 0 ∷ [];
  max_actions = some 1;
}

-- both checks are due
abbrev due_checks : Scheduler
due_checks = record two_checks {
  world = record the_world { checks = λ c. record (the_world.checks c) { status = scheduled } };
}

get_to_run_checks-poller_example :
    (w' : World) × (taken : List ℕ) × (get_to_run_checks poller due_checks
      ≡ some (record due_checks { world = w' }, taken, []))
    × Polled poller due_checks 5 (w', taken)
    × (count_if (λ c. c == 5) taken ≤ 1)
    × (length taken ≤ 1)
get_to_run_checks-poller_example = get_to_run_checks-poller poller due_checks 5 refl refl

-- check 1 is old, and waits for check 20
abbrev crowded : Scheduler
crowded = record two_checks {
  world = record the_world { checks = λ c. record (the_world.checks c) { depend_on = 20 ∷ [] } };
  checks = 1 ∷ 2 ∷ 3 ∷ 4 ∷ 5 ∷ 20 ∷ [];
}

-- the limit is 5 checks
abbrev one_host : Sizes
one_host = record { cleaning_queues_interval = 60; hosts = 1; services = 0; contacts = 1 }

clean_queues-error_example : clean_queues one_host ([] ∷ []) crowded ≡ none
unfolding max_key
clean_queues-error_example =
    clean_queues-error one_host ([] ∷ []) crowded 1 20 (ground arith) (ground arith) refl
      (ground arith) (ground arith) refl

-- one contact, told by one command, and no escalation
abbrev the_book : Book
the_book = record {
  escalations = λ i. record {
    first_notification = 3;
    last_notification = 0;
    first_notification_time = 0;
    last_notification_time = 0;
    notification_interval = none;
    escalation_period = none;
    escalation_options = Letter.c ∷ [];
    contacts = 1 ∷ [];
    time_based = false;
  };
  contacts = λ c. record {
    host_notifications_enabled = true;
    service_notifications_enabled = true;
    downtimes = [];
    notificationways =
        record {
          host_notifications_enabled = true;
          service_notifications_enabled = true;
          host_notification_period = always;
          service_notification_period = always;
          host_notification_options = Letter.d ∷ [];
          service_notification_options = Letter.c ∷ [];
          host_notification_commands = 11 ∷ [];
          service_notification_commands = 12 ∷ [];
          min_business_impact = 0;
        }
        ∷ [];
  };
  commands = λ c. record { reactionner_tag = 0; module_type = 0 };
}

scatter_notification-children_example :
    let n = the_world.notifications 3 in
    let x = the_world.items 1 in
    let (w', children) = scatter_notification the_book 3 900 the_world in
    AreChildren the_book x n (audience the_book 1000 x n 900) w' children
scatter_notification-children_example = scatter_notification-children the_book 3 900 the_world

-- the service in a HARD state, on a host that is UP, which does not block its master notification
abbrev hard_problem : Scheduler
hard_problem = record two_checks {
  world = record the_world {
    items = λ i.
        if i == 0
        then the_host
        else record the_service { tries = record the_service.tries { state_type = hard } };
  };
}

scatter_one-master_example :
    (s' : Scheduler) × (scatter_one the_book 3 hard_problem ≡ some s')
    × (s'.actions ≡ hard_problem.actions ++ 10 ∷ [])
    × Fate hard_problem.world 3 s'.world
unfolding notification_is_blocked_by_item state_discrete letter_discrete service_is_blocked
    blocked_by_options blocked_by_state business_rule_blocks scatter_notification
    want_service_notification
scatter_one-master_example =
    scatter_one-master the_book 3 900 hard_problem refl refl (ground arith) refl

-- a quotient without rounding
abbrev exactly : Percent
exactly = record {
  reaches = λ a n p. leb (p * n) (a * 100);
  reaches_mono = λ a b n p h k. ground arith;
}

-- both checks are of the service, whose rule is on the service itself and was not read yet
abbrev one_rule : Internals
one_rule = record {
  command_of = λ c. bp_command;
  rule_text = λ i. some 1;
  is_macro = λ text. false;
  resolve_simple_macros_in_string = λ i w text. some text;
  eval_cor_pattern = λ text. some (leaf service true 1);
  output_of = λ i w rule. some String.[];
  error_output = String.[];
}

abbrev no_rules : Rules
no_rules i = record { processed_business_rule = 0; business_rule = none }

abbrev due_internal : Scheduler
due_internal = record two_checks {
  world = record the_world {
    checks = λ c. record (the_world.checks c) { status = scheduled; internal = true };
  };
}

manage_internal_checks-Answers_example :
    (w' : World) × (rules' : Rules) × (manage_internal_checks exactly one_rule due_internal no_rules
      ≡ some (record due_internal { world = w' }, rules'))
    × Answers due_internal.world w'
    × All (λ c. is_due_internal w' (w'.checks c) ≡ false) (5 ∷ 6 ∷ [])
manage_internal_checks-Answers_example =
    manage_internal_checks-Answers exactly one_rule due_internal no_rules (λ j. ground arith)
      (inl refl, (inl refl, tt))
