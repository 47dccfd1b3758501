-- ===== src/SchedulingItem/Types.antt =====
-- The attributes of hosts and services that the methods of SchedulingItem read and write, and the
-- objects that they refer to. A reference is a number, the object's place in a heap of `World`.
-- Times are whole seconds. Texts of commands and outputs are `String`.
use Prim.Native.String.{String}
use shinken_gpt.Prelude.{ℕ, Bool, true, false, Option, none, some, List, any}
use shinken_gpt.Prelude.Int.{ℤ}
use shinken_gpt.BusinessRule.{Kind, host, service}

-- the values of `state`: OK, WARNING, CRITICAL, UNKNOWN of a service, UP, DOWN, UNREACHABLE of a
-- host, and PENDING before the first check
pub data State : Type 0 where
  pending ok warning critical unknown up down unreachable : State

pub data StateType : Type 0 where
  soft hard : StateType

-- the letters of `notification_options`, `flap_detection_options` and the statuses of dependencies
pub data Letter : Type 0 where
  o w c u d r f s n : Letter

-- a status that `is_state` is asked about: the long form or the letter
pub data Wanted : Type 0 where
  long : State → Wanted
  short : Letter → Wanted

pub data NotificationType : Type 0 where
  problem recovery acknowledgement : NotificationType
  flappingstart flappingstop flappingdisabled : NotificationType
  downtimestart downtimeend downtimecancelled : NotificationType

-- status of a check, a notification or an event handler
pub data ActionStatus : Type 0 where
  scheduled inpoller waitconsume waitdep havetoresolvedep zombie timeout : ActionStatus

-- What the items ask of a timeperiod (objects/timeperiod.py).
pub record Period : Type 0 where
  pub is_time_valid : ℕ → Bool
  pub get_next_valid_time_from_t : ℕ → Option ℕ

pub data DependencyType : Type 0 where
  logic_dep network_dep business_dep : DependencyType

-- an element of `act_depend_of`, `act_depend_of_me`, `chk_depend_of`
pub record Dependency : Type 0 where
  pub dep : ℕ
  pub status : List Wanted
  pub dep_type : DependencyType
  pub tp : Option Period
  pub inherits_parent : Bool

-- objects/resultmodulation.py
pub record ResultModulation : Type 0 where
  pub exit_codes_match : List ℕ
  pub exit_code_modulation : Option ℕ
  pub modulation_period : Option Period

-- objects/businessimpactmodulation.py
pub record ImpactModulation : Type 0 where
  pub business_impact : ℕ
  pub modulation_period : Option Period

-- Attributes of the class Host or Service, and of the configuration, that no method here writes.
pub record Conf : Type 0 where
  pub kind : Kind
  pub interval_length : ℕ
  pub enable_problem_impacts_states_change : Bool
  pub enable_flap_detection : Bool
  pub flap_history : ℕ
  pub global_low_flap_threshold : ℕ
  pub global_high_flap_threshold : ℕ
  pub enable_notifications : Bool
  pub enable_event_handlers : Bool
  pub no_event_handlers_during_downtimes : Bool
  pub global_event_handler : Option ℕ
  pub use_aggressive_host_checking : Bool
  pub max_check_attempts : ℕ
  pub is_volatile : Bool
  pub flap_detection_enabled : Bool
  pub flap_detection_options : List Letter
  -- -1 is `none`
  pub low_flap_threshold : Option ℕ
  pub high_flap_threshold : Option ℕ
  pub notifications_enabled : Bool
  pub notification_interval : ℕ
  pub first_notification_delay : ℕ
  pub notification_period : Option Period
  pub notification_options : List Letter
  pub event_handler_enabled : Bool
  pub event_handler : Option ℕ
  -- obsess_over of the class and obsess_over_host or obsess_over_service
  pub obsess_over : Bool
  pub obsess_over_self : Bool
  pub obsess_command : ℕ
  pub process_performance_data : Bool
  pub process_perf_data : Bool
  pub perfdata_command : Option ℕ
  pub snapshot_command : Option ℕ
  pub snapshot_enabled : Bool
  pub snapshot_criteria : List Wanted
  pub snapshot_interval : ℕ
  pub snapshot_period : Option Period
  pub resultmodulations : List ResultModulation
  pub active_checks_enabled : Bool
  pub passive_checks_enabled : Bool
  pub cached_check_horizon : ℕ
  pub act_depend_of : List Dependency
  pub act_depend_of_me : List Dependency
  pub chk_depend_of : List Dependency
  pub business_impact_modulations : List ImpactModulation
  -- the host of a service; unused for a host
  pub host : ℕ
  pub got_business_rule : Bool
  pub business_rule_smart_notifications : Bool
  pub business_rule_downtime_as_ack : Bool
  pub retry_interval : ℕ
  pub execute_checks : Bool
  pub max_check_spread : ℕ
  pub check_period : Option Period
  pub global_check_freshness : Bool
  pub check_freshness : Bool
  pub freshness_threshold : ℕ
  pub additional_freshness_latency : ℕ
  pub check_for_orphaned : Bool
  pub time_to_orphanage : ℕ
  -- the poller tag and the module type of the check command, and the priority of the check
  pub poller_tag : ℕ
  pub check_module_type : ℕ
  pub priority : ℕ
  -- an internal check command, `_internal_...`
  pub internal_command : Bool
  pub escalations : List ℕ
  pub contacts : List ℕ

pub record Tries : Type 0 where
  pub attempt : ℕ
  pub state_type : StateType
  pub last_state_type : StateType

pub record Status : Type 0 where
  pub state : State
  pub state_id : ℕ
  pub last_state : State
  pub last_state_update : ℕ
  pub last_state_change : ℕ
  pub last_time_ok : ℕ
  pub last_time_warning : ℕ
  pub last_time_critical : ℕ
  pub last_time_unknown : ℕ
  pub last_time_up : ℕ
  pub last_time_down : ℕ
  pub last_time_unreachable : ℕ
  pub is_flapping : Bool
  pub flapping_changes : List Bool

pub record Result : Type 0 where
  pub has_been_checked : Bool
  pub last_chk : ℕ
  pub output : String
  pub long_output : String
  pub return_code : ℕ
  pub last_snapshot : ℕ
  -- those of the variant 'state'
  pub checks_in_progress : List ℕ

pub record Hard : Type 0 where
  pub state_type_id : ℕ
  pub last_hard_state : State
  pub last_hard_state_id : ℕ
  pub last_hard_state_change : ℕ
  pub in_hard_unknown_reach_phase : Bool
  pub was_in_hard_unknown_reach_phase : Bool
  pub state_before_hard_unknown_reach_phase : State
  pub last_event_id : ℕ
  pub current_event_id : ℕ
  pub last_problem_id : ℕ
  pub current_problem_id : ℕ

pub record Impact : Type 0 where
  pub is_problem : Bool
  pub is_impact : Bool
  pub impacts : List ℕ
  pub source_problems : List ℕ
  pub state_before_impact : State
  pub state_id_before_impact : ℕ
  pub state_changed_since_impact : Bool
  pub business_impact : ℕ
  -- -1 is `none`
  pub my_own_business_impact : Option ℕ

pub record Acknowledge : Type 0 where
  pub sticky : Bool
  pub end_time : ℕ

pub record Comment : Type 0 where
  pub id : ℕ
  pub entry_type : ℕ
  pub persistent : Bool
  pub can_be_deleted : Bool

pub record Ack : Type 0 where
  pub problem_has_been_acknowledged : Bool
  pub acknowledgement : Option Acknowledge
  pub comments : List Comment

pub record InDowntime : Type 0 where
  -- it can go below zero
  pub scheduled_downtime_depth : ℤ
  pub in_scheduled_downtime : Bool
  pub in_scheduled_downtime_during_last_check : Bool
  pub downtimes : List ℕ

pub record Planning : Type 0 where
  -- None is `none`
  pub next_chk : Option ℕ
  pub check_interval : ℕ
  -- a set
  pub notified_contacts : List ℕ
  pub last_notification : ℕ

pub data Action : Type 0 where
  notification check : ℕ → Action
  event_handler snapshot : ℕ → Action

pub data Log : Type 0 where
  alert : State → StateType → ℕ → Log
  event_handler_log snapshot_log flapping_start flapping_stop : Log
  enter_downtime exit_downtime cancel_downtime : Log
  freshness_log notification_log : Log

pub data Brok : Type 0 where
  update_status check_result : Brok

pub record Outbox : Type 0 where
  pub actions : List Action
  pub broks : List Brok
  pub logs : List Log
  -- the keys of the dictionary, in the order of insertion
  pub notifications_in_progress : List ℕ
  pub current_notification_number : ℕ

-- A host or a service.
pub record Item : Type 0 where
  pub conf : Conf
  pub open conf use *
  pub tries : Tries
  pub open tries use *
  pub stat : Status
  pub open stat use *
  pub result : Result
  pub open result use *
  pub hard : Hard
  pub open hard use *
  pub impact : Impact
  pub open impact use *
  pub ack : Ack
  pub open ack use *
  pub downtime : InDowntime
  pub open downtime use *
  pub planning : Planning
  pub open planning use *
  pub outbox : Outbox
  pub open outbox use *

unfoldable pub state_discrete : Discrete State
state_discrete = hlevel

unfoldable pub letter_discrete : Discrete Letter
letter_discrete = hlevel

-- a == b, on states
abbrev pub same_state : State → State → Bool
same_state a b = elim (state_discrete a b) [ yes _ ↦ true | no _ ↦ false ]

-- l in options
abbrev pub has_letter : Letter → List Letter → Bool
has_letter l = any (λ x. elim (letter_discrete x l) [ yes _ ↦ true | no _ ↦ false ])

-- the class attribute `ok_up`
abbrev pub ok_up : Kind → State
ok_up host = up
ok_up service = ok

-- `period is None or period.is_time_valid(t)`
abbrev pub open_at : Option Period → ℕ → Bool
open_at none t = true
open_at (some p) t = p.is_time_valid t
