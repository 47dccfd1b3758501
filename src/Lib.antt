-- ===== src/Lib.antt =====
-- Shinken, a monitoring framework: what its scheduler does with checks, their results
-- and notifications.
--
-- A host or a service is an Item. The scheduler hands the result of a check to its item, which
-- computes its state, counts attempts until a problem is HARD, detects flapping, enters flexible
-- downtimes, creates and withdraws notifications, launches event handlers and the checks of what it
-- depends on, and marks the items that its problem has an impact on. Objects that the methods share
-- stand in the heaps of a World and are referred to by number; a method is a function from World to
-- World, and what it puts into `actions`, `broks` and the log is the Outbox of its item.
-- The Scheduler keeps the keys of the checks and notifications that it knows. It hands out what is
-- due, has the items consume what comes back, splits a master notification into one for each contact
-- and command, and drops what is done.
--
-- + BusinessRule: shinken/dependencynode.py, the tree of a business rule (get_state, the Xof
--   thresholds, list_all_elements, switch_zeros_of_values, is_valid).
-- + SchedulingItem.Types, World: the attributes of shinken/objects/host.py, service.py and
--   schedulingitem.py, and of shinken/check.py, notification.py, downtime.py, comment.py.
-- + SchedulingItem.Blocked: notification_is_blocked_by_item of host.py and service.py.
-- + SchedulingItem.Notify: create_notifications, remove_in_progress_notifications,
--   get_event_handlers of schedulingitem.py.
-- + SchedulingItem.Flapping: add_flapping_change and update_flapping of schedulingitem.py.
-- + SchedulingItem.States: set_state_from_exit_status and the impact states of host.py and
--   service.py, add_attempt and is_max_attempts.
-- + SchedulingItem.Impacts: set_myself_as_problem, register_a_problem, no_more_a_problem and the
--   business impact, of schedulingitem.py.
-- + SchedulingItem.Dependencies: is_no_action_dependent, check_and_set_unreachability,
--   is_no_check_dependent, launch_check, raise_dependencies_check of schedulingitem.py.
-- + SchedulingItem.Downtimes: enter, exit and cancel of shinken/downtime.py,
--   check_for_flexible_downtime, and the start and stop times of shinken/scheduler.py. Delete: the
--   registration and the deletion of downtimes, of shinken/objects/item.py and scheduler.py.
-- + SchedulingItem.Acks: the acknowledgements and comments of shinken/objects/item.py.
-- + SchedulingItem.Handlers, Phases, Cases, Consume: consume_state_result of schedulingitem.py, in
--   its order: what it reads from the check, the five cases, and what follows them.
-- + SchedulingItem.Schedule: schedule_state_check, get_next_check_time and do_check_freshness of
--   schedulingitem.py.
-- + Escalation: shinken/objects/escalation.py, and is_escalable, get_escalable_contacts and
--   get_next_notification_time of schedulingitem.py.
-- + Contact: want_host_notification and want_service_notification of shinken/objects/contact.py and
--   notificationway.py, check_activation of shinken/contactdowntime.py.
-- + SatelliteLink: ping, update_infos and the managed configurations of
--   shinken/objects/satellitelink.py.
-- + Scheduler: put_results, consume_results and the deletion of zombies of shinken/scheduler.py.
--   Poll: get_to_run_checks and check_orphaned. Clean: clean_queues. Internal: the
--   checks that manage_internal_checks answers. Scatter: scatter_notification
--   of schedulingitem.py and scatter_master_notifications. Links, Passes, Loop, Resolve, Put and
--   Cycle carry the proof on consume_results: the links between the checks that wait for others,
--   what each of its loops keeps of them, and the loops one after the other.
-- + Graph: shinken/graph.py. Search is the search for loops, whose tags are a function of the node;
--   Closed, Paths, Fuel, Sound, Loops, Clean and Complete carry the proof that it is exact. Packs:
--   the accessibility packs.
-- + Timeperiod: the time functions of shinken/util.py, the Timerange and Daterange of
--   shinken/daterange.py (Days, Bounds, Ranges) and the searches of shinken/objects/timeperiod.py
--   (Search). Store puts them together: date ranges and timeperiods that several others share.
--   Years, Hours, Later, Found, Turns and Ends are the proofs.
-- + Dispatcher: check_alive, check_dispatch and the part of dispatch of shinken/dispatcher.py that
--   is about schedulers, and turn, their sequence in shinken/daemons/arbiterdaemon.py. Brokers: the
--   order in which dispatch tries the brokers. Matching, Changes, Checked, Placed, Asked, Rounds and
--   Assigned are the proofs.
-- + SchedulingItem.Keeps, Attempts: what each part leaves alone, a machine of the attempt number and
--   the state type as the specification of consume_state_result, and that it takes that step.
-- + SchedulingItem.Samples and the modules Examples: concrete objects, and the theorems at them.
--
-- Fuel bounds three recursions along references: register_a_problem, do_i_raise_dependency and the
-- downtimes that a downtime triggers. The theorems on results hold for every fuel, and for
-- do_i_raise_dependency the rank of the item is enough where the dependencies have no cycle. The
-- search for loops has as much fuel as the graph has nodes, and one more, since each call tags a
-- node that had no tag. The loop of get_next_valid_time_from_t has enough with the seconds of a
-- year, since each round that does not end it moves on by a second at least. The fuel of
-- get_next_invalid_time_from_t is a parameter.
--
-- Times are whole seconds, and `now` is fixed during a call. The change ratio of flap detection is
-- kept as an exact fraction. In the items a timeperiod is a parameter, `Period`, and so is the
-- float quotient of a percentage threshold, `Percent`, of which the order of quotients is assumed.
-- Not modelled: the text of logs and commands, macros, performance data, triggers (an item here has
-- none), the stalking log, the maintenance checks, the event handlers among the actions of the
-- scheduler, external commands, the dispatch to satellites that are no schedulers, the daemons and
-- the reading of the configuration. The modules time and calendar are the parameter `Calendar`, and
-- times before the epoch do not occur. An exception of Python is `none`, but for the ValueError of
-- deregister_a_problem for a problem that is not among the source problems: it sets `raised` in the
-- world, which consume_results turns into `none`, and from then on the world is of no account. The
-- theorems on consume_state_result alone speak of a call without it. A threshold of a rule is a
-- number, so one that is written 00 counts as 0. The texts of the rules of internal checks are
-- numbers, which are compared and read by a parameter. The random spread of first checks is a
-- parameter, of which a bound is assumed.
pub mod Prelude
pub mod BusinessRule
pub mod SchedulingItem
pub mod Escalation
pub mod Contact
pub mod SatelliteLink
pub mod Scheduler
pub mod Graph
pub mod Timeperiod
pub mod Dispatcher
