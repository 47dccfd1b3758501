-- ===== src/SchedulingItem/Handlers.antt =====
-- The commands that follow a result: `get_obsessive_compulsive_processor_command` of host.py and
-- service.py, `get_perfdata_command` and `get_snapshot` of schedulingitem.py.
use shinken_gpt.Prelude.{ℕ, ◌+◌, ◌*◌, not, ◌||◌, Option, none, some, if◌then◌else◌, ltb, any}
use shinken_gpt.SchedulingItem.Types.{Item, event_handler, snapshot, snapshot_log, open_at}
use shinken_gpt.SchedulingItem.World.{act, log}
use shinken_gpt.SchedulingItem.States.{is_state}

unfoldable pub get_obsessive_command : Item → Item
get_obsessive_command x =
    if not x.obsess_over || not x.obsess_over_self
    then x
    else act (event_handler x.obsess_command) x

abbrev launch_if : Option ℕ → Item → Item
launch_if none x = x
launch_if (some e) x = act (event_handler e) x

unfoldable pub get_perfdata_command : Item → Item
get_perfdata_command x =
    if not x.process_performance_data || not x.process_perf_data
    then x
    else launch_if x.perfdata_command x

abbrev take_snapshot : ℕ → Option ℕ → Item → Item
take_snapshot now none x = x
take_snapshot now (some e) x =
    if not x.snapshot_enabled
      || not (any (is_state x) x.snapshot_criteria)
      || ltb now (x.last_snapshot + x.snapshot_interval * x.interval_length)
      || not (open_at x.snapshot_period now)
    then x
    else act (snapshot e)
        (log snapshot_log (record x { result = record x.result { last_snapshot = now } }))

unfoldable pub get_snapshot : ℕ → Item → Item
unfolding is_state
get_snapshot now x = take_snapshot now x.snapshot_command x
