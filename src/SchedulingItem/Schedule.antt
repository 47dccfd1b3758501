-- ===== src/SchedulingItem/Schedule.antt =====
-- When an item is checked next: `schedule_state_check`, `get_next_check_time` and `do_check_freshness`
-- of shinken/objects/schedulingitem.py, and the loop `schedule` of shinken/scheduler.py, for the check
-- variant 'state'. `uniform n` is what n * random.uniform(0.0, 1.0) gives, as whole seconds, and
-- `none` is a TypeError of Python 3, which does not compare None with a time. The quotient
-- 300 / interval_length is a whole number, as it is for the default 60.
pub mod Times
mod Examples
use shinken_gpt.Prelude.{
  ℕ, ◌+◌, ◌*◌, ◌/◌, Bool, true, false, not, ◌&&◌, ◌||◌, Option, none, some, List, [], ◌∷◌,
  if◌then◌else◌, ltb, leb, ◌==◌, min, ◌>>=◌, map_some,
}
use shinken_gpt.SchedulingItem.Types.{Item, Period, open_at, freshness_log}
use shinken_gpt.SchedulingItem.World.{World, on, ◌▷◌, log}
use shinken_gpt.SchedulingItem.Blocked.{is_soft, is_service}
use shinken_gpt.SchedulingItem.Consume.{nobody}
use shinken_gpt.SchedulingItem.Dependencies.{launch_check}

-- at the start, a check is not further away than max_check_spread
abbrev pub spread : Item → ℕ → ℕ
spread x interval = min interval (x.max_check_spread * x.interval_length)

abbrev pub is_first : Option ℕ → Bool
is_first none = false
is_first (some t) = t == 0

-- `now`, for a next check that is 0 or None
abbrev pub started : ℕ → Option ℕ → ℕ
started now none = now
started now (some t) = if t == 0 then now else t

-- the next valid time of the period, if there is one
abbrev pub valid_from : Option Period → ℕ → Option ℕ
valid_from none t = some t
valid_from (some p) t = p.get_next_valid_time_from_t t

unfoldable pub get_next_check_time :
    (ℕ → ℕ) → ℕ → Item → ℕ → Option ℕ → Option Period → Option ℕ → Option (Option ℕ)
get_next_check_time uniform now x interval next_chk period (some force_time) =
    some (some force_time)
get_next_check_time uniform now x interval next_chk period none = do
  let time_add = if is_first next_chk then uniform (spread x interval) else interval
  let start = started now next_chk
  next ← if leb start now then valid_from period (start + time_add) else some start
  some (if ltb next now then valid_from period (now + uniform (spread x interval)) else some next)

abbrev pub interval_of : Item → ℕ
interval_of x =
    if not (is_soft x.state_type) || x.retry_interval == 0
    then x.check_interval * x.interval_length
    else x.retry_interval * x.interval_length

abbrev is_asked : Option ℕ → Bool
is_asked none = false
is_asked (some t) = not (t == 0)

abbrev pub is_in_checking : Item → Bool
is_in_checking x = not (nobody x.checks_in_progress)

abbrev pub set_next_chk : Option ℕ → Item → Item
set_next_chk t x = record x { planning = record x.planning { next_chk = t } }

abbrev set_check_interval : ℕ → Item → Item
set_check_interval i x = record x { planning = record x.planning { check_interval = i } }

-- next_chk, and the check at that time
abbrev pub launch_next : ℕ → ℕ → Bool → World → Option ℕ → World
launch_next fuel self force w none = w ▷ on self (set_next_chk none)
launch_next fuel self force w (some t) =
    (launch_check fuel self t none force false (w ▷ on self (set_next_chk (some t)))).0

-- from the computation of the next time on
unfoldable pub schedule_at : (ℕ → ℕ) → ℕ → ℕ → ℕ → Bool → Option ℕ → World → Option World
unfolding get_next_check_time launch_check
schedule_at uniform fuel self interval force force_time w = do
  let x = w.items self
  next ← get_next_check_time uniform w.now x interval x.next_chk x.check_period force_time
  some (launch_next fuel self force w next)

unfoldable pub schedule_state_check : (ℕ → ℕ) → ℕ → ℕ → Bool → Option ℕ → World → Option World
unfolding schedule_at
schedule_state_check uniform fuel self force force_time w =
    let x = w.items self in
    let interval = interval_of x in
    if is_in_checking x && not (force || is_asked force_time)
    then some w
    else if not ((x.active_checks_enabled && x.execute_checks) || force)
    then some w
    else if interval == 0 && not force
    then (if is_service x.kind
        then some w
        else schedule_at uniform fuel self interval force force_time
            (w ▷ on self (set_check_interval (300 / x.interval_length))))
    else schedule_at uniform fuel self interval force force_time w

-- Scheduler.schedule, over the items
unfoldable pub schedule : (ℕ → ℕ) → ℕ → List ℕ → World → Option World
unfolding schedule_state_check
schedule uniform fuel [] w = some w
schedule uniform fuel (i ∷ is) w = do
  w' ← schedule_state_check uniform fuel i false none w
  schedule uniform fuel is w'

-- the state is too old; now - (threshold + latency), which can be negative
unfoldable pub is_stale : ℕ → Item → Bool
is_stale now x =
    not (is_in_checking x)
    && x.global_check_freshness
    && x.check_freshness
    && not (x.freshness_threshold == 0)
    && ltb (x.last_state_update + (x.freshness_threshold + x.additional_freshness_latency)) now

-- with the id of the check that is launched
unfoldable pub do_check_freshness : ℕ → ℕ → World → World × Option ℕ
unfolding is_stale launch_check
do_check_freshness fuel self w =
    let x = w.items self in
    if is_stale w.now x
      && x.passive_checks_enabled
      && not x.active_checks_enabled
      && open_at x.check_period w.now
    then launch_check fuel self w.now none false false (w ▷ on self (log freshness_log))
    else (w, none)
