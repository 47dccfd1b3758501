-- ===== src/Scheduler.antt =====
-- The scheduler's work on checks and notifications, shinken/scheduler.py: it takes the results that
-- the pollers and reactionners return, has the items consume them, hands out what is due, and drops
-- what is done. The dictionaries `checks` and `actions` are the lists of their keys, the objects are
-- those of the world. A returned object is what comes back of it. An exception is `none`.
-- Event handlers and snapshots, which stand among the actions too, are left out.
pub mod Poll
pub mod Scatter
pub mod Clean
pub mod Internal
pub mod Links
pub mod Passes
pub mod Loop
pub mod Resolve
pub mod Put
pub mod Cycle
mod Examples
use Prim.Native.String.{String}
use shinken_gpt.Prelude.{
  ℕ, ◌+◌, ◌-◌, ◌*◌, Bool, true, false, not, ◌&&◌, ◌||◌, Option, none, some, List, [], ◌∷◌, ◌++◌,
  map, if◌then◌else◌, ltb, leb, ◌==◌, contains, keep, length, ◌>>=◌, map_some,
}
use shinken_gpt.BusinessRule.{Kind, host, service}
use shinken_gpt.SchedulingItem.Types.{
  Item, ActionStatus, scheduled, inpoller, waitconsume, havetoresolvedep, zombie,
}
use shinken_gpt.SchedulingItem.World.{World, Check, Notification, update, on, ◌▷◌}
use shinken_gpt.SchedulingItem.Consume.{
  set_check, set_status, is_waitconsume, is_waitdep, nobody, consume_state_result,
}
use shinken_gpt.SchedulingItem.Notify.{remove_in_progress_notification}

-- a check that comes back from a poller
pub record CheckResult : Type 0 where
  pub id : ℕ
  pub timed_out : Bool
  pub exit_status : ℕ
  pub output : String
  pub long_output : String
  pub check_time : ℕ

pub data Returned : Type 0 where
  of_check : CheckResult → Returned
  -- the id and `check_time` of a notification
  of_notification : ℕ → ℕ → Returned

pub record Scheduler : Type 0 where
  pub world : World
  -- the keys of the dictionaries, in the order of insertion
  pub checks : List ℕ
  pub actions : List ℕ
  pub waiting_results : List Returned
  -- the items whose status was broadcast
  pub status_broks : List ℕ
  -- conf.timeout_exit_status
  pub timeout_exit_status : ℕ

abbrev pub is_scheduled : ActionStatus → Bool
is_scheduled scheduled = true
is_scheduled _ = false

abbrev pub is_inpoller : ActionStatus → Bool
is_inpoller inpoller = true
is_inpoller _ = false

abbrev pub is_havetoresolvedep : ActionStatus → Bool
is_havetoresolvedep havetoresolvedep = true
is_havetoresolvedep _ = false

abbrev pub is_zombie : ActionStatus → Bool
is_zombie zombie = true
is_zombie _ = false

-- "(%s Check Timed Out)" % my_type.capitalize()
abbrev timed_out_output : Kind → String
timed_out_output host = "(Host Check Timed Out)"
timed_out_output service = "(Service Check Timed Out)"

-- c after the test of 'timeout'
unfoldable pub returned_check : ℕ → Kind → CheckResult → CheckResult
returned_check timeout_exit_status kind r =
    if r.timed_out
    then record r {
      output = timed_out_output kind;
      long_output = timed_out_output kind;
      exit_status = timeout_exit_status;
    }
    else r

-- Check.get_return_from
unfoldable pub get_return_from : CheckResult → Check → Check
get_return_from r c = record c {
  exit_status = r.exit_status;
  output = r.output;
  long_output = r.long_output;
  check_time = r.check_time;
}

abbrev pub set_notification : ℕ → (Notification → Notification) → World → World
set_notification n f w = record w {
  notifications = update w.notifications n (f (w.notifications n));
}

-- an unknown id is a KeyError, which is caught
unfoldable pub put_check_result : CheckResult → Scheduler → Scheduler
unfolding returned_check get_return_from
put_check_result r s =
    if contains r.id s.checks
    then (let c = s.world.checks r.id in
        let got = returned_check s.timeout_exit_status (s.world.items c.ref).kind r in
        record s {
          world = set_check r.id (λ k. set_status waitconsume (get_return_from got k)) s.world;
        })
    else s

unfoldable pub put_notification_result : ℕ → ℕ → Scheduler → Scheduler
unfolding remove_in_progress_notification
put_notification_result n check_time s =
    if contains n s.actions
    then (let item = (s.world.notifications n).ref in
        record s {
          world =
              s.world
              ▷ remove_in_progress_notification item n
              ▷ set_notification n (λ a. record a { status = zombie })
              ▷ on item (λ x. record x {
                planning = record x.planning { last_notification = check_time };
              });
          status_broks = s.status_broks ++ item ∷ [];
        })
    else s

unfoldable pub put_results : Returned → Scheduler → Scheduler
unfolding put_check_result put_notification_result
put_results (of_check r) s = put_check_result r s
put_results (of_notification n check_time) s = put_notification_result n check_time s

unfoldable pub put_all : List Returned → Scheduler → Scheduler
unfolding put_results
put_all [] s = s
put_all (r ∷ rs) s = put_all rs (put_results r s)

-- a loop over the checks that has the items consume those that pass a test
unfoldable pub consume_those : (Check → Bool) → ℕ → List ℕ → World → World
unfolding consume_state_result
consume_those test fuel [] w = w
consume_those test fuel (c ∷ cs) w =
    consume_those test fuel cs
      (if test (w.checks c) then consume_state_result fuel (w.checks c).ref c w else w)

abbrev pub has_result : Check → Bool
has_result c = is_waitconsume c.status

abbrev pub waits_for_nobody : Check → Bool
waits_for_nobody c = is_waitdep c.status && nobody c.depend_on

-- xs.remove(x): the first x is removed, and where there is none it is a ValueError
unfoldable pub remove : ℕ → List ℕ → Option (List ℕ)
remove a [] = none
remove a (x ∷ xs) = if x == a then some xs else map_some (λ ys. x ∷ ys) (remove a xs)

-- dependent_checks.depend_on.remove(c.id), for the checks that depend on c
unfoldable pub release : ℕ → List ℕ → World → Option World
unfolding remove
release c [] w = some w
release c (d ∷ ds) w = do
  rest ← remove c (w.checks d).depend_on
  release c ds (set_check d (λ k. record k { depend_on = rest }) w)

unfoldable pub resolve_one : ℕ → World → Option World
unfolding release
resolve_one c w =
    if is_havetoresolvedep (w.checks c).status
    then map_some (set_check c (set_status zombie)) (release c (w.checks c).depend_on_me w)
    else some w

unfoldable pub resolve : List ℕ → World → Option World
unfolding resolve_one
resolve [] w = some w
resolve (c ∷ cs) w = do w' ← resolve_one c w; resolve cs w'

unfoldable pub consume_results : ℕ → Scheduler → Option Scheduler
unfolding put_all consume_those resolve
consume_results fuel s = do
  let s1 = put_all s.waiting_results (record s { waiting_results = [] })
  w ← resolve s1.checks (consume_those has_result fuel s1.checks s1.world)
  let w' = consume_those waits_for_nobody fuel s1.checks w
  if w'.raised then none else some (record s1 { world = w' })

unfoldable pub delete_zombie_checks : Scheduler → Scheduler
delete_zombie_checks s = record s {
  checks = keep (λ c. not (is_zombie (s.world.checks c).status)) s.checks;
}

unfoldable pub delete_zombie_actions : Scheduler → Scheduler
delete_zombie_actions s = record s {
  actions = keep (λ a. not (is_zombie (s.world.notifications a).status)) s.actions;
}
