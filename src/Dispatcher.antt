-- ===== src/Dispatcher.antt =====
-- The dispatch of the configurations to the schedulers (shinken/dispatcher.py, Dispatcher, and
-- alive_then_spare_then_deads of util.py). Schedulers, configurations and realms are numbers. The
-- answers of a scheduler and the random flavors are given by the caller; the satellites that are
-- no schedulers, and the other arbiters, are left out.
use shinken_gpt.Prelude.{
  ℕ, zero, suc, ◌≡◌, Bool, true, false, not, ◌&&◌, ◌||◌, Option, none, some, List, [], ◌∷◌, ◌++◌,
  ◌==◌, if◌then◌else◌, keep,
}
use shinken_gpt.SatelliteLink.{SatelliteLink, Network, Managed, update_infos, do_i_manage}
pub mod Brokers
mod Matching
mod Changes
mod Checked
mod Placed
mod Asked
mod Rounds
mod Assigned
mod Examples

pub record SchedulerLink : Type 0 where
  pub link : SatelliteLink
  pub spare : Bool
  pub need_conf : Bool
  pub conf : Option ℕ
  pub push_flavor : ℕ

-- One part of the configuration.
pub record ConfPart : Type 0 where
  pub is_assigned : Bool
  pub assigned_to : Option ℕ
  pub push_flavor : ℕ

-- What a realm keeps of a configuration for its satellites, the same for the four kinds here:
-- the scheduler that the satellites work for, and whether they are to be told.
pub record ToSatellites : Type 0 where
  pub scheduler : Option ℕ
  pub need_dispatch : Bool
  pub managed_by : List ℕ

pub record Realm : Type 0 where
  pub confs : List ℕ
  pub schedulers : List ℕ
  -- the schedulers of the realms above
  pub higher_schedulers : List ℕ

pub record Dispatcher : Type 0 where
  pub schedulers : ℕ → SchedulerLink
  pub confs : ℕ → ConfPart
  pub to_satellites : ℕ → ToSatellites
  pub dispatch_ok : Bool
  pub first_dispatch_done : Bool

abbrev pub set_scheduler : ℕ → SchedulerLink → Dispatcher → Dispatcher
set_scheduler s l d = record d { schedulers = λ x. if x == s then l else d.schedulers x }

abbrev pub set_conf : ℕ → ConfPart → Dispatcher → Dispatcher
set_conf c f d = record d { confs = λ x. if x == c then f else d.confs x }

abbrev pub set_satellites : ℕ → ToSatellites → Dispatcher → Dispatcher
set_satellites c t d = record d { to_satellites = λ x. if x == c then t else d.to_satellites x }

abbrev pub has_none : Option ℕ → Bool
has_none none = true
has_none (some x) = false

-- What is met when the schedulers are asked for news.
pub record News : Type 0 where
  pub network : ℕ → Network
  pub managed : ℕ → Managed

-- A scheduler after it was asked; one that is dead or has no configuration needs one.
unfoldable pub ask : ℕ → Network → Managed → SchedulerLink → SchedulerLink
unfolding update_infos
ask now network managed l =
    let k = update_infos now network managed l.link in
    record l { link = k; need_conf = not k.alive || has_none l.conf || l.need_conf }

unfoldable pub check_alive_one : ℕ → News → ℕ → Dispatcher → Dispatcher
unfolding ask
check_alive_one now news s d =
    set_scheduler s (ask now (news.network s) (news.managed s) (d.schedulers s)) d

-- The schedulers among the elements.
unfoldable pub check_alive : ℕ → News → List ℕ → Dispatcher → Dispatcher
unfolding check_alive_one
check_alive now news [] d = d
check_alive now news (s ∷ ss) d = check_alive now news ss (check_alive_one now news s d)

-- sched.conf.assigned_to = None, and so on, where the scheduler has a configuration
abbrev unassign : Option ℕ → Dispatcher → Dispatcher
unassign none d = d
unassign (some c) d =
    set_conf c (record { is_assigned = false; assigned_to = none; push_flavor = 0 }) d

-- The scheduler loses its configuration, and a new dispatch is asked for.
unfoldable pub take_conf : ℕ → Bool → Dispatcher → Dispatcher
take_conf s need d =
    let l = d.schedulers s in
    set_scheduler s (record l { conf = none; push_flavor = 0; need_conf = need })
      (record (unassign l.conf d) { dispatch_ok = false })

-- A dead scheduler loses its configuration; so does one that does not manage it, which then needs
-- one.
unfoldable pub drop_dead : ℕ → Dispatcher → Dispatcher
unfolding take_conf
drop_dead s d = take_conf s (d.schedulers s).need_conf d

unfoldable pub drop_unmanaged : ℕ → Dispatcher → Dispatcher
unfolding take_conf
drop_unmanaged s d = take_conf s true d

unfoldable pub check_assigned : ℕ → ℕ → ℕ → Dispatcher → Dispatcher
check_assigned c push_flavor s d =
    let d' = if (d.schedulers s).link.alive then d else drop_dead s d in
    if do_i_manage (d'.schedulers s).link c push_flavor then d' else drop_unmanaged s d'

abbrev pub check_by : ℕ → Dispatcher → Option ℕ → Dispatcher
check_by c d none = record d { dispatch_ok = false }
check_by c d (some s) = check_assigned c (d.confs c).push_flavor s d

unfoldable pub check_conf : ℕ → Dispatcher → Dispatcher
check_conf c d = check_by c d (d.confs c).assigned_to

-- The configurations of the realms, one after the other.
unfoldable pub check_dispatch : List ℕ → Dispatcher → Dispatcher
unfolding check_conf
check_dispatch [] d = d
check_dispatch (c ∷ cs) d = check_dispatch cs (check_conf c d)

unfoldable pub alive_then_spare_then_deads : (ℕ → SchedulerLink) → List ℕ → List ℕ
alive_then_spare_then_deads f ss =
    keep (λ s. (f s).link.alive && not (f s).spare) ss
    ++ keep (λ s. (f s).link.alive && (f s).spare) ss
    ++ keep (λ s. not (f s).link.alive) ss

-- In the order in which they are taken: the source reverses the list and takes the last one.
unfoldable pub get_scheduler_ordered_list : Dispatcher → Realm → List ℕ
unfolding alive_then_spare_then_deads
get_scheduler_ordered_list d r =
    alive_then_spare_then_deads d.schedulers
      (r.schedulers ++ keep (λ s. (d.schedulers s).spare) r.higher_schedulers)

-- The random flavor of a push, and whether put_conf gets through, by configuration and scheduler.
pub record Pushes : Type 0 where
  pub flavor : ℕ → ℕ → ℕ
  pub is_sent : ℕ → ℕ → Bool

-- What is recorded when the configuration was sent.
unfoldable pub record_push : ℕ → ℕ → ℕ → Dispatcher → Dispatcher
record_push flavor c s d =
    let l = d.schedulers s in
    set_satellites c (record { scheduler = some s; need_dispatch = true; managed_by = [] })
      (set_conf c (record { is_assigned = true; assigned_to = some s; push_flavor = flavor })
        (set_scheduler s
          (record l {
            link = record l.link { has_con = true; managed_confs = (c, flavor) ∷ [] };
            need_conf = false;
            conf = some c;
            push_flavor = flavor;
          })
          d))

-- The push fails: the flavor is already the new one, and the connection is gone.
unfoldable pub fail_push : ℕ → ℕ → ℕ → Dispatcher → Dispatcher
fail_push flavor c s d =
    let l = d.schedulers s in
    let f = d.confs c in
    set_conf c (record f { push_flavor = flavor })
      (set_scheduler s (record l { link = record l.link { has_con = false } }) d)

-- The loop over the schedulers for a configuration: those that are left, and the new state.
unfoldable pub place : Pushes → ℕ → List ℕ → Dispatcher → List ℕ × Dispatcher
place pushes c [] d =
    ([], set_satellites c (record { scheduler = none; need_dispatch = false; managed_by = [] }) d)
place pushes c (s ∷ ss) d =
    let next = place pushes c ss d in
    let retry = place pushes c ss (fail_push (pushes.flavor c s) c s d) in
    if (d.schedulers s).need_conf
    then if pushes.is_sent c s then (ss, record_push (pushes.flavor c s) c s d) else retry
    else next

unfoldable pub place_all : Pushes → List ℕ → List ℕ → Dispatcher → Dispatcher
unfolding place
place_all pushes [] ss d = d
place_all pushes (c ∷ cs) ss d = let (left, d') = place pushes c ss d in place_all pushes cs left d'

unfoldable pub dispatch_realm : Pushes → Realm → Dispatcher → Dispatcher
unfolding place_all get_scheduler_ordered_list
dispatch_realm pushes r d =
    place_all pushes (keep (λ c. not (d.confs c).is_assigned) r.confs)
      (keep (λ s. (d.schedulers s).link.alive) (get_scheduler_ordered_list d r)) d

unfoldable pub dispatch_realms : Pushes → List Realm → Dispatcher → Dispatcher
unfolding dispatch_realm
dispatch_realms pushes [] d = d
dispatch_realms pushes (r ∷ rs) d = dispatch_realms pushes rs (dispatch_realm pushes r d)

-- Schedulers without a configuration do not ask for one any more.
unfoldable pub calm_schedulers : List ℕ → Dispatcher → Dispatcher
calm_schedulers [] d = d
calm_schedulers (s ∷ ss) d =
    let l = d.schedulers s in
    calm_schedulers ss
      (set_scheduler s (record l { need_conf = not (has_none l.conf) && l.need_conf }) d)

abbrev pub all_assigned : List ℕ → Dispatcher → Bool
all_assigned [] d = true
all_assigned (c ∷ cs) d = (d.confs c).is_assigned && all_assigned cs d

abbrev after_realms : List ℕ → List ℕ → Dispatcher → Dispatcher
after_realms confs schedulers d =
    if all_assigned confs d then calm_schedulers schedulers (record d { dispatch_ok = true }) else d

-- The part of `dispatch` that is about schedulers.
unfoldable pub dispatch : Pushes → List Realm → List ℕ → List ℕ → Dispatcher → Dispatcher
unfolding dispatch_realms calm_schedulers
dispatch pushes realms confs schedulers d =
    let d' = record d { first_dispatch_done = true } in
    if d.dispatch_ok then d' else after_realms confs schedulers (dispatch_realms pushes realms d')

-- A turn of the arbiter's loop, on the schedulers and the configurations of all realms.
unfoldable pub turn : ℕ → News → Pushes → List Realm → List ℕ → List ℕ → Dispatcher → Dispatcher
unfolding check_alive check_dispatch dispatch
turn now news pushes realms all schedulers d =
    dispatch pushes realms all schedulers (check_dispatch all (check_alive now news schedulers d))
