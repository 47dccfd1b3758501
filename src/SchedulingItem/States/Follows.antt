-- ===== src/SchedulingItem/States/Follows.antt =====
-- The state that follows an exit status, and the impact states.
use shinken_gpt.Prelude.{
  ℕ, zero, suc, ◌≤◌, ◌≡◌, ap, sym, subst, inl, inr, Bool-cases, Bool, true, false, not, ◌&&◌, ◌||◌,
  none, if◌then◌else◌, arith, [],
}
use shinken_gpt.BusinessRule.{Kind, host, service}
use shinken_gpt.SchedulingItem.Types.{
  Item, State, ok, warning, critical, unknown, up, Status, NotificationType, down, unreachable,
  same_state, has_letter, flappingstart, flappingstop, flapping_start, flapping_stop,
}
use shinken_gpt.SchedulingItem.World.{World, on, log}
use shinken_gpt.SchedulingItem.Blocked.{is_service}
use shinken_gpt.SchedulingItem.Notify.{create_notifications, remove_in_progress_notifications}
use shinken_gpt.SchedulingItem.Notify.Queue.{
  OnlyQueues-trans, create_notifications-OnlyQueues, remove_in_progress_notifications-OnlyQueues,
}
use shinken_gpt.SchedulingItem.Flapping.{
  add_flapping_change, update_flapping, stop_flapping, start_flapping, set_flapping, push_change,
}
use shinken_gpt.SchedulingItem.States.{
  state_of, stamp, take_state, mark_change, true_state, set_state_from_exit_status,
  set_impact_state, unset_impact_state,
}
use shinken_gpt.SchedulingItem.Keeps.{Keeps, Keeps-refl, Keeps-if, add_flapping_change-Keeps}

-- the part of a status that flap detection leaves alone
abbrev unflapped : Status → Status
unflapped r = record r { is_flapping = false; flapping_changes = [] }

announced-status :
    (self : ℕ) (type : NotificationType) (w : World) (i : ℕ)
    → ((create_notifications self type none (remove_in_progress_notifications self w)).items i).stat
      ≡ (w.items i).stat
announced-status self type w i =
    let q =
      OnlyQueues-trans (remove_in_progress_notifications-OnlyQueues self w) (
        create_notifications-OnlyQueues self type none (remove_in_progress_notifications self w)) in
    ap (λ (x : Item). x.stat) (q.at i)

stop-status :
    (self : ℕ) (w : World) (i : ℕ)
    → unflapped ((stop_flapping self w).items i).stat ≡ unflapped (w.items i).stat
unfolding stop_flapping
stop-status self w i =
    let w' = on self (λ x. log flapping_stop (set_flapping false x)) w in
    ground (arith, announced-status self flappingstop w' i)

start-status :
    (self : ℕ) (w : World) (i : ℕ)
    → unflapped ((start_flapping self w).items i).stat ≡ unflapped (w.items i).stat
unfolding start_flapping
start-status self w i =
    let w' = on self (λ x. log flapping_start (set_flapping true x)) w in
    ground (arith, announced-status self flappingstart w' i)

update-status :
    (self : ℕ) (w : World) (i : ℕ)
    → unflapped ((update_flapping self w).items i).stat ≡ unflapped (w.items i).stat
unfolding update_flapping
update-status self w i =
    ground (
      arith,
      stop-status self w i,
      start-status self w i,
      start-status self (stop_flapping self w) i,
    )

pub add_flapping_change-status :
    (self : ℕ) (b : Bool) (w : World) (i : ℕ)
    → unflapped ((add_flapping_change self b w).items i).stat ≡ unflapped (w.items i).stat
unfolding add_flapping_change
add_flapping_change-status self b w i =
    let w' =
      on self
        (λ y. record y {
          stat = record y.stat {
            flapping_changes = push_change y.flap_history b y.flapping_changes;
          };
        })
        w in
    ground (arith, update-status self w' i)

abbrev pub changes : Item → State → State → Bool
changes x now last =
    not (same_state now last)
    && (is_service x.kind || not (same_state now down && same_state last unreachable))

stamp-keeps :
    (state : State) (now : ℕ) (r : Status)
    → let r' = stamp state now r in
      (r'.state ≡ r.state)
      × (r'.state_id ≡ r.state_id)
      × (r'.last_state ≡ r.last_state)
      × (r'.last_state_update ≡ r.last_state_update)
      × (r'.last_state_change ≡ r.last_state_change)
unfolding stamp
stamp-keeps state now r = ground arith

take_state_lem :
    (now exit_status : ℕ) (x : Item)
    → let x' = take_state now exit_status x in
      let new = state_of x.kind exit_status in
      (x'.state ≡ new.0)
      × (x'.state_id ≡ new.1)
      × (x'.last_state ≡ true_state x)
      × (x'.last_state_update ≡ now)
      × (x'.last_state_change ≡ x.last_state_change)
unfolding take_state
take_state_lem now exit_status x = stamp-keeps _ now _

mark_change_lem :
    (x : Item)
    → let x' = mark_change x in
      (x'.state ≡ x.state)
      × (x'.state_id ≡ x.state_id)
      × (x'.last_state ≡ x.last_state)
      × (x'.last_state_update ≡ x.last_state_update)
      × (x'.last_state_change
          ≡ (if changes x x.state x.last_state then x.last_state_update else x.last_state_change))
unfolding mark_change
mark_change_lem x = ground arith

-- the flap detection in the middle
module _ (self exit_status : ℕ) (w : World) where
  abbrev taken : World
  taken = on self (take_state w.now exit_status) w

  abbrev flapped : World
  flapped =
      let x = taken.items self in
      if has_letter (state_of x.kind exit_status).2 x.flap_detection_options
      then add_flapping_change self (not (same_state x.state x.last_state)) taken
      else taken

  flapped-status : unflapped (flapped.items self).stat ≡ unflapped (taken.items self).stat
  flapped-status =
      let b = not (same_state (taken.items self).state (taken.items self).last_state) in
      ground (arith, add_flapping_change-status self b taken self)

  flapped-Keeps : Keeps taken flapped
  flapped-Keeps = Keeps-if _ (add_flapping_change-Keeps self _ taken) (Keeps-refl taken)

pub state_changes :
    (self exit_status : ℕ) (w : World)
    → let x = w.items self in
      let x' = (set_state_from_exit_status self exit_status w).items self in
      let new = state_of x.kind exit_status in
      (x'.state ≡ new.0)
      × (x'.state_id ≡ new.1)
      × (x'.last_state ≡ true_state x)
      × (x'.last_state_update ≡ w.now)
      × (x'.last_state_change
          ≡ (if changes x new.0 (true_state x) then w.now else x.last_state_change))
unfolding set_state_from_exit_status
state_changes self exit_status w =
    let s = flapped-status self exit_status w in
    ground (
      arith,
      s,
      (flapped-Keeps self exit_status w).conf self,
      take_state_lem w.now exit_status (w.items self),
      mark_change_lem ((flapped self exit_status w).items self),
    )

-- The state and its id by which a host or a service answers an exit status.
pub data StateFor : Kind → ℕ → State → ℕ → Type 0 where
  host_is_up : StateFor host 0 up 0
  host_is_down : (n : ℕ) → 1 ≤ n → StateFor host n down 1
  service_is_ok : StateFor service 0 ok 0
  service_is_warning : StateFor service 1 warning 1
  service_is_critical : StateFor service 2 critical 2
  service_is_unknown : StateFor service 3 unknown 3
  service_is_out_of_range : (n : ℕ) → 4 ≤ n → StateFor service n critical 2

state_of-StateFor : (kind : Kind) (n : ℕ) → let new = state_of kind n in StateFor kind n new.0 new.1
unfolding state_of
state_of-StateFor host zero = host_is_up
state_of-StateFor host (suc n) = host_is_down (suc n) (ground arith)
state_of-StateFor service zero = service_is_ok
state_of-StateFor service (suc zero) = service_is_warning
state_of-StateFor service (suc (suc zero)) = service_is_critical
state_of-StateFor service (suc (suc (suc zero))) = service_is_unknown
state_of-StateFor service (suc (suc (suc (suc n)))) =
    service_is_out_of_range (suc (suc (suc (suc n)))) (ground arith)

-- What the state of an item was before a result, when an impact has changed it.
pub data RealState (x : Item) : State → Type 0 where
  before_impact :
      x.enable_problem_impacts_states_change ≡ true
      → x.is_impact ≡ true
      → x.state_changed_since_impact ≡ false
      → RealState x x.state_before_impact
  not_enabled : x.enable_problem_impacts_states_change ≡ false → RealState x x.state
  no_impact : x.is_impact ≡ false → RealState x x.state
  result_since : x.state_changed_since_impact ≡ true → RealState x x.state

true_state-RealState : (x : Item) → RealState x (true_state x)
unfolding true_state
true_state-RealState x = elim (Bool-cases x.enable_problem_impacts_states_change) [
  | inr e ↦ subst (RealState x) (ground (arith, e)) (not_enabled e)
  | inl e ↦ elim (Bool-cases x.is_impact) [
    | inr f ↦ subst (RealState x) (ground (arith, f)) (no_impact f)
    | inl f ↦ elim (Bool-cases x.state_changed_since_impact) [
      | inl g ↦ subst (RealState x) (ground (arith, g)) (result_since g)
      | inr g ↦ subst (RealState x) (ground (arith, e, f, g)) (before_impact e f g)
    ]
  ]
]

-- After `set_state_from_exit_status` a host is UP for 0 and DOWN for the rest; a service is OK,
-- WARNING, CRITICAL and UNKNOWN for 0 to 3, and CRITICAL for the rest; the ids are the usual ones.
-- The last state is the state before, or that from before the impact, where impacts change states
-- and the item is an impact that had no result since. The update is now, and so is the last change
-- if the state differs from the last state, unless a host is DOWN after it was UNREACHABLE.
pub set_state_from_exit_status_lem :
    (self exit_status : ℕ) (w : World)
    → let x = w.items self in
      let x' = (set_state_from_exit_status self exit_status w).items self in
      StateFor x.kind exit_status x'.state x'.state_id
      × RealState x x'.last_state
      × (x'.last_state_update ≡ w.now)
      × (x'.last_state_change
          ≡ (if changes x x'.state x'.last_state then w.now else x.last_state_change))
unfolding set_state_from_exit_status
set_state_from_exit_status_lem self exit_status w =
    let x = w.items self in
    let x' = (set_state_from_exit_status self exit_status w).items self in
    let new = state_of x.kind exit_status in
    let (now, id, last, at, change) = state_changes self exit_status w in
    (
      subst (λ s. StateFor x.kind exit_status s x'.state_id) (sym now)
          (subst (StateFor x.kind exit_status new.0) (sym id)
            (state_of-StateFor x.kind exit_status)),
      subst (RealState x) (sym last) (true_state-RealState x),
      at,
      ground (arith, change, now, last),
    )

-- An item that leaves an impact state, with no result since it entered it, has the status that it
-- had before, whether or not problems change states.
pub unset-set_impact_state : (x : Item) → (unset_impact_state (set_impact_state x)).stat ≡ x.stat
unfolding unset_impact_state set_impact_state
unset-set_impact_state x = ground arith
