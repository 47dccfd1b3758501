-- ===== src/SchedulingItem/Attempts/Parts.antt =====
-- What the parts of `consume_state_result` do to the attempts of the item, to its hard state, and to the
-- check.
use shinken_gpt.Prelude.{ℕ, ◌<◌, ◌≡◌, refl, ◌∙◌, Bool, false, ◌⊎◌, if◌then◌else◌, arith, ◌==◌}
use shinken_gpt.SchedulingItem.Types.{Item, waitconsume, waitdep, check_result}
use shinken_gpt.SchedulingItem.World.{World, on, ◌▷◌, brok}
use shinken_gpt.SchedulingItem.States.{
  take_state, mark_change, set_state_from_exit_status, set_unreachable, true_state,
}
use shinken_gpt.SchedulingItem.Dependencies.{check_and_set_unreachability}
use shinken_gpt.SchedulingItem.Phases.{
  update_hard_unknown_phase_state, note_state_type, note_hard_change, update_event_and_problem_id,
}
use shinken_gpt.SchedulingItem.Handlers.{get_obsessive_command, get_perfdata_command, get_snapshot}
use shinken_gpt.SchedulingItem.Consume.{
  wait_for_dependencies, take_exit_status, settle, conclude, done_status, set_check, set_status,
}
use shinken_gpt.SchedulingItem.Keeps.{
  Keeps, Keeps-refl, ◌⨾◌, Keeps-if, Keeps-on, add_flapping_change-Keeps,
}
use shinken_gpt.SchedulingItem.Attempts.Numbers.{update_event_and_problem_id-Numbers}
use shinken_gpt.SchedulingItem.Blocked.{is_soft}
use shinken_gpt.SchedulingItem.Attempts.Launch.{raise_dependencies_check-Launches}
use shinken_gpt.SchedulingItem.States.Follows.{state_changes}

-- the status of the check after the step that may make it wait
pub wait-check :
    (fuel self c : ℕ) (w : World)
    → c < w.next_id
    → let k = w.checks c in
      let k' = (wait_for_dependencies fuel self c w).checks c in
      (k'.exit_status ≡ k.exit_status)
      × (k'.dependency_check ≡ k.dependency_check)
      × (k'.depend_on_me ≡ k.depend_on_me)
      × ((k'.status ≡ k.status) ⊎ ((k.status ≡ waitconsume) × (k'.status ≡ waitdep)))
unfolding wait_for_dependencies
wait-check fuel self c w h =
    let p = raise_dependencies_check-Launches fuel self c (set_check c (set_status waitdep) w) in
    ground (arith, h, p.checks c h)

pub wait-item :
    (fuel self c : ℕ) (w : World) (i : ℕ)
    → let x = w.items i in
      let x' = (wait_for_dependencies fuel self c w).items i in
      (x'.conf ≡ x.conf) × (x'.tries ≡ x.tries) × (x'.stat ≡ x.stat) × (x'.impact ≡ x.impact)
unfolding wait_for_dependencies
wait-item fuel self c w i =
    let p = raise_dependencies_check-Launches fuel self c (set_check c (set_status waitdep) w) in
    ground (arith, p.items i)

pub set_state-Keeps : (self code : ℕ) (w : World) → Keeps w (set_state_from_exit_status self code w)
unfolding set_state_from_exit_status take_state mark_change
set_state-Keeps self code w =
    let p = Keeps-on self (take_state w.now code) w refl refl in
    p
    ⨾ Keeps-if _ (add_flapping_change-Keeps self _ _) (Keeps-refl _)
    ⨾ Keeps-on self mark_change _ (ground arith) (ground arith)

-- the item after `take_exit_status`
pub take_exit-item :
    (self c : ℕ) (w : World)
    → let x = w.items self in
      let x' = (take_exit_status self c w).items self in
      (x'.conf ≡ x.conf)
      × (x'.tries ≡ record x.tries { last_state_type = x.state_type })
      × (x'.last_state ≡ true_state x)
unfolding take_exit_status true_state
take_exit-item self c w =
    let w' =
      on self (λ x. record x { tries = record x.tries { last_state_type = x.state_type } }) w in
    let p = set_state-Keeps self (w.checks c).exit_status w' in
    ground (arith, p.conf self, p.tries self, state_changes self (w.checks c).exit_status w')

pub take_exit-check : (self c : ℕ) (w : World) → (take_exit_status self c w).checks ≡ w.checks
unfolding take_exit_status
take_exit-check self c w =
    let w' =
      on self (λ x. record x { tries = record x.tries { last_state_type = x.state_type } }) w in
    (set_state-Keeps self (w.checks c).exit_status w').checks

pub settle-item :
    (self c : ℕ) (w : World)
    → let x = w.items self in
      let x' = (settle self c w).0.items self in
      (x'.conf ≡ x.conf) × (x'.tries ≡ x.tries) × (x'.last_state ≡ x.last_state)
unfolding settle check_and_set_unreachability set_unreachable
settle-item self c w = ground arith

pub settle-check :
    (self c : ℕ) (w : World)
    → let k = w.checks c in
      let k' = (settle self c w).0.checks c in
      (k'.exit_status ≡ k.exit_status)
      × (k'.dependency_check ≡ k.dependency_check)
      × ((k.status ≡ waitconsume) ⊎ (k.status ≡ waitdep) → k'.status ≡ done_status k)
unfolding settle check_and_set_unreachability
settle-check self c w = ground arith

-- the hard attributes that only `note_state_type` writes
abbrev SameHard : Item → Item → Type 0
SameHard x' x =
    (x'.state_type_id ≡ x.state_type_id)
    × (x'.last_hard_state ≡ x.last_hard_state)
    × (x'.last_hard_state_id ≡ x.last_hard_state_id)

abbrev SameState : Item → Item → Type 0
SameState x' x = (x'.tries ≡ x.tries) × (x'.stat ≡ x.stat) × (x'.downtime ≡ x.downtime)

-- state_type_id, last_hard_state and last_hard_state_id record the state of `x`
abbrev pub Noted : Item → Item → Type 0
Noted x' x =
    if is_soft x.state_type
    then x'.state_type_id ≡ 0
    else (x'.state_type_id ≡ 1)
      × (x'.last_hard_state ≡ x.state)
      × (x'.last_hard_state_id ≡ x.state_id)

note_state_type-item : (x : Item) → SameState (note_state_type x) x × Noted (note_state_type x) x
unfolding note_state_type
note_state_type-item x = (ground arith, ground arith)

change-if :
    (b : Bool) (now : ℕ) (x : Item)
    → let x' =
        if b then record x { hard = record x.hard { last_hard_state_change = now } } else x in
      SameState x' x × SameHard x' x
change-if b now x = ground arith

note_hard_change-item :
    (now : ℕ) (x : Item)
    → SameState (note_hard_change now x) x × SameHard (note_hard_change now x) x
unfolding note_hard_change
note_hard_change-item now x = change-if _ now x

phase-item : (x : Item) → SameState (update_hard_unknown_phase_state x) x
unfolding update_hard_unknown_phase_state
phase-item x = (refl, refl, refl)

-- everything but the actions and the time of the snapshot
abbrev pub SameBut : Item → Item → Type 0
SameBut x' x =
    (x'.tries ≡ x.tries) × (x'.stat ≡ x.stat) × (x'.downtime ≡ x.downtime) × (x'.hard ≡ x.hard)

obsessive-item : (x : Item) → SameBut (get_obsessive_command x) x
unfolding get_obsessive_command
obsessive-item x = (ground arith, ground arith, ground arith, ground arith)

perfdata-item : (x : Item) → SameBut (get_perfdata_command x) x
unfolding get_perfdata_command
perfdata-item x = (ground arith, ground arith, ground arith, ground arith)

snapshot-item : (now : ℕ) (x : Item) → SameBut (get_snapshot now x) x
unfolding get_snapshot
snapshot-item now x = (ground arith, ground arith, ground arith, ground arith)

commands-item :
    (now : ℕ) (x : Item)
    → SameBut (get_snapshot now (get_perfdata_command (get_obsessive_command x))) x
commands-item now x =
    let p = obsessive-item x in
    let q = perfdata-item (get_obsessive_command x) in
    let r = snapshot-item now (get_perfdata_command (get_obsessive_command x)) in
    (r.0 ∙ q.0 ∙ p.0, r.1 ∙ q.1 ∙ p.1, r.2 ∙ q.2 ∙ p.2, r.3 ∙ q.3 ∙ p.3)

abbrev reset : Item → Item
reset x = record x {
  downtime = record x.downtime { in_scheduled_downtime_during_last_check = false };
}

abbrev notes : ℕ → Item → Item
notes now x = note_hard_change now (note_state_type (reset (update_hard_unknown_phase_state x)))

notes-item :
    (now : ℕ) (x : Item)
    → let x' = notes now x in
      (x'.tries ≡ x.tries)
      × (x'.stat ≡ x.stat)
      × (x'.in_scheduled_downtime_during_last_check ≡ false)
      × Noted x' x
notes-item now x =
    let p = phase-item x in
    let y = reset (update_hard_unknown_phase_state x) in
    ground (arith, p, note_state_type-item y, note_hard_change-item now (note_state_type y))

module _ (self : ℕ) (w : World) where
  -- the world before the numbering
  abbrev pub noted : World
  noted =
      w
      ▷ on self update_hard_unknown_phase_state
      ▷ on self reset
      ▷ on self note_state_type
      ▷ on self (note_hard_change w.now)

  noted-items :
      (i : ℕ) → noted.items i ≡ (if i == self then notes w.now (w.items self) else w.items i)
  noted-items i = ground arith

  -- What `conclude` leaves: the attempts and the checks, and the record of a hard state.
  pub conclude-item :
      let x = w.items self in
      let x' = (conclude self w).items self in
      (x'.tries ≡ x.tries)
      × (x'.stat ≡ x.stat)
      × (x'.in_scheduled_downtime_during_last_check ≡ false)
      × Noted x' x
  unfolding conclude
  conclude-item =
      let w' = update_event_and_problem_id self noted in
      let n = (update_event_and_problem_id-Numbers self noted).items self in
      let x = brok check_result (w'.items self) in
      ground (arith, n, noted-items self, notes-item w.now (w.items self), commands-item w.now x)

  pub conclude-tries : (i : ℕ) → ((conclude self w).items i).tries ≡ (w.items i).tries
  unfolding conclude
  conclude-tries i =
      let w' = update_event_and_problem_id self noted in
      let n = (update_event_and_problem_id-Numbers self noted).items in
      let x = brok check_result (w'.items self) in
      ground (
        arith,
        n i,
        n self,
        noted-items i,
        noted-items self,
        notes-item w.now (w.items self),
        commands-item w.now x,
      )

  pub conclude-checks : (conclude self w).checks ≡ w.checks
  unfolding conclude
  conclude-checks = ground (arith, (update_event_and_problem_id-Numbers self noted).checks)

Noted-own : (x' x : Item) → (x'.tries ≡ x.tries) → (x'.stat ≡ x.stat) → Noted x' x → Noted x' x'
Noted-own x' x p q h = ground (arith, p, q, h)

pub conclude-own :
    (self : ℕ) (w : World)
    → let x = (conclude self w).items self in
      (x.in_scheduled_downtime_during_last_check ≡ false) × Noted x x
conclude-own self w =
    let p = conclude-item self w in
    (p.2, Noted-own ((conclude self w).items self) (w.items self) p.0 p.1 p.3)
