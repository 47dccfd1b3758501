-- ===== src/SchedulingItem/Keeps/Problems.antt =====
-- The registration of problems and impacts leaves the attempts and the checks alone.
use shinken_gpt.Prelude.{
  ℕ, zero, suc, refl, Bool, true, false, ◌&&◌, List, [], ◌∷◌, ◌++◌, if◌then◌else◌, arith, contains,
}
use shinken_gpt.SchedulingItem.Types.{Dependency, Wanted, update_status}
use shinken_gpt.SchedulingItem.World.{World, on, brok}
use shinken_gpt.SchedulingItem.States.{is_state, set_impact_state, unset_impact_state}
use shinken_gpt.SchedulingItem.Impacts.{
  update_business_impact_value, forget_problem, deregister_a_problem, deregister_all,
  no_more_a_problem, take_impact, warn_statuses, warn_impacts, register_a_problem, take_impacts,
  set_myself_as_problem, set_problem, set_impacts,
}
use shinken_gpt.SchedulingItem.Keeps.{Keeps, Keeps-refl, ◌⨾◌, Keeps-if, Keeps-on}

value-Keeps : (self : ℕ) (w : World) → Keeps w (update_business_impact_value self w)
unfolding update_business_impact_value
value-Keeps self w = record {
  checks = refl;
  next_id = ground arith;
  conf = λ i. ground arith;
  tries = λ i. ground arith;
}

deregister_a_problem-Keeps : (self pb : ℕ) (w : World) → Keeps w (deregister_a_problem self pb w)
unfolding deregister_a_problem forget_problem unset_impact_state
deregister_a_problem-Keeps self pb w = record {
  checks = refl;
  next_id = ground arith;
  conf = λ i. ground arith;
  tries = λ i. ground arith;
}

deregister_all-Keeps : (is : List ℕ) (pb : ℕ) (w : World) → Keeps w (deregister_all is pb w)
unfolding deregister_all
deregister_all-Keeps [] pb w = Keeps-refl w
deregister_all-Keeps (i ∷ is) pb w =
    deregister_a_problem-Keeps i pb w ⨾ deregister_all-Keeps is pb _

pub no_more_a_problem-Keeps :
    (self : ℕ) (send_brok : Bool) (w : World) → Keeps w (no_more_a_problem self send_brok w)
unfolding no_more_a_problem
no_more_a_problem-Keeps self send_brok w =
    let p =
      Keeps-if (w.items self).is_problem
        (Keeps-on self (set_problem false) w refl refl
          ⨾ deregister_all-Keeps (w.items self).impacts self _
          ⨾ Keeps-on self (set_impacts []) _ refl refl)
        (Keeps-refl w)
      ⨾ value-Keeps self _ in
    Keeps-if _ (p ⨾ Keeps-on self (brok update_status) _ refl refl) p

impact_state-Keeps : (self : ℕ) (w : World) → Keeps w (on self set_impact_state w)
unfolding set_impact_state
impact_state-Keeps self w = record {
  checks = refl;
  next_id = ground arith;
  conf = λ i. ground arith;
  tries = λ i. ground arith;
}

take_impact-Keeps : (self pb : ℕ) (w : World) → Keeps w (take_impact self pb w)
unfolding take_impact
take_impact-Keeps self pb w =
    Keeps-on self (λ x. record x { impact = record x.impact { is_impact = true } }) w refl refl
    ⨾ Keeps-if _ (no_more_a_problem-Keeps self true _) (Keeps-refl _)
    ⨾ Keeps-if _ (Keeps-refl _) (impact_state-Keeps self _)
    ⨾ Keeps-on self
        (λ x. record x {
          impact = record x.impact {
            source_problems =
                if contains pb x.source_problems
                then x.source_problems
                else x.source_problems ++ pb ∷ [];
          };
        })
        _ refl refl

Keeps-call :
    (b : Bool) (call : World → World × List ℕ) (h : (w : World) → Keeps w (call w).0) (w : World)
    → Keeps w (if b then call w else (w, [])).0
Keeps-call true call h w = h w
Keeps-call false call h w = Keeps-refl w

warn_statuses-Keeps :
    (self : ℕ) (valid : Bool) (call : World → World × List ℕ) (h : (w : World) → Keeps w (call w).0)
    (ss : List Wanted) (w : World)
    → Keeps w (warn_statuses self valid call ss w).0
unfolding warn_statuses
warn_statuses-Keeps self valid call h [] w = Keeps-refl w
warn_statuses-Keeps self valid call h (s ∷ ss) w =
    Keeps-call (is_state (w.items self) s && valid) call h w
    ⨾ warn_statuses-Keeps self valid call h ss _

warn_impacts-Keeps :
    (self : ℕ) (call : ℕ → World → World × List ℕ) (h : (i : ℕ) (w : World) → Keeps w (call i w).0)
    (ds : List Dependency) (w : World)
    → Keeps w (warn_impacts self call ds w).0
unfolding warn_impacts
warn_impacts-Keeps self call h [] w = Keeps-refl w
warn_impacts-Keeps self call h (d ∷ ds) w =
    warn_statuses-Keeps self _ (call d.dep) (h d.dep) d.status w
    ⨾ warn_impacts-Keeps self call h ds _

Keeps-known :
    (b : Bool) (w v : World) (is : List ℕ)
    → Keeps w v
    → Keeps w (if◌then◌else◌ {A = World × List ℕ} b (w, []) (v, is)).0
Keeps-known true w v is p = Keeps-refl w
Keeps-known false w v is p = p

register_a_problem-Keeps :
    (fuel self pb : ℕ) (send_brok : Bool) (w : World)
    → Keeps w (register_a_problem fuel self pb send_brok w).0
unfolding register_a_problem
register_a_problem-Keeps zero self pb send_brok w = Keeps-refl w
register_a_problem-Keeps (suc fuel) self pb send_brok w =
    let w' = take_impact self pb w in
    let p =
      take_impact-Keeps self pb w
      ⨾ warn_impacts-Keeps self (λ i. register_a_problem fuel i pb true)
          (λ i v. register_a_problem-Keeps fuel i pb true v) (w'.items self).act_depend_of_me w' in
    Keeps-known (contains pb (w.items self).source_problems) w _ _
      (Keeps-if send_brok (p ⨾ Keeps-on self (brok update_status) _ refl refl) p)

pub set_myself_as_problem-Keeps :
    (fuel self : ℕ) (send_brok : Bool) (w : World)
    → Keeps w (set_myself_as_problem fuel self send_brok w)
unfolding set_myself_as_problem take_impacts
set_myself_as_problem-Keeps fuel self send_brok w =
    let w' = on self (set_problem true) w in
    let p =
      Keeps-on self (set_problem true) w refl refl
      ⨾ warn_impacts-Keeps self (λ i. register_a_problem fuel i self send_brok)
          (λ i v. register_a_problem-Keeps fuel i self send_brok v) (w'.items self).act_depend_of_me
          w' in
    let q = λ (b : Bool) (is : List ℕ).
      Keeps-if b (p ⨾ Keeps-on self (set_impacts is) _ refl refl ⨾ value-Keeps self _) p in
    Keeps-if _ (q _ _ ⨾ Keeps-on self (brok update_status) _ refl refl) (q _ _)
