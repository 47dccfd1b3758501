-- ===== src/SchedulingItem/Impacts.antt =====
-- Problems and their impacts: `set_myself_as_problem`, `no_more_a_problem`, `register_a_problem`,
-- `deregister_a_problem` and `update_business_impact_value` of schedulingitem.py.
-- `register_a_problem` goes along `act_depend_of_me` from item to item; the fuel bounds the depth.
use shinken_gpt.Prelude.{
  ℕ, zero, suc, Bool, true, false, not, ◌&&◌, ◌||◌, Option, none, some, List, [], ◌∷◌, ◌++◌,
  if◌then◌else◌, contains, uniq, same_set, remove_first, max,
}
use shinken_gpt.SchedulingItem.Types.{
  Item, Dependency, ImpactModulation, Wanted, open_at, update_status,
}
use shinken_gpt.SchedulingItem.World.{World, on, ◌▷◌, brok}
use shinken_gpt.SchedulingItem.States.{is_state, set_impact_state, unset_impact_state}

-- the first modulation whose period is open
unfoldable pub current_modulation : ℕ → List ImpactModulation → Option ℕ
current_modulation now [] = none
current_modulation now (m ∷ ms) =
    if open_at m.modulation_period now then some m.business_impact else current_modulation now ms

abbrev max_impact : (ℕ → Item) → List ℕ → ℕ
max_impact items [] = 0
max_impact items (i ∷ is) = max (items i).business_impact (max_impact items is)

abbrev own_impact : Option ℕ → ℕ → ℕ
own_impact none current = current
own_impact (some own) current = own

-- the value when there are no impacts: the modulation's, or the configured one
abbrev modulated : Option ℕ → ℕ → ℕ
modulated none own = own
modulated (some value) own = value

abbrev raised : Option ℕ → ℕ → ℕ
raised none current = current
raised (some value) current = value

abbrev is_nil : List ℕ → Bool
is_nil [] = true
is_nil (_ ∷ _) = false

unfoldable pub update_business_impact_value : ℕ → World → World
unfolding current_modulation
update_business_impact_value self w =
    let x = w.items self in
    let own = own_impact x.my_own_business_impact x.business_impact in
    let m = current_modulation w.now x.business_impact_modulations in
    let value =
      if is_nil x.impacts
      then modulated m own
      else max (raised m x.business_impact) (max_impact w.items x.impacts) in
    w
    ▷ on self (λ y. record y {
      impact = record y.impact { my_own_business_impact = some own; business_impact = value };
    })

-- self.source_problems.remove(pb), and the end of the impact
unfoldable pub forget_problem : ℕ → Item → Item
unfolding unset_impact_state
forget_problem pb x =
    let left = remove_first pb x.source_problems in
    let y = record x { impact = record x.impact { source_problems = left } } in
    if is_nil left
    then unset_impact_state (record y { impact = record y.impact { is_impact = false } })
    else y

-- A problem that is not among the source problems is a ValueError.
unfoldable pub deregister_a_problem : ℕ → ℕ → World → World
unfolding forget_problem
deregister_a_problem self pb w =
    let missing = not (contains pb (w.items self).source_problems) in
    w
    ▷ on self (λ x. brok update_status (forget_problem pb x))
    ▷ (λ v. record v { raised = w.raised || missing })

unfoldable pub deregister_all : List ℕ → ℕ → World → World
deregister_all [] pb w = w
deregister_all (i ∷ is) pb w = deregister_all is pb (deregister_a_problem i pb w)

abbrev pub set_problem : Bool → Item → Item
set_problem b x = record x { impact = record x.impact { is_problem = b } }

abbrev pub set_impacts : List ℕ → Item → Item
set_impacts is x = record x { impact = record x.impact { impacts = is } }

unfoldable pub no_more_a_problem : ℕ → Bool → World → World
no_more_a_problem self send_brok w =
    let was_pb = (w.items self).is_problem in
    let w' =
      if was_pb
      then w
        ▷ on self (set_problem false)
        ▷ deregister_all (w.items self).impacts self
        ▷ on self (set_impacts [])
      else w in
    let w'' = update_business_impact_value self w' in
    if send_brok && was_pb then w'' ▷ on self (brok update_status) else w''

-- the item becomes an impact of `pb`: up to the loop over the dependencies
unfoldable pub take_impact : ℕ → ℕ → World → World
take_impact self pb w =
    let was_an_impact = (w.items self).is_impact in
    let w' = w ▷ on self (λ x. record x { impact = record x.impact { is_impact = true } }) in
    let w'' = if (w'.items self).is_problem then no_more_a_problem self true w' else w' in
    let w''' = if was_an_impact then w'' else w'' ▷ on self set_impact_state in
    w'''
    ▷ on self (λ x. record x {
      impact = record x.impact {
        source_problems =
            if contains pb x.source_problems
            then x.source_problems
            else x.source_problems ++ pb ∷ [];
      };
    })

-- for s in status: if self.is_state(s): if tp is None or tp.is_time_valid(now): ...
unfoldable pub warn_statuses :
    ℕ → Bool → (World → World × List ℕ) → List Wanted → World → World × List ℕ
warn_statuses self valid call [] w = (w, [])
warn_statuses self valid call (s ∷ ss) w =
    let (w', new) = if is_state (w.items self) s && valid then call w else (w, []) in
    let (w'', more) = warn_statuses self valid call ss w' in (w'', new ++ more)

-- the loop over `act_depend_of_me`, with the call on a dependent item
unfoldable pub warn_impacts :
    ℕ → (ℕ → World → World × List ℕ) → List Dependency → World → World × List ℕ
unfolding warn_statuses
warn_impacts self call [] w = (w, [])
warn_impacts self call (d ∷ ds) w =
    let (w', new) = warn_statuses self (open_at d.tp w.now) (call d.dep) d.status w in
    let (w'', more) = warn_impacts self call ds w' in (w'', new ++ more)

unfoldable pub register_a_problem : ℕ → ℕ → ℕ → Bool → World → World × List ℕ
register_a_problem zero self pb send_brok w = (w, [])
register_a_problem (suc fuel) self pb send_brok w =
    if contains pb (w.items self).source_problems
    then (w, [])
    else (let w' = take_impact self pb w in
        let (w'', new) =
          warn_impacts self (λ i. register_a_problem fuel i pb true)
            (w'.items self).act_depend_of_me w' in
        (if send_brok then w'' ▷ on self (brok update_status) else w'', self ∷ new))

-- After the loop: the impacts are replaced if they changed.
unfoldable pub take_impacts : ℕ → List ℕ → World → World
take_impacts self impacts w =
    w ▷ on self (set_impacts (uniq impacts)) ▷ update_business_impact_value self

unfoldable pub set_myself_as_problem : ℕ → ℕ → Bool → World → World
set_myself_as_problem fuel self send_brok w =
    let was_pb = (w.items self).is_problem in
    let w' = w ▷ on self (set_problem true) in
    let (w'', new) =
      warn_impacts self (λ i. register_a_problem fuel i self send_brok)
        (w'.items self).act_depend_of_me w' in
    let impacts = (w.items self).impacts ++ new in
    let changed = not (same_set impacts (w''.items self).impacts) in
    let w''' = if changed then take_impacts self impacts w'' else w'' in
    if send_brok && (not was_pb || changed) then w''' ▷ on self (brok update_status) else w'''
