-- ===== src/Scheduler/Poll.antt =====
-- What the scheduler hands out, and takes back: `get_to_run_checks` and `check_orphaned` of
-- shinken/scheduler.py. A satellite gets the ids. `none` is a TypeError: a notification that has no
-- time, because its period never comes, is compared with the time.
mod Taken
pub mod Due
use shinken_gpt.Prelude.{
  ℕ, ◌+◌, ◌-◌, Bool, true, false, not, ◌&&◌, ◌||◌, Option, none, some, List, [], ◌∷◌, ◌++◌,
  if◌then◌else◌, ltb, leb, ◌==◌, contains, length, ◌>>=◌, map_some,
}
use shinken_gpt.SchedulingItem.Types.{Item, scheduled, inpoller}
use shinken_gpt.SchedulingItem.World.{World, Check, Notification}
use shinken_gpt.SchedulingItem.Consume.{set_check, set_status}
use shinken_gpt.Scheduler.{Scheduler, is_scheduled, is_inpoller, set_notification}

-- the arguments of `get_to_run_checks`
pub record Request : Type 0 where
  pub do_checks : Bool
  pub do_actions : Bool
  pub poller_tags : List ℕ
  pub reactionner_tags : List ℕ
  pub worker_name : ℕ
  pub module_types : List ℕ
  pub max_actions : Option ℕ

-- sorted(keys, key=...): stable
abbrev pub insert_by : (ℕ → ℕ) → ℕ → List ℕ → List ℕ
insert_by key x [] = x ∷ []
insert_by key x (y ∷ ys) =
    let rest = insert_by key x ys in if leb (key x) (key y) then x ∷ y ∷ ys else y ∷ rest

unfoldable pub sorted_by : (ℕ → ℕ) → List ℕ → List ℕ
sorted_by key [] = []
sorted_by key (x ∷ xs) = insert_by key x (sorted_by key xs)

-- max_actions is not None and len(res) >= max_actions
abbrev pub has_enough : Option ℕ → ℕ → Bool
has_enough none n = false
has_enough (some m) n = leb m n

-- the check is handed out
unfoldable pub takes_check : Request → ℕ → Check → Bool
takes_check r now c =
    contains c.poller_tag r.poller_tags
    && contains c.module_type r.module_types
    && is_scheduled c.status
    && ltb c.t_to_go now
    && not c.internal

abbrev pub hand_check : Request → Check → Check
hand_check r c = record c { status = inpoller; worker = r.worker_name }

-- the loop over the checks; `n` is the length of `res`
unfoldable pub take_checks : Request → List ℕ → ℕ → World → World × List ℕ
unfolding takes_check
take_checks r [] n w = (w, [])
take_checks r (c ∷ cs) n w = elim (has_enough r.max_actions n) [
  | true ↦ (w, [])
  | false ↦ elim (takes_check r w.now (w.checks c)) [
    | true ↦
        (let (w', taken) = take_checks r cs (n + 1) (set_check c (hand_check r) w) in
          (w', c ∷ taken))
    | false ↦ take_checks r cs n w
  ]
]

abbrev pub is_master : Notification → Bool
is_master a = elim a.contact [ none ↦ true | some _ ↦ false ]

-- t >= self.t_to_go
abbrev pub is_launchable : Notification → ℕ → Option Bool
is_launchable a t = map_some (λ t_to_go. leb t_to_go t) a.t_to_go

-- the notification is handed out
unfoldable pub takes_action : Request → ℕ → Notification → Option Bool
takes_action r now a =
    if not (is_master a)
      && (not (contains a.reactionner_tag r.reactionner_tags)
          || not (contains a.module_type r.module_types))
    then some false
    else if is_scheduled a.status
    then map_some (λ b. b && not (is_master a)) (is_launchable a now)
    else some false

abbrev pub hand_action : Request → Notification → Notification
hand_action r a = record a { status = inpoller; worker = r.worker_name }

unfoldable pub take_actions : Request → List ℕ → ℕ → World → Option (World × List ℕ)
unfolding takes_action
take_actions r [] n w = some (w, [])
take_actions r (a ∷ more) n w = elim (has_enough r.max_actions n) [
  | true ↦ some (w, [])
  | false ↦ elim (takes_action r w.now (w.notifications a)) [
    | none ↦ none
    | some true ↦
        map_some (λ (w', taken). (w', a ∷ taken))
          (take_actions r more (n + 1) (set_notification a (hand_action r) w))
    | some false ↦ take_actions r more n w
  ]
]

-- the checks and the notifications that are handed out
unfoldable pub get_to_run_checks : Request → Scheduler → Option (Scheduler × List ℕ × List ℕ)
unfolding take_checks take_actions sorted_by
get_to_run_checks r s = do
  let by_check = sorted_by (λ c. (s.world.checks c).priority) s.checks
  let by_action = sorted_by (λ a. (s.world.notifications a).priority) s.actions
  let (w1, checks) = if r.do_checks then take_checks r by_check 0 s.world else (s.world, [])
  let n = length checks
  (w2, actions) ← if r.do_actions then take_actions r by_action n w1 else some (w1, [])
  some (record s { world = w2 }, checks, actions)

-- 0: orphans are not looked for
unfoldable pub get_time_to_orphanage : Item → ℕ
get_time_to_orphanage x = if x.check_for_orphaned then x.time_to_orphanage else 0

-- c.t_to_go < now - time_to_orphanage
unfoldable pub is_orphan : World → Check → Bool
unfolding get_time_to_orphanage
is_orphan w c =
    let time = get_time_to_orphanage (w.items c.ref) in
    not (time == 0) && is_inpoller c.status && ltb (c.t_to_go + time) w.now

unfoldable pub reenable_checks : List ℕ → World → World
unfolding is_orphan
reenable_checks [] w = w
reenable_checks (c ∷ cs) w =
    reenable_checks cs
      (if is_orphan w (w.checks c) then set_check c (set_status scheduled) w else w)

-- `none`: a notification in a poller has no time
unfoldable pub is_orphan_action : World → Notification → Option Bool
unfolding get_time_to_orphanage
is_orphan_action w a =
    let time = get_time_to_orphanage (w.items a.ref) in
    if not (time == 0) && is_inpoller a.status
    then map_some (λ t_to_go. ltb (t_to_go + time) w.now) a.t_to_go
    else some false

unfoldable pub reenable_actions : List ℕ → World → Option World
unfolding is_orphan_action
reenable_actions [] w = some w
reenable_actions (a ∷ more) w = do
  b ← is_orphan_action w (w.notifications a)
  reenable_actions more
      (if b then set_notification a (λ x. record x { status = scheduled }) w else w)

unfoldable pub check_orphaned : Scheduler → Option Scheduler
unfolding reenable_checks reenable_actions
check_orphaned s =
    map_some (λ w. record s { world = w })
      (reenable_actions s.actions (reenable_checks s.checks s.world))
