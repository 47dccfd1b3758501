-- ===== src/Scheduler/Poll/Due.antt =====
-- Which checks `get_to_run_checks` hands out.
use shinken_gpt.Prelude.{
  ℕ, ◌≤◌, ◌<◌, ◌≡◌, Bool, true, false, ◌&&◌, Option, none, some, List, [], if◌then◌else◌, ◌==◌,
  contains, length, arith, count_if,
}
use shinken_gpt.SchedulingItem.Types.{ActionStatus, scheduled, inpoller}
use shinken_gpt.SchedulingItem.World.{World, Check}
use shinken_gpt.Scheduler.Poll.{Request, takes_check, hand_check, take_checks, get_to_run_checks}
use shinken_gpt.Scheduler.{Scheduler, is_scheduled}
use shinken_gpt.Scheduler.Poll.Taken.{
  Fits, by_priority, take_checks-hands, take_checks-once, contains-sorted, Handed-sorted,
  take_checks-Enough,
}

-- A check that a poller may have now.
abbrev pub IsDue : Request → ℕ → Check → Type 0
IsDue r now c =
    (contains c.poller_tag r.poller_tags ≡ true)
    × (contains c.module_type r.module_types ≡ true)
    × (c.status ≡ scheduled)
    × (c.t_to_go < now)
    × (c.internal ≡ false)

scheduled_of : (a : ActionStatus) → is_scheduled a ≡ true → a ≡ scheduled
scheduled_of a h = ground (arith, h)

taken-IsDue : (r : Request) (now : ℕ) (c : Check) → takes_check r now c ≡ true → IsDue r now c
unfolding takes_check
taken-IsDue r now c h = (
  ground (arith, h),
  ground (arith, h),
  scheduled_of c.status (ground (arith, h)),
  ground (arith, h),
  ground (arith, h),
)

IsDue-taken : (r : Request) (now : ℕ) (c : Check) → IsDue r now c → takes_check r now c ≡ true
unfolding takes_check
IsDue-taken r now c (a, b, e, t, i) = ground (arith, a, b, e, t, i)

-- A check may stay behind where there is a bound, or where the poller may not have it.
abbrev pub MayStay : Option ℕ → Type 0 → Type 0
MayStay none A = ¬ A
MayStay (some max) A = Unit

abbrev pub Within : Option ℕ → ℕ → Type 0
Within none n = Unit
Within (some max) n = n ≤ max

-- What becomes of a check when the answer is `taken`.
abbrev pub Polled : Request → Scheduler → ℕ → World × List ℕ → Type 0
Polled r s d (w', taken) =
    let c = s.world.checks d in
    let may_have : Type 0 = (contains d s.checks ≡ true) × IsDue r s.world.now c in
    if contains d taken
    then may_have × (w'.checks d ≡ record c { status = inpoller; worker = r.worker_name })
    else (w'.checks d ≡ c) × MayStay r.max_actions may_have

polled :
    (r : Request) (s : Scheduler) (d n : ℕ) (max : Option ℕ) (c' : Check) (b : Bool)
    → let c = s.world.checks d in
      let may_have : Type 0 = (contains d s.checks ≡ true) × IsDue r s.world.now c in
      (if b
        then (contains d s.checks ≡ true)
          × (takes_check r s.world.now c ≡ true)
          × (c' ≡ hand_check r c)
        else c' ≡ c)
      → Fits max b (contains d s.checks && takes_check r s.world.now c) n
      → if b
        then may_have × (c' ≡ record c { status = inpoller; worker = r.worker_name })
        else (c' ≡ c) × MayStay max may_have
polled r s d n max c' true (k, t, e) f = ((k, taken-IsDue r s.world.now (s.world.checks d) t), e)
polled r s d n none c' false e f = (
  e,
  λ (k, due). let t = IsDue-taken r s.world.now (s.world.checks d) due in ground (arith, f, k, t),
)
polled r s d n (some max) c' false e f = (e, tt)

within : (o : Option ℕ) (b due : Bool) (n : ℕ) → Fits o b due n → Within o n
within none b due n f = tt
within (some max) b due n f = f

-- A poller that asks for checks only always gets an answer. A check in it is a known one that was
-- scheduled, due, not internal, and of a tag and a module type that the poller has; it is in
-- the poller after, and no check is in the answer twice. Every other check stays as it was. There are
-- at most `max_actions`, and without that bound no such check stays behind.
pub get_to_run_checks-poller :
    (r : Request) (s : Scheduler) (d : ℕ)
    → (r.do_checks ≡ true)
    → (r.do_actions ≡ false)
    → (w' : World) × (taken : List ℕ) × (get_to_run_checks r s
        ≡ some (record s { world = w' }, taken, []))
      × Polled r s d (w', taken)
      × (count_if (λ c. c == d) taken ≤ 1)
      × Within r.max_actions (length taken)
unfolding get_to_run_checks
get_to_run_checks-poller r s d h k =
    let p = take_checks r (by_priority s) 0 s.world in
    let c = s.world.checks d in
    let due = contains d s.checks && takes_check r s.world.now c in
    let fits = take_checks-Enough r s d in
    let handed =
      Handed-sorted r (by_priority s) s.checks s.world d p
        (contains-sorted (λ c. (s.world.checks c).priority) d s.checks)
        (take_checks-hands r (by_priority s) 0 s.world d) in
    (
      p.0,
      p.1,
      ground (arith, h, k),
      polled r s d (length p.1) r.max_actions (p.0.checks d) (contains d p.1) handed fits,
      take_checks-once r (by_priority s) 0 s.world d,
      within r.max_actions (contains d p.1) due (length p.1) fits,
    )
