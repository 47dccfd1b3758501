-- ===== src/Escalation.antt =====
-- shinken/objects/escalation.py, and the methods of SchedulingItem that ask the escalations of an item:
-- is_escalable, get_escalable_contacts and get_next_notification_time. An escalation is known by
-- its number, which stands for its name. Differences of times stop at 0.
pub mod Earliest
mod Examples
use shinken_gpt.Prelude.{
  ℕ, ◌+◌, ◌-◌, ◌*◌, Bool, true, false, not, ◌&&◌, ◌||◌, Option, none, some, List, [], ◌∷◌, ◌++◌,
  if◌then◌else◌, ltb, ◌==◌, any, contains, uniq,
}
use shinken_gpt.SchedulingItem.Types.{Item, State, Letter, Period, has_letter, open_at}
use shinken_gpt.SchedulingItem.World.{Notification}

pub record Escalation : Type 0 where
  pub first_notification : ℕ
  pub last_notification : ℕ
  pub first_notification_time : ℕ
  pub last_notification_time : ℕ
  -- -1 is `none`
  pub notification_interval : Option ℕ
  pub escalation_period : Option Period
  pub escalation_options : List Letter
  pub contacts : List ℕ
  pub time_based : Bool

-- small_states
abbrev small_state : State → Option Letter
small_state State.warning = some Letter.w
small_state State.unknown = some Letter.u
small_state State.critical = some Letter.c
small_state State.down = some Letter.d
small_state State.unreachable = some Letter.u
small_state State.ok = some Letter.o
small_state State.up = some Letter.o
small_state State.pending = none

-- status in small_states and small_states[status] not in self.escalation_options
abbrev is_excluded : State → List Letter → Bool
is_excluded status options = elim (small_state status) [
  | none ↦ false
  | some l ↦ not (has_letter l options)
]

-- the time or the number lies outside of [first, last]; 0 as the last means no end
abbrev is_outside : ℕ → ℕ → ℕ → ℕ → Bool
is_outside n first last unit = ltb n (first * unit) || (not (last == 0) && ltb (last * unit) n)

unfoldable pub is_eligible : Escalation → ℕ → State → ℕ → ℕ → ℕ → Bool
is_eligible e t status notif_number in_notif_time interval =
    if not e.time_based && is_outside notif_number e.first_notification e.last_notification 1
    then false
    else if e.time_based
        && is_outside in_notif_time e.first_notification_time e.last_notification_time interval
    then false
    else if is_excluded status e.escalation_options
    then false
    else open_at e.escalation_period t

unfoldable pub get_next_notif_time : Escalation → ℕ → State → ℕ → ℕ → Option ℕ
get_next_notif_time e t_wished status creation_time interval =
    if not e.time_based
    then none
    else if is_excluded status e.escalation_options
    then none
    else (let start = e.first_notification_time * interval + creation_time in
        if ltb t_wished start
        then none
        else if not (open_at e.escalation_period start)
        then none
        else some start)

-- the escalation is eligible for the notification, whose time is `t`
unfoldable pub is_eligible_for : ℕ → Item → Notification → ℕ → Escalation → Bool
unfolding is_eligible
is_eligible_for now x n t e =
    is_eligible e t x.state n.notif_nb (now - n.creation_time) x.interval_length

unfoldable pub is_escalable : (ℕ → Escalation) → ℕ → Item → Notification → ℕ → Bool
unfolding is_eligible_for
is_escalable book now x n t = any (λ i. is_eligible_for now x n t (book i)) x.escalations

-- the contacts, a set, and the escalations that are tagged as started
unfoldable pub escalated_to : (Escalation → Bool) → (ℕ → Escalation) → List ℕ → List ℕ × List ℕ
escalated_to eligible book [] = ([], [])
escalated_to eligible book (i ∷ is) =
    let (contacts, started) = escalated_to eligible book is in
    if eligible (book i) then ((book i).contacts ++ contacts, i ∷ started) else (contacts, started)

unfoldable pub get_escalable_contacts :
    (ℕ → Escalation) → ℕ → Item → Notification → ℕ → Notification × List ℕ
unfolding escalated_to is_eligible_for uniq
get_escalable_contacts book now x n t =
    let (contacts, started) = escalated_to (is_eligible_for now x n t) book x.escalations in
    (
      record n { already_start_escalations = uniq (n.already_start_escalations ++ started) },
      uniq contacts,
    )

abbrev shorter : Option ℕ → ℕ → ℕ
shorter none interval = interval
shorter (some i) interval = if ltb i interval then i else interval

-- the loop that looks for a shorter interval
unfoldable pub shortest_interval : (Escalation → Bool) → (ℕ → Escalation) → List ℕ → ℕ → ℕ
shortest_interval eligible book [] interval = interval
shortest_interval eligible book (i ∷ is) interval =
    shortest_interval eligible book is
      (if eligible (book i) then shorter (book i).notification_interval interval else interval)

unfoldable pub standard_time : (ℕ → Escalation) → ℕ → Item → Notification → ℕ → ℕ
unfolding shortest_interval is_eligible_for
standard_time book now x n t =
    let interval =
      shortest_interval (is_eligible_for now x n t) book x.escalations x.notification_interval in
    let std_time = t + interval * x.interval_length in
    if ltb std_time now then now + interval * x.interval_length else std_time

-- r is not None and now < r < res
abbrev sooner : ℕ → Option ℕ → ℕ → ℕ
sooner now none res = res
sooner now (some r) res = if ltb now r && ltb r res then r else res

-- the early start that an escalation asks for
unfoldable pub early_start : (ℕ → Escalation) → ℕ → Item → Notification → ℕ → Option ℕ
unfolding get_next_notif_time
early_start book std_time x n i =
    if contains i n.already_start_escalations
    then none
    else get_next_notif_time (book i) std_time x.state n.creation_time x.interval_length

-- the loop that looks for an early start
unfoldable pub earliest : (ℕ → Option ℕ) → ℕ → List ℕ → ℕ → ℕ
earliest start now [] res = res
earliest start now (i ∷ is) res = earliest start now is (sooner now (start i) res)

-- `t` is the time of the notification
unfoldable pub get_next_notification_time : (ℕ → Escalation) → ℕ → Item → Notification → ℕ → ℕ
unfolding standard_time early_start earliest
get_next_notification_time book now x n t =
    let std_time = standard_time book now x n t in
    earliest (early_start book std_time x n) now x.escalations std_time
