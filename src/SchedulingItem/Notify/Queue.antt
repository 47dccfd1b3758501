-- ===== src/SchedulingItem/Notify/Queue.antt =====
-- What creating and withdrawing notifications does to the queue of an item.
use shinken_gpt.Prelude.{
  ◌≤◌, ℕ, ◌≡◌, refl, false, not, ◌&&◌, Option, List, [], ◌∷◌, ◌==◌, if◌then◌else◌, arith, contains,
  keep, ◌∙◌,
}
use shinken_gpt.SchedulingItem.Types.{NotificationType, zombie}
use shinken_gpt.SchedulingItem.World.{World}
use shinken_gpt.SchedulingItem.Notify.{
  create_notifications, remove_in_progress_notification, remove_in_progress_notifications,
  remove_each,
}

-- `w'` differs from `w` in the queues of the items, not in the items themselves.
pub record OnlyQueues (w w' : World) : Type 0 where
  pub now : w'.now ≡ w.now
  pub checks : w'.checks ≡ w.checks
  pub next_id : w.next_id ≤ w'.next_id
  pub downtimes : w'.downtimes ≡ w.downtimes
  pub known : w'.known_downtimes ≡ w.known_downtimes
  pub event_id : w'.event_id ≡ w.event_id
  pub problem_id : w'.problem_id ≡ w.problem_id
  pub at : (j : ℕ) → w'.items j ≡ record (w.items j) { outbox = (w'.items j).outbox }

pub OnlyQueues-refl : (w : World) → OnlyQueues w w
OnlyQueues-refl w = record {
  now = refl;
  checks = refl;
  next_id = ground arith;
  downtimes = refl;
  known = refl;
  event_id = refl;
  problem_id = refl;
  at = λ j. refl;
}

pub OnlyQueues-trans : {w w' w'' : World} → OnlyQueues w w' → OnlyQueues w' w'' → OnlyQueues w w''
OnlyQueues-trans {w} {w'} {w''} p q = record {
  now = q.now ∙ p.now;
  checks = q.checks ∙ p.checks;
  next_id = ground (arith, p.next_id, q.next_id);
  downtimes = q.downtimes ∙ p.downtimes;
  known = q.known ∙ p.known;
  event_id = q.event_id ∙ p.event_id;
  problem_id = q.problem_id ∙ p.problem_id;
  at = λ j. ground (arith, p.at j, q.at j);
}

pub create_notifications-OnlyQueues :
    (self : ℕ) (type : NotificationType) (t : Option ℕ) (w : World)
    → OnlyQueues w (create_notifications self type t w)
unfolding create_notifications
create_notifications-OnlyQueues self type t w = record {
  now = ground arith;
  checks = ground arith;
  next_id = ground arith;
  downtimes = ground arith;
  known = ground arith;
  event_id = ground arith;
  problem_id = ground arith;
  at = λ j. ground arith;
}

remove_one-OnlyQueues :
    (self n : ℕ) (w : World) → OnlyQueues w (remove_in_progress_notification self n w)
unfolding remove_in_progress_notification
remove_one-OnlyQueues self n w = record {
  now = ground arith;
  checks = ground arith;
  next_id = ground arith;
  downtimes = ground arith;
  known = ground arith;
  event_id = ground arith;
  problem_id = ground arith;
  at = λ j. ground arith;
}

remove_each-OnlyQueues : (self : ℕ) (ns : List ℕ) (w : World) → OnlyQueues w (remove_each self ns w)
unfolding remove_each
remove_each-OnlyQueues self [] w = OnlyQueues-refl w
remove_each-OnlyQueues self (n ∷ ns) w =
    OnlyQueues-trans (remove_one-OnlyQueues self n w) (remove_each-OnlyQueues self ns _)

pub remove_in_progress_notifications-OnlyQueues :
    (self : ℕ) (w : World) → OnlyQueues w (remove_in_progress_notifications self w)
unfolding remove_in_progress_notifications
remove_in_progress_notifications-OnlyQueues self w =
    remove_each-OnlyQueues self (w.items self).notifications_in_progress w

contains-keep_others :
    (j n : ℕ) (xs : List ℕ)
    → contains j (keep (λ k. not (k == n)) xs) ≡ (not (j == n) && contains j xs)
contains-keep_others j n [] = ground arith
contains-keep_others j n (x ∷ xs) = ground (arith, contains-keep_others j n xs)

remove_one-zombie :
    (self n : ℕ) (w : World) (j : ℕ)
    → (remove_in_progress_notification self n w).notifications j ≡ (
        if n == j && contains j (w.items self).notifications_in_progress
        then record (w.notifications j) { status = zombie }
        else w.notifications j)
unfolding remove_in_progress_notification
remove_one-zombie self n w j = ground arith

remove_one-left :
    (self n : ℕ) (w : World) (j : ℕ)
    → contains j ((remove_in_progress_notification self n w).items self).notifications_in_progress
      ≡ (not (j == n) && contains j (w.items self).notifications_in_progress)
unfolding remove_in_progress_notification
remove_one-left self n w j =
    ground (arith, contains-keep_others j n (w.items self).notifications_in_progress)

remove_each-left :
    (self : ℕ) (ns : List ℕ) (w : World) (j : ℕ)
    → contains j ((remove_each self ns w).items self).notifications_in_progress
      ≡ (not (contains j ns) && contains j (w.items self).notifications_in_progress)
unfolding remove_each
remove_each-left self [] w j = ground arith
remove_each-left self (n ∷ ns) w j = ground (
  arith,
  remove_each-left self ns (remove_in_progress_notification self n w) j,
  remove_one-left self n w j,
)

remove_each-zombie :
    (self : ℕ) (ns : List ℕ) (w : World) (j : ℕ)
    → (remove_each self ns w).notifications j ≡ (
        if contains j ns && contains j (w.items self).notifications_in_progress
        then record (w.notifications j) { status = zombie }
        else w.notifications j)
unfolding remove_each
remove_each-zombie self [] w j = ground arith
remove_each-zombie self (n ∷ ns) w j = ground (
  arith,
  remove_each-zombie self ns (remove_in_progress_notification self n w) j,
  remove_one-left self n w j,
  remove_one-zombie self n w j,
)

empty_of_contains : (xs : List ℕ) → ((j : ℕ) → contains j xs ≡ false) → xs ≡ []
empty_of_contains [] h = refl
empty_of_contains (x ∷ xs) h = ground (arith, h x)

-- After `remove_in_progress_notifications` no notification is in progress; each one that was in
-- progress is a zombie, and every other notification is as it was.
pub remove_in_progress_notifications_lem :
    (self j : ℕ) (w : World)
    → (((remove_in_progress_notifications self w).items self).notifications_in_progress ≡ [])
      × ((remove_in_progress_notifications self w).notifications j ≡ (
          if contains j (w.items self).notifications_in_progress
          then record (w.notifications j) { status = zombie }
          else w.notifications j))
unfolding remove_in_progress_notifications
remove_in_progress_notifications_lem self j w =
    let ns = (w.items self).notifications_in_progress in
    (
      empty_of_contains _ (λ j. ground (arith, remove_each-left self ns w j)),
      ground (arith, remove_each-zombie self ns w j),
    )
