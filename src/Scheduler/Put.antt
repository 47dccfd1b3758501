-- ===== src/Scheduler/Put.antt =====
-- What the results that come back do to the known checks.
use shinken_gpt.Prelude.{
  ℕ, ◌≤◌, ◌≡◌, refl, ap, ◌∙◌, ◌⊎◌, inl, Bool, true, not, ◌&&◌, List, [], ◌∷◌, ltb, contains, arith,
  All,
}
use shinken_gpt.SchedulingItem.Types.{waitconsume}
use shinken_gpt.SchedulingItem.World.{World}
use shinken_gpt.SchedulingItem.Notify.{remove_in_progress_notification}
use shinken_gpt.Scheduler.{
  Scheduler, Returned, of_check, of_notification, CheckResult, is_zombie, put_check_result,
  put_notification_result, put_results, put_all, get_return_from,
}
use shinken_gpt.Scheduler.Links.{waited_for_by, is_linked, waited_for_by-keeps}

-- a known check that is linked, and not done
abbrev pub is_ready : World → ℕ → Bool
is_ready w c = ltb c w.next_id && not (is_zombie (w.checks c).status) && is_linked w c

abbrev pub IsReady : Scheduler → Type 0
IsReady s = All (λ c. is_ready s.world c ≡ true) s.checks

-- A check gets a status that is no zombie's, or keeps its own.
pub record Puts (s s' : Scheduler) : Type 0 where
  pub keys : s'.checks ≡ s.checks
  pub next_id : s'.world.next_id ≡ s.world.next_id
  pub waiting : s'.waiting_results ≡ s.waiting_results
  pub status :
      (d : ℕ)
      → ((s'.world.checks d).status ≡ (s.world.checks d).status)
        ⊎ ((s'.world.checks d).status ≡ waitconsume)
  pub links :
      (d : ℕ)
      → ((s'.world.checks d).depend_on ≡ (s.world.checks d).depend_on)
        × ((s'.world.checks d).depend_on_me ≡ (s.world.checks d).depend_on_me)

Puts-refl : (s : Scheduler) → Puts s s
Puts-refl s = record {
  keys = refl;
  next_id = refl;
  waiting = refl;
  status = λ d. inl refl;
  links = λ d. (refl, refl);
}

Puts-trans : {s s' s'' : Scheduler} → Puts s s' → Puts s' s'' → Puts s s''
Puts-trans p q = record {
  keys = q.keys ∙ p.keys;
  next_id = q.next_id ∙ p.next_id;
  waiting = q.waiting ∙ p.waiting;
  status = λ d. ground (arith, p.status d, q.status d);
  links = λ d. ((q.links d).0 ∙ (p.links d).0, (q.links d).1 ∙ (p.links d).1);
}

put_check_result-Puts : (r : CheckResult) (s : Scheduler) → Puts s (put_check_result r s)
unfolding put_check_result get_return_from
put_check_result-Puts r s = record {
  keys = ground arith;
  next_id = ground arith;
  waiting = ground arith;
  status = λ d. ground arith;
  links = λ d. (ground arith, ground arith);
}

put_notification_result-Puts : (n t : ℕ) (s : Scheduler) → Puts s (put_notification_result n t s)
unfolding put_notification_result remove_in_progress_notification
put_notification_result-Puts n t s = record {
  keys = ground arith;
  next_id = ground arith;
  waiting = ground arith;
  status = λ d. ground arith;
  links = λ d. (ground arith, ground arith);
}

pub put_all-Puts : (rs : List Returned) (s : Scheduler) → Puts s (put_all rs s)
unfolding put_all put_results
put_all-Puts [] s = Puts-refl s
put_all-Puts (of_check r ∷ rs) s =
    Puts-trans (put_check_result-Puts r s) (put_all-Puts rs (put_check_result r s))
put_all-Puts (of_notification n t ∷ rs) s =
    Puts-trans (put_notification_result-Puts n t s)
      (put_all-Puts rs (put_notification_result n t s))

-- a check that is ready stays so
ready-stays :
    {s s' : Scheduler}
    → Puts s s'
    → (c : ℕ) → is_ready s.world c ≡ true
    → is_ready s'.world c ≡ true
ready-stays {s} {s'} p c h =
    let waits : waited_for_by s.world c (s.world.checks c).depend_on_me ≡ true =
      ground (arith, h) in
    let known : s.world.next_id ≤ s'.world.next_id = ground (arith, p.next_id) in
    let waits' =
      waited_for_by-keeps s.world s'.world c (s.world.checks c).depend_on_me known
        (λ e i j. ap (contains c) (p.links e).0 ∙ j) waits in
    ground (arith, h, p.next_id, p.status c, (p.links c).1, waits')

pub All-ready-stays :
    {s s' : Scheduler}
    → Puts s s'
    → (cs : List ℕ) → All (λ c. is_ready s.world c ≡ true) cs
    → All (λ c. is_ready s'.world c ≡ true) cs
All-ready-stays p [] h = tt
All-ready-stays p (c ∷ cs) (h, hs) = (ready-stays p c h, All-ready-stays p cs hs)
