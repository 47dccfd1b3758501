-- ===== src/SchedulingItem/Attempts/Results.antt =====
-- Results in a row, given to `consume_state_result` one after the other.
use shinken_gpt.Prelude.{
  ℕ, suc, ◌≤◌, ◌<◌, ◌≡◌, min, false, true, Bool, if◌then◌else◌, leb, arith, ap, ◌∙◌,
}
use shinken_gpt.SchedulingItem.Types.{Tries, soft, hard, ok_up, same_state}
use shinken_gpt.SchedulingItem.World.{World}
use shinken_gpt.SchedulingItem.States.{true_state}
use shinken_gpt.SchedulingItem.Consume.{exit_status_of, consume_state_result}
use shinken_gpt.SchedulingItem.Attempts.{step, step_ok, step_bad}
use shinken_gpt.SchedulingItem.Attempts.Stages.{outcome_of}
use shinken_gpt.SchedulingItem.Attempts.Consumes.{consume-step}
use shinken_gpt.SchedulingItem.Attempts.Run.{failure, step-bound}

-- the tries that a result starts from
abbrev kept : Tries → Tries
kept t = record t { last_state_type = t.state_type }

-- A known check of the item is not OK; the item is not volatile and has `limit` attempts.
pub record IsFailure (fuel self limit c : ℕ) (after_ok : Bool) (w : World) : Type 0 where
  pub known : c < w.next_id
  pub result : outcome_of fuel self c w ≡ failure after_ok
  pub limited : (w.items self).max_check_attempts ≡ limit

-- `w'` comes from `w` by n results in a row that are not OK, the first of them after an OK, the others
-- after a state that was not OK.
pub data FailuresTo (fuel self limit : ℕ) (w : World) : ℕ → World → Type 0 where
  first :
      {c : ℕ}
      → IsFailure fuel self limit c true w
      → FailuresTo fuel self limit w 1 (consume_state_result fuel self c w)
  next :
      {n c : ℕ} {w' : World}
      → FailuresTo fuel self limit w n w'
      → IsFailure fuel self limit c false w'
      → FailuresTo fuel self limit w (suc n) (consume_state_result fuel self c w')

first-attempts :
    (limit : ℕ) (t : Tries)
    → 1 ≤ limit
    → t.attempt ≡ 1
    → t.state_type ≡ hard
    → let t' = step (failure true) limit t in
      (t'.attempt ≡ min 1 limit) × (t'.state_type ≡ (if leb limit 1 then hard else soft))
unfolding step step_bad
first-attempts limit t l a h = ground arith

next-attempts :
    (limit n : ℕ) (t : Tries)
    → 1 ≤ limit
    → 1 ≤ n
    → t.attempt ≡ min n limit
    → t.state_type ≡ (if leb limit n then hard else soft)
    → let t' = step (failure false) limit t in
      (t'.attempt ≡ min (suc n) limit)
      × (t'.state_type ≡ (if leb limit (suc n) then hard else soft))
unfolding step step_bad
next-attempts limit n t l p a h = ground arith

-- the step of a result that is not OK
failed :
    (fuel self limit c : ℕ) (after_ok : Bool) (w : World)
    → IsFailure fuel self limit c after_ok w
    → ((consume_state_result fuel self c w).items self).tries
      ≡ step (failure after_ok) limit (kept (w.items self).tries)
failed fuel self limit c after_ok w r =
    consume-step fuel self c w r.known
    ∙ ap (λ o. step o (w.items self).max_check_attempts (kept (w.items self).tries)) r.result
    ∙ ap (λ m. step (failure after_ok) m (kept (w.items self).tries)) r.limited

module _ (fuel self limit : ℕ) (w : World) where
  positive : {n : ℕ} {w' : World} → FailuresTo fuel self limit w n w' → 1 ≤ n
  positive (first r) = ground arith
  positive (next p r) = ground arith

  -- From the first attempt of a HARD state, n results in a row that are not OK, the first of them after
  -- an OK, make the attempt number the smaller one of n and `max_check_attempts`, and the state HARD
  -- if n is at least `max_check_attempts`, else SOFT. The item is not volatile, the checks are not
  -- dependency checks, and no state before the later results is OK or PENDING.
  pub failures-attempts :
      {n : ℕ} {w' : World}
      → 1 ≤ limit
      → (w.items self).attempt ≡ 1
      → (w.items self).state_type ≡ hard
      → FailuresTo fuel self limit w n w'
      → ((w'.items self).attempt ≡ min n limit)
        × ((w'.items self).state_type ≡ (if leb limit n then hard else soft))
  failures-attempts l a h (first {c = c} r) =
      let e = failed fuel self limit c true w r in
      let p = first-attempts limit (kept (w.items self).tries) l a h in
      (ap (λ (t : Tries). t.attempt) e ∙ p.0, ap (λ (t : Tries). t.state_type) e ∙ p.1)
  failures-attempts l a h (next {n = n} {c = c} {w' = w'} q r) =
      let e = failed fuel self limit c false w' r in
      let ih = failures-attempts l a h q in
      let p = next-attempts limit n (kept (w'.items self).tries) l (positive q) ih.0 ih.1 in
      (ap (λ (t : Tries). t.attempt) e ∙ p.0, ap (λ (t : Tries). t.state_type) e ∙ p.1)

-- A result of a known check keeps the attempt number at most `max_check_attempts`, if that is at least 1.
pub consume-bound :
    (fuel self c : ℕ) (w : World)
    → c < w.next_id
    → 1 ≤ (w.items self).max_check_attempts
    → (w.items self).attempt ≤ (w.items self).max_check_attempts
    → ((consume_state_result fuel self c w).items self).attempt ≤ (w.items self).max_check_attempts
consume-bound fuel self c w h l a =
    let x = w.items self in
    let t = record x.tries { last_state_type = x.state_type } in
    ground (
      arith,
      consume-step fuel self c w h,
      step-bound (outcome_of fuel self c w) x.max_check_attempts t l a,
    )

-- An OK result of a known check, after a state that was not OK, leaves the item at the first attempt
-- of a HARD state.
pub consume-recovery :
    (fuel self c : ℕ) (w : World)
    → let x = w.items self in
      c < w.next_id
      → exit_status_of w.now x (w.checks c).exit_status ≡ 0
      → same_state (true_state x) (ok_up x.kind) ≡ false
      → let x' = (consume_state_result fuel self c w).items self in
        (x'.attempt ≡ 1) × (x'.state_type ≡ hard) × (x'.last_state_type ≡ x.state_type)
unfolding step step_ok
consume-recovery fuel self c w h e o = ground (arith, consume-step fuel self c w h, e, o)
