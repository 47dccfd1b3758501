-- ===== src/Scheduler/Loop.antt =====
-- The loops over the checks in which the items consume those that pass a test.
use shinken_gpt.Prelude.{
  ℕ, ◌<◌, ◌≤◌, ◌≡◌, sym, subst, ◌∙◌, inl, inr, Bool, true, false, ◌||◌, List, [], ◌∷◌, arith,
  if◌then◌else◌, All, Bool-cases,
}
use shinken_gpt.SchedulingItem.World.{World, Check}
use shinken_gpt.SchedulingItem.Consume.{is_waitconsume, is_waitdep, consume_state_result}
use shinken_gpt.Scheduler.{consume_those, has_result, waits_for_nobody}
use shinken_gpt.Scheduler.Passes.{
  is_done, Passes, Passes-refl, Passes-trans, consumed-is_done, consumed-Passes,
}

-- A test that only a check that waits passes, by its status and the checks that it waits for.
pub record IsWaitTest (test : Check → Bool) : Type 0 where
  pub waits : (k : Check) → test k ≡ true → (is_waitconsume k.status || is_waitdep k.status) ≡ true
  pub done : (k : Check) → is_done k ≡ true → test k ≡ false
  pub same :
      (k k' : Check) → (k'.status ≡ k.status) → (k'.depend_on ≡ k.depend_on) → test k' ≡ test k

pub has_result-IsWaitTest : IsWaitTest has_result
has_result-IsWaitTest = record {
  waits = λ k h. ground (arith, h);
  done = λ k h. ground (arith, h);
  same = λ k k' p q. ground (arith, p);
}

pub waits_for_nobody-IsWaitTest : IsWaitTest waits_for_nobody
waits_for_nobody-IsWaitTest = record {
  waits = λ k h. ground (arith, h);
  done = λ k h. ground (arith, h);
  same = λ k k' p q. ground (arith, p, q);
}

abbrev pub All-known : World → List ℕ → Type 0
All-known w = All (λ c. c < w.next_id)

pub All-known-grows :
    (w w' : World) (cs : List ℕ) → w.next_id ≤ w'.next_id → All-known w cs → All-known w' cs
All-known-grows w w' [] h k = tt
All-known-grows w w' (c ∷ cs) h (k, ks) = (ground (arith, h, k), All-known-grows w w' cs h ks)

module _ {test : Check → Bool} (t : IsWaitTest test) where
  -- a check that does not pass the test does not pass it later
  pub stays_out :
      {w w' : World}
      → Passes w w'
      → (d : ℕ) → d < w.next_id
      → test (w.checks d) ≡ false
      → test (w'.checks d) ≡ false
  stays_out {w} {w'} p d h k = elim (p.moves d h) [
    | inl (s, r) ↦ t.same (w.checks d) (w'.checks d) s r ∙ k
    | inr e ↦ t.done (w'.checks d) e
  ]

  pub All-stay_out :
      {w w' : World}
      → Passes w w'
      → (cs : List ℕ) → All-known w cs
      → All (λ c. test (w.checks c) ≡ false) cs
      → All (λ c. test (w'.checks c) ≡ false) cs
  All-stay_out p [] h k = tt
  All-stay_out p (c ∷ cs) (h, hs) (k, ks) = (stays_out p c h k, All-stay_out p cs hs ks)

  abbrev one : ℕ → ℕ → World → World
  one fuel c w = if test (w.checks c) then consume_state_result fuel (w.checks c).ref c w else w

  one-Passes : (fuel c : ℕ) (w : World) → c < w.next_id → Passes w (one fuel c w)
  one-Passes fuel c w h = elim (Bool-cases (test (w.checks c))) [
    | inl e ↦
        subst (λ b. Passes w (if b then consume_state_result fuel (w.checks c).ref c w else w))
          (sym e) (consumed-Passes fuel (w.checks c).ref c w h (t.waits (w.checks c) e))
    | inr e ↦
        subst (λ b. Passes w (if b then consume_state_result fuel (w.checks c).ref c w else w))
          (sym e) (Passes-refl w)
  ]

  one-out : (fuel c : ℕ) (w : World) → c < w.next_id → test ((one fuel c w).checks c) ≡ false
  one-out fuel c w h = elim (Bool-cases (test (w.checks c))) [
    | inl e ↦
        subst
          (λ b.
            test ((if b then consume_state_result fuel (w.checks c).ref c w else w).checks c)
            ≡ false)
          (sym e) (t.done _ (consumed-is_done fuel (w.checks c).ref c w h (t.waits (w.checks c) e)))
    | inr e ↦
        subst
          (λ b.
            test ((if b then consume_state_result fuel (w.checks c).ref c w else w).checks c)
            ≡ false)
          (sym e) e
  ]

  pub consume_those-Passes :
      (fuel : ℕ) (cs : List ℕ) (w : World)
      → All-known w cs
      → Passes w (consume_those test fuel cs w)
  unfolding consume_those
  consume_those-Passes fuel [] w h = Passes-refl w
  consume_those-Passes fuel (c ∷ cs) w (h, hs) =
      let p = one-Passes fuel c w h in
      Passes-trans p (
        consume_those-Passes fuel cs (one fuel c w)
          (All-known-grows w (one fuel c w) cs p.next_id hs))

  -- After the loop, none of the checks that it went through passes the test.
  pub consume_those-out :
      (fuel : ℕ) (cs : List ℕ) (w : World)
      → All-known w cs
      → All (λ c. test ((consume_those test fuel cs w).checks c) ≡ false) cs
  unfolding consume_those
  consume_those-out fuel [] w h = tt
  consume_those-out fuel (c ∷ cs) w (h, hs) =
      let p = one-Passes fuel c w h in
      let hs' = All-known-grows w (one fuel c w) cs p.next_id hs in
      (
        stays_out (consume_those-Passes fuel cs (one fuel c w) hs') c (ground (arith, h, p.next_id))
            (one-out fuel c w h),
        consume_those-out fuel cs (one fuel c w) hs',
      )
