-- ===== src/Scheduler/Passes.antt =====
-- What consuming checks does to the status and the links of the known checks.
use shinken_gpt.Prelude.{
  ℕ, ◌<◌, ◌≤◌, ◌≡◌, ◌≢◌, refl, ap, ◌∙◌, ◌⊎◌, inl, inr, Bool, true, ◌||◌, contains, arith,
  Bool-cases,
}
use shinken_gpt.SchedulingItem.Types.{ActionStatus, waitconsume, waitdep}
use shinken_gpt.SchedulingItem.World.{World, Check}
use shinken_gpt.SchedulingItem.Consume.{
  is_waitconsume, is_waitdep, consume_state_result, done_status,
}
use shinken_gpt.SchedulingItem.Attempts.Consumes.{consume-done_status}
use shinken_gpt.SchedulingItem.Attempts.Others.{consume-Others}
use shinken_gpt.Scheduler.{is_zombie, is_havetoresolvedep}
use shinken_gpt.Scheduler.Links.{waited_for_by, is_linked, waited_for_by-keeps}

abbrev pub is_done : Check → Bool
is_done c = is_zombie c.status || is_havetoresolvedep c.status

-- A known check keeps its status and what it waits for, or is done.
abbrev pub Moves : Check → Check → Type 0
Moves c c' = ((c'.status ≡ c.status) × (c'.depend_on ≡ c.depend_on)) ⊎ (is_done c' ≡ true)

pub record Passes (w w' : World) : Type 0 where
  pub next_id : w.next_id ≤ w'.next_id
  pub moves : (d : ℕ) → d < w.next_id → Moves (w.checks d) (w'.checks d)
  pub linked : (d : ℕ) → d < w.next_id → is_linked w d ≡ true → is_linked w' d ≡ true

pub Passes-refl : (w : World) → Passes w w
Passes-refl w = record {
  next_id = ground arith;
  moves = λ d h. inl (refl, refl);
  linked = λ d h k. k;
}

pub Passes-trans : {w w' w'' : World} → Passes w w' → Passes w' w'' → Passes w w''
Passes-trans {w} {w'} {w''} p q = record {
  next_id = ground (arith, p.next_id, q.next_id);
  moves = λ d h. ground (arith, p.moves d h, q.moves d (ground (arith, h, p.next_id)));
  linked = λ d h k. q.linked d (ground (arith, h, p.next_id)) (p.linked d h k);
}

eq-cases : (a b : ℕ) → (a ≡ b) ⊎ (a ≢ b)
eq-cases a b = ground arith

waiting-cases :
    (s : ActionStatus)
    → (is_waitconsume s || is_waitdep s) ≡ true
    → (s ≡ waitconsume) ⊎ (s ≡ waitdep)
waiting-cases s h = ground (arith, h)

done_status-is_done : (c k : Check) → (c.status ≡ done_status k) → is_done c ≡ true
unfolding done_status
done_status-is_done c k h = ground (arith, h)

module _ (fuel self c : ℕ) (w : World) where
  pub consumed-is_done :
      c < w.next_id
      → (is_waitconsume (w.checks c).status || is_waitdep (w.checks c).status) ≡ true
      → is_done ((consume_state_result fuel self c w).checks c) ≡ true
  consumed-is_done h k =
      done_status-is_done ((consume_state_result fuel self c w).checks c) (w.checks c)
        (consume-done_status fuel self c w h (waiting-cases (w.checks c).status k))

  consumed-waits :
      c < w.next_id
      → (d e : ℕ) → e < w.next_id
      → contains d (w.checks e).depend_on ≡ true
      → contains d ((consume_state_result fuel self c w).checks e).depend_on ≡ true
  consumed-waits g d e h k =
      let p = consume-Others fuel self c w in
      elim (eq-cases e c) [
        | inl q ↦ ground (arith, q, k, p.depend_on g d)
        | inr n ↦ ground (arith, k, p.checks e h n)
      ]

  consumed-Moves :
      c < w.next_id
      → (is_waitconsume (w.checks c).status || is_waitdep (w.checks c).status) ≡ true
      → (d : ℕ) → d < w.next_id
      → Moves (w.checks d) ((consume_state_result fuel self c w).checks d)
  consumed-Moves g k d h = elim (eq-cases d c) [
    | inl q ↦
        inr (
          ap (λ e. is_done ((consume_state_result fuel self c w).checks e)) q
          ∙ consumed-is_done g k)
    | inr n ↦
        (let e = (consume-Others fuel self c w).checks d h n in
          inl (ap (λ (x : Check). x.status) e, ap (λ (x : Check). x.depend_on) e))
  ]

  consumed-depend_on_me :
      c < w.next_id
      → (d : ℕ) → d < w.next_id
      → ((consume_state_result fuel self c w).checks d).depend_on_me ≡ (w.checks d).depend_on_me
  consumed-depend_on_me g d h =
      let p = consume-Others fuel self c w in
      elim (eq-cases d c) [
        | inl q ↦ ground (arith, q, p.depend_on_me g)
        | inr n ↦ ap (λ (x : Check). x.depend_on_me) (p.checks d h n)
      ]

  consumed-not_zombie :
      (is_waitconsume (w.checks c).status || is_waitdep (w.checks c).status) ≡ true
      → (d : ℕ) → d < w.next_id
      → is_zombie (w.checks d).status ≡ true
      → is_zombie ((consume_state_result fuel self c w).checks d).status ≡ true
  consumed-not_zombie k d h z = elim (eq-cases d c) [
    | inl q ↦ ground (arith, q, k, z)
    | inr n ↦ ground (arith, z, (consume-Others fuel self c w).checks d h n)
  ]

  consumed-linked :
      c < w.next_id
      → (is_waitconsume (w.checks c).status || is_waitdep (w.checks c).status) ≡ true
      → (d : ℕ) → d < w.next_id
      → is_linked w d ≡ true
      → is_linked (consume_state_result fuel self c w) d ≡ true
  consumed-linked g k d h l =
      let w' = consume_state_result fuel self c w in
      let p = consume-Others fuel self c w in
      let m = consumed-depend_on_me g d h in
      let z = consumed-not_zombie k d h in
      elim (Bool-cases (is_zombie (w.checks d).status)) [
        | inl q ↦ ground (arith, z q)
        | inr q ↦
            (let waits : waited_for_by w d (w.checks d).depend_on_me ≡ true =
                ground (arith, q, l) in
              let waits' =
                waited_for_by-keeps w w' d (w.checks d).depend_on_me p.next_id
                  (λ e i j. consumed-waits g d e i j) waits in
              ground (arith, m, waits'))
      ]

  pub consumed-Passes :
      c < w.next_id
      → (is_waitconsume (w.checks c).status || is_waitdep (w.checks c).status) ≡ true
      → Passes w (consume_state_result fuel self c w)
  consumed-Passes g k = record {
    next_id = (consume-Others fuel self c w).next_id;
    moves = consumed-Moves g k;
    linked = consumed-linked g k;
  }
