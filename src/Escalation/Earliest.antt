-- ===== src/Escalation/Earliest.antt =====
-- The time of the next notification is the earliest that the escalations allow.
use shinken_gpt.Prelude.{
  ℕ, ◌+◌, ◌*◌, ◌<◌, ◌≤◌, ◌≡◌, refl, ap, sym, ◌∙◌, ◌⊎◌, inl, inr, Bool, Option, none, some, List, [],
  ◌∷◌, if◌then◌else◌, ltb, All, max, arith,
}
use native.Mathlib.Nat.{mul-le-mul_right}
use shinken_gpt.SchedulingItem.Types.{Item}
use shinken_gpt.SchedulingItem.World.{Notification}
use shinken_gpt.Escalation.{
  Escalation, is_eligible_for, shortest_interval, standard_time, early_start, earliest,
  get_next_notification_time, sooner, shorter,
}

-- `r` is not later than the time `start`, if that is in the future
abbrev pub NotAfter : ℕ → ℕ → Option ℕ → Type 0
NotAfter now r none = Unit
NotAfter now r (some s) = if ltb now s then r ≤ s else Unit

NotAfter-le : (now r r' : ℕ) (o : Option ℕ) → r' ≤ r → NotAfter now r o → NotAfter now r' o
NotAfter-le now r r' none h k = tt
NotAfter-le now r r' (some s) h k = ground (arith, h, k)

sooner-le : (now res : ℕ) (o : Option ℕ) → sooner now o res ≤ res
sooner-le now res none = ground arith
sooner-le now res (some s) = ground arith

sooner-NotAfter : (now res : ℕ) (o : Option ℕ) → NotAfter now (sooner now o res) o
sooner-NotAfter now res none = tt
sooner-NotAfter now res (some s) = ground arith

earliest-le :
    (start : ℕ → Option ℕ) (now : ℕ) (is : List ℕ) (res : ℕ) → earliest start now is res ≤ res
unfolding earliest
earliest-le start now [] res = ground arith
earliest-le start now (i ∷ is) res =
    ground (arith, earliest-le start now is (sooner now (start i) res), sooner-le now res (start i))

earliest-All :
    (start : ℕ → Option ℕ) (now : ℕ) (is : List ℕ) (res : ℕ)
    → All (λ i. NotAfter now (earliest start now is res) (start i)) is
unfolding earliest
earliest-All start now [] res = tt
earliest-All start now (i ∷ is) res =
    let res' = sooner now (start i) res in
    (
      NotAfter-le now res' (earliest start now is res') (start i) (earliest-le start now is res')
          (sooner-NotAfter now res (start i)),
      earliest-All start now is res',
    )

-- a time that is the one before, or a start in the future
sooner-cases :
    (now res : ℕ) (o : Option ℕ)
    → (sooner now o res ≡ res) ⊎ ((o ≡ some (sooner now o res)) × (now < sooner now o res))
sooner-cases now res none = inl refl
sooner-cases now res (some s) = ground arith

earliest-cases :
    (start : ℕ → Option ℕ) (now : ℕ) (is : List ℕ) (res : ℕ)
    → let r = earliest start now is res in (r ≡ res) ⊎ ((now < r) × ((i : ℕ) × (start i ≡ some r)))
unfolding earliest
earliest-cases start now [] res = inl refl
earliest-cases start now (i ∷ is) res =
    let res' = sooner now (start i) res in
    elim (earliest-cases start now is res') [
      | inr h ↦ inr h
      | inl e ↦ elim (sooner-cases now res (start i)) [
        | inl f ↦ inl (e ∙ f)
        | inr (f, h) ↦ inr (ground (arith, h, e), (i, f ∙ ap some (sym e)))
      ]
    ]

shortest-le :
    (eligible : Escalation → Bool) (book : ℕ → Escalation) (is : List ℕ) (interval : ℕ)
    → shortest_interval eligible book is interval ≤ interval
unfolding shortest_interval
shortest-le eligible book [] interval = ground arith
shortest-le eligible book (i ∷ is) interval =
    let next =
      if eligible (book i) then shorter (book i).notification_interval interval else interval in
    ground (arith, shortest-le eligible book is next)

-- with `d` for the interval in seconds
std-bounds :
    (now t d e : ℕ)
    → d ≤ e
    → let std_time = if ltb (t + d) now then now + d else t + d in
      (now ≤ std_time) × (std_time ≤ max t now + e)
std-bounds now t d e h = (ground arith, ground (arith, h))

module _ (book : ℕ → Escalation) (now : ℕ) (x : Item) (n : Notification) (t : ℕ) where
  standard_time-bounds :
      let std_time = standard_time book now x n t in
      (now ≤ std_time) × (std_time ≤ max t now + x.notification_interval * x.interval_length)
  unfolding standard_time
  standard_time-bounds =
      let interval =
        shortest_interval (is_eligible_for now x n t) book x.escalations x.notification_interval in
      let h = shortest-le (is_eligible_for now x n t) book x.escalations x.notification_interval in
      let k : interval * x.interval_length ≤ x.notification_interval * x.interval_length =
        mul-le-mul_right x.interval_length h in
      std-bounds now t (interval * x.interval_length) _ k

  -- The next notification is not in the past, and not later than a notification interval after this
  -- one, or after now. It is at the standard time, or else at the early start, in the future, of an
  -- escalation that was not started; no early start in the future of an escalation of the item
  -- comes before it.
  pub get_next_notification_time-earliest :
      let std_time = standard_time book now x n t in
      let r = get_next_notification_time book now x n t in
      (now ≤ r)
      × (r ≤ std_time)
      × (std_time ≤ max t now + x.notification_interval * x.interval_length)
      × ((r ≡ std_time) ⊎ ((now < r) × ((i : ℕ) × (early_start book std_time x n i ≡ some r))))
      × All (λ i. NotAfter now r (early_start book std_time x n i)) x.escalations
  unfolding get_next_notification_time
  get_next_notification_time-earliest =
      let std_time = standard_time book now x n t in
      let start = early_start book std_time x n in
      let (future, bound) = standard_time-bounds in
      let cases = earliest-cases start now x.escalations std_time in
      (
        elim cases [ inl e ↦ ground (arith, e, future) | inr (h, _) ↦ ground (arith, h) ],
        earliest-le start now x.escalations std_time,
        bound,
        cases,
        earliest-All start now x.escalations std_time,
      )
