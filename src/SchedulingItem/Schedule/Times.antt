-- ===== src/SchedulingItem/Schedule/Times.antt =====
-- The next check is not in the past, and there is one check at a time.
use shinken_gpt.Prelude.{
  ℕ, ◌+◌, ◌≤◌, ◌≡◌, refl, ap, ◌∙◌, true, false, not, ◌&&◌, Option, none, some, List, [], ◌∷◌,
  if◌then◌else◌, ltb, leb, max, length, arith, ◌>>=◌, inl, inr, Bool-cases, sym, subst,
}
use shinken_gpt.SchedulingItem.Types.{Item}
use shinken_gpt.SchedulingItem.World.{World, on, ◌▷◌}
use shinken_gpt.SchedulingItem.Dependencies.{launch_check, launch_new_check, new_check}
use shinken_gpt.SchedulingItem.Consume.{nobody}
use shinken_gpt.SchedulingItem.Attempts.Launch.{launch_check-Launches}
use shinken_gpt.SchedulingItem.Schedule.{
  get_next_check_time, started, spread, schedule_at, schedule_state_check, interval_of,
  is_in_checking, is_first, set_next_chk, launch_next,
}

abbrev later : ℕ → ℕ → ℕ → ℕ → ℕ
later now start time_add time_spread =
    let next = if leb start now then start + time_add else start in
    if ltb next now then now + time_spread else next

later-bounds :
    (now start time_add time_spread interval : ℕ)
    → time_add ≤ interval
    → time_spread ≤ interval
    → let t = later now start time_add time_spread in (now ≤ t) × (t ≤ max (now + interval) start)
later-bounds now start time_add time_spread interval h k = (ground arith, ground (arith, h, k))

later-eq :
    (now start time_add time_spread : ℕ)
    → ((if leb start now then some (start + time_add) else some start) >>= λ next.
        some (if ltb next now then some (now + time_spread) else some next))
      ≡ some (some (later now start time_add time_spread))
later-eq now start time_add time_spread = ground arith

-- Without a check period and a time that is asked for, there is a next time: it is not in the past,
-- and not later than one interval after now, or than the time that was planned, if that is later.
get_next_check_time-always :
    (uniform : ℕ → ℕ) (now : ℕ) (x : Item) (interval : ℕ) (next_chk : Option ℕ)
    → uniform (spread x interval) ≤ spread x interval
    → (t : ℕ) × (get_next_check_time uniform now x interval next_chk none none ≡ some (some t))
      × (now ≤ t)
      × (t ≤ max (now + interval) (started now next_chk))
unfolding get_next_check_time
get_next_check_time-always uniform now x interval next_chk h =
    let u = uniform (spread x interval) in
    let u_le : u ≤ interval = ground (arith, h) in
    let add = if is_first next_chk then u else interval in
    let add_le : add ≤ interval = ground (arith, u_le) in
    let start = started now next_chk in
    let bounds = later-bounds now start add u interval add_le u_le in
    (later now start add u, later-eq now start add u, bounds.0, bounds.1)

launch_check-one :
    (fuel self t : ℕ) (w : World)
    → ((w.items self).checks_in_progress ≡ [])
    → length ((launch_check fuel self t none false false w).0.items self).checks_in_progress ≤ 1
unfolding launch_check launch_new_check new_check
launch_check-one fuel self t w h = ground (arith, h)

nobody-eq : (xs : List ℕ) → nobody xs ≡ true → xs ≡ []
nobody-eq [] h = refl
nobody-eq (x ∷ xs) h = cc

-- what is planned of an item, in a time that is not past nor too far
abbrev pub IsNext : ℕ → ℕ → Item → Item → Type 0
IsNext now interval x x' =
    (t : ℕ) × (x'.next_chk ≡ some t)
    × (now ≤ t)
    × (t ≤ max (now + interval) (started now x.next_chk))
    × (length x'.checks_in_progress ≤ 1)

module _ (uniform : ℕ → ℕ) (fuel self : ℕ) (w : World) where
  schedule_at-IsNext :
      (interval : ℕ)
      → let x = w.items self in
        uniform (spread x interval) ≤ spread x interval
        → (x.check_period ≡ none)
        → (x.checks_in_progress ≡ [])
        → (w' : World) × (schedule_at uniform fuel self interval false none w ≡ some w')
          × IsNext w.now interval x (w'.items self)
  unfolding schedule_at
  schedule_at-IsNext interval h p e =
      let x = w.items self in
      let (t, found, future, bound) =
        get_next_check_time-always uniform w.now x interval x.next_chk h in
      let planned = w ▷ on self (set_next_chk (some t)) in
      let r = launch_check fuel self t none false false planned in
      let l = launch_check-Launches fuel self t none false false planned in
      let found' =
        ap (λ period. get_next_check_time uniform w.now x interval x.next_chk period none) p
        ∙ found in
      (
        r.0,
        ap (λ o. o >>= λ next. some (launch_next fuel self false w next)) found',
        (
          t,
          ground (arith, l.items self),
          future,
          bound,
          launch_check-one fuel self t planned (ground (arith, e)),
        ),
      )

  -- An item that is checked actively, at an interval above 0 and without a check period, is
  -- scheduled without a TypeError: with a check in progress nothing changes, and otherwise the next
  -- check is not in the past, not later than one interval after now or than the time that was
  -- planned, and at most one check is in progress.
  pub schedule_state_check-IsNext :
      let x = w.items self in
      uniform (spread x (interval_of x)) ≤ spread x (interval_of x)
      → (x.active_checks_enabled && x.execute_checks) ≡ true
      → 1 ≤ interval_of x
      → (x.check_period ≡ none)
      → (w' : World) × (schedule_state_check uniform fuel self false none w ≡ some w')
        × (if is_in_checking x then w' ≡ w else IsNext w.now (interval_of x) x (w'.items self))
  unfolding schedule_state_check
  schedule_state_check-IsNext h active interval p =
      let x = w.items self in
      elim (Bool-cases (nobody x.checks_in_progress)) [
        | inr e ↦ (w, ground (arith, e), ground (arith, e))
        | inl e ↦
            (let (w', found, next) =
                schedule_at-IsNext (interval_of x) h p (nobody-eq x.checks_in_progress e) in
              (
                w',
                ground (arith, e, active, interval, found),
                subst
                    (λ b. if not b then w' ≡ w else IsNext w.now (interval_of x) x (w'.items self))
                    (sym e) next,
              ))
      ]
