-- ===== src/Scheduler/Clean/Errors.antt =====
-- Dropping a check that waits for another one raises an exception.
use shinken_gpt.Prelude.{
  contains-keep, ℕ, ◌+◌, ◌<◌, ◌≤◌, ◌≡◌, ◌≢◌, refl, ap, ◌∙◌, inl, inr, true, false, ◌&&◌, Option,
  none, some, List, [], ◌∷◌, if◌then◌else◌, ltb, ◌==◌, contains, length, Bool-cases, Option-cases,
  arith, ◌>>=◌,
}
use shinken_gpt.SchedulingItem.World.{World, on, ◌▷◌}
use shinken_gpt.SchedulingItem.Consume.{nobody, set_check}
use shinken_gpt.Scheduler.{Scheduler, remove, release}
use shinken_gpt.Scheduler.Clean.{
  Sizes, max_checks, max_key, to_del, remove_in_progress_check, drop_check, drop_checks,
  clean_checks, clean_queues,
}

remove-keeps :
    (a e : ℕ) (xs ys : List ℕ)
    → e ≢ a
    → contains e xs ≡ true
    → (remove a xs ≡ some ys)
    → contains e ys ≡ true
unfolding remove
remove-keeps a e [] ys n h k = cc
remove-keeps a e (x ∷ xs) ys n h k = elim (Option-cases (remove a xs)) [
  | inl r ↦ ground (arith, n, h, k, r)
  | inr (zs, r) ↦ ground (arith, n, h, k, r, remove-keeps a e xs zs n)
]

-- What is fatal in every world in which `d` waits for `e` is fatal after the release of another
-- check.
release-none :
    {B : Type 0} (c e d : ℕ) (k : World → Option B)
    → e ≢ c
    → ((w : World) → contains e (w.checks d).depend_on ≡ true → k w ≡ none)
    → (ds : List ℕ) (w : World) → contains e (w.checks d).depend_on ≡ true
    → (release c ds w >>= k) ≡ none
unfolding release
release-none c e d k n fatal [] w h = fatal w h
release-none c e d k n fatal (j ∷ js) w h =
    let freed : List ℕ → World = λ rest. set_check j (λ i. record i { depend_on = rest }) w in
    let go = λ (o : Option (List ℕ)). (o >>= λ rest. release c js (freed rest)) >>= k in
    elim (Option-cases (remove c (w.checks j).depend_on)) [
      | inl r ↦ ap go r
      | inr (ys, r) ↦
          ap go r
          ∙ release-none c e d k n fatal js (freed ys)
              (ground (arith, h, r, remove-keeps c e (w.checks j).depend_on ys n))
    ]

waits_none :
    (e : ℕ) (xs : List ℕ) (w : World)
    → contains e xs ≡ true
    → if◌then◌else◌ {A = Option World} (nobody xs) (some w) none ≡ none
waits_none e [] w h = cc
waits_none e (x ∷ xs) w h = refl

>>=_assoc :
    {A B C : Type 0} (m : Option A) (f : A → Option B) (g : B → Option C)
    → (m >>= f >>= g) ≡ (m >>= λ a. f a >>= g)
>>=_assoc none f g = refl
>>=_assoc (some a) f g = refl

drop_check-none :
    {B : Type 0} (c e d : ℕ) (k : World → Option B)
    → e ≢ c
    → ((w : World) → contains e (w.checks d).depend_on ≡ true → k w ≡ none)
    → (w : World) → contains e (w.checks d).depend_on ≡ true
    → (drop_check c w >>= k) ≡ none
unfolding drop_check
drop_check-none c e d k n fatal w h =
    let w1 = w ▷ on (w.checks c).ref (remove_in_progress_check c) in
    let last = λ (w' : World). if nobody (w'.checks c).depend_on then some w' else none in
    >>=_assoc (release c (w.checks c).depend_on_me w1) last k
    ∙ release-none c e d (λ w'. last w' >>= k) n (λ w' i. ground (arith, fatal w' i))
        (w.checks c).depend_on_me w1 h

-- `c` itself is dropped while it waits for `e`
drop_check-own :
    (c e : ℕ) (w : World) → e ≢ c → contains e (w.checks c).depend_on ≡ true → drop_check c w ≡ none
unfolding drop_check
drop_check-own c e w n h =
    release-none c e c (λ w'. if nobody (w'.checks c).depend_on then some w' else none) n
      (λ w' i. waits_none e (w'.checks c).depend_on w' i) (w.checks c).depend_on_me
      (w ▷ on (w.checks c).ref (remove_in_progress_check c)) h

drop_checks-none :
    (cs : List ℕ) (c e : ℕ) (w : World)
    → contains c cs ≡ true
    → contains e cs ≡ false
    → contains e (w.checks c).depend_on ≡ true
    → drop_checks cs w ≡ none
unfolding drop_checks
drop_checks-none [] c e w h n k = cc
drop_checks-none (d ∷ cs) c e w h n k =
    let away : e ≢ d = ground (arith, n) in
    elim (Bool-cases (d == c)) [
      | inl q ↦
          (let own = drop_check-own d e w away (ground (arith, q, k)) in
            ap (λ o. o >>= drop_checks cs) own)
      | inr q ↦
          drop_check-none d e c (drop_checks cs) away
            (λ w' i. drop_checks-none cs c e w' (ground (arith, h, q)) (ground (arith, n)) i) w k
    ]

to_del-contains :
    (limit k : ℕ) (keys : List ℕ)
    → contains k (to_del limit keys) ≡ (contains k keys && ltb (k + limit) (max_key keys))
unfolding to_del
to_del-contains limit k keys = contains-keep (λ k. ltb (k + limit) (max_key keys)) k keys

-- Where there are more checks than the limit, and one of them is old enough to be dropped while it
-- waits for a check that is not, `clean_queues` raises an exception.
pub clean_queues-error :
    (z : Sizes) (broks : List (List ℕ)) (s : Scheduler) (c e : ℕ)
    → 0 < z.cleaning_queues_interval
    → max_checks z < length s.checks
    → contains c s.checks ≡ true
    → c + max_checks z < max_key s.checks
    → max_key s.checks ≤ e + max_checks z
    → contains e (s.world.checks c).depend_on ≡ true
    → clean_queues z broks s ≡ none
unfolding clean_queues clean_checks
clean_queues-error z broks s c e h many known old recent waits =
    let limit = max_checks z in
    let dropped =
      drop_checks-none (to_del limit s.checks) c e s.world
        (ground (arith, to_del-contains limit c s.checks, known, old))
        (ground (arith, to_del-contains limit e s.checks, recent)) waits in
    ground (arith, h, many, dropped)
