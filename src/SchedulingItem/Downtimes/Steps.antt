-- ===== src/SchedulingItem/Downtimes/Steps.antt =====
-- Whatever happens to downtimes, one after the other: the depth stays the number in effect.
use shinken_gpt.Prelude.{
  ℕ, suc, ◌≡◌, refl, sym, ap, ◌∙◌, Bool, true, false, not, List, [], ◌∷◌, ◌++◌, ◌==◌, if◌then◌else◌,
  ltb, count_if, contains, keep, arith, Bool-cases, inl, inr,
}
use shinken_gpt.Prelude.Int.{pos}
use shinken_gpt.SchedulingItem.World.{World}
use shinken_gpt.SchedulingItem.Downtimes.{enter, exit, cancel}
use shinken_gpt.SchedulingItem.Downtimes.Count.{
  active, in_effect_for, Once, DepthIsCount, same_everywhere,
}
use shinken_gpt.SchedulingItem.Downtimes.Keeps.{
  enter-DepthIsCount, exit-DepthIsCount, cancel-DepthIsCount,
}
use shinken_gpt.SchedulingItem.Downtimes.Delete.{add_downtime, item_del_downtime, del_downtime}

-- A downtime is registered, enters effect, leaves it, is cancelled in effect, or is dropped.
pub data Step : World → World → Type 0 where
  adds : (dt : ℕ) (w : World) → (w.downtimes dt).is_in_effect ≡ false → Step w (add_downtime dt w)
  enters :
      (fuel dt : ℕ) (w : World)
      → Once dt w.known_downtimes
      → (w.downtimes dt).is_in_effect ≡ false
      → (w.downtimes dt).activate_me ≡ []
      → Step w (enter (suc fuel) dt w)
  exits : (dt : ℕ) (w : World) → Once dt w.known_downtimes → Step w (exit dt w)
  cancels :
      (fuel dt : ℕ) (w : World)
      → Once dt w.known_downtimes
      → (w.downtimes dt).is_in_effect ≡ true
      → (w.downtimes dt).activate_me ≡ []
      → Step w (cancel (suc fuel) dt w)
  deletes :
      (dt : ℕ) (w : World) → (w.downtimes dt).is_in_effect ≡ false → Step w (del_downtime dt w)

pub data Steps (w : World) : World → Type 0 where
  none_yet : Steps w w
  then_step : {w' w'' : World} → Steps w w' → Step w' w'' → Steps w w''

count-snoc :
    (p : ℕ → Bool) (d : ℕ) (ds : List ℕ) → p d ≡ false → count_if p (ds ++ d ∷ []) ≡ count_if p ds
count-snoc p d [] h = ground (arith, h)
count-snoc p d (x ∷ xs) h = ground (arith, count-snoc p d xs h)

count-without :
    (p : ℕ → Bool) (d : ℕ) (ds : List ℕ)
    → p d ≡ false
    → count_if p (keep (λ x. not (x == d)) ds) ≡ count_if p ds
count-without p d [] h = refl
count-without p d (x ∷ xs) h = elim (Bool-cases (x == d)) [
  | inl e ↦
      (let same : x ≡ d = ground (arith, e) in
        ground (arith, e, h, ap p same, count-without p d xs h))
  | inr e ↦ ground (arith, e, count-without p d xs h)
]

count-if :
    (p : ℕ → Bool) (d : ℕ) (ds : List ℕ) (b : Bool)
    → p d ≡ false
    → count_if p (if b then ds else ds ++ d ∷ []) ≡ count_if p ds
count-if p d ds true h = refl
count-if p d ds false h = count-snoc p d ds h

same-DepthIsCount :
    (w w' : World)
    → DepthIsCount w
    → ((i : ℕ)
        → ((w'.items i).scheduled_downtime_depth ≡ (w.items i).scheduled_downtime_depth)
          × ((w'.items i).in_scheduled_downtime ≡ (w.items i).in_scheduled_downtime))
    → ((i : ℕ) → active w' i ≡ active w i)
    → DepthIsCount w'
same-DepthIsCount w w' ok items counts = record {
  depth = λ i. (items i).0 ∙ ok.depth i ∙ ap pos (sym (counts i));
  flag = λ i. (items i).1 ∙ ok.flag i ∙ ap (ltb 0) (sym (counts i));
}

idle_counts_not :
    (dt i : ℕ) (w : World) → (w.downtimes dt).is_in_effect ≡ false → in_effect_for w i dt ≡ false
idle_counts_not dt i w out = ground (arith, out)

add_downtime-DepthIsCount :
    (dt : ℕ) (w : World)
    → DepthIsCount w
    → (w.downtimes dt).is_in_effect ≡ false
    → DepthIsCount (add_downtime dt w)
unfolding add_downtime
add_downtime-DepthIsCount dt w ok out =
    same-DepthIsCount w (add_downtime dt w) ok (λ i. (ground arith, ground arith))
      (λ i.
        count-if (in_effect_for w i) dt w.known_downtimes (contains dt w.known_downtimes)
          (idle_counts_not dt i w out))

module _ (item dt : ℕ) (w : World) where
  item_del-items :
      (i : ℕ)
      → let x' = (item_del_downtime item dt w).items i in
        (x'.scheduled_downtime_depth ≡ (w.items i).scheduled_downtime_depth)
        × (x'.in_scheduled_downtime ≡ (w.items i).in_scheduled_downtime)
  unfolding item_del_downtime
  item_del-items i = (ground arith, ground arith)

  item_del-effect :
      (i d : ℕ) → in_effect_for w i d ≡ in_effect_for (item_del_downtime item dt w) i d
  unfolding item_del_downtime
  item_del-effect i d = ground arith

  item_del-known : (item_del_downtime item dt w).known_downtimes ≡ w.known_downtimes
  unfolding item_del_downtime
  item_del-known = ground arith

del_downtime-active :
    (dt : ℕ) (w : World) (i : ℕ)
    → (w.downtimes dt).is_in_effect ≡ false
    → active (del_downtime dt w) i ≡ active w i
unfolding del_downtime
del_downtime-active dt w i out =
    let w' = item_del_downtime (w.downtimes dt).ref dt w in
    let kept = keep (λ d. not (d == dt)) w.known_downtimes in
    let effects =
      same_everywhere (in_effect_for w i) (in_effect_for w' i)
        (item_del-effect (w.downtimes dt).ref dt w i) kept in
    let fewer =
      count-without (in_effect_for w i) dt w.known_downtimes (idle_counts_not dt i w out) in
    elim (Bool-cases (contains dt w.known_downtimes)) [
      | inl e ↦ rw e (effects ∙ fewer)
      | inr e ↦ rw e refl
    ]

del_downtime-items :
    (dt : ℕ) (w : World) (i : ℕ)
    → let x' = (del_downtime dt w).items i in
      (x'.scheduled_downtime_depth ≡ (w.items i).scheduled_downtime_depth)
      × (x'.in_scheduled_downtime ≡ (w.items i).in_scheduled_downtime)
unfolding del_downtime
del_downtime-items dt w i =
    let p = item_del-items (w.downtimes dt).ref dt w i in (ground (arith, p), ground (arith, p))

Step-DepthIsCount : {w w' : World} → Step w w' → DepthIsCount w → DepthIsCount w'
Step-DepthIsCount (adds dt w out) ok = add_downtime-DepthIsCount dt w ok out
Step-DepthIsCount (enters fuel dt w once out alone) ok =
    enter-DepthIsCount fuel dt w ok once out alone
Step-DepthIsCount (exits dt w once) ok = exit-DepthIsCount dt w ok (λ _. once)
Step-DepthIsCount (cancels fuel dt w once effect alone) ok =
    cancel-DepthIsCount fuel dt w ok once effect alone
Step-DepthIsCount (deletes dt w out) ok =
    same-DepthIsCount w (del_downtime dt w) ok (del_downtime-items dt w)
      (λ i. del_downtime-active dt w i out)

-- However downtimes are registered, enter effect, end, are cancelled in effect and are dropped when
-- they are not in effect: scheduled_downtime_depth stays, for every item, the number of its
-- downtimes in effect, if it was at the start. A downtime that enters or is cancelled triggers no
-- others, and one that enters, ends or is cancelled stands once in the scheduler's list.
pub Steps-DepthIsCount : {w w' : World} → Steps w w' → DepthIsCount w → DepthIsCount w'
Steps-DepthIsCount none_yet ok = ok
Steps-DepthIsCount (then_step steps step) ok = Step-DepthIsCount step (Steps-DepthIsCount steps ok)
