-- ===== src/SchedulingItem/Downtimes/Keeps.antt =====
-- The operations on downtimes keep `DepthIsCount`, and the one that does not.
use shinken_gpt.Prelude.{
  ℕ, suc, ◌≡◌, true, false, none, [], ◌==◌, if◌then◌else◌, ltb, arith, ◌∙◌, ap, sym, Bool-cases,
  inl, inr,
}
use shinken_gpt.Prelude.Int.{pos, negsuc, ◌+ℤ◌}
use shinken_gpt.SchedulingItem.Types.{NotificationType, downtimecancelled, InDowntime}
use shinken_gpt.SchedulingItem.World.{World, Downtime, ◌▷◌}
use shinken_gpt.SchedulingItem.Notify.{create_notifications}
use shinken_gpt.SchedulingItem.Downtimes.{
  close, out_of_effect, on_downtime, enter_one, enter, exit, leave, withdraw, cancel_one, cancel,
}
use shinken_gpt.SchedulingItem.Downtimes.Depth.{
  SameDowntimes, create-SameDowntimes, enter_one-item, enter_one-in_effect, enter_one-ref,
  enter_one-known, enter_one-activate_me, cancel_one-activate_me, leave-downtime, leave-heap,
  close-depth, close-heap, withdraw-downtime, withdraw-heap,
}
use shinken_gpt.SchedulingItem.Downtimes.Count.{
  active, Once, DepthIsCount, active-rise, active-fall, active-same,
}

pub enter_one-DepthIsCount :
    (dt : ℕ) (w : World)
    → DepthIsCount w
    → Once dt w.known_downtimes
    → (w.downtimes dt).is_in_effect ≡ false
    → DepthIsCount (enter_one dt w)
enter_one-DepthIsCount dt w ok once out = record {
  depth = λ i. ground (
    arith,
    ap (λ (r : InDowntime). r.scheduled_downtime_depth) (enter_one-item dt w i),
    rise i,
    ok.depth i,
  );
  flag = λ i. ground (
    arith,
    ap (λ (r : InDowntime). r.in_scheduled_downtime) (enter_one-item dt w i),
    rise i,
    ok.flag i,
  );
}
  where
    rise :
        (i : ℕ)
        → active (enter_one dt w) i
          ≡ (if i == (w.downtimes dt).ref then suc (active w i) else active w i)
    rise i =
        active-rise w (enter_one dt w) dt i (enter_one-known dt w) (enter_one-ref dt w)
          (enter_one-in_effect dt w) once out

close-DepthIsCount : (dt : ℕ) (w : World) → DepthIsCount w → DepthIsCount (close dt w)
close-DepthIsCount dt w ok = record {
  depth = λ i.
      (close-depth dt w i).0
      ∙ ok.depth i
      ∙ ap pos (sym (active-same w (close dt w) i (close-heap dt w)));
  flag = λ i.
      (close-depth dt w i).1
      ∙ ok.flag i
      ∙ ap (ltb 0) (sym (active-same w (close dt w) i (close-heap dt w)));
}

leave-DepthIsCount :
    (dt : ℕ) (w : World)
    → DepthIsCount w
    → Once dt w.known_downtimes
    → (w.downtimes dt).is_in_effect ≡ true
    → DepthIsCount (w ▷ on_downtime dt out_of_effect ▷ leave (w.downtimes dt).ref)
leave-DepthIsCount dt w ok once in_effect = record {
  depth = λ i. ground (
    arith,
    ap (λ (r : InDowntime). r.scheduled_downtime_depth) (leave-downtime (w.downtimes dt).ref w' i),
    fall i,
    ok.depth i,
  );
  flag = λ i. ground (
    arith,
    ap (λ (r : InDowntime). r.in_scheduled_downtime) (leave-downtime (w.downtimes dt).ref w' i),
    fall i,
    ok.flag i,
    ok.depth i,
  );
}
  where
    w' : World
    w' = w ▷ on_downtime dt out_of_effect

    heap : (leave (w.downtimes dt).ref w').downtimes ≡ w'.downtimes
    heap = (leave-heap (w.downtimes dt).ref w').0

    fall :
        (i : ℕ)
        → active w i ≡ (
            if i == (w.downtimes dt).ref
            then suc (active (leave (w.downtimes dt).ref w') i)
            else active (leave (w.downtimes dt).ref w') i)
    fall i =
        active-fall w (leave (w.downtimes dt).ref w') dt i (leave-heap (w.downtimes dt).ref w').1
          (λ d. ground (arith, ap (λ (h : ℕ → Downtime). (h d).ref) heap))
          (λ d. ground (arith, ap (λ (h : ℕ → Downtime). (h d).is_in_effect) heap)) once in_effect

-- Ending a downtime, in effect or not, keeps the depth of every item the number of its downtimes in
-- effect, provided that the scheduler knows a downtime in effect once.
pub exit-DepthIsCount :
    (dt : ℕ) (w : World)
    → DepthIsCount w
    → ((w.downtimes dt).is_in_effect ≡ true → Once dt w.known_downtimes)
    → DepthIsCount (exit dt w)
unfolding exit
exit-DepthIsCount dt w ok once = elim (Bool-cases (w.downtimes dt).is_in_effect) [
  | inl effect ↦
      rw effect (close-DepthIsCount dt _ (leave-DepthIsCount dt w ok (once effect) effect))
  | inr out ↦ rw out (close-DepthIsCount dt w ok)
]

-- Entering a downtime that is not in effect, triggers no others and stands once in the scheduler's
-- list keeps the depth of every item the number of its downtimes in effect.
pub enter-DepthIsCount :
    (fuel dt : ℕ) (w : World)
    → DepthIsCount w
    → Once dt w.known_downtimes
    → (w.downtimes dt).is_in_effect ≡ false
    → (w.downtimes dt).activate_me ≡ []
    → DepthIsCount (enter (suc fuel) dt w)
unfolding enter
enter-DepthIsCount fuel dt w ok once out alone =
    rw (enter_one-activate_me dt w ∙ alone) (enter_one-DepthIsCount dt w ok once out)

withdraw-DepthIsCount :
    (dt : ℕ) (w : World)
    → DepthIsCount w
    → Once dt w.known_downtimes
    → (w.downtimes dt).is_in_effect ≡ true
    → DepthIsCount (withdraw (w.downtimes dt).ref (on_downtime dt out_of_effect w))
withdraw-DepthIsCount dt w ok once in_effect = record {
  depth = λ i. ground (
    arith,
    ap (λ (r : InDowntime). r.scheduled_downtime_depth)
        (withdraw-downtime (w.downtimes dt).ref w' i),
    fall i,
    ok.depth i,
  );
  flag = λ i. ground (
    arith,
    ap (λ (r : InDowntime). r.in_scheduled_downtime) (withdraw-downtime (w.downtimes dt).ref w' i),
    fall i,
    ok.flag i,
    ok.depth i,
  );
}
  where
    w' : World
    w' = on_downtime dt out_of_effect w

    heap : (withdraw (w.downtimes dt).ref w').downtimes ≡ w'.downtimes
    heap = (withdraw-heap (w.downtimes dt).ref w').0

    fall :
        (i : ℕ)
        → active w i ≡ (
            if i == (w.downtimes dt).ref
            then suc (active (withdraw (w.downtimes dt).ref w') i)
            else active (withdraw (w.downtimes dt).ref w') i)
    fall i =
        active-fall w (withdraw (w.downtimes dt).ref w') dt i
          (withdraw-heap (w.downtimes dt).ref w').1
          (λ d. ground (arith, ap (λ (h : ℕ → Downtime). (h d).ref) heap))
          (λ d. ground (arith, ap (λ (h : ℕ → Downtime). (h d).is_in_effect) heap)) once in_effect

create-DepthIsCount :
    (self : ℕ) (type : NotificationType) (w : World)
    → DepthIsCount w
    → DepthIsCount (create_notifications self type none w)
create-DepthIsCount self type w ok =
    let q = create-SameDowntimes self type none w in
    let e = λ (i : ℕ). active-same w (create_notifications self type none w) i (λ d. (
      ap (λ (h : ℕ → Downtime). (h d).is_in_effect) q.heap,
      ap (λ (h : ℕ → Downtime). (h d).ref) q.heap,
      q.known,
    )) in
    record {
      depth = λ i.
          ap (λ (r : InDowntime). r.scheduled_downtime_depth) (q.items i)
          ∙ ok.depth i
          ∙ ap pos (sym (e i));
      flag = λ i.
          ap (λ (r : InDowntime). r.in_scheduled_downtime) (q.items i)
          ∙ ok.flag i
          ∙ ap (ltb 0) (sym (e i));
    }

-- Cancelling a downtime that is in effect, triggers no others and stands once in the scheduler's list
-- keeps the depth of every item the number of its downtimes in effect.
pub cancel-DepthIsCount :
    (fuel dt : ℕ) (w : World)
    → DepthIsCount w
    → Once dt w.known_downtimes
    → (w.downtimes dt).is_in_effect ≡ true
    → (w.downtimes dt).activate_me ≡ []
    → DepthIsCount (cancel (suc fuel) dt w)
unfolding cancel
cancel-DepthIsCount fuel dt w ok once effect alone = rw (cancel_one-activate_me dt w ∙ alone) (
    unfold cancel_one in
    create-DepthIsCount _ downtimecancelled _
      (close-DepthIsCount dt _ (withdraw-DepthIsCount dt w ok once effect)))

module _ (dt : ℕ) (w : World) where
  abbrev cancelled : World
  cancelled = withdraw (w.downtimes dt).ref (on_downtime dt out_of_effect w)

  created : SameDowntimes (close dt cancelled) (cancel_one dt w)
  unfolding cancel_one
  created = create-SameDowntimes (w.downtimes dt).ref downtimecancelled none (close dt cancelled)

  cancel_one-depth :
      ((cancel_one dt w).items (w.downtimes dt).ref).scheduled_downtime_depth
      ≡ (w.items (w.downtimes dt).ref).scheduled_downtime_depth +ℤ negsuc 0
  cancel_one-depth =
      let ref = (w.downtimes dt).ref in
      ap (λ (r : InDowntime). r.scheduled_downtime_depth) (created.items ref)
      ∙ (close-depth dt cancelled ref).0
      ∙ ap (λ (r : InDowntime). r.scheduled_downtime_depth)
          (withdraw-downtime ref (on_downtime dt out_of_effect w) ref)
      ∙ ground arith

  cancel_one-active :
      (i : ℕ) → (w.downtimes dt).is_in_effect ≡ false → active (cancel_one dt w) i ≡ active w i
  cancel_one-active i out =
      active-same (close dt cancelled) (cancel_one dt w) i (λ d. (
        ap (λ (h : ℕ → Downtime). (h d).is_in_effect) created.heap,
        ap (λ (h : ℕ → Downtime). (h d).ref) created.heap,
        created.known,
      ))
      ∙ active-same cancelled (close dt cancelled) i (close-heap dt cancelled)
      ∙ active-same w cancelled i (λ d. (
        ap (λ (h : ℕ → Downtime). (h d).is_in_effect) heap.0 ∙ ground arith,
        ap (λ (h : ℕ → Downtime). (h d).ref) heap.0 ∙ ground arith,
        heap.1,
      ))
    where
      heap :
          (cancelled.downtimes ≡ (on_downtime dt out_of_effect w).downtimes)
          × (cancelled.known_downtimes ≡ w.known_downtimes)
      heap = withdraw-heap (w.downtimes dt).ref (on_downtime dt out_of_effect w)

-- Cancelling a downtime that has not entered effect and triggers no others takes one off the depth
-- of its item all the same: the depth is then one less than the number of downtimes in effect.
pub cancel-pending :
    (fuel dt : ℕ) (w : World)
    → DepthIsCount w
    → (w.downtimes dt).is_in_effect ≡ false
    → (w.downtimes dt).activate_me ≡ []
    → let w' = cancel (suc fuel) dt w in
      (w'.items (w.downtimes dt).ref).scheduled_downtime_depth +ℤ pos 1
      ≡ pos (active w' (w.downtimes dt).ref)
unfolding cancel
cancel-pending fuel dt w ok out alone = rw (cancel_one-activate_me dt w ∙ alone) (
    ground (
      arith,
      cancel_one-depth dt w,
      cancel_one-active dt w (w.downtimes dt).ref out,
      ok.depth (w.downtimes dt).ref,
    ))
