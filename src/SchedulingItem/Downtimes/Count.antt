-- ===== src/SchedulingItem/Downtimes/Count.antt =====
-- `scheduled_downtime_depth` counts the downtimes in effect.
use shinken_gpt.Prelude.{
  ℕ, suc, ◌≡◌, ◌≢◌, refl, Bool, true, false, ◌&&◌, List, [], ◌∷◌, ◌==◌, if◌then◌else◌, ltb,
  count_if, contains, ◌⊎◌, arith, sym, Bool-cases, inl, inr, ==_iff,
}
use shinken_gpt.Prelude.Int.{pos}
use shinken_gpt.SchedulingItem.World.{World}

abbrev pub in_effect_for : World → ℕ → ℕ → Bool
in_effect_for w i d = (w.downtimes d).is_in_effect && (w.downtimes d).ref == i

-- the number of downtimes of an item that are in effect
abbrev pub active : World → ℕ → ℕ
active w i = count_if (in_effect_for w i) w.known_downtimes

-- the id stands once in the list
abbrev pub Once : ℕ → List ℕ → Type 0
Once d [] = ⊥
Once d (x ∷ xs) = ((x ≡ d) × (contains d xs ≡ false)) ⊎ ((x ≢ d) × Once d xs)

pub same_everywhere :
    (p q : ℕ → Bool) → ((x : ℕ) → p x ≡ q x) → (ds : List ℕ) → count_if q ds ≡ count_if p ds
same_everywhere p q h [] = refl
same_everywhere p q h (x ∷ xs) = ground (arith, same_everywhere p q h xs, h x)

module _ (p q : ℕ → Bool) (d : ℕ) (others : (x : ℕ) → x ≢ d → p x ≡ q x) where
  same_count : (ds : List ℕ) → contains d ds ≡ false → count_if p ds ≡ count_if q ds
  same_count [] h = refl
  same_count (x ∷ xs) h = ground (arith, same_count xs, others x)

  one_more :
      (ds : List ℕ) → Once d ds → p d ≡ false → q d ≡ true → count_if q ds ≡ suc (count_if p ds)
  one_more [] h e e' = absurd h
  one_more (x ∷ xs) (inl h) e e' = ground (arith, same_count xs h.1)
  one_more (x ∷ xs) (inr h) e e' = ground (arith, one_more xs h.1 e e', others x h.0)

-- The depth of every item is the number of its downtimes in effect, and the item is marked as in a
-- downtime exactly while that is not 0.
pub record DepthIsCount (w : World) : Type 0 where
  pub depth : (i : ℕ) → (w.items i).scheduled_downtime_depth ≡ pos (active w i)
  pub flag : (i : ℕ) → (w.items i).in_scheduled_downtime ≡ ltb 0 (active w i)

-- one downtime enters effect, or leaves it, and nothing else about the downtimes changes
pub active-rise :
    (w w' : World) (dt i : ℕ)
    → w'.known_downtimes ≡ w.known_downtimes
    → ((d : ℕ) → (w'.downtimes d).ref ≡ (w.downtimes d).ref)
    → ((d : ℕ)
        → (w'.downtimes d).is_in_effect ≡ (if d == dt then true else (w.downtimes d).is_in_effect))
    → Once dt w.known_downtimes
    → (w.downtimes dt).is_in_effect ≡ false
    → active w' i ≡ (if i == (w.downtimes dt).ref then suc (active w i) else active w i)
active-rise w w' dt i known refs effects once out =
    rw known (elim (Bool-cases (i == (w.downtimes dt).ref)) [
      | inl mine ↦ rw mine (
          one_more _ _ dt (λ x ne. ground (arith, refs x, effects x)) w.known_downtimes once
            (ground arith) (ground (arith, refs dt, effects dt)))
      | inr other ↦ rw other (
          sym (
            same_everywhere _ _ (λ x. ground (arith, refs x, effects x, ==_iff x dt))
              w.known_downtimes))
    ])

pub active-fall :
    (w w' : World) (dt i : ℕ)
    → w'.known_downtimes ≡ w.known_downtimes
    → ((d : ℕ) → (w'.downtimes d).ref ≡ (w.downtimes d).ref)
    → ((d : ℕ)
        → (w'.downtimes d).is_in_effect ≡ (if d == dt then false else (w.downtimes d).is_in_effect))
    → Once dt w.known_downtimes
    → (w.downtimes dt).is_in_effect ≡ true
    → active w i ≡ (if i == (w.downtimes dt).ref then suc (active w' i) else active w' i)
active-fall w w' dt i known refs effects once out =
    rw known (elim (Bool-cases (i == (w.downtimes dt).ref)) [
      | inl mine ↦ rw mine (
          one_more _ _ dt (λ x ne. ground (arith, refs x, effects x)) w.known_downtimes once
            (ground (arith, refs dt, effects dt)) (ground arith))
      | inr other ↦ rw other (
          sym (
            same_everywhere _ _ (λ x. ground (arith, refs x, effects x, ==_iff x dt))
              w.known_downtimes))
    ])

-- the downtimes and their effects are those of before
pub active-same :
    (w w' : World) (i : ℕ)
    → ((d : ℕ)
        → ((w'.downtimes d).is_in_effect ≡ (w.downtimes d).is_in_effect)
          × ((w'.downtimes d).ref ≡ (w.downtimes d).ref)
          × (w'.known_downtimes ≡ w.known_downtimes))
    → active w' i ≡ active w i
active-same w w' i h = rw (h 0).2 (same_everywhere _ _ (λ x. ground (arith, h x)) w.known_downtimes)
