-- ===== src/Timeperiod/Hours.antt =====
-- The next start among the hours of a date range.
use shinken_gpt.Prelude.{
  ℕ, ◌≤◌, ◌<◌, ◌≡◌, ◌⊎◌, inl, inr, true, false, Option, none, some, List, [], ◌∷◌, ◌==◌, leb, min,
  min_list, arith, All, any, Bool-cases, ==_iff, leb→le,
}
use shinken_gpt.Timeperiod.{Calendar, Timerange, Daterange, get_sec_from_morning}
use shinken_gpt.Timeperiod.Ranges.{start_sec, starts_from, get_next_future_timerange_valid}

-- The least start of a range of hours that is not before a second of the day, if there is one.
pub data LeastStart (sec : ℕ) (trs : List Timerange) : Option ℕ → Type 0 where
  all_started : All (λ tr. start_sec tr < sec) trs → LeastStart sec trs none
  starts_at :
      (m : ℕ)
      → sec ≤ m
      → any (λ tr. start_sec tr == m) trs ≡ true
      → All (λ tr. (start_sec tr < sec) ⊎ (m ≤ start_sec tr)) trs
      → LeastStart sec trs (some m)

weaken :
    (sec m n : ℕ) (trs : List Timerange)
    → m ≤ n
    → All (λ tr. (start_sec tr < sec) ⊎ (n ≤ start_sec tr)) trs
    → All (λ tr. (start_sec tr < sec) ⊎ (m ≤ start_sec tr)) trs
weaken sec m n [] h a = tt
weaken sec m n (tr ∷ trs) h (inl b, a) = (inl b, weaken sec m n trs h a)
weaken sec m n (tr ∷ trs) h (inr b, a) = (inr (omega arith), weaken sec m n trs h a)

started :
    (sec m : ℕ) (trs : List Timerange)
    → All (λ tr. start_sec tr < sec) trs
    → All (λ tr. (start_sec tr < sec) ⊎ (m ≤ start_sec tr)) trs
started sec m [] a = tt
started sec m (tr ∷ trs) (b, a) = (inl b, started sec m trs a)

abbrev min_with : ℕ → Option ℕ → Option ℕ
min_with x none = some x
min_with x (some m) = some (min x m)

before-LeastStart :
    (sec : ℕ) (tr : Timerange) (trs : List Timerange) (r : Option ℕ)
    → leb sec (start_sec tr) ≡ false
    → LeastStart sec trs r
    → LeastStart sec (tr ∷ trs) r
before-LeastStart sec tr trs none h (all_started a) = all_started (ground arith, a)
before-LeastStart sec tr trs (some m) h (starts_at _ le e a) =
    starts_at m le (ground arith) (inl (ground arith), a)

from-LeastStart :
    (sec : ℕ) (tr : Timerange) (trs : List Timerange) (r : Option ℕ)
    → sec ≤ start_sec tr
    → LeastStart sec trs r
    → LeastStart sec (tr ∷ trs) (min_with (start_sec tr) r)
from-LeastStart sec tr trs none h (all_started a) =
    starts_at (start_sec tr) h (ground (arith, ==_iff (start_sec tr) (start_sec tr)))
      (inr (omega arith), started sec (start_sec tr) trs a)
from-LeastStart sec tr trs (some m) h (starts_at _ le e a) =
    elim (Bool-cases (leb (start_sec tr) m)) [
      | inl l ↦
          let near = leb→le (start_sec tr) m l in
          let same : min (start_sec tr) m ≡ start_sec tr = omega arith in
          rw same (
            starts_at (start_sec tr) h (ground (arith, ==_iff (start_sec tr) (start_sec tr)))
              (inr (omega arith), weaken sec (start_sec tr) m trs near a))
      | inr l ↦
          let far : m ≤ start_sec tr = ground arith in
          let same : min (start_sec tr) m ≡ m = omega arith in
          rw same (starts_at m le (ground arith) (inr far, a))
    ]

min_list-starts :
    (sec : ℕ) (tr : Timerange) (trs : List Timerange)
    → leb sec (start_sec tr) ≡ true
    → min_list (starts_from sec (tr ∷ trs))
      ≡ min_with (start_sec tr) (min_list (starts_from sec trs))
unfolding min_list starts_from
min_list-starts sec tr trs h = ground arith

starts_from-LeastStart :
    (sec : ℕ) (trs : List Timerange) → LeastStart sec trs (min_list (starts_from sec trs))
unfolding min_list starts_from
starts_from-LeastStart sec [] = all_started tt
starts_from-LeastStart sec (tr ∷ trs) = elim (Bool-cases (leb sec (start_sec tr))) [
  | inl h ↦ rw (min_list-starts sec tr trs h) (
      from-LeastStart sec tr trs (min_list (starts_from sec trs)) (leb→le _ _ h)
        (starts_from-LeastStart sec trs))
  | inr h ↦ rw h (
      before-LeastStart sec tr trs (min_list (starts_from sec trs)) h
        (starts_from-LeastStart sec trs))
]

-- The next start of hours is the least one that is not before the second of the day of t, and
-- there is none exactly when all the hours have started before.
pub get_next_future_timerange_valid-LeastStart :
    (c : Calendar) (d : Daterange) (t : ℕ)
    → LeastStart (get_sec_from_morning c t) d.timeranges (get_next_future_timerange_valid c d t)
unfolding get_next_future_timerange_valid
get_next_future_timerange_valid-LeastStart c d t =
    starts_from-LeastStart (get_sec_from_morning c t) d.timeranges
