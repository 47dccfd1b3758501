-- ===== src/Dispatcher/Brokers.antt =====
-- The order in which the brokers of a realm are tried for a configuration (shinken/dispatcher.py,
-- in dispatch). The brokers are numbers.
use shinken_gpt.Prelude.{
  ℕ, zero, suc, ◌-◌, ◌%◌, ◌≡◌, refl, ap, ◌∙◌, Bool, false, not, ◌||◌, List, [], ◌∷◌, ◌++◌, ◌==◌,
  if◌then◌else◌, contains, keep, length, arith, contains-keep,
}

-- xs[n:] and xs[:n]
drop : ℕ → List ℕ → List ℕ
drop n [] = []
drop zero (x ∷ xs) = x ∷ xs
drop (suc n) (x ∷ xs) = drop n xs

take : ℕ → List ℕ → List ℕ
take n [] = []
take zero (x ∷ xs) = []
take (suc n) (x ∷ xs) = x ∷ take n xs

-- The end of the slice [: -idx + 1] of a list of that length.
abbrev slice_end : ℕ → ℕ → ℕ
slice_end n idx = if idx == 0 then 1 else if idx == 1 then 0 else n - (idx - 1)

append_new : List ℕ → List ℕ → List ℕ
append_new new [] = new
append_new new (b ∷ bs) = append_new (if contains b new then new else new ++ b ∷ []) bs

unfoldable pub rotate_brokers : ℕ → List ℕ → List ℕ
unfolding drop take append_new
rotate_brokers idx nospare =
    append_new (drop idx nospare) (take (slice_end (length nospare) idx) nospare)

-- The brokers that are alive and reachable, sorted, in the order of the dispatch.
unfoldable pub order_brokers : Bool → (ℕ → Bool) → ℕ → List ℕ → List ℕ
unfolding rotate_brokers
order_brokers broker_complete_links is_spare cfg_id brokers =
    let nospare = keep (λ b. not (is_spare b)) brokers in
    let rotated = rotate_brokers (cfg_id % length nospare) nospare ++ keep is_spare brokers in
    if broker_complete_links || length nospare == 0 then brokers else rotated

contains-append :
    (a : ℕ) (xs ys : List ℕ) → contains a (xs ++ ys) ≡ (contains a xs || contains a ys)
contains-append a [] ys = refl
contains-append a (x ∷ xs) ys = ground (arith, contains-append a xs ys)

rotate_one : (b : ℕ) (bs : List ℕ) → rotate_brokers 1 (b ∷ bs) ≡ bs
unfolding rotate_brokers
rotate_one b [] = refl
rotate_one b (x ∷ xs) = refl

-- In a realm without complete links of brokers, a broker that is no spare is not tried at all for
-- a configuration whose number leaves 1 when it is divided by the number of such brokers, if it is
-- the first of two or more of them and is in the list once.
pub order_brokers-drops_first :
    (is_spare : ℕ → Bool) (cfg_id b : ℕ) (bs brokers : List ℕ)
    → keep (λ x. not (is_spare x)) brokers ≡ b ∷ bs
    → contains b bs ≡ false
    → is_spare b ≡ false
    → cfg_id % length (b ∷ bs) ≡ 1
    → contains b (order_brokers false is_spare cfg_id brokers) ≡ false
unfolding order_brokers
order_brokers-drops_first is_spare cfg_id b bs brokers e fresh main idx =
    let ns = keep (λ x. not (is_spare x)) brokers in
    let many : (length ns == 0) ≡ false = rw e (ground arith) in
    let turned : rotate_brokers (cfg_id % length ns) ns ≡ bs = rw e (rw idx (rotate_one b bs)) in
    let spares : contains b (keep is_spare brokers) ≡ false =
      contains-keep is_spare b brokers ∙ ground (arith, main) in
    ap
      (λ t.
        contains b
          (if t then brokers else rotate_brokers (cfg_id % length ns) ns ++ keep is_spare brokers))
      many
    ∙ ap (λ l. contains b (l ++ keep is_spare brokers)) turned
    ∙ contains-append b bs (keep is_spare brokers)
    ∙ ground (arith, fresh, spares)
