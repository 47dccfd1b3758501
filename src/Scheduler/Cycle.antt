-- ===== src/Scheduler/Cycle.antt =====
-- A turn of `consume_results` and `delete_zombie_checks`: every result is consumed.
use shinken_gpt.Prelude.{ℕ, ◌≡◌, Bool, true, false, not, ◌&&◌, some, List, [], ◌∷◌, arith, All}
use shinken_gpt.SchedulingItem.World.{World, Check}
use shinken_gpt.Scheduler.{Scheduler, consume_those, has_result, waits_for_nobody, resolve}
use shinken_gpt.Scheduler.Links.{is_linked}
use shinken_gpt.Scheduler.Passes.{Passes}
use shinken_gpt.Scheduler.Loop.{
  All-known, All-known-grows, has_result-IsWaitTest, waits_for_nobody-IsWaitTest, All-stay_out,
  consume_those-Passes, consume_those-out,
}
use shinken_gpt.Scheduler.Resolve.{Resolves, resolve-found}
use shinken_gpt.Scheduler.Put.{is_ready}

-- a check that `consume_results` has nothing to do with
abbrev pub is_settled : Check → Bool
is_settled c = not (has_result c) && not (waits_for_nobody c)

abbrev All-linked : World → List ℕ → Type 0
All-linked w = All (λ c. is_linked w c ≡ true)

ready-known : (w : World) (cs : List ℕ) → All (λ c. is_ready w c ≡ true) cs → All-known w cs
ready-known w [] h = tt
ready-known w (c ∷ cs) (h, hs) = (ground (arith, h), ready-known w cs hs)

ready-linked : (w : World) (cs : List ℕ) → All (λ c. is_ready w c ≡ true) cs → All-linked w cs
ready-linked w [] h = tt
ready-linked w (c ∷ cs) (h, hs) = (ground (arith, h), ready-linked w cs hs)

linked-Passes :
    {w w' : World}
    → Passes w w'
    → (cs : List ℕ) → All-known w cs
    → All-linked w cs
    → All-linked w' cs
linked-Passes p [] h k = tt
linked-Passes p (c ∷ cs) (h, hs) (k, ks) = (p.linked c h k, linked-Passes p cs hs ks)

linked-Resolves :
    {w w' : World} → Resolves w w' → (cs : List ℕ) → All-linked w cs → All-linked w' cs
linked-Resolves r [] k = tt
linked-Resolves r (c ∷ cs) (k, ks) = (r.linked c k, linked-Resolves r cs ks)

no_result-Resolves :
    {w w' : World}
    → Resolves w w'
    → (cs : List ℕ) → All (λ c. has_result (w.checks c) ≡ false) cs
    → All (λ c. has_result (w'.checks c) ≡ false) cs
no_result-Resolves r [] k = tt
no_result-Resolves r (c ∷ cs) (k, ks) = (ground (arith, k, r.status c), no_result-Resolves r cs ks)

settled-All :
    (w : World) (cs : List ℕ)
    → All (λ c. has_result (w.checks c) ≡ false) cs
    → All (λ c. waits_for_nobody (w.checks c) ≡ false) cs
    → All (λ c. is_settled (w.checks c) ≡ true) cs
settled-All w [] h k = tt
settled-All w (c ∷ cs) (h, hs) (k, ks) = (ground (arith, h, k), settled-All w cs hs ks)

-- the loops, on checks that are ready
module _ (fuel : ℕ) (cs : List ℕ) (w : World) where
  pub loops :
      All (λ c. is_ready w c ≡ true) cs
      → (w3 : World) × (let w' = consume_those waits_for_nobody fuel cs w3 in
          (resolve cs (consume_those has_result fuel cs w) ≡ some w3)
          × All (λ c. is_settled (w'.checks c) ≡ true) cs
          × All-known w' cs
          × All-linked w' cs)
  loops h =
      let known = ready-known w cs h in
      let w2 = consume_those has_result fuel cs w in
      let p2 = consume_those-Passes has_result-IsWaitTest fuel cs w known in
      let known2 = All-known-grows w w2 cs p2.next_id known in
      let linked2 = linked-Passes p2 cs known (ready-linked w cs h) in
      let (w3, found, r, _) = resolve-found cs w2 linked2 in
      let known3 = All-known-grows w2 w3 cs (ground (arith, r.next_id)) known2 in
      let linked3 = linked-Resolves r cs linked2 in
      let none3 =
        no_result-Resolves r cs (consume_those-out has_result-IsWaitTest fuel cs w known) in
      let w4 = consume_those waits_for_nobody fuel cs w3 in
      let p4 = consume_those-Passes waits_for_nobody-IsWaitTest fuel cs w3 known3 in
      (
        w3,
        (
          found,
          settled-All w4 cs (All-stay_out has_result-IsWaitTest p4 cs known3 none3)
              (consume_those-out waits_for_nobody-IsWaitTest fuel cs w3 known3),
          All-known-grows w3 w4 cs p4.next_id known3,
          linked-Passes p4 cs known3 linked3,
        ),
      )
