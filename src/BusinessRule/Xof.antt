-- ===== src/BusinessRule/Xof.antt =====
-- What a simple rule `K of: ...` means.
use shinken_gpt.Prelude.{
  >>=-eq-some, ℕ, zero, suc, ◌+◌, ◌≤◌, ◌<◌, ◌≡◌, ◌↔◌, false, some, List, [], ◌∷◌, arith, length,
  count_if, ◌==◌, if◌then◌else◌,
}
use shinken_gpt.Prelude.Int.{pos}
use shinken_gpt.BusinessRule.{
  Nodes, node, nil, cons, Percent, OfValues, xof, number, max_of, worst_state,
  get_complex_xof_node_state, get_state, get_states,
}
use shinken_gpt.BusinessRule.Elements.{count_sons, switch_zeros_of_values}

-- "K of:" as `eval_xof_pattern` reads it
abbrev pub k_of : ℕ → OfValues
k_of k = record { ok = number (pos k); warn = number (pos 0); crit = number (pos 0) }

nb : ℕ → List ℕ → ℕ
nb k = count_if (λ s. s == k)

counts-le : (ss : List ℕ) → nb 0 ss + nb 1 ss + nb 2 ss ≤ length ss
unfolding nb
counts-le [] = omega arith
counts-le (s ∷ ss) = ground (arith, counts-le ss)

max_of-zero : (s : ℕ) (ss : List ℕ) → max_of s ss ≡ 0 → nb 0 (s ∷ ss) ≡ suc (length ss)
unfolding max_of nb
max_of-zero s [] h = ground arith
max_of-zero s (t ∷ ts) h = ground (arith, max_of-zero t ts)

worst_state-zero : (ss : List ℕ) → worst_state ss ≡ some 0 → nb 0 ss ≡ length ss
unfolding worst_state nb
worst_state-zero [] h = cc
worst_state-zero (s ∷ ss) h = ground (arith, max_of-zero s ss)

module _ (float : Percent) where
  -- the thresholds of "K of:" after `switch_zeros_of_values`, for n sons
  k_of-states :
      (k : ℕ) (s : ℕ) (ss : List ℕ)
      → let n = length (s ∷ ss) in
        0 < k
        → k ≤ n
        → (get_complex_xof_node_state float false false
              (record { ok = number (pos k); warn = number (pos n); crit = number (pos n) })
              (s ∷ ss)
            ≡ some 0)
          ↔ (k ≤ nb 0 (s ∷ ss))
  unfolding get_complex_xof_node_state nb
  k_of-states k s ss hk hn = (
    ground (arith, counts-le (s ∷ ss), worst_state-zero (s ∷ ss)),
    ground (arith, counts-le (s ∷ ss)),
  )

length-get_states :
    (float : Percent) (hard : ℕ → ℕ) (ns : Nodes) (ss : List ℕ)
    → get_states float hard ns ≡ some ss
    → length ss ≡ count_sons ns
unfolding get_state count_sons
length-get_states float hard nil ss h = ground arith
length-get_states float hard (cons n ns) ss h =
    let (x, first, e1) = >>=-eq-some (get_state float hard n) _ h in
    let (xs, rest, e2) = >>=-eq-some (get_states float hard ns) _ e1 in
    ground (arith, length-get_states float hard ns xs rest)

k_of-node :
    (float : Percent) (k n : ℕ) (ss : List ℕ)
    → 0 < k
    → k ≤ n
    → length ss ≡ n
    → (get_complex_xof_node_state float false false
          (record { ok = number (pos k); warn = number (pos n); crit = number (pos n) })
          ss
        ≡ some 0)
      ↔ (k ≤ nb 0 ss)
k_of-node float k n [] hk hn e = absurd (omega arith)
k_of-node float k n (s ∷ ss) hk hn e = rw (← e) (k_of-states float k s ss hk (omega arith))

-- A rule `K of:` over at least K sons whose states are `ss`, with K above 0, is OK exactly when at
-- least K of its sons are OK.
pub k_of-ok :
    (float : Percent) (hard : ℕ → ℕ) (k : ℕ) (ns : Nodes) (ss : List ℕ)
    → 0 < k
    → k ≤ count_sons ns
    → get_states float hard ns ≡ some ss
    → (get_state float hard (switch_zeros_of_values (node xof false false (k_of k) ns)) ≡ some 0)
      ↔ (k ≤ count_if (λ s. s == 0) ss)
unfolding get_state switch_zeros_of_values nb
k_of-ok float hard zero ns ss hk hn e = absurd (omega arith)
k_of-ok float hard (suc k) ns ss hk hn e =
    rw (e, unswitched)
      (k_of-node float (suc k) (count_sons ns) ss hk hn (length-get_states float hard ns ss e))
  where
    unswitched :
        (if suc k == 0 then number (pos (count_sons ns)) else number (pos (suc k)))
        ≡ number (pos (suc k))
    unswitched = ground arith
