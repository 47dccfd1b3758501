-- ===== src/SatelliteLink/Failures.antt =====
-- A satellite is dead after `max_check_attempts` failed pings in a row, and not before.
use shinken_gpt.Prelude.{
  ℕ, ◌+◌, ◌≤◌, ◌≡◌, refl, Bool, true, false, some, List, [], ◌∷◌, if◌then◌else◌, ltb, min, length,
  All, arith,
}
use shinken_gpt.SatelliteLink.{
  SatelliteLink, Network, Answer, pong, set_alive, set_dead, add_failed_check_attempt, ping, lookup,
  insert,
}

abbrev pub is_pong : Answer → Bool
is_pong pong = true
is_pong _ = false

-- pings in a row
unfoldable pub pings : List Network → SatelliteLink → SatelliteLink
pings [] s = s
pings (net ∷ nets) s = pings nets (ping net s)

-- The link is alive as long as there were fewer failures than `max_check_attempts`.
pub record IsCounted (s : SatelliteLink) : Type 0 where
  pub some_attempts : 1 ≤ s.max_check_attempts
  pub attempts : s.attempt ≤ s.max_check_attempts
  pub alive : s.alive ≡ ltb s.attempt s.max_check_attempts

failed-IsCounted : (s : SatelliteLink) → IsCounted s → IsCounted (add_failed_check_attempt s)
unfolding add_failed_check_attempt set_dead
failed-IsCounted s h = record {
  some_attempts = ground (arith, h.some_attempts);
  attempts = ground (arith, h.attempts);
  alive = ground (arith, h.attempts, h.alive);
}

-- A ping keeps the count: the link is alive if and only if it has failed less than
-- `max_check_attempts` times since it last answered.
pub ping-IsCounted : (net : Network) (s : SatelliteLink) → IsCounted s → IsCounted (ping net s)
unfolding ping set_alive add_failed_check_attempt set_dead
ping-IsCounted net s h = record {
  some_attempts = ground (arith, h.some_attempts);
  attempts = ground (arith, h.attempts);
  alive = ground (arith, h.some_attempts, h.attempts, h.alive);
}

ping-fails :
    (net : Network) (s : SatelliteLink)
    → is_pong net.answer ≡ false
    → let s' = ping net s in
      (s'.attempt ≡ min (s.attempt + 1) s.max_check_attempts)
      × (s'.max_check_attempts ≡ s.max_check_attempts)
unfolding ping add_failed_check_attempt set_dead
ping-fails net s h = (ground (arith, h), ground (arith, h))

pings-fails :
    (nets : List Network) (s : SatelliteLink)
    → IsCounted s
    → All (λ net. is_pong net.answer ≡ false) nets
    → let s' = pings nets s in
      IsCounted s'
      × (s'.attempt ≡ min (s.attempt + length nets) s.max_check_attempts)
      × (s'.max_check_attempts ≡ s.max_check_attempts)
unfolding pings
pings-fails [] s h k = (h, ground (arith, h.attempts), refl)
pings-fails (net ∷ nets) s h (k, ks) =
    let p = ping-fails net s k in
    let q = pings-fails nets (ping net s) (ping-IsCounted net s h) ks in
    (q.0, ground (arith, p, q.1), ground (arith, p, q.2))

-- Let a link be alive if and only if its attempts are below `max_check_attempts`, which is at least 1
-- and which they do not exceed, as at the start. After pings that all fail, it is alive if and only
-- if they are, with the attempts before, fewer than `max_check_attempts`.
pub pings-dead :
    (nets : List Network) (s : SatelliteLink)
    → IsCounted s
    → All (λ net. is_pong net.answer ≡ false) nets
    → (pings nets s).alive ≡ ltb (s.attempt + length nets) s.max_check_attempts
pings-dead nets s h k = let p = pings-fails nets s h k in ground (arith, p.0.alive, p.1, p.2)

-- A ping adds a brok if and only if it changes whether the link is alive.
pub ping-broks :
    (net : Network) (s : SatelliteLink)
    → let s' = ping net s in
      if s.alive
      then s'.broks ≡ (if s'.alive then s.broks else s.broks + 1)
      else s'.broks ≡ (if s'.alive then s.broks + 1 else s.broks)
unfolding ping set_alive add_failed_check_attempt set_dead
ping-broks net s = ground arith

lookup-insert : (k v : ℕ) (m : List (ℕ × ℕ)) → lookup k (insert k v m) ≡ some v
unfolding lookup insert
lookup-insert k v [] = ground arith
lookup-insert k v ((j, u) ∷ rest) = ground (arith, lookup-insert k v rest)
