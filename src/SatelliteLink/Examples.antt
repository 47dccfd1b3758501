-- ===== src/SatelliteLink/Examples.antt =====
-- The theorem on failed pings, with a scheduler that stops to answer.
use shinken_gpt.Prelude.{◌≡◌, refl, true, false, [], ◌∷◌, arith}
use shinken_gpt.SatelliteLink.{SatelliteLink, Network, other_text, http_exception}
use shinken_gpt.SatelliteLink.Failures.{IsCounted, pings, pings-dead}

abbrev the_link : SatelliteLink
the_link = record {
  max_check_attempts = 3;
  check_interval = 60;
  alive = true;
  reachable = true;
  attempt = 1;
  has_con = true;
  last_check = 900;
  broks = 0;
  managed_confs = [];
}

abbrev silent : Network
silent = record { connects = true; answer = http_exception }

abbrev confused : Network
confused = record { connects = true; answer = other_text }

the_link-IsCounted : IsCounted the_link
the_link-IsCounted = record { some_attempts = ground arith; attempts = ground arith; alive = refl }

pings-dead_example : (pings (silent ∷ confused ∷ []) the_link).alive ≡ false
pings-dead_example =
    pings-dead (silent ∷ confused ∷ []) the_link the_link-IsCounted (refl, (refl, tt))
