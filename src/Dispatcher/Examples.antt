-- ===== src/Dispatcher/Examples.antt =====
-- The theorems on the dispatch, at two configurations, two schedulers and two brokers.
use shinken_gpt.Prelude.{
  ◌≡◌, refl, true, false, not, none, some, [], ◌∷◌, ◌==◌, All, contains, ◌+◌, map, arith,
}
use shinken_gpt.SatelliteLink.{SatelliteLink, pong, dict}
use shinken_gpt.Dispatcher.{
  Dispatcher, SchedulerLink, Realm, Pushes, News, has_none, check_dispatch, fail_push, record_push,
  dispatch_realm, get_scheduler_ordered_list, turn,
}
use shinken_gpt.Dispatcher.Brokers.{order_brokers, order_brokers-drops_first}
use shinken_gpt.Dispatcher.Matching.{IsMatched}
use shinken_gpt.Dispatcher.Changes.{IsSettled}
use shinken_gpt.Dispatcher.Checked.{check_dispatch-IsSettled}
use shinken_gpt.Dispatcher.Placed.{IsReady, IsSound}
use shinken_gpt.Dispatcher.Assigned.{dispatch_realm-assigns}
use shinken_gpt.Dispatcher.Rounds.{turn-IsSound}

abbrev fresh_link : SatelliteLink
fresh_link = record {
  max_check_attempts = 3;
  check_interval = 60;
  alive = true;
  reachable = true;
  attempt = 0;
  has_con = true;
  last_check = 0;
  broks = 0;
  managed_confs = [];
}

abbrev fresh_scheduler : SchedulerLink
fresh_scheduler = record {
  link = fresh_link;
  spare = false;
  need_conf = true;
  conf = none;
  push_flavor = 0;
}

abbrev fresh : Dispatcher
fresh = record {
  schedulers = λ s. fresh_scheduler;
  confs = λ c. record { is_assigned = false; assigned_to = none; push_flavor = 0 };
  to_satellites = λ c. record { scheduler = none; need_dispatch = false; managed_by = [] };
  dispatch_ok = false;
  first_dispatch_done = false;
}

abbrev realm : Realm
realm = record { confs = 0 ∷ 1 ∷ []; schedulers = 10 ∷ 11 ∷ []; higher_schedulers = [] }

-- Everyone answers, and the first push to scheduler 10 fails.
abbrev news : News
news = record { network = λ s. record { connects = true; answer = pong }; managed = λ s. dict [] }

abbrev pushes : Pushes
pushes = record { flavor = λ c s. 100 + c; is_sent = λ c s. not (s == 10) }

fresh-IsMatched : IsMatched fresh
fresh-IsMatched = record { held = λ c s h. cc; given = λ s c h. cc; flagged = λ c. refl }

fresh-IsSound : IsSound (0 ∷ 1 ∷ []) fresh
fresh-IsSound = record {
  matched = fresh-IsMatched;
  ready = record { free = λ s n. refl };
  covered = record { known = λ c s h. cc };
}

check_dispatch-IsSettled_example :
    IsMatched (check_dispatch (0 ∷ 1 ∷ []) fresh)
    × All (IsSettled (check_dispatch (0 ∷ 1 ∷ []) fresh)) (0 ∷ 1 ∷ [])
check_dispatch-IsSettled_example = check_dispatch-IsSettled (0 ∷ 1 ∷ []) fresh fresh-IsMatched

turn-IsSound_example :
    IsSound (0 ∷ 1 ∷ []) (turn 60 news pushes (realm ∷ []) (0 ∷ 1 ∷ []) (10 ∷ 11 ∷ []) fresh)
turn-IsSound_example =
    turn-IsSound 60 news pushes (realm ∷ []) (0 ∷ 1 ∷ []) (10 ∷ 11 ∷ []) fresh (refl, (refl, tt))
      (((refl, (refl, tt)), (refl, (refl, tt))), tt) fresh-IsSound

-- Configuration 0 goes to scheduler 11, and none is left for configuration 1.
first_turn :
    map
      (λ c.
        ((turn 60 news pushes (realm ∷ []) (0 ∷ 1 ∷ []) (10 ∷ 11 ∷ []) fresh).confs c).assigned_to)
      (0 ∷ 1 ∷ [])
    ≡ some 11 ∷ none ∷ []
unfolding turn fail_push record_push
first_turn = refl

-- Of the brokers 0 and 1, and the spare 2, only 1 and the spare are tried for configuration 1.
order_brokers-drops_first_example :
    contains 0 (order_brokers false (λ b. b == 2) 1 (0 ∷ 1 ∷ 2 ∷ [])) ≡ false
order_brokers-drops_first_example =
    order_brokers-drops_first (λ b. b == 2) 1 0 (1 ∷ []) (0 ∷ 1 ∷ 2 ∷ []) refl refl refl refl

fresh-IsReady : IsReady fresh
fresh-IsReady = record { free = λ s n. refl }

dispatch_realm-assigns_example :
    All
      (λ c.
        has_none
          ((dispatch_realm (record pushes { is_sent = λ c s. true }) realm fresh).confs
            c).assigned_to
        ≡ false)
      (0 ∷ 1 ∷ [])
unfolding get_scheduler_ordered_list
dispatch_realm-assigns_example =
    dispatch_realm-assigns (record pushes { is_sent = λ c s. true }) realm fresh (λ c s. refl)
      (refl, (refl, tt)) (refl, (refl, tt)) (omega arith) fresh-IsMatched fresh-IsReady
