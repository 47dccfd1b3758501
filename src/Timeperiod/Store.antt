-- ===== src/Timeperiod/Store.antt =====
-- The date ranges and timeperiods of a configuration as objects that the searches share: their
-- operations on the state that holds them all.
use shinken_gpt.Prelude.{ℕ, zero, suc, Option, none, some, ◌==◌, if◌then◌else◌, ◌>>=◌}
use shinken_gpt.Timeperiod.{Calendar, Daterange}
use shinken_gpt.Timeperiod.Ranges
use shinken_gpt.Timeperiod.Search
use shinken_gpt.Timeperiod.Search.{Periods, Timeperiod}

pub record Store : Type 0 where
  pub ranges : ℕ → Daterange
  pub periods : ℕ → Timeperiod

abbrev set_range : ℕ → Daterange → Store → Store
set_range i d s = record s { ranges = λ j. if j == i then d else s.ranges j }

abbrev set_period : ℕ → Timeperiod → Store → Store
set_period i p s = record s { periods = λ j. if j == i then p else s.periods j }

-- An operation of the date range with that number.
abbrev on_range :
    {A : Type 0} → (Daterange → ℕ → Option (A × Daterange)) → ℕ → ℕ → Store → Option (A × Store)
on_range op i t s = do (a, d) ← op (s.ranges i) t; some (a, set_range i d s)

-- The search for the next invalid time writes the cache of the timeperiod.
abbrev on_period :
    (Timeperiod → ℕ → Store → Option (ℕ × Timeperiod × Store)) → ℕ → ℕ → Store → Option (ℕ × Store)
on_period op i t s = do (m, p, s') ← op (s.periods i) t s; some (m, set_period i p s')

-- The operations, for timeperiods that exclude others to that depth; the fuel is for each search.
unfoldable pub periods_of : Calendar → ℕ → ℕ → Periods Store
unfolding Ranges.is_time_valid Ranges.get_min_from_t Ranges.get_next_valid_time_from_t
    Ranges.get_next_invalid_time_from_t Search.is_time_valid Search.get_next_invalid_time_from_t
periods_of c fuel zero = record {
  dr_is_time_valid = on_range (Ranges.is_time_valid c);
  dr_get_min_from_t = on_range (Ranges.get_min_from_t c);
  dr_get_next_valid_time_from_t = on_range (Ranges.get_next_valid_time_from_t c);
  dr_get_next_invalid_time_from_t = on_range (Ranges.get_next_invalid_time_from_t c);
  tp_is_time_valid = λ e t s. none;
  tp_get_next_invalid_time_from_t = λ e t s. none;
}
periods_of c fuel (suc depth) = record {
  dr_is_time_valid = on_range (Ranges.is_time_valid c);
  dr_get_min_from_t = on_range (Ranges.get_min_from_t c);
  dr_get_next_valid_time_from_t = on_range (Ranges.get_next_valid_time_from_t c);
  dr_get_next_invalid_time_from_t = on_range (Ranges.get_next_invalid_time_from_t c);
  tp_is_time_valid = λ e t s. Search.is_time_valid (periods_of c fuel depth) (s.periods e) t s;
  tp_get_next_invalid_time_from_t =
      on_period (λ p t s. Search.get_next_invalid_time_from_t (periods_of c fuel depth) fuel p t s);
}
