-- ===== src/SchedulingItem/Attempts.antt =====
-- The attempts of an item as a small machine of their own: what a result does to the attempt number
-- and the state type, apart from the world that `consume_state_result` works on.
mod Sets
pub mod React
pub mod Launch
mod Numbers
pub mod Parts
pub mod Stages
pub mod Consumes
pub mod Others
pub mod Run
pub mod Results
mod Examples
use shinken_gpt.Prelude.{ℕ, ◌+◌, min, Bool, not, ◌&&◌, ◌||◌, if◌then◌else◌, leb}
use shinken_gpt.SchedulingItem.Types.{Tries, soft, hard}
use shinken_gpt.SchedulingItem.Blocked.{is_soft}

-- What counts of a result and of the item that gets it.
pub record Outcome : Type 0 where
  -- not OK
  pub bad : Bool
  -- the state before was OK, or was PENDING
  pub after_ok : Bool
  pub after_pending : Bool
  -- of a volatile service
  pub volatile : Bool
  -- the result comes from a check that another check asked for
  pub dependent : Bool

-- HARD from the last attempt on
abbrev pub typed : ℕ → ℕ → Tries → Tries
typed max_attempts a t = record t {
  attempt = a;
  state_type = if leb max_attempts a then hard else soft;
}

-- the first attempt, of a HARD state
abbrev pub rested : Tries → Tries
rested t = record t { attempt = 1; state_type = hard }

unfoldable pub step_ok : Outcome → ℕ → Tries → Tries
step_ok o max_attempts t =
    if is_soft t.state_type && o.after_ok && not o.after_pending
    then typed max_attempts t.attempt t
    else rested t

unfoldable pub step_bad : Outcome → ℕ → Tries → Tries
step_bad o max_attempts t =
    if o.volatile
    then rested t
    else if o.after_ok || o.after_pending
    then (if leb max_attempts t.attempt
        then record t { state_type = hard }
        else record t { attempt = 1; state_type = soft })
    else if is_soft t.state_type
    then typed max_attempts (if o.dependent then t.attempt else min (t.attempt + 1) max_attempts) t
    else t

unfoldable pub step : Outcome → ℕ → Tries → Tries
unfolding step_ok step_bad
step o max_attempts t = if o.bad then step_bad o max_attempts t else step_ok o max_attempts t
