-- ===== src/SchedulingItem/Attempts/Run.antt =====
-- The bound on the attempt number in the machine of attempts, and the outcome of a failure.
use shinken_gpt.Prelude.{ℕ, ◌≤◌, Bool, true, false, arith}
use shinken_gpt.SchedulingItem.Types.{Tries}
use shinken_gpt.SchedulingItem.Attempts.{Outcome, step_ok, step_bad, step}

-- A result leaves the attempt number at most `max_check_attempts`, if that is at least 1.
pub step-bound :
    (o : Outcome) (max_attempts : ℕ) (t : Tries)
    → 1 ≤ max_attempts
    → t.attempt ≤ max_attempts
    → (step o max_attempts t).attempt ≤ max_attempts
unfolding step step_ok step_bad
step-bound o max_attempts t h k = ground arith

-- a bad active result of an item that is not volatile
abbrev pub failure : Bool → Outcome
failure after_ok = record {
  bad = true;
  after_ok = after_ok;
  after_pending = false;
  volatile = false;
  dependent = false;
}
