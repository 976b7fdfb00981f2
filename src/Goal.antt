-- ===== src/Goal.antt =====
-- finskillos/goal/goal_tracker.py: the progress towards the goal.
pub mod Progress
use fin_skill_os.Prelude.{ℕ, Bool, true, false, Result, ok, err, value_error, ◌>>=◌, if◌then◌else◌}
use fin_skill_os.Decimal.{Decimal, decimal, at_most, at_least, less, minus, times, divide, quantize}

pub data GoalMode : Type 0 where
  growth balanced protection completion_guard challenge_complete : GoalMode

abbrev pub threshold_balanced : Decimal
threshold_balanced = decimal 5 1

abbrev pub threshold_protection : Decimal
threshold_protection = decimal 8 1

abbrev pub threshold_completion_guard : Decimal
threshold_completion_guard = decimal 95 2

abbrev pub threshold_challenge_complete : Decimal
threshold_challenge_complete = decimal 10 1

pub record GoalStatus : Type 0 where
  pub current_value : Decimal
  pub target_value : Decimal
  pub progress_ratio : Decimal
  pub progress_pct : Decimal
  pub remaining_value : Decimal
  pub goal_mode : GoalMode
  pub early_stop_triggered : Bool

unfoldable pub goal_mode_for : Decimal → GoalMode
goal_mode_for progress_ratio =
    if at_least progress_ratio threshold_challenge_complete
    then GoalMode.challenge_complete
    else if at_least progress_ratio threshold_completion_guard
    then GoalMode.completion_guard
    else if at_least progress_ratio threshold_protection
    then GoalMode.protection
    else if at_least progress_ratio threshold_balanced
    then GoalMode.balanced
    else GoalMode.growth

-- `max(a, b)` and `min(a, b)` of two decimals; of equals the first stays.
abbrev pub max_of : Decimal → Decimal → Decimal
max_of a b = if less a b then b else a

abbrev pub min_of : Decimal → Decimal → Decimal
min_of a b = if less b a then b else a

-- `max(Decimal("0"), min(raw_ratio, Decimal("1")))`
unfoldable pub saturated : Decimal → Decimal
saturated raw_ratio = max_of (decimal 0 0) (min_of raw_ratio (decimal 1 0))

abbrev pub is_complete : GoalMode → Bool
is_complete GoalMode.challenge_complete = true
is_complete _ = false

unfoldable pub calculate_goal_status : Decimal → Decimal → Result GoalStatus
calculate_goal_status current_value target_value =
    if at_most target_value (decimal 0 0) then err value_error else do
      raw_ratio ← divide current_value target_value
      let progress_ratio = saturated raw_ratio
      progress_pct ← quantize 2 (times progress_ratio (decimal 100 0))
      let mode = goal_mode_for raw_ratio
      ok (record {
        current_value = current_value;
        target_value = target_value;
        progress_ratio = progress_ratio;
        progress_pct = progress_pct;
        remaining_value = max_of (decimal 0 0) (minus target_value current_value);
        goal_mode = mode;
        early_stop_triggered = is_complete mode;
      })
