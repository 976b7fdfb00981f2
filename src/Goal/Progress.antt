-- ===== src/Goal/Progress.antt =====
-- The ranges of a goal status, and the order of the goal modes.
use fin_skill_os.Prelude.{ℕ, ◌≤◌, ◌≡◌, refl, true, false, ok, arith}
use fin_skill_os.Decimal.{Decimal, decimal, at_most, at_least, minus, times, divide, quantize}
use fin_skill_os.Decimal.Order.{at_most_trans, at_most_total, less-eq-not-at_most}
use fin_skill_os.Goal.{
  GoalMode, GoalStatus, goal_mode_for, saturated, max_of, is_complete, calculate_goal_status,
  threshold_balanced, threshold_protection, threshold_completion_guard,
  threshold_challenge_complete,
}

-- The order in which a challenge runs through the modes.
abbrev mode_rank : GoalMode → ℕ
mode_rank GoalMode.growth = 0
mode_rank GoalMode.balanced = 1
mode_rank GoalMode.protection = 2
mode_rank GoalMode.completion_guard = 3
mode_rank GoalMode.challenge_complete = 4

-- A greater ratio is never in an earlier mode.
goal_mode_for-monotone :
    (a b : Decimal) → at_most a b ≡ true → mode_rank (goal_mode_for a) ≤ mode_rank (goal_mode_for b)
unfolding goal_mode_for
goal_mode_for-monotone a b h = ground (
  arith,
  at_most_trans threshold_challenge_complete a b,
  at_most_trans threshold_completion_guard a b,
  at_most_trans threshold_protection a b,
  at_most_trans threshold_balanced a b,
)

max_of_zero : (a : Decimal) → at_most (decimal 0 0) (max_of (decimal 0 0) a) ≡ true
max_of_zero a = ground (
  arith,
  at_most_total (decimal 0 0) (decimal 0 0),
  at_most_total (decimal 0 0) a,
  less-eq-not-at_most (decimal 0 0) a,
)

zero-one : at_most (decimal 0 0) (decimal 1 0) ≡ true
unfolding at_most
zero-one = refl

saturated-bounds :
    (r : Decimal)
    → (at_most (decimal 0 0) (saturated r) ≡ true) × (at_most (saturated r) (decimal 1 0) ≡ true)
unfolding saturated
saturated-bounds r = (
  max_of_zero _,
  ground (
    arith,
    zero-one,
    less-eq-not-at_most (decimal 1 0) r,
    at_most_total (decimal 1 0) (decimal 1 0),
  ),
)

early_stop_lem :
    (raw : Decimal) → is_complete (goal_mode_for raw) ≡ at_least raw threshold_challenge_complete
unfolding goal_mode_for
early_stop_lem raw = ground arith

-- For a positive target, when the division and the percentage are computed, there is a status: its
-- percentage is the one computed, its ratio is between 0 and 1, nothing negative remains, its mode is
-- the one of the ratio before it is cut to the range, and an early stop is triggered exactly when
-- that ratio reaches 1.
pub calculate_goal_status_lem :
    (current target raw pct : Decimal)
    → at_most target (decimal 0 0) ≡ false
    → divide current target ≡ ok raw
    → quantize 2 (times (saturated raw) (decimal 100 0)) ≡ ok pct
    → (s : GoalStatus) × (calculate_goal_status current target ≡ ok s)
      × (s.progress_pct ≡ pct)
      × (at_most (decimal 0 0) s.progress_ratio ≡ true)
      × (at_most s.progress_ratio (decimal 1 0) ≡ true)
      × (at_most (decimal 0 0) s.remaining_value ≡ true)
      × (s.goal_mode ≡ goal_mode_for raw)
      × (s.early_stop_triggered ≡ at_least raw threshold_challenge_complete)
unfolding calculate_goal_status
calculate_goal_status_lem current target raw pct positive d q = (
  record {
    current_value = current;
    target_value = target;
    progress_ratio = saturated raw;
    progress_pct = pct;
    remaining_value = max_of (decimal 0 0) (minus target current);
    goal_mode = goal_mode_for raw;
    early_stop_triggered = is_complete (goal_mode_for raw);
  },
  rw (positive, d, q),
  refl,
  (saturated-bounds raw).0,
  (saturated-bounds raw).1,
  max_of_zero _,
  refl,
  early_stop_lem raw,
)
