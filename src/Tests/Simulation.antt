-- ===== src/Tests/Simulation.antt =====
-- Runs of the simulation over natural numbers.
use fin_skill_os.Prelude.{
  ℕ, ◌+◌, ◌-◌, ◌*◌, ◌/◌, ◌≡◌, refl, Bool, true, false, none, some, List, [], ◌∷◌, ◌++◌, Result, ok,
  err, value_error, ◌⊎◌, division_by_zero, ltb, leb, ◌==◌, length, Prefix, if◌then◌else◌, ◌&&◌,
  arith,
}
use fin_skill_os.Simulation.Floats.{Floats, Texts}
use fin_skill_os.Simulation.Conditions.{
  Condition, FeatureRow, Literal, compare, all, end, term, referenced_features, evaluate,
  compare_holds, cross_holds,
}
use fin_skill_os.Simulation.Parser.{StrategySpec, window_of, is_feature, condition_from_json}
use fin_skill_os.Simulation.Parser.Roundtrip.{json_of, is_valid, condition_from_json-json_of}
use fin_skill_os.Simulation.Parser.Sound.{condition_from_json-valid}
use fin_skill_os.Simulation.Features.{
  Bar, has, build_features, rows_from, row_of, add_averages, sma_windows,
}
use fin_skill_os.Simulation.Features.Total.{build_features-has}
use fin_skill_os.Simulation.State.{SimulationResult}
use fin_skill_os.Decimal.Format.{nat_text}
use fin_skill_os.Simulation.Metrics.{
  annual_volatility, build_metrics, cagr, max_drawdown, sharpe, sortino, std, total_return,
}
use fin_skill_os.Simulation.Engine.{
  simulate, walk, step, signal, account, start, enter_market, leave_market, close_out, coverage_of,
  end_segment, report, too_short,
}
use fin_skill_os.Simulation.Engine.Lookahead.{simulate-Prefix}
use fin_skill_os.Simulation.Engine.Replays.{IsAccounted, simulate-IsAccounted}
use fin_skill_os.Simulation.WalkForward.{WalkForwardWindow, walk_forward, windows_from, run_window}
use fin_skill_os.Simulation.WalkForward.Parts.{concat, Windows, walk_forward-Windows}

abbrev total : List ℕ → ℕ
total [] = 0
total (x ∷ xs) = x + total xs

abbrev pub whole : Floats ℕ
whole = record {
  nought = 0;
  one = 1;
  hundred = 100;
  minus_infinity = 0;
  of_nat = λ n. n;
  plus = λ x y. x + y;
  minus = λ x y. x - y;
  times = λ x y. x * y;
  over = λ x y. x / y;
  sum = total;
  root = λ x. x;
  magnitude = λ x. x;
  power = λ x y. ok (x * x);
  parse = λ s. err value_error;
  less = ltb;
  at_most = leb;
  equal = λ x y. x == y;
}

abbrev ascii : Texts
ascii = record {
  digit_of = λ c. if leb 48 c && leb c 57 then some (c - 48) else none;
  strip = λ s. s;
  upper = λ s. s;
}

-- In when the close is above 3, out when it is below 3 and not above the average of two.
abbrev sample_entry : Condition ℕ
sample_entry = compare "close" ">" (Literal.number 3)

abbrev sample_exit : Condition ℕ
sample_exit = all (
    term (compare "close" "<" (Literal.number 3))
      (term (compare "sma_2" ">" (Literal.number 0)) end))

abbrev sample : StrategySpec ℕ
sample = record {
  strategy_id = "CUSTOM";
  name = "sample";
  description = "";
  universe = "QQQ" ∷ [];
  entry = sample_entry;
  exit = sample_exit;
  timeframe = "1d";
}

abbrev bar : ℕ → Bar ℕ
bar close = record { date = "2026-01-05"; close = close }

abbrev early : List (Bar ℕ)
early = bar 2 ∷ bar 4 ∷ bar 8 ∷ bar 2 ∷ []

abbrev later : List (Bar ℕ)
later = bar 5 ∷ bar 10 ∷ []

abbrev pub empty_result : SimulationResult ℕ
empty_result = record {
  strategy_id = "";
  name = "";
  ticker = "";
  equity_curve = [];
  exposure_segments = [];
  metrics = record {
    total_return = 0;
    cagr = 0;
    annual_volatility = 0;
    sharpe = none;
    sortino = none;
    max_drawdown = 0;
    calmar = none;
    exposure_pct = 0;
    round_trips = 0;
    win_rate = none;
  };
  bar_count = 0;
  markers = [];
  coverage = [];
  warnings = [];
}

abbrev value_or {ℓ} : {A : Type ℓ} → A → Result A → A
value_or other (err raised) = other
value_or other (ok value) = value

-- Another result is the value of one that raises.
abbrev is_ok {ℓ} : {A : Type ℓ} → Result A → Bool
is_ok (err raised) = false
is_ok (ok value) = true

returned {ℓ} :
    {A : Type ℓ} (other : A) (call : Result A) → is_ok call ≡ true → call ≡ ok (value_or other call)
returned other (err raised) h = absurd (ground arith)
returned other (ok value) h = refl

abbrev of_all : SimulationResult ℕ
of_all = value_or empty_result (simulate whole ascii sample (early ++ later) [])

abbrev of_early : SimulationResult ℕ
of_early = value_or empty_result (simulate whole ascii sample early [])

all_returns : is_ok (simulate whole ascii sample (early ++ later) []) ≡ true
unfolding build_features rows_from row_of add_averages sma_windows referenced_features window_of
    walk step nat_text signal account start evaluate compare_holds cross_holds enter_market
    leave_market close_out coverage_of end_segment report simulate too_short annual_volatility
    build_metrics cagr max_drawdown sharpe sortino std total_return
all_returns = refl

early_returns : is_ok (simulate whole ascii sample early []) ≡ true
unfolding build_features rows_from row_of add_averages sma_windows referenced_features window_of
    walk step nat_text signal account start evaluate compare_holds cross_holds enter_market
    leave_market close_out coverage_of end_segment report simulate too_short annual_volatility
    build_metrics cagr max_drawdown sharpe sortino std total_return
early_returns = refl

of_all_trips : of_all.metrics.round_trips ≡ 2
unfolding build_features rows_from row_of add_averages sma_windows referenced_features window_of
    walk step nat_text signal account start evaluate compare_holds cross_holds enter_market
    leave_market close_out coverage_of end_segment report simulate too_short annual_volatility
    build_metrics cagr max_drawdown sharpe sortino std total_return
of_all_trips = refl

simulate-Prefix_example :
    Prefix of_early.equity_curve of_all.equity_curve × Prefix of_early.markers of_all.markers
simulate-Prefix_example =
    simulate-Prefix whole ascii sample early later [] of_all of_early (omega arith)
      (returned empty_result (simulate whole ascii sample (early ++ later) []) all_returns)
      (returned empty_result (simulate whole ascii sample early []) early_returns)

simulate-IsAccounted_example : IsAccounted whole (early ++ later) of_all
simulate-IsAccounted_example =
    simulate-IsAccounted whole ascii sample (early ++ later) [] of_all (omega arith)
      (returned empty_result (simulate whole ascii sample (early ++ later) []) all_returns)

abbrev fortnights : List (Bar ℕ)
fortnights =
    early ++ early ++ early ++ early ++ early ++ early ++ early ++ early ++ early ++ early ++ later

abbrev two_windows : List (WalkForwardWindow ℕ)
two_windows = value_or [] (walk_forward whole ascii sample 2 fortnights [])

two_return : is_ok (walk_forward whole ascii sample 2 fortnights []) ≡ true
unfolding build_features rows_from row_of add_averages sma_windows referenced_features window_of
    walk step nat_text signal account start evaluate compare_holds cross_holds enter_market
    leave_market close_out coverage_of end_segment report simulate too_short annual_volatility
    build_metrics cagr max_drawdown sharpe sortino std total_return walk_forward windows_from
    run_window
two_return = refl

walk_forward-Windows_example :
    (parts : List (List (Bar ℕ))) × (concat parts ≡ fortnights)
    × (length parts ≡ 2)
    × Windows whole ascii sample [] 0 0 parts two_windows
walk_forward-Windows_example =
    walk_forward-Windows whole ascii sample [] 2 fortnights two_windows (omega arith) (omega arith)
      (returned [] (walk_forward whole ascii sample 2 fortnights []) two_return)

build_features-has_example :
    ((has 0 (0 ∷ 2 ∷ []) ≡ true)
      × (build_features whole (0 ∷ 2 ∷ []) early [] ≡ err division_by_zero))
    ⊎ ((has 0 (0 ∷ 2 ∷ []) ≡ false)
        × ((rows : List (FeatureRow ℕ)) × (build_features whole (0 ∷ 2 ∷ []) early [] ≡ ok rows)
            × (length rows ≡ length early)))
build_features-has_example = build_features-has whole (0 ∷ 2 ∷ []) early [] (omega arith)

-- A window 0 is a known feature.
zero_window : is_valid {F = ℕ} ascii 0 (compare "sma_0" ">" (Literal.number 0)) ≡ true
unfolding window_of is_valid is_feature
zero_window = refl

sample_valid : is_valid ascii 0 sample_exit ≡ true
unfolding window_of is_valid is_feature
sample_valid = refl

condition_from_json-json_of_example :
    condition_from_json ascii 0 (json_of sample_exit) ≡ ok sample_exit
condition_from_json-json_of_example = condition_from_json-json_of ascii sample_exit sample_valid

condition_from_json-valid_example : is_valid ascii 0 sample_exit ≡ true
condition_from_json-valid_example =
    condition_from_json-valid ascii (json_of sample_exit) sample_exit
      (condition_from_json-json_of ascii sample_exit sample_valid)
