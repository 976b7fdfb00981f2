-- ===== src/Tests/Portfolio.antt =====
-- A run of the synthesis of a portfolio, over natural numbers.
use fin_skill_os.Prelude.{
  ℕ, ◌≡◌, refl, ◌≤◌, Bool, true, false, Option, none, some, List, [], ◌∷◌, map, length, String,
  Result, ok, err, arith,
}
use fin_skill_os.Simulation.State.{EquityPoint, SimulationResult}
use fin_skill_os.Simulation.Portfolio.{
  PortfolioResult, synthesize_portfolio, usable, per_bar_returns, dates_of, course, course_from,
}
use fin_skill_os.Simulation.Portfolio.Dates.{IsAscending, has_date}
use fin_skill_os.Simulation.Portfolio.Curve.{
  date_of, has_point_of, synthesize_portfolio-IsAscending,
}
use fin_skill_os.Simulation.Metrics.{
  annual_volatility, build_metrics, cagr, max_drawdown, sharpe, sortino, std, total_return,
}
use fin_skill_os.Tests.Simulation.{whole, empty_result}

abbrev point : String → ℕ → EquityPoint ℕ
point date value = record {
  date = date;
  strategy = value;
  benchmark = value;
  exposure = true;
  close = value;
  regime = none;
}

abbrev first_sleeve : SimulationResult ℕ
first_sleeve = record empty_result {
  equity_curve = point "2026-01-06" 1 ∷ point "2026-01-08" 2 ∷ [];
  bar_count = 2;
}

abbrev second_sleeve : SimulationResult ℕ
second_sleeve = record empty_result {
  equity_curve = point "2026-01-05" 1 ∷ point "2026-01-06" 3 ∷ [];
  bar_count = 2;
}

abbrev sleeves : List (SimulationResult ℕ)
sleeves = first_sleeve ∷ empty_result ∷ second_sleeve ∷ []

abbrev synthesized : Result (Option (PortfolioResult ℕ))
synthesized = synthesize_portfolio whole (λ x. ok x) sleeves

abbrev no_portfolio : PortfolioResult ℕ
no_portfolio = record {
  tickers = [];
  weight = 0;
  curve = [];
  metrics = empty_result.metrics;
  bar_count = 0;
}

abbrev is_there : Result (Option (PortfolioResult ℕ)) → Bool
is_there (ok (some p)) = true
is_there _ = false

abbrev unwrapped : Result (Option (PortfolioResult ℕ)) → PortfolioResult ℕ
unwrapped (ok (some p)) = p
unwrapped _ = no_portfolio

there : (m : Result (Option (PortfolioResult ℕ))) → is_there m ≡ true → m ≡ ok (some (unwrapped m))
there (err raised) h = absurd (ground arith)
there (ok none) h = absurd (ground arith)
there (ok (some p)) h = refl

synthesized_there : is_there synthesized ≡ true
unfolding synthesize_portfolio per_bar_returns dates_of course course_from annual_volatility
    build_metrics cagr max_drawdown sharpe sortino std total_return
synthesized_there = refl

three_dates :
    map (date_of whole (λ x. ok x)) (unwrapped synthesized).curve
    ≡ "2026-01-05" ∷ "2026-01-06" ∷ "2026-01-08" ∷ []
unfolding synthesize_portfolio per_bar_returns dates_of course course_from annual_volatility
    build_metrics cagr max_drawdown sharpe sortino std total_return
three_dates = refl

synthesize_portfolio-IsAscending_example :
    (2 ≤ (unwrapped synthesized).bar_count)
    × (length (unwrapped synthesized).curve ≡ (unwrapped synthesized).bar_count)
    × IsAscending (map (date_of whole (λ x. ok x)) (unwrapped synthesized).curve)
    × (has_date "2026-01-08" (map (date_of whole (λ x. ok x)) (unwrapped synthesized).curve)
        ≡ has_point_of whole (λ x. ok x) "2026-01-08" (usable whole (λ x. ok x) sleeves))
synthesize_portfolio-IsAscending_example =
    synthesize_portfolio-IsAscending whole (λ x. ok x) sleeves (unwrapped synthesized) "2026-01-08"
      (there synthesized synthesized_there)
