-- ===== src/Simulation/Metrics.antt =====
-- finskillos/simulation/metrics.py
use fin_skill_os.Prelude.{
  ℕ, ◌-◌, Option, none, some, List, [], ◌∷◌, map, Result, ok, err, division_by_zero, ◌>>=◌, ltb,
  ◌==◌, length, is_empty, if◌then◌else◌,
}
use fin_skill_os.Simulation.Floats.{Floats, is_nought, quotient, larger, smaller}

abbrev pub trading_days : ℕ
trading_days = 252

pub record SimMetrics (F : Type 0) : Type 0 where
  pub total_return : F
  pub cagr : F
  pub annual_volatility : F
  pub sharpe : Option F
  pub sortino : Option F
  pub max_drawdown : F
  pub calmar : Option F
  pub exposure_pct : F
  pub round_trips : ℕ
  pub win_rate : Option F

module _ {F : Type 0} (fl : Floats F) where
  -- `sum(xs) / len(xs)`
  abbrev mean : List F → Result F
  mean xs =
      if is_empty xs then err division_by_zero else ok (fl.over (fl.sum xs) (fl.of_nat (length xs)))

  abbrev squares : F → List F → Result (List F)
  squares m [] = ok []
  squares m (x ∷ xs) = do y ← fl.power (fl.minus x m) (fl.of_nat 2); ys ← squares m xs; ok (y ∷ ys)

  -- `_std`
  unfoldable pub std : List F → Result F
  std xs = if ltb (length xs) 2 then ok fl.nought else do
    m ← mean xs
    ys ← squares m xs
    ok (fl.root (fl.over (fl.sum ys) (fl.of_nat (length xs - 1))))

  abbrev last_or : F → List F → F
  last_or x [] = x
  last_or x (y ∷ ys) = last_or y ys

  unfoldable pub total_return : List F → Result F
  total_return [] = ok fl.nought
  total_return (x ∷ xs) = do q ← quotient fl (last_or x xs) x; ok (fl.minus q fl.one)

  abbrev annualised : F → ℕ → Result F
  annualised growth periods =
      if fl.at_most growth fl.nought then ok (fl.minus fl.nought fl.one) else do
        q ← fl.power growth (fl.over (fl.of_nat trading_days) (fl.of_nat periods))
        ok (fl.minus q fl.one)

  unfoldable pub cagr : List F → ℕ → Result F
  cagr [] periods = ok fl.nought
  cagr (x ∷ xs) periods =
      if fl.at_most x fl.nought
      then ok fl.nought
      else if periods == 0
      then ok fl.nought
      else quotient fl (last_or x xs) x >>= λ growth. annualised growth periods

  unfoldable pub annual_volatility : List F → Result F
  annual_volatility xs = do s ← std xs; ok (fl.times s (fl.root (fl.of_nat trading_days)))

  abbrev scaled : F → F → F
  scaled m deviation = fl.times (fl.over m deviation) (fl.root (fl.of_nat trading_days))

  unfoldable pub sharpe : List F → Result (Option F)
  sharpe xs = do
    vol ← std xs
    if is_nought fl vol then ok none else do m ← mean xs; ok (some (scaled m vol))

  abbrev shortfall : F → F
  shortfall x = smaller fl (fl.minus x fl.nought) fl.nought

  abbrev square : F → F
  square x = fl.times x x

  abbrev downside : List F → F
  downside xs =
      if is_empty xs
      then fl.nought
      else fl.root (fl.over (fl.sum (map square (map shortfall xs))) (fl.of_nat (length xs)))

  -- The target is 0.
  unfoldable pub sortino : List F → Result (Option F)
  sortino xs =
      if is_nought fl (downside xs)
      then ok none
      else do m ← mean xs; ok (some (scaled (fl.minus m fl.nought) (downside xs)))

  abbrev worst_from : F → F → List F → F
  worst_from peak worst [] = worst
  worst_from peak worst (x ∷ xs) =
      let top = larger fl peak x in
      worst_from top
        (if fl.less fl.nought top
          then smaller fl worst (fl.minus (fl.over x top) fl.one)
          else worst)
        xs

  unfoldable pub max_drawdown : List F → F
  max_drawdown xs = worst_from fl.minus_infinity fl.nought xs

  unfoldable pub build_metrics : List F → List F → ℕ → ℕ → ℕ → ℕ → Result (SimMetrics F)
  build_metrics equity returns in_market_days total_days round_trips wins = do
    let mdd = max_drawdown equity
    growth ← cagr equity (length equity)
    total ← total_return equity
    volatility ← annual_volatility returns
    by_vol ← sharpe returns
    by_downside ← sortino returns
    ok (record {
      total_return = total;
      cagr = growth;
      annual_volatility = volatility;
      sharpe = by_vol;
      sortino = by_downside;
      max_drawdown = mdd;
      calmar = if is_nought fl mdd then none else some (fl.over growth (fl.magnitude mdd));
      exposure_pct =
          if total_days == 0
          then fl.nought
          else fl.over (fl.of_nat in_market_days) (fl.of_nat total_days);
      round_trips = round_trips;
      win_rate =
          if round_trips == 0
          then none
          else some (fl.over (fl.of_nat wins) (fl.of_nat round_trips));
    })
