-- ===== src/Simulation/Engine/Inversion.antt =====
-- What a simulation that returns has gone through.
use fin_skill_os.Prelude.{
  ℕ, ◌≡◌, sym, ◌∙◌, ◌≤◌, none, some, ◌==◌, List, Result, ok, ◌>>=◌, >>=-eq-ok, map, Result-cases,
  inl, inr, length, ltb, if_false, if◌then◌else◌, arith,
}
use fin_skill_os.Dict.{Dict}
use fin_skill_os.Simulation.Floats.{Floats, Texts}
use fin_skill_os.Simulation.Conditions.{Feature, FeatureRow}
use fin_skill_os.Simulation.Parser.{StrategySpec}
use fin_skill_os.Simulation.Features.{Bar, sma_windows, build_features}
use fin_skill_os.Simulation.Metrics.{SimMetrics, build_metrics}
use fin_skill_os.Simulation.State.{SimulationResult, Replay}
use fin_skill_os.Simulation.Engine.{start, strategy_of, walk, close_out, report, simulate}

module _ {F : Type 0} (fl : Floats F) (tx : Texts) where
  -- The rows, the replay, its end.
  abbrev pub Run :
      StrategySpec F → List (Bar F) → List (Dict (Feature F)) → SimulationResult F → Type 0
  Run spec bars external r =
      (rows : List (FeatureRow F)) × (s : Replay F) × (t : Replay F) × (build_features fl
          (sma_windows tx spec) bars external
        ≡ ok rows)
      × (walk fl spec none (start fl) bars rows ≡ ok s)
      × (close_out fl bars s ≡ ok t)
      × (report fl spec bars rows t ≡ ok r)

  long_enough :
      (spec : StrategySpec F) (bars : List (Bar F)) (external : List (Dict (Feature F)))
      → 2 ≤ length bars
      → simulate fl tx spec bars external ≡ (
          build_features fl (sma_windows tx spec) bars external >>= λ rows.
          walk fl spec none (start fl) bars rows >>= λ s.
          close_out fl bars s >>= λ t. report fl spec bars rows t)
  unfolding simulate
  long_enough spec bars external h = if_false (ltb (length bars) 2) _ _ (ground arith)

  pub simulate-Run :
      (spec : StrategySpec F) (bars : List (Bar F)) (external : List (Dict (Feature F)))
      {r : SimulationResult F}
      → 2 ≤ length bars
      → simulate fl tx spec bars external ≡ ok r
      → Run spec bars external r
  simulate-Run spec bars external {r} h e =
      let (rows, built, e1) = >>=-eq-ok _ _ (sym (long_enough spec bars external h) ∙ e) in
      let (s, walked, e2) = >>=-eq-ok _ _ e1 in
      let (t, closed, e3) = >>=-eq-ok _ _ e2 in (rows, s, t, built, walked, closed, e3)

  metrics-counts :
      (equity returns : List F) (days total trips wins : ℕ) {m : SimMetrics F}
      → build_metrics fl equity returns days total trips wins ≡ ok m
      → (m.round_trips ≡ trips)
        × (m.win_rate
            ≡ (if trips == 0 then none else some (fl.over (fl.of_nat wins) (fl.of_nat trips))))
        × (m.exposure_pct
            ≡ (if total == 0 then fl.nought else fl.over (fl.of_nat days) (fl.of_nat total)))
  unfolding build_metrics
  metrics-counts equity returns days total trips wins {m} e = ground arith

  abbrev metrics_call : List (Bar F) → Replay F → Result (SimMetrics F)
  metrics_call bars t =
      build_metrics fl (map (strategy_of fl) t.curve) t.strat_returns t.in_days (length bars)
        t.round_trips t.wins

  -- What the report says of the replay.
  -- The metrics that rest on counts.
  abbrev pub Counts : List (Bar F) → Replay F → SimMetrics F → Type 0
  Counts bars t m =
      (m.round_trips ≡ t.round_trips)
      × (m.win_rate ≡ (
          if t.round_trips == 0
          then none
          else some (fl.over (fl.of_nat t.wins) (fl.of_nat t.round_trips))))
      × (m.exposure_pct ≡ (
          if length bars == 0
          then fl.nought
          else fl.over (fl.of_nat t.in_days) (fl.of_nat (length bars))))

  pub report-fields :
      (spec : StrategySpec F) (bars : List (Bar F)) (rows : List (FeatureRow F)) (t : Replay F)
      {r : SimulationResult F}
      → report fl spec bars rows t ≡ ok r
      → (r.equity_curve ≡ t.curve)
        × (r.markers ≡ t.markers)
        × (r.exposure_segments ≡ t.segments)
        × (r.bar_count ≡ length bars)
        × Counts bars t r.metrics
  unfolding report
  report-fields spec bars rows t {r} e = elim (Result-cases (metrics_call bars t)) [
    | inl (m, built) ↦ let (trips, won, share) = metrics-counts _ _ _ _ _ _ built in ground arith
    | inr (x, failed) ↦ ground arith
  ]
