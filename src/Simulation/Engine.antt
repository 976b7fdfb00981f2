-- ===== src/Simulation/Engine.antt =====
-- `simulate` of finskillos/simulation/engine.py: the replay of a strategy over daily bars.
pub mod Steps
pub mod Inversion
pub mod Lookahead
pub mod Replays
use fin_skill_os.Prelude.{
  ℕ, suc, ◌+◌, Bool, true, false, Option, none, some, List, [], ◌∷◌, ◌++◌, map, String, str_eq,
  Result, ok, err, lookup_error, type_error, ◌>>=◌, ltb, length, is_empty, if◌then◌else◌,
}
use fin_skill_os.Dict.{Dict}
use fin_skill_os.Simulation.Floats.{Floats, Texts, is_nought}
use fin_skill_os.Simulation.Conditions.{Feature, FeatureRow, feature, evaluate}
use fin_skill_os.Simulation.Parser.{StrategySpec}
use fin_skill_os.Simulation.Features.{Bar, sma_windows, build_features}
use fin_skill_os.Simulation.Metrics.{build_metrics}
use fin_skill_os.Simulation.State.{MarkerKind, SimulationResult, Replay, EquityPoint}

-- `bars[seg_start_idx].date`: TypeError for None.
abbrev pub date_of : Option String → Result String
date_of none = err type_error
date_of (some date) = ok date

abbrev pub regime_of : {F : Type 0} → FeatureRow F → Option String
regime_of row = elim (feature "regime" row) [ Feature.text s ↦ some s | _ ↦ none ]

module _ {F : Type 0} (fl : Floats F) where
  -- `float(cur.get("ret") or 0.0)`
  abbrev pub number_of : Feature F → Result F
  number_of Feature.missing = ok fl.nought
  number_of (Feature.number x) = ok (if is_nought fl x then fl.nought else x)
  number_of (Feature.text s) = if str_eq s "" then ok fl.nought else fl.parse s

  unfoldable pub start : Replay F
  start = record {
    exposure = false;
    equity = fl.one;
    bench = fl.one;
    curve = [];
    segments = [];
    markers = [];
    strat_returns = [];
    in_days = 0;
    round_trips = 0;
    wins = 0;
    segment_start = none;
    seg_entry_equity = fl.one;
  }

  abbrev win_of : Replay F → ℕ
  win_of s = if fl.less s.seg_entry_equity s.equity then 1 else 0

  abbrev applied_of : Replay F → F → F
  applied_of s ret = if s.exposure then ret else fl.nought

  -- The returns of a bar, at the exposure before it.
  unfoldable pub account : Bar F → FeatureRow F → F → Replay F → Replay F
  account bar cur ret s =
      let equity = fl.times s.equity (fl.plus fl.one (applied_of s ret)) in
      let bench = fl.times s.bench (fl.plus fl.one ret) in
      record s {
        bench = bench;
        equity = equity;
        strat_returns = s.strat_returns ++ applied_of s ret ∷ [];
        in_days = if s.exposure then suc s.in_days else s.in_days;
        curve =
            s.curve
            ++ record {
              date = bar.date;
              strategy = equity;
              benchmark = bench;
              exposure = s.exposure;
              close = bar.close;
              regime = regime_of cur;
            }
              ∷ [];
      }

  unfoldable pub enter_market : Bar F → Replay F → Replay F
  enter_market bar s = record s {
    exposure = true;
    segment_start = some bar.date;
    seg_entry_equity = s.equity;
    markers =
        s.markers ++ record { date = bar.date; kind = MarkerKind.enter; price = bar.close } ∷ [];
  }

  unfoldable pub leave_market : Bar F → String → Replay F → Replay F
  leave_market bar from s = record s {
    exposure = false;
    segments = s.segments ++ (from, bar.date) ∷ [];
    markers =
        s.markers ++ record { date = bar.date; kind = MarkerKind.exit; price = bar.close } ∷ [];
    round_trips = suc s.round_trips;
    wins = s.wins + win_of s;
    segment_start = none;
  }

  -- The exposure for the next bar.
  unfoldable pub signal :
      StrategySpec F → Bar F → FeatureRow F → Option (FeatureRow F) → Replay F → Result (Replay F)
  signal spec bar cur prev s =
      if s.exposure
      then (if evaluate fl spec.exit cur prev
          then date_of s.segment_start >>= (λ from. ok (leave_market bar from s))
          else ok s)
      else ok (if evaluate fl spec.entry cur prev then enter_market bar s else s)

  -- One pass of the loop.
  unfoldable pub step :
      StrategySpec F → Bar F → FeatureRow F → Option (FeatureRow F) → Replay F → Result (Replay F)
  step spec bar cur prev s =
      number_of (feature "ret" cur) >>= λ ret. signal spec bar cur prev (account bar cur ret s)

  -- The loop; `prev` is the row before.
  unfoldable pub walk :
      StrategySpec F
      → Option (FeatureRow F)
      → Replay F
      → List (Bar F)
      → List (FeatureRow F)
      → Result (Replay F)
  walk spec prev s [] rows = ok s
  walk spec prev s (bar ∷ bars) [] = err lookup_error
  walk spec prev s (bar ∷ bars) (cur ∷ rows) =
      step spec bar cur prev s >>= λ t. walk spec (some cur) t bars rows

  abbrev pub last_date : List (Bar F) → Result String
  last_date [] = err lookup_error
  last_date (bar ∷ []) = ok bar.date
  last_date (bar ∷ next ∷ bars) = last_date (next ∷ bars)

  unfoldable pub end_segment : String → String → Replay F → Replay F
  end_segment from date s = record s {
    segments = s.segments ++ (from, date) ∷ [];
    round_trips = suc s.round_trips;
    wins = s.wins + win_of s;
  }

  -- An exposure that is open after the last bar ends there.
  unfoldable pub close_out : List (Bar F) → Replay F → Result (Replay F)
  close_out bars s =
      if s.exposure
      then elim s.segment_start [
        | none ↦ ok s
        | some from ↦ last_date bars >>= λ date. ok (end_segment from date s)
      ]
      else ok s

  abbrev is_missing : Feature F → Bool
  is_missing Feature.missing = true
  is_missing _ = false

  abbrev carrying : String → List (FeatureRow F) → ℕ
  carrying name [] = 0
  carrying name (row ∷ rows) =
      if is_missing (feature name row) then carrying name rows else suc (carrying name rows)

  abbrev pub coverage_features : List String
  coverage_features = "rsi_14" ∷ "trend" ∷ "regime" ∷ "ema_20" ∷ "ema_60" ∷ []

  unfoldable pub coverage_of : List (FeatureRow F) → List (String × ℕ)
  coverage_of rows = map (λ name. (name, carrying name rows)) coverage_features

  abbrev pub strategy_of : EquityPoint F → F
  strategy_of p = p.strategy

  abbrev ticker_of : List String → String
  ticker_of [] = "?"
  ticker_of (ticker ∷ tickers) = ticker

  -- The result for fewer than two bars.
  unfoldable pub too_short : StrategySpec F → List (Bar F) → Result (SimulationResult F)
  too_short spec bars = do
    metrics ← build_metrics fl (fl.one ∷ []) [] 0 0 0 0
    ok (record {
      strategy_id = spec.strategy_id;
      name = spec.name;
      ticker = ticker_of spec.universe;
      equity_curve = [];
      exposure_segments = [];
      metrics = metrics;
      bar_count = length bars;
      markers = [];
      coverage = [];
      warnings = "Not enough bars to simulate." ∷ [];
    })

  -- The result of a finished replay.
  unfoldable pub report :
      StrategySpec F → List (Bar F) → List (FeatureRow F) → Replay F → Result (SimulationResult F)
  report spec bars rows s = do
    metrics ←
        build_metrics fl (map strategy_of s.curve) s.strat_returns s.in_days (length bars)
          s.round_trips s.wins
    ok (record {
      strategy_id = spec.strategy_id;
      name = spec.name;
      ticker = ticker_of spec.universe;
      equity_curve = s.curve;
      exposure_segments = s.segments;
      metrics = metrics;
      bar_count = length bars;
      markers = s.markers;
      coverage = coverage_of rows;
      warnings = [];
    })

  unfoldable pub simulate :
      Texts → StrategySpec F → List (Bar F) → List (Dict (Feature F)) → Result (SimulationResult F)
  simulate tx spec bars external =
      if ltb (length bars) 2
      then too_short spec bars
      else (build_features fl (sma_windows tx spec) bars external >>= λ rows.
          walk spec none start bars rows >>= λ s. close_out bars s >>= λ t. report spec bars rows t)
