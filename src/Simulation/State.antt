-- ===== src/Simulation/State.antt =====
-- The records of finskillos/simulation/engine.py, and the variables of its loop.
use fin_skill_os.Prelude.{ℕ, Bool, Option, List, String}
use fin_skill_os.Simulation.Metrics.{SimMetrics}

pub record EquityPoint (F : Type 0) : Type 0 where
  pub date : String
  pub strategy : F
  pub benchmark : F
  pub exposure : Bool
  pub close : F
  pub regime : Option String

pub data MarkerKind : Type 0 where
  enter exit : MarkerKind

pub record ExposureMarker (F : Type 0) : Type 0 where
  pub date : String
  pub kind : MarkerKind
  pub price : F

-- The safety caption is the constant of its default.
pub record SimulationResult (F : Type 0) : Type 0 where
  pub strategy_id : String
  pub name : String
  pub ticker : String
  pub equity_curve : List (EquityPoint F)
  pub exposure_segments : List (String × String)
  pub metrics : SimMetrics F
  pub bar_count : ℕ
  pub markers : List (ExposureMarker F)
  pub coverage : List (String × ℕ)
  pub warnings : List String

-- The variables of the loop. `segment_start` is the date of the bar at `seg_start_idx`, the only
-- use of that index.
pub record Replay (F : Type 0) : Type 0 where
  pub exposure : Bool
  pub equity : F
  pub bench : F
  pub curve : List (EquityPoint F)
  pub segments : List (String × String)
  pub markers : List (ExposureMarker F)
  pub strat_returns : List F
  pub in_days : ℕ
  pub round_trips : ℕ
  pub wins : ℕ
  pub segment_start : Option String
  pub seg_entry_equity : F
