-- ===== src/Simulation/WalkForward.antt =====
-- `walk_forward` of finskillos/simulation/engine.py
pub mod Parts
use fin_skill_os.Prelude.{
  ℕ, zero, suc, ◌+◌, ◌-◌, ◌*◌, ◌/◌, Bool, Option, List, [], ◌∷◌, ◌||◌, String, Result, ok, err,
  lookup_error, ◌>>=◌, ltb, ◌==◌, length, take, drop, if◌then◌else◌,
}
use fin_skill_os.Dict.{Dict}
use fin_skill_os.Simulation.Floats.{Floats, Texts}
use fin_skill_os.Simulation.Conditions.{Feature}
use fin_skill_os.Simulation.Parser.{StrategySpec}
use fin_skill_os.Simulation.Features.{Bar}
use fin_skill_os.Simulation.State.{SimulationResult}
use fin_skill_os.Simulation.Engine.{last_date, simulate}

pub record WalkForwardWindow (F : Type 0) : Type 0 where
  pub index : ℕ
  pub date_start : String
  pub date_end : String
  pub bar_count : ℕ
  pub total_return : F
  pub sharpe : Option F
  pub exposure_pct : F
  pub round_trips : ℕ

-- `xs[lo:hi]`
abbrev pub slice {ℓ} : {A : Type ℓ} → ℕ → ℕ → List A → List A
slice lo hi xs = take (hi - lo) (drop lo xs)

abbrev pub lower : ℕ → ℕ → ℕ
lower size i = i * size

abbrev pub upper : ℕ → ℕ → ℕ → ℕ → ℕ
upper n windows size i = if i == windows - 1 then n else (i + 1) * size

module _ {F : Type 0} (fl : Floats F) where
  abbrev pub first_date : List (Bar F) → Result String
  first_date [] = err lookup_error
  first_date (bar ∷ bars) = ok bar.date

  abbrev pub window : ℕ → List (Bar F) → SimulationResult F → Result (WalkForwardWindow F)
  window i bars res = first_date bars >>= λ from. last_date fl bars >>= λ to. ok (record {
    index = i + 1;
    date_start = from;
    date_end = to;
    bar_count = length bars;
    total_return = res.metrics.total_return;
    sharpe = res.metrics.sharpe;
    exposure_pct = res.metrics.exposure_pct;
    round_trips = res.metrics.round_trips;
  })

  module _ (tx : Texts) (spec : StrategySpec F) where
    -- A pass of the loop.
    unfoldable pub run_window :
        ℕ → List (Bar F) → List (Dict (Feature F)) → Result (WalkForwardWindow F)
    run_window i bars external = simulate fl tx spec bars external >>= λ res. window i bars res

    -- The passes from `i`, as many as the first number.
    unfoldable pub windows_from :
        ℕ → ℕ → ℕ → ℕ → List (Bar F) → List (Dict (Feature F)) → Result (List (WalkForwardWindow F))
    windows_from zero i windows size bars external = ok []
    windows_from (suc left) i windows size bars external =
        run_window i (slice (lower size i) (upper (length bars) windows size i) bars)
          (slice (lower size i) (upper (length bars) windows size i) external)
        >>= λ w. windows_from left (suc i) windows size bars external >>= λ ws. ok (w ∷ ws)

    unfoldable pub walk_forward :
        ℕ → List (Bar F) → List (Dict (Feature F)) → Result (List (WalkForwardWindow F))
    walk_forward windows bars external =
        if ltb windows 2 || ltb (length bars) (windows * 20)
        then ok []
        else windows_from windows 0 windows (length bars / windows) bars external
