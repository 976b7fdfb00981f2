-- ===== src/Simulation/Features.antt =====
-- The features of finskillos/simulation/engine.py, bar by bar.
pub mod Slices
pub mod Total
use fin_skill_os.Prelude.{
  ℕ, suc, ◌-◌, Bool, true, false, Option, none, some, List, [], ◌∷◌, ◌++◌, String, Result, ok, err,
  division_by_zero, ◌>>=◌, leb, ◌==◌, length, drop, if◌then◌else◌,
}
use fin_skill_os.Dict.{Dict, insert, update}
use fin_skill_os.Decimal.Format.{◌+s◌, nat_text}
use fin_skill_os.Simulation.Floats.{Floats, Texts, is_nought, larger}
use fin_skill_os.Simulation.Conditions.{Feature, FeatureRow, referenced_features}
use fin_skill_os.Simulation.Parser.{StrategySpec, window_of}

pub record Bar (F : Type 0) : Type 0 where
  pub date : String
  pub close : F

abbrev pub has : ℕ → List ℕ → Bool
has n [] = false
has n (m ∷ ms) = if m == n then true else has n ms

abbrev with_window : Option ℕ → List ℕ → List ℕ
with_window none ws = ws
with_window (some n) ws = if has n ws then ws else n ∷ ws

abbrev windows_of : Texts → List String → List ℕ
windows_of tx [] = []
windows_of tx (name ∷ names) = with_window (window_of tx "sma_" name) (windows_of tx names)

-- `_sma_windows`; the set as a list without repetitions.
unfoldable pub sma_windows : {F : Type 0} → Texts → StrategySpec F → List ℕ
sma_windows tx spec =
    windows_of tx (referenced_features spec.entry ++ referenced_features spec.exit)

module _ {F : Type 0} (fl : Floats F) where
  abbrev return_of : Option F → F → F
  return_of none close = fl.nought
  return_of (some before) close =
      if is_nought fl before then fl.nought else fl.minus (fl.over close before) fl.one

  abbrev drawdown_of : F → F → F
  drawdown_of peak close =
      if fl.less fl.nought peak
      then fl.times (fl.minus (fl.over close peak) fl.one) fl.hundred
      else fl.nought

  -- The average of the last closes, when there are enough. An empty window is a division by zero.
  abbrev pub average : ℕ → List F → Result (Feature F)
  average window closes =
      if leb window (length closes)
      then (if window == 0
          then err division_by_zero
          else ok (
              Feature.number
                (fl.over (fl.sum (drop (length closes - window) closes)) (fl.of_nat window))))
      else ok Feature.missing

  unfoldable pub add_averages : List ℕ → List F → FeatureRow F → Result (FeatureRow F)
  add_averages [] closes row = ok row
  add_averages (w ∷ ws) closes row =
      average w closes >>= λ v. add_averages ws closes (insert ("sma_" +s nat_text w) v row)

  abbrev pub external_row : List (Dict (Feature F)) → Dict (Feature F)
  external_row [] = []
  external_row (e ∷ es) = e

  abbrev pub rest_of : List (Dict (Feature F)) → List (Dict (Feature F))
  rest_of [] = []
  rest_of (e ∷ es) = es

  -- The row of a bar, from the closes before it and the highest of them.
  unfoldable pub row_of :
      List ℕ → List F → Option F → F → F → Dict (Feature F) → Result (FeatureRow F)
  row_of windows before last peak close external = do
    row ← add_averages windows (before ++ close ∷ []) (
        ("close", Feature.number close)
        ∷ ("ret", Feature.number (return_of last close))
        ∷ ("drawdown_pct", Feature.number (drawdown_of (larger fl peak close) close))
        ∷ [])
    ok (update row external)

  -- The loop over the bars.
  unfoldable pub rows_from :
      List ℕ
      → List F
      → Option F
      → F
      → List (Bar F)
      → List (Dict (Feature F))
      → Result (List (FeatureRow F))
  rows_from windows before last peak [] external = ok []
  rows_from windows before last peak (bar ∷ bars) external =
      row_of windows before last peak bar.close (external_row external) >>= λ row.
      rows_from windows (before ++ bar.close ∷ []) (some bar.close) (larger fl peak bar.close) bars
        (rest_of external)
      >>= λ rows. ok (row ∷ rows)

  -- `build_features`; without external features the list is empty.
  unfoldable pub build_features :
      List ℕ → List (Bar F) → List (Dict (Feature F)) → Result (List (FeatureRow F))
  build_features windows bars external = rows_from windows [] none fl.minus_infinity bars external
