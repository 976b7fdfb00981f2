-- ===== src/Simulation/Portfolio.antt =====
-- `synthesize_portfolio` of finskillos/simulation/engine.py
pub mod Dates
pub mod Curve
use fin_skill_os.Prelude.{
  ℕ, ◌+◌, Bool, true, false, not, ◌&&◌, Option, none, some, List, [], ◌∷◌, ◌++◌, map, keep, String,
  Result, ok, err, ◌>>=◌, ltb, ◌==◌, length, is_empty, if◌then◌else◌,
}
use fin_skill_os.Dict.{Dict, insert, lookup, lookup_or}
use fin_skill_os.Wording.Matching.{codes}
use fin_skill_os.Simulation.Floats.{Floats, is_nought}
use fin_skill_os.Simulation.Metrics.{SimMetrics, build_metrics}
use fin_skill_os.Simulation.State.{EquityPoint, SimulationResult}

pub record PortfolioPoint (F : Type 0) : Type 0 where
  pub date : String
  pub strategy : F
  pub benchmark : F
  pub exposure : F

pub record PortfolioResult (F : Type 0) : Type 0 where
  pub tickers : List String
  pub weight : F
  pub curve : List (PortfolioPoint F)
  pub metrics : SimMetrics F
  pub bar_count : ℕ

-- The three dicts of a sleeve.
pub record Sleeve (F : Type 0) : Type 0 where
  pub applied : Dict F
  pub raw : Dict F
  pub exposed : Dict Bool

-- The variables of the loop over the dates.
pub record Course (F : Type 0) : Type 0 where
  pub strat : F
  pub bench : F
  pub in_market : F
  pub port_rets : List F
  pub curve : List (PortfolioPoint F)

-- The order of texts by code points.
abbrev pub less_codes : List ℕ → List ℕ → Bool
less_codes xs [] = false
less_codes [] (y ∷ ys) = true
less_codes (x ∷ xs) (y ∷ ys) = if ltb x y then true else if ltb y x then false else less_codes xs ys

abbrev pub before : String → String → Bool
before s t = less_codes (codes s) (codes t)

-- `sorted` of a set: a text that is there is not put in again.
abbrev pub put_date : String → List String → List String
put_date d [] = d ∷ []
put_date d (e ∷ es) =
    let rest = put_date d es in
    if before d e then d ∷ e ∷ es else if before e d then e ∷ rest else e ∷ es

abbrev pub put_dates : List String → List String → List String
put_dates [] es = es
put_dates (d ∷ ds) es = put_date d (put_dates ds es)

module _ {F : Type 0} (fl : Floats F) (round_days : F → Result ℕ) where
  -- `x / prev - 1.0`, or 0.0 on the first bar and after a value 0.
  abbrev change_from : Bool → F → F → F
  change_from first prev x =
      if first
      then fl.nought
      else if is_nought fl prev
      then fl.nought
      else fl.minus (fl.over x prev) fl.one

  abbrev pub sleeve_from : Bool → F → F → List (EquityPoint F) → Sleeve F → Sleeve F
  sleeve_from first prev_s prev_b [] m = m
  sleeve_from first prev_s prev_b (p ∷ ps) m = sleeve_from false p.strategy p.benchmark ps (record {
    applied = insert p.date (change_from first prev_s p.strategy) m.applied;
    raw = insert p.date (change_from first prev_b p.benchmark) m.raw;
    exposed = insert p.date p.exposure m.exposed;
  })

  abbrev empty_sleeve : Sleeve F
  empty_sleeve = record { applied = []; raw = []; exposed = [] }

  -- `_per_bar_returns`
  unfoldable pub per_bar_returns : SimulationResult F → Sleeve F
  per_bar_returns r = sleeve_from true fl.one fl.one r.equity_curve empty_sleeve

  abbrev pub keys : Dict F → List String
  keys [] = []
  keys ((k, v) ∷ d) = k ∷ keys d

  unfoldable pub dates_of : List (Sleeve F) → List String
  dates_of [] = []
  dates_of (m ∷ ms) = put_dates (keys m.applied) (dates_of ms)

  abbrev is_exposed : String → Sleeve F → Bool
  is_exposed d m = lookup_or false d m.exposed

  -- The sums of a date over the sleeves.
  abbrev weigh : F → String → List (Sleeve F) → F × F × F → F × F × F
  weigh weight d [] (pr, br, ex) = (pr, br, ex)
  weigh weight d (m ∷ ms) (pr, br, ex) = weigh weight d ms (
    fl.plus pr (fl.times weight (lookup_or fl.nought d m.applied)),
    fl.plus br (fl.times weight (lookup_or fl.nought d m.raw)),
    fl.plus ex (fl.times weight (if is_exposed d m then fl.one else fl.nought)),
  )

  abbrev pub add_date : String → F × F × F → Course F → Course F
  add_date d (pr, br, ex) c =
      let strat = fl.times c.strat (fl.plus fl.one pr) in
      let bench = fl.times c.bench (fl.plus fl.one br) in
      record {
        strat = strat;
        bench = bench;
        in_market = fl.plus c.in_market ex;
        port_rets = c.port_rets ++ pr ∷ [];
        curve =
            c.curve ++ record { date = d; strategy = strat; benchmark = bench; exposure = ex } ∷ [];
      }

  unfoldable pub course_from : F → List (Sleeve F) → List String → Course F → Course F
  course_from weight maps [] c = c
  course_from weight maps (d ∷ ds) c =
      course_from weight maps ds
        (add_date d (weigh weight d maps (fl.nought, fl.nought, fl.nought)) c)

  unfoldable pub course : F → List (Sleeve F) → List String → Course F
  course weight maps ds =
      course_from weight maps ds (record {
        strat = fl.one;
        bench = fl.one;
        in_market = fl.nought;
        port_rets = [];
        curve = [];
      })

  abbrev is_usable : SimulationResult F → Bool
  is_usable r = ltb 1 r.bar_count

  abbrev pub usable : List (SimulationResult F) → List (SimulationResult F)
  usable rs = keep is_usable rs

  abbrev ticker_of : SimulationResult F → String
  ticker_of r = r.ticker

  abbrev pub value_of : PortfolioPoint F → F
  value_of p = p.strategy

  abbrev pub portfolio :
      List (SimulationResult F) → F → List String → Course F → Result (PortfolioResult F)
  portfolio rs weight ds c = round_days c.in_market >>= λ days.
      build_metrics fl (map value_of c.curve) c.port_rets days (length ds) 0 0 >>= λ metrics.
      ok (record {
        tickers = map ticker_of rs;
        weight = weight;
        curve = c.curve;
        metrics = metrics;
        bar_count = length ds;
      })

  abbrev pub some_result : Result (PortfolioResult F) → Result (Option (PortfolioResult F))
  some_result m = m >>= λ p. ok (some p)

  abbrev pub over_dates :
      List (SimulationResult F)
      → F
      → List (Sleeve F)
      → List String
      → Result (Option (PortfolioResult F))
  over_dates rs weight maps ds =
      if ltb (length ds) 2
      then ok none
      else some_result (portfolio rs weight ds (course weight maps ds))

  abbrev pub synthesize : List (SimulationResult F) → Result (Option (PortfolioResult F))
  synthesize rs =
      if is_empty rs
      then ok none
      else over_dates rs (fl.over fl.one (fl.of_nat (length rs))) (map per_bar_returns rs)
          (dates_of (map per_bar_returns rs))

  unfoldable pub synthesize_portfolio :
      List (SimulationResult F) → Result (Option (PortfolioResult F))
  synthesize_portfolio results = synthesize (usable results)
