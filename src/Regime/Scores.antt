-- ===== src/Regime/Scores.antt =====
-- The votes and scores of finskillos/regime/regime_engine.py, and the scores' record of
-- conflict_resolver.py.
use fin_skill_os.Prelude.{
  ℕ, ◌+◌, Bool, false, Option, none, some, List, [], ◌∷◌, String, leb, ◌&&◌, str_eq, if◌then◌else◌,
}
use fin_skill_os.Decimal.{Decimal, decimal, at_most, at_least, less, more, plus, times}
use fin_skill_os.Regime.Rules.{
  is_bullish, is_bearish, trend_bullish, vix_panic, vix_risk_off, vix_caution, vix_calm,
  rsi_oversold, rsi_overheat,
}

pub record RegimeInput : Type 0 where
  pub spy_trend_state : Option String
  pub qqq_trend_state : Option String
  pub smh_trend_state : Option String
  pub spy_rsi_14 : Option Decimal
  pub qqq_rsi_14 : Option Decimal
  pub smh_rsi_14 : Option Decimal
  pub vix_close : Option Decimal
  pub dxy_trend_state : Option String
  pub us10y_trend_state : Option String
  pub breadth_score : Option Decimal
  pub momentum_score : Option Decimal

pub record Scores : Type 0 where
  pub risk_on : Decimal
  pub overheat : Decimal
  pub risk_off : Decimal
  pub distribution : Decimal

-- `sum(1 for x in xs if test(x))`
abbrev pub count {ℓ} : {A : Type ℓ} → (A → Bool) → List A → ℕ
count test [] = 0
count test (x ∷ xs) = if test x then 1 + count test xs else count test xs

-- The value is there and passes the test.
abbrev pub holds : (Decimal → Bool) → Option Decimal → Bool
holds test none = false
holds test (some d) = test d

abbrev pub present {ℓ} : {A : Type ℓ} → Option A → ℕ
present none = 0
present (some a) = 1

-- `_count_present`
unfoldable pub count_present : RegimeInput → ℕ
count_present i =
    present i.spy_trend_state
    + present i.qqq_trend_state
    + present i.smh_trend_state
    + present i.spy_rsi_14
    + present i.qqq_rsi_14
    + present i.smh_rsi_14
    + present i.vix_close
    + present i.dxy_trend_state
    + present i.us10y_trend_state

abbrev trends : RegimeInput → List (Option String)
trends i = i.spy_trend_state ∷ i.qqq_trend_state ∷ i.smh_trend_state ∷ []

abbrev rsis : RegimeInput → List (Option Decimal)
rsis i = i.qqq_rsi_14 ∷ i.smh_rsi_14 ∷ i.spy_rsi_14 ∷ []

abbrev pub is_trend : String → Option String → Bool
is_trend name none = false
is_trend name (some t) = str_eq t name

unfoldable pub bullish_trend_votes : RegimeInput → ℕ
bullish_trend_votes i = count is_bullish (trends i)

unfoldable pub strict_bullish_votes : RegimeInput → ℕ
strict_bullish_votes i = count (is_trend trend_bullish) (trends i)

unfoldable pub bearish_trend_votes : RegimeInput → ℕ
bearish_trend_votes i = count is_bearish (trends i)

unfoldable pub rsi_overheat_votes : RegimeInput → ℕ
rsi_overheat_votes i = count (holds λ v. at_least v rsi_overheat) (rsis i)

unfoldable pub rsi_oversold_votes : RegimeInput → ℕ
rsi_oversold_votes i = count (holds λ v. at_most v rsi_oversold) (rsis i)

-- `_clamp`
unfoldable pub clamp : Decimal → Decimal → Decimal → Decimal
clamp lower upper value =
    if less value lower then lower else if more value upper then upper else value

abbrev zero_points : Decimal
zero_points = decimal 0 0

-- `if test: score += points`
abbrev pub add_if : Bool → Decimal → Decimal → Decimal
add_if test points score = if test then plus score points else score

abbrev calm_points : Option Decimal → Decimal → Decimal
calm_points none score = score
calm_points (some vix) score =
    if less vix vix_calm
    then plus score (decimal 20 0)
    else if less vix vix_caution
    then plus score (decimal 10 0)
    else score

abbrev fear_points : Option Decimal → Decimal → Decimal
fear_points none score = score
fear_points (some vix) score =
    if at_least vix vix_panic
    then plus score (decimal 30 0)
    else if at_least vix vix_risk_off
    then plus score (decimal 20 0)
    else if at_least vix vix_caution
    then plus score (decimal 10 0)
    else score

-- `risk_on += min(Decimal("20"), momentum)`, for a momentum above 0
abbrev momentum_points : Option Decimal → Decimal → Decimal
momentum_points none score = score
momentum_points (some momentum) score =
    if more momentum (decimal 0 0)
    then plus score (if less momentum (decimal 20 0) then momentum else decimal 20 0)
    else score

abbrev votes_of : ℕ → ℕ → Decimal
votes_of points votes = times (decimal points 0) (decimal votes 0)

abbrev risk_on_score : RegimeInput → Decimal
risk_on_score i = add_if (holds (λ b. at_least b (decimal 60 0)) i.breadth_score) (decimal 10 0) (
    momentum_points i.momentum_score
      (calm_points i.vix_close (plus zero_points (votes_of 20 (bullish_trend_votes i)))))

abbrev overheat_score : RegimeInput → Decimal
overheat_score i = add_if (holds (λ m. at_least m (decimal 15 0)) i.momentum_score) (decimal 10 0) (
    add_if (holds (λ v. less v vix_calm) i.vix_close) (decimal 10 0)
      (plus zero_points (votes_of 25 (rsi_overheat_votes i))))

abbrev risk_off_score : RegimeInput → Decimal
risk_off_score i = add_if (is_bullish i.us10y_trend_state) (decimal 5 0) (
    add_if (is_bullish i.dxy_trend_state) (decimal 5 0) (
      plus (fear_points i.vix_close (plus zero_points (votes_of 20 (bearish_trend_votes i))))
        (votes_of 10 (rsi_oversold_votes i))))

abbrev distribution_score : RegimeInput → Decimal
distribution_score i =
    add_if (leb 1 (bullish_trend_votes i) && holds (λ b. less b (decimal 45 0)) i.breadth_score)
      (decimal 30 0)
      (add_if
        (leb 2 (bullish_trend_votes i) && holds (λ m. at_most m (decimal 0 0)) i.momentum_score)
        (decimal 40 0) zero_points)

-- `_compute_scores`
unfoldable pub compute_scores : RegimeInput → Scores
compute_scores i = record {
  risk_on = clamp (decimal 0 0) (decimal 100 0) (risk_on_score i);
  overheat = clamp (decimal 0 0) (decimal 100 0) (overheat_score i);
  risk_off = clamp (decimal 0 0) (decimal 100 0) (risk_off_score i);
  distribution = clamp (decimal 0 0) (decimal 100 0) (distribution_score i);
}
