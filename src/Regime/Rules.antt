-- ===== src/Regime/Rules.antt =====
-- finskillos/regime/regime_rules.py: the regimes, their modes and risk levels, and the thresholds.
use fin_skill_os.Prelude.{Bool, false, Option, none, some, String, str_eq, ◌||◌}
use fin_skill_os.Decimal.{Decimal, decimal}
use fin_skill_os.Guards.Base.{RiskLevel}

pub data Regime : Type 0 where
  panic recovery healthy_bull aggressive_risk_on risk_on_overheat : Regime
  distribution_risk defensive_transition risk_off unknown : Regime

pub data DecisionMode : Type 0 where
  defensive cautious_recovery selective_attack hold_winners : DecisionMode
  limit_new_entries protection_mode review_only unknown : DecisionMode

abbrev pub trend_bullish : String
trend_bullish = "BULLISH"

-- `trend in BULLISH_TRENDS`
abbrev pub is_bullish : Option String → Bool
is_bullish none = false
is_bullish (some t) = str_eq t "BULLISH" || str_eq t "WEAK_BULLISH"

-- `trend in BEARISH_TRENDS`
abbrev pub is_bearish : Option String → Bool
is_bearish none = false
is_bearish (some t) = str_eq t "BEARISH" || str_eq t "WEAK_BEARISH"

abbrev pub vix_panic : Decimal
vix_panic = decimal 30 0

abbrev pub vix_risk_off : Decimal
vix_risk_off = decimal 25 0

abbrev pub vix_caution : Decimal
vix_caution = decimal 20 0

abbrev pub vix_calm : Decimal
vix_calm = decimal 15 0

abbrev pub rsi_oversold : Decimal
rsi_oversold = decimal 30 0

abbrev pub rsi_recovery_low : Decimal
rsi_recovery_low = decimal 40 0

abbrev pub rsi_recovery_high : Decimal
rsi_recovery_high = decimal 55 0

abbrev pub rsi_healthy_low : Decimal
rsi_healthy_low = decimal 50 0

abbrev pub rsi_healthy_high : Decimal
rsi_healthy_high = decimal 68 0

abbrev pub rsi_aggressive_high : Decimal
rsi_aggressive_high = decimal 75 0

abbrev pub rsi_overheat : Decimal
rsi_overheat = decimal 70 0

abbrev pub confidence_full : Decimal
confidence_full = decimal 100 0

abbrev pub confidence_per_missing_input : Decimal
confidence_per_missing_input = decimal 8 0

abbrev pub confidence_per_conflict : Decimal
confidence_per_conflict = decimal 12 0

abbrev pub confidence_floor : Decimal
confidence_floor = decimal 0 0

unfoldable pub regime_to_mode : Regime → DecisionMode
regime_to_mode Regime.panic = DecisionMode.protection_mode
regime_to_mode Regime.risk_off = DecisionMode.defensive
regime_to_mode Regime.defensive_transition = DecisionMode.limit_new_entries
regime_to_mode Regime.distribution_risk = DecisionMode.limit_new_entries
regime_to_mode Regime.recovery = DecisionMode.cautious_recovery
regime_to_mode Regime.healthy_bull = DecisionMode.selective_attack
regime_to_mode Regime.aggressive_risk_on = DecisionMode.selective_attack
regime_to_mode Regime.risk_on_overheat = DecisionMode.hold_winners
regime_to_mode Regime.unknown = DecisionMode.review_only

unfoldable pub regime_to_risk_level : Regime → RiskLevel
regime_to_risk_level Regime.panic = RiskLevel.red
regime_to_risk_level Regime.risk_off = RiskLevel.red
regime_to_risk_level Regime.defensive_transition = RiskLevel.orange
regime_to_risk_level Regime.distribution_risk = RiskLevel.orange
regime_to_risk_level Regime.recovery = RiskLevel.yellow
regime_to_risk_level Regime.risk_on_overheat = RiskLevel.yellow
regime_to_risk_level Regime.aggressive_risk_on = RiskLevel.yellow
regime_to_risk_level Regime.healthy_bull = RiskLevel.green
regime_to_risk_level Regime.unknown = RiskLevel.unknown
