-- ===== src/Regime/Classify.antt =====
-- The classification ladder and the confidence of finskillos/regime/regime_engine.py.
use fin_skill_os.Prelude.{
  ℕ, ◌-◌, Bool, true, false, Option, none, some, List, [], ◌∷◌, String, ltb, leb, ◌==◌, ◌&&◌, ◌||◌,
  if◌then◌else◌,
}
use fin_skill_os.Decimal.{Decimal, decimal, at_most, at_least, less, minus, times}
use fin_skill_os.Guards.Base.{RiskLevel}
use fin_skill_os.Regime.Rules.{
  Regime, DecisionMode, trend_bullish, vix_panic, vix_risk_off, vix_caution, rsi_recovery_low,
  rsi_recovery_high, rsi_healthy_low, rsi_healthy_high, rsi_aggressive_high, confidence_full,
  confidence_per_missing_input, confidence_per_conflict, confidence_floor, regime_to_mode,
  regime_to_risk_level,
}
use fin_skill_os.Regime.Scores.{
  RegimeInput, Scores, holds, is_trend, count_present, bullish_trend_votes, strict_bullish_votes,
  bearish_trend_votes, rsi_overheat_votes, clamp, compute_scores,
}

abbrev pub min_inputs_required : ℕ
min_inputs_required = 4

-- `_rsi_in_band`
abbrev pub rsi_in_band : Decimal → Decimal → Option Decimal → Bool
rsi_in_band low high value = holds (λ v. at_most low v && at_most v high) value

-- `_qqq_or_smh_in`
abbrev pub qqq_or_smh_in : Decimal → Decimal → RegimeInput → Bool
qqq_or_smh_in low high i =
    rsi_in_band low high i.qqq_rsi_14
    || rsi_in_band low high i.smh_rsi_14
    || rsi_in_band low high i.spy_rsi_14

abbrev pub Predicate : Type 0
Predicate = RegimeInput → Scores → Bool

unfoldable pub pred_panic : Predicate
pred_panic i s = holds (λ v. at_least v vix_panic) i.vix_close && leb 2 (bearish_trend_votes i)

unfoldable pub pred_risk_off : Predicate
pred_risk_off i s =
    holds (λ v. at_least v vix_risk_off) i.vix_close
    && bullish_trend_votes i == 0
    && leb 1 (bearish_trend_votes i)

unfoldable pub pred_defensive : Predicate
pred_defensive i s =
    holds (λ v. at_least v vix_caution) i.vix_close
    && leb 1 (bearish_trend_votes i)
    && leb (bullish_trend_votes i) 1

unfoldable pub pred_overheat_votes : Predicate
pred_overheat_votes i s = leb 2 (bullish_trend_votes i) && leb 2 (rsi_overheat_votes i)

-- `coexists_overheat_with_trend`
unfoldable pub pred_overheat_coexist : Predicate
pred_overheat_coexist i s = at_least s.risk_on (decimal 50 0) && at_least s.overheat (decimal 60 0)

unfoldable pub pred_distribution : Predicate
pred_distribution i s = at_least s.distribution (decimal 30 0) && leb 1 (bullish_trend_votes i)

unfoldable pub pred_aggressive : Predicate
pred_aggressive i s =
    leb 2 (strict_bullish_votes i)
    && is_trend trend_bullish i.qqq_trend_state
    && (is_trend trend_bullish i.smh_trend_state || is_trend trend_bullish i.spy_trend_state)
    && holds (λ v. less v vix_caution) i.vix_close
    && qqq_or_smh_in (decimal 65 0) rsi_aggressive_high i

-- `vix is None or vix < VIX_CAUTION`
abbrev is_calm : Option Decimal → Bool
is_calm none = true
is_calm (some vix) = less vix vix_caution

unfoldable pub pred_healthy_bull : Predicate
pred_healthy_bull i s =
    leb 2 (bullish_trend_votes i)
    && is_calm i.vix_close
    && qqq_or_smh_in rsi_healthy_low rsi_healthy_high i

unfoldable pub pred_recovery : Predicate
pred_recovery i s =
    holds (λ v. at_most v vix_caution) i.vix_close
    && bearish_trend_votes i == 0
    && rsi_in_band rsi_recovery_low rsi_recovery_high i.qqq_rsi_14

unfoldable pub pred_default_bull : Predicate
pred_default_bull i s = leb 2 (bullish_trend_votes i)

abbrev pub classification_rules : List (String × Predicate × Regime)
classification_rules =
    ("REGIME.CLASSIFY-001", pred_panic, Regime.panic)
    ∷ ("REGIME.CLASSIFY-002", pred_risk_off, Regime.risk_off)
    ∷ ("REGIME.CLASSIFY-003", pred_defensive, Regime.defensive_transition)
    ∷ ("REGIME.CLASSIFY-004", pred_overheat_votes, Regime.risk_on_overheat)
    ∷ ("REGIME.CLASSIFY-005", pred_overheat_coexist, Regime.risk_on_overheat)
    ∷ ("REGIME.CLASSIFY-006", pred_distribution, Regime.distribution_risk)
    ∷ ("REGIME.CLASSIFY-007", pred_aggressive, Regime.aggressive_risk_on)
    ∷ ("REGIME.CLASSIFY-008", pred_healthy_bull, Regime.healthy_bull)
    ∷ ("REGIME.CLASSIFY-009", pred_recovery, Regime.recovery)
    ∷ ("REGIME.CLASSIFY-010", pred_default_bull, Regime.healthy_bull)
    ∷ []

abbrev first_state : List (String × Predicate × Regime) → RegimeInput → Scores → Regime × String
first_state [] i s = (Regime.unknown, "REGIME.CLASSIFY-999")
first_state ((rule_id, predicate, state) ∷ rules) i s =
    if predicate i s then (state, rule_id) else first_state rules i s

unfoldable pub classify_state_with_rule : RegimeInput → Scores → Regime × String
classify_state_with_rule i s = first_state classification_rules i s

-- `sorted(…, reverse=True)`
abbrev insert_down : Decimal → List Decimal → List Decimal
insert_down d [] = d ∷ []
insert_down d (e ∷ es) = if less e d then d ∷ e ∷ es else e ∷ insert_down d es

abbrev sort_down : List Decimal → List Decimal
sort_down [] = []
sort_down (d ∷ ds) = insert_down d (sort_down ds)

abbrev second : List Decimal → Decimal
second (d ∷ e ∷ es) = e
second _ = decimal 0 0

abbrev max_decimal : Decimal → List Decimal → Decimal
max_decimal best [] = best
max_decimal best (d ∷ ds) = max_decimal (if less best d then d else best) ds

abbrev pub margin : Scores → Decimal
margin s =
    minus (max_decimal s.risk_off (s.distribution ∷ s.overheat ∷ s.risk_on ∷ []))
      (second (sort_down (s.risk_off ∷ s.distribution ∷ s.overheat ∷ s.risk_on ∷ [])))

abbrev pub is_unknown : Regime → Bool
is_unknown Regime.unknown = true
is_unknown _ = false

-- `_confidence`
unfoldable pub confidence : RegimeInput → Regime → Scores → Decimal
confidence i regime s =
    if is_unknown regime
    then decimal 0 0
    else let base =
        minus confidence_full
          (times confidence_per_missing_input (decimal (9 - count_present i) 0)) in
      let base' =
        if less (margin s) (decimal 15 0) then minus base confidence_per_conflict else base in
      clamp confidence_floor confidence_full base'

-- The part of a `RegimeOutput` that decides.
pub record RegimeOutput : Type 0 where
  pub regime : Regime
  pub confidence : Decimal
  pub decision_mode : DecisionMode
  pub risk_level : RiskLevel
  pub classification_rule_id : String

unfoldable pub classify_regime : RegimeInput → RegimeOutput
classify_regime i =
    let scores = compute_scores i in
    let (regime, rule_id) = classify_state_with_rule i scores in
    if ltb (count_present i) min_inputs_required
    then record {
      regime = Regime.unknown;
      confidence = decimal 0 0;
      decision_mode = regime_to_mode Regime.unknown;
      risk_level = regime_to_risk_level Regime.unknown;
      classification_rule_id = "REGIME.CLASSIFY-000";
    }
    else record {
      regime = regime;
      confidence = confidence i regime scores;
      decision_mode = regime_to_mode regime;
      risk_level = regime_to_risk_level regime;
      classification_rule_id = rule_id;
    }
