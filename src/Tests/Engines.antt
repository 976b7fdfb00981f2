-- ===== src/Tests/Engines.antt =====
-- The goal, the regime and the streaks at concrete data.
use fin_skill_os.Prelude.Int.{pos}
use fin_skill_os.Prelude.{
  ◌≡◌, refl, true, some, none, [], ◌∷◌, List, map, ok, ltb, leb, ◌&&◌, arith,
}
use fin_skill_os.Decimal.{
  Decimal, decimal, minus_decimal, at_most, at_least, less, plus, divide, times, quantize, minus,
}
use fin_skill_os.Goal.{
  GoalStatus, goal_mode_for, saturated, calculate_goal_status, threshold_challenge_complete,
}
use fin_skill_os.Goal.Progress.{calculate_goal_status_lem}
use fin_skill_os.Regime.Rules.{Regime, regime_to_risk_level}
use fin_skill_os.Regime.Scores.{
  RegimeInput, compute_scores, bullish_trend_votes, bearish_trend_votes, rsi_overheat_votes, clamp,
  strict_bullish_votes, rsi_oversold_votes, count_present,
}
use fin_skill_os.Regime.Classify.{
  classify_state_with_rule, confidence, classify_regime, pred_panic, pred_risk_off, pred_defensive,
  pred_overheat_votes, pred_overheat_coexist, pred_distribution, pred_aggressive, pred_healthy_bull,
  pred_recovery, pred_default_bull,
}
use fin_skill_os.Regime.Bounds.{IsPercentage, compute_scores-IsPercentage}
use fin_skill_os.Guards.Base.{RiskLevel}
use fin_skill_os.Regime.Priority.{
  is_red, is_alarming, classify_regime-red, is_holding_back, classify_regime-two_bullish, IsGreen,
  classify_regime-green,
}
use fin_skill_os.Trades.{Sign, sign, walk, streaks}
use fin_skill_os.Trades.Runs.{longest, streaks-longest}

calculate_goal_status_lem_example :
    (s : GoalStatus) × (calculate_goal_status (decimal 120 0) (decimal 100 0) ≡ ok s)
    × (s.progress_pct ≡ decimal 10000 2)
    × (at_most (decimal 0 0) s.progress_ratio ≡ true)
    × (at_most s.progress_ratio (decimal 1 0) ≡ true)
    × (at_most (decimal 0 0) s.remaining_value ≡ true)
    × (s.goal_mode ≡ goal_mode_for (decimal 12000000000000000000000000000 28))
    × (s.early_stop_triggered
        ≡ at_least (decimal 12000000000000000000000000000 28) threshold_challenge_complete)
unfolding at_most less divide saturated times quantize
calculate_goal_status_lem_example =
    calculate_goal_status_lem (decimal 120 0) (decimal 100 0)
      (decimal 12000000000000000000000000000 28) (decimal 10000 2) refl refl refl

abbrev stormy_bull : RegimeInput
stormy_bull = record {
  spy_trend_state = some "BULLISH";
  qqq_trend_state = some "WEAK_BULLISH";
  smh_trend_state = some "BEARISH";
  spy_rsi_14 = some (decimal 45 0);
  qqq_rsi_14 = some (decimal 45 0);
  smh_rsi_14 = some (decimal 45 0);
  vix_close = some (decimal 45 0);
  dxy_trend_state = none;
  us10y_trend_state = none;
  breadth_score = none;
  momentum_score = none;
}

-- A VIX of 45 does not keep the state from being GREEN.
stormy_bull_regime :
    classify_state_with_rule stormy_bull (compute_scores stormy_bull)
    ≡ (Regime.healthy_bull, "REGIME.CLASSIFY-010")
unfolding classify_state_with_rule compute_scores pred_panic at_most bearish_trend_votes
    pred_risk_off bullish_trend_votes pred_defensive pred_overheat_votes rsi_overheat_votes
    pred_overheat_coexist clamp less plus times pred_distribution pred_aggressive
    strict_bullish_votes pred_healthy_bull pred_recovery pred_default_bull rsi_oversold_votes
stormy_bull_regime = refl

compute_scores-IsPercentage_example :
    IsPercentage (compute_scores stormy_bull).risk_on
    × IsPercentage (compute_scores stormy_bull).overheat
    × IsPercentage (compute_scores stormy_bull).risk_off
    × IsPercentage (compute_scores stormy_bull).distribution
compute_scores-IsPercentage_example = compute_scores-IsPercentage stormy_bull

classify_regime-red_example :
    is_red (classify_regime stormy_bull).risk_level
    ≡ (leb 4 (count_present stormy_bull) && is_alarming stormy_bull)
classify_regime-red_example = classify_regime-red stormy_bull

classify_regime-two_bullish_example :
    is_holding_back (classify_regime stormy_bull).regime ≡ ltb (count_present stormy_bull) 4
unfolding bullish_trend_votes
classify_regime-two_bullish_example = classify_regime-two_bullish stormy_bull (omega arith)

stormy_bull-classification :
    ((classify_regime stormy_bull).risk_level ≡ RiskLevel.green)
    × ((classify_regime stormy_bull).confidence ≡ decimal 72 0)
unfolding classify_regime classify_state_with_rule compute_scores pred_panic at_most
    bearish_trend_votes pred_risk_off bullish_trend_votes pred_defensive pred_overheat_votes
    rsi_overheat_votes pred_overheat_coexist clamp less plus times pred_distribution pred_aggressive
    strict_bullish_votes pred_healthy_bull pred_recovery pred_default_bull rsi_oversold_votes
    count_present regime_to_risk_level confidence minus
stormy_bull-classification = (refl, refl)

classify_regime-green_example : IsGreen stormy_bull
classify_regime-green_example = classify_regime-green stormy_bull stormy_bull-classification.0

abbrev closes : List Decimal
closes = decimal 5 0 ∷ decimal 0 0 ∷ decimal 12 1 ∷ minus_decimal 3 0 ∷ decimal 1 0 ∷ []

streaks-longest_example :
    ((streaks closes).0 ≡ longest Sign.win (map sign closes))
    × ((streaks closes).1 ≡ longest Sign.loss (map sign closes))
streaks-longest_example = streaks-longest closes

sample_streaks : streaks closes ≡ (2, 1, pos 1)
unfolding streaks sign walk less
sample_streaks = refl
