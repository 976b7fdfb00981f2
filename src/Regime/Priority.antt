-- ===== src/Regime/Priority.antt =====
-- What the order of the classification ladder comes to.
use fin_skill_os.Prelude.{
  ℕ, ◌+◌, ◌≤◌, ◌≡◌, refl, ltb, leb, ◌==◌, ◌&&◌, true, false, Bool, Option, none, some, String, ◌||◌,
  str_eq, eq_iff, Bool-cases, inl, inr, arith,
}
use fin_skill_os.Guards.Base.{RiskLevel}
use fin_skill_os.Regime.Rules.{Regime, is_bullish, is_bearish, regime_to_risk_level}
use fin_skill_os.Decimal.{Decimal, decimal, at_most, less, plus, fix, div_half_even}
use fin_skill_os.Regime.Scores.{
  RegimeInput, Scores, holds, count_present, bullish_trend_votes, bearish_trend_votes,
  rsi_overheat_votes, clamp, add_if, compute_scores,
}
use fin_skill_os.Regime.Classify.{
  classify_regime, min_inputs_required, classify_state_with_rule, pred_panic, pred_risk_off,
  pred_defensive, pred_default_bull, pred_healthy_bull, pred_overheat_votes, pred_distribution,
}

abbrev pub is_red : RiskLevel → Bool
is_red RiskLevel.red = true
is_red _ = false

-- A VIX of 30 or more with two bearish trends, or of 25 or more with a bearish and no bullish one.
abbrev pub is_alarming : RegimeInput → Bool
is_alarming i =
    holds (λ v. at_most (decimal 30 0) v) i.vix_close && leb 2 (bearish_trend_votes i)
    || holds (λ v. at_most (decimal 25 0) v) i.vix_close
      && leb 1 (bearish_trend_votes i)
      && bullish_trend_votes i == 0

red-alarming :
    (i : RegimeInput) (s : Scores)
    → is_red (regime_to_risk_level (classify_state_with_rule i s).0) ≡ is_alarming i
unfolding classify_state_with_rule regime_to_risk_level pred_panic pred_risk_off
red-alarming i s = ground arith

-- A classification is RED exactly when at least four of the nine inputs are there, and the VIX is 30
-- or more with two bearish trends, or 25 or more with a bearish trend and no bullish one; no score and
-- no other signal changes that.
pub classify_regime-red :
    (i : RegimeInput)
    → is_red (classify_regime i).risk_level ≡ (leb 4 (count_present i) && is_alarming i)
unfolding classify_regime regime_to_risk_level
classify_regime-red i = elim (Bool-cases (ltb (count_present i) min_inputs_required)) [
  | inl e ↦ ground (arith, e)
  | inr e ↦ ground (arith, e, red-alarming i (compute_scores i))
]

not_both : (t : Option String) → is_bullish t ≡ true → is_bearish t ≡ false
not_both none h = refl
not_both (some t) h = elim (Bool-cases (str_eq t "BULLISH")) [
  | inl e ↦ rw ((eq_iff t "BULLISH").0 e) refl
  | inr e ↦ rw ((eq_iff t "WEAK_BULLISH").0 (ground (arith, e))) refl
]

votes_bound : (i : RegimeInput) → bullish_trend_votes i + bearish_trend_votes i ≤ 3
unfolding bullish_trend_votes bearish_trend_votes
votes_bound i =
    ground
      (arith, not_both i.spy_trend_state, not_both i.qqq_trend_state, not_both i.smh_trend_state)

-- The states that hold back.
abbrev pub is_holding_back : Regime → Bool
is_holding_back Regime.panic = true
is_holding_back Regime.risk_off = true
is_holding_back Regime.defensive_transition = true
is_holding_back Regime.unknown = true
is_holding_back _ = false

module _ (i : RegimeInput) (s : Scores) (h : 2 ≤ bullish_trend_votes i) where
  not_panic : pred_panic i s ≡ false
  unfolding pred_panic
  not_panic = ground (arith, votes_bound i)

  not_risk_off : pred_risk_off i s ≡ false
  unfolding pred_risk_off
  not_risk_off = ground arith

  not_defensive : pred_defensive i s ≡ false
  unfolding pred_defensive
  not_defensive = ground arith

  is_default_bull : pred_default_bull i s ≡ true
  unfolding pred_default_bull
  is_default_bull = ground arith

rung_two_bullish :
    (i : RegimeInput) (s : Scores)
    → 2 ≤ bullish_trend_votes i
    → is_holding_back (classify_state_with_rule i s).0 ≡ false
unfolding classify_state_with_rule
rung_two_bullish i s h =
    ground (arith, not_panic i s h, not_risk_off i s h, not_defensive i s h, is_default_bull i s h)

-- With two bullish trends of the three, the regime is one of PANIC, RISK_OFF, DEFENSIVE_TRANSITION and
-- UNKNOWN exactly when fewer than four of the nine inputs are there, whatever the VIX and the scores.
pub classify_regime-two_bullish :
    (i : RegimeInput)
    → 2 ≤ bullish_trend_votes i
    → is_holding_back (classify_regime i).regime ≡ ltb (count_present i) 4
unfolding classify_regime
classify_regime-two_bullish i h = elim (Bool-cases (ltb (count_present i) min_inputs_required)) [
  | inl e ↦ ground (arith, e)
  | inr e ↦ ground (arith, e, rung_two_bullish i (compute_scores i) h)
]

two_bullish_of_healthy :
    (i : RegimeInput) (s : Scores) → pred_healthy_bull i s ≡ true → 2 ≤ bullish_trend_votes i
unfolding pred_healthy_bull
two_bullish_of_healthy i s h = ground arith

two_bullish_of_default :
    (i : RegimeInput) (s : Scores) → pred_default_bull i s ≡ true → 2 ≤ bullish_trend_votes i
unfolding pred_default_bull
two_bullish_of_default i s h = ground arith

rung_green :
    (i : RegimeInput) (s : Scores)
    → regime_to_risk_level (classify_state_with_rule i s).0 ≡ RiskLevel.green
    → (2 ≤ bullish_trend_votes i)
      × (pred_overheat_votes i s ≡ false)
      × (pred_distribution i s ≡ false)
unfolding classify_state_with_rule regime_to_risk_level
rung_green i s h = ground (arith, two_bullish_of_healthy i s, two_bullish_of_default i s)

calm_rsis :
    (i : RegimeInput) (s : Scores)
    → 2 ≤ bullish_trend_votes i
    → pred_overheat_votes i s ≡ false
    → rsi_overheat_votes i ≤ 1
unfolding pred_overheat_votes
calm_rsis i s h e = ground arith

-- The points of the distribution score, by its two tests.
abbrev points_of : Bool → Bool → Decimal
points_of weak flat =
    clamp (decimal 0 0) (decimal 100 0)
      (add_if weak (decimal 30 0) (add_if flat (decimal 40 0) (decimal 0 0)))

low_points :
    (weak flat : Bool)
    → at_most (decimal 30 0) (points_of weak flat) ≡ false
    → (weak ≡ false) × (flat ≡ false)
unfolding at_most clamp less plus fix div_half_even
low_points true true e = absurd (ground arith)
low_points true false e = absurd (ground arith)
low_points false true e = absurd (ground arith)
low_points false false e = (refl, refl)

unmet : (n : ℕ) (b : Bool) → 2 ≤ n → (b && leb 1 n) ≡ false → b ≡ false
unmet n b h e = ground arith

second_false : (a b : Bool) → a ≡ true → (a && b) ≡ false → b ≡ false
second_false a b h e = ground arith

no_distribution :
    (i : RegimeInput)
    → 2 ≤ bullish_trend_votes i
    → pred_distribution i (compute_scores i) ≡ false
    → (holds (λ b. less b (decimal 45 0)) i.breadth_score ≡ false)
      × (holds (λ m. at_most m (decimal 0 0)) i.momentum_score ≡ false)
unfolding pred_distribution compute_scores
no_distribution i h e =
    let narrow = holds (λ b. less b (decimal 45 0)) i.breadth_score in
    let falling = holds (λ m. at_most m (decimal 0 0)) i.momentum_score in
    let (weak, flat) =
      low_points (leb 1 (bullish_trend_votes i) && narrow)
        (leb 2 (bullish_trend_votes i) && falling) (unmet (bullish_trend_votes i) _ h e) in
    (
      second_false (leb 1 (bullish_trend_votes i)) narrow (ground arith) weak,
      second_false (leb 2 (bullish_trend_votes i)) falling (ground arith) flat,
    )

not_green : regime_to_risk_level Regime.unknown ≡ RiskLevel.green → ⊥
unfolding regime_to_risk_level
not_green e = ground arith

-- What a GREEN regime rests on.
abbrev pub IsGreen : RegimeInput → Type 0
IsGreen i =
    (4 ≤ count_present i)
    × (2 ≤ bullish_trend_votes i)
    × (bearish_trend_votes i ≤ 1)
    × (rsi_overheat_votes i ≤ 1)
    × (holds (λ b. less b (decimal 45 0)) i.breadth_score ≡ false)
    × (holds (λ m. at_most m (decimal 0 0)) i.momentum_score ≡ false)

-- A GREEN classification has four of the nine inputs, two bullish trends of the three and at most one
-- bearish one, at most one RSI of 70 or more, no breadth below 45, and no momentum of 0 or less.
pub classify_regime-green :
    (i : RegimeInput) → (classify_regime i).risk_level ≡ RiskLevel.green → IsGreen i
unfolding classify_regime
classify_regime-green i h = elim (Bool-cases (ltb (count_present i) min_inputs_required)) [
  | inl e ↦ absurd (not_green (rw (e, classify_regime) at h))
  | inr e ↦
      let (bulls, cool, calm) = rung_green i (compute_scores i) (rw (e, classify_regime) at h) in
      let (broad, rising) = no_distribution i bulls calm in
      (
        ground (arith, e),
        bulls,
        ground (arith, votes_bound i),
        calm_rsis i _ bulls cool,
        broad,
        rising,
      )
]
