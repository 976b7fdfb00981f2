-- ===== src/Guards/Bands.antt =====
-- The guards that place one number in a ladder of bands, and the guard of the single positions: how
-- the verdict depends on the number.
use fin_skill_os.Prelude.{
  ◌≤◌, ◌≡◌, refl, true, false, List, [], ◌∷◌, ok, String, is_empty, Bool, ◌&&◌, if◌then◌else◌,
  arith,
}
use fin_skill_os.Decimal.{Decimal, decimal, minus_decimal, at_most, times, quantize}
use fin_skill_os.Decimal.Order.{at_most_trans, at_most_total, less-eq-not-at_most}
use fin_skill_os.Guards.Base.{
  Status, RiskLevel, PositionRiskInput, GuardInput, GuardResult, status_rank, risk_rank,
  default_goal_complete_pct, default_goal_protection_pct, default_goal_warn_pct,
  default_sector_warn_pct, default_sector_fail_pct,
}
use fin_skill_os.Guards.Drawdown
use fin_skill_os.Guards.Goal
use fin_skill_os.Guards.SinglePosition
use fin_skill_os.Guards.SinglePosition.{warn_ratio_of_limit, over_limit, approaching}
use fin_skill_os.Guards.Event
use fin_skill_os.Guards.Concentration
use fin_skill_os.Guards.Sectors.{unclassified, add_positions, sum_values, shares_of, heaviest}
use fin_skill_os.Dict.{Dict, lookup_or, without}

-- What one result ranks no worse than another, in both scales.
abbrev pub NoWorse : GuardResult → GuardResult → Type 0
NoWorse a b =
    (status_rank a.status ≤ status_rank b.status)
    × (risk_rank a.risk_level ≤ risk_rank b.risk_level)

-- A deeper drawdown is never judged milder.
pub Drawdown-antitone :
    (g : GuardInput) (deeper shallower : Decimal)
    → at_most deeper shallower ≡ true
    → NoWorse (Drawdown.judge g shallower) (Drawdown.judge g deeper)
Drawdown-antitone g deeper shallower h = ground (
  arith,
  at_most_trans (minus_decimal 5 0) deeper shallower,
  at_most_trans (minus_decimal 8 0) deeper shallower,
  at_most_trans (minus_decimal 10 0) deeper shallower,
  at_most_trans (minus_decimal 15 0) deeper shallower,
)

-- A greater progress towards the goal is never judged milder.
pub Goal-monotone :
    (less_progress more_progress : Decimal)
    → at_most less_progress more_progress ≡ true
    → NoWorse (Goal.judge less_progress) (Goal.judge more_progress)
Goal-monotone p q h = ground (
  arith,
  at_most_trans default_goal_complete_pct p q,
  at_most_trans default_goal_protection_pct p q,
  at_most_trans default_goal_warn_pct p q,
)

-- Whatever the events, the event guard reports INFO and GREEN.
Event-descriptive :
    (g : GuardInput)
    → (r : GuardResult) × (Event.evaluate g ≡ ok r)
      × (r.status ≡ Status.info)
      × (r.risk_level ≡ RiskLevel.green)
unfolding Event.evaluate
Event-descriptive g = (_, refl, ground arith, ground arith)

-- `all(test(p) for p in ps)`
abbrev pub every : (PositionRiskInput → Bool) → List PositionRiskInput → Bool
every test [] = true
every test (p ∷ ps) = test p && every test ps

is_empty-over_limit :
    (limit : Decimal) (ps : List PositionRiskInput)
    → is_empty (over_limit limit ps) ≡ every (λ p. at_most p.market_value limit) ps
is_empty-over_limit limit [] = refl
is_empty-over_limit limit (p ∷ ps) =
    ground (arith, is_empty-over_limit limit ps, less-eq-not-at_most limit p.market_value)

is_empty-approaching :
    (warn limit : Decimal) (ps : List PositionRiskInput)
    → every (λ p. at_most p.market_value limit) ps ≡ true
    → is_empty (approaching warn limit ps) ≡ every (λ p. at_most p.market_value warn) ps
is_empty-approaching warn limit [] h = refl
is_empty-approaching warn limit (p ∷ ps) h =
    ground (arith, is_empty-approaching warn limit ps, less-eq-not-at_most warn p.market_value)

-- Once the warning threshold is computed, the guard fails when some position is above the limit,
-- passes when every position is within the limit and the threshold, and warns otherwise.
pub SinglePosition-verdict :
    (g : GuardInput) (warn : Decimal)
    → quantize 2 (times g.single_position_limit warn_ratio_of_limit) ≡ ok warn
    → (r : GuardResult) × (SinglePosition.evaluate g ≡ ok r)
      × (r.status ≡ (
          if every (λ p. at_most p.market_value g.single_position_limit) g.positions
          then (if every (λ p. at_most p.market_value warn) g.positions
              then Status.passed
              else Status.warn)
          else Status.failed))
unfolding SinglePosition.evaluate
SinglePosition-verdict g warn e = (
  SinglePosition.judge g.single_position_limit warn g.positions,
  rw e,
  ground (
    arith,
    is_empty-over_limit g.single_position_limit g.positions,
    is_empty-approaching warn g.single_position_limit g.positions,
  ),
)

abbrev pub every_value : (Decimal → Bool) → Dict Decimal → Bool
every_value test [] = true
every_value test ((k, v) ∷ d) = test v && every_value test d

-- The entry that `heaviest` returns bounds every entry that it has seen.
heaviest-bound :
    (t : Decimal) (best : String × Decimal) (d : Dict Decimal)
    → at_most (heaviest best d).1 t ≡ (at_most best.1 t && every_value (λ v. at_most v t) d)
unfolding heaviest
heaviest-bound t best [] = ground arith
heaviest-bound t best ((k, v) ∷ d) = ground (
  arith,
  heaviest-bound t best d,
  heaviest-bound t (k, v) d,
  less-eq-not-at_most best.1 v,
  at_most_total best.1 v,
  at_most_trans best.1 v t,
  at_most_trans v best.1 t,
)

of_classified-status :
    (ps : List PositionRiskInput) (shares : Dict Decimal) (rest_share : Decimal)
    (sectors : Dict Decimal)
    → (Concentration.of_classified ps shares rest_share sectors).status ≡ (
        if is_empty sectors
        then Status.info
        else if every_value (λ v. at_most v default_sector_fail_pct) sectors
        then (if every_value (λ v. at_most v default_sector_warn_pct) sectors
            then Status.passed
            else Status.warn)
        else Status.failed)
of_classified-status ps shares rest_share [] = refl
of_classified-status ps shares rest_share (top ∷ d) = ground (
  arith,
  heaviest-bound default_sector_fail_pct top d,
  heaviest-bound default_sector_warn_pct top d,
  less-eq-not-at_most default_sector_fail_pct (heaviest top d).1,
  less-eq-not-at_most default_sector_warn_pct (heaviest top d).1,
)

-- When the positions have a value in all and their shares are computed, the guard passes over the
-- share of the unclassified positions: it has nothing to say when no sector is known, fails when
-- some sector is above 50%, passes when every sector is within 35%, and warns otherwise.
pub Concentration-verdict :
    (g : GuardInput) (p : PositionRiskInput) (ps : List PositionRiskInput) (shares : Dict Decimal)
    → g.positions ≡ p ∷ ps
    → at_most (sum_values (add_positions [] (p ∷ ps))) (decimal 0 0) ≡ false
    → shares_of (sum_values (add_positions [] (p ∷ ps))) (add_positions [] (p ∷ ps)) ≡ ok shares
    → let sectors = without unclassified shares in
      (r : GuardResult) × (Concentration.evaluate g ≡ ok r)
      × (r.status ≡ (
          if is_empty sectors
          then Status.info
          else if every_value (λ v. at_most v default_sector_fail_pct) sectors
          then (if every_value (λ v. at_most v default_sector_warn_pct) sectors
              then Status.passed
              else Status.warn)
          else Status.failed))
unfolding Concentration.evaluate
Concentration-verdict g p ps shares e positive h = (
  Concentration.of_classified (p ∷ ps) shares (lookup_or (decimal 0 0) unclassified shares)
      (without unclassified shares),
  rw (e, positive, h),
  of_classified-status (p ∷ ps) shares (lookup_or (decimal 0 0) unclassified shares)
      (without unclassified shares),
)
