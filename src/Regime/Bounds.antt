-- ===== src/Regime/Bounds.antt =====
-- The ranges of the scores.
use fin_skill_os.Prelude.{◌≡◌, refl, true, arith}
use fin_skill_os.Decimal.{Decimal, decimal, at_most}
use fin_skill_os.Decimal.Order.{less-eq-not-at_most}
use fin_skill_os.Regime.Scores.{RegimeInput, clamp, compute_scores}

-- A number of 0 to 100.
abbrev pub IsPercentage : Decimal → Type 0
IsPercentage d = (at_most (decimal 0 0) d ≡ true) × (at_most d (decimal 100 0) ≡ true)

zero-IsPercentage : IsPercentage (decimal 0 0)
unfolding at_most
zero-IsPercentage = (refl, refl)

hundred-IsPercentage : IsPercentage (decimal 100 0)
unfolding at_most
hundred-IsPercentage = (refl, refl)

clamp-IsPercentage : (d : Decimal) → IsPercentage (clamp (decimal 0 0) (decimal 100 0) d)
unfolding clamp
clamp-IsPercentage d = ground (
  arith,
  zero-IsPercentage,
  hundred-IsPercentage,
  less-eq-not-at_most d (decimal 0 0),
  less-eq-not-at_most (decimal 100 0) d,
)

-- Each of the four scores is a number of 0 to 100.
pub compute_scores-IsPercentage :
    (i : RegimeInput)
    → IsPercentage (compute_scores i).risk_on
      × IsPercentage (compute_scores i).overheat
      × IsPercentage (compute_scores i).risk_off
      × IsPercentage (compute_scores i).distribution
unfolding compute_scores
compute_scores-IsPercentage i =
    (clamp-IsPercentage _, clamp-IsPercentage _, clamp-IsPercentage _, clamp-IsPercentage _)
