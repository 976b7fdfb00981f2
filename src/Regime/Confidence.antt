-- ===== src/Regime/Confidence.antt =====
-- The confidence of a classification, in whole points.
use fin_skill_os.Prelude.{ℕ, ◌-◌, ◌*◌, ◌≡◌, Bool, if◌then◌else◌}
use fin_skill_os.Decimal.{Decimal, decimal, less, minus, times}
use fin_skill_os.Regime.Rules.{
  Regime, confidence_full, confidence_per_missing_input, confidence_per_conflict, confidence_floor,
}
use fin_skill_os.Regime.Scores.{RegimeInput, clamp, compute_scores, count_present}
use fin_skill_os.Regime.Classify.{is_unknown, margin}

-- The points of a classification on so many of the nine inputs, with or without two scores that
-- contend for the lead.
abbrev pub points : ℕ → Bool → ℕ
points n contended = 100 - 8 * (9 - n) - (if contended then 12 else 0)

abbrev base_of : ℕ → Decimal
base_of n = minus confidence_full (times confidence_per_missing_input (decimal (9 - n) 0))

abbrev cut : ℕ → Bool → Decimal
cut n b =
    clamp confidence_floor confidence_full
      (if b then minus (base_of n) confidence_per_conflict else base_of n)

-- The confidence 0 of UNKNOWN, or the points.
abbrev pub IsConfidence : RegimeInput → Regime → Decimal → Type 0
IsConfidence i regime d =
    if is_unknown regime
    then d ≡ decimal 0 0
    else d ≡ decimal (points (count_present i) (less (margin (compute_scores i)) (decimal 15 0))) 0
