-- ===== src/Tests/Guards.antt =====
-- The verdicts of the guards on the sample account.
use fin_skill_os.Prelude.{
  ◌≤◌, ◌≡◌, refl, true, [], ◌∷◌, ok, if◌then◌else◌, is_empty, ◌+◌, ◌*◌, arith,
}
use fin_skill_os.Dict.{Dict, without}
use fin_skill_os.Decimal.{
  Decimal, decimal, minus_decimal, at_most, times, plus, divide, quantize, div_half_even,
}
use fin_skill_os.Decimal.Order.{at_most_trans}
use fin_skill_os.Decimal.Rounding.{div_half_even-nearest}
use fin_skill_os.Guards.Base.{
  Status, GuardResult, worst_status, default_sector_fail_pct, default_sector_warn_pct,
}
use fin_skill_os.Guards.Base.Ranks.{worst_status_lem, status_by_severity}
use fin_skill_os.Guards.Sectors.{unclassified, add_positions, sum_values, shares_of}
use fin_skill_os.Guards.SinglePosition
use fin_skill_os.Guards.Concentration
use fin_skill_os.Guards.Drawdown
use fin_skill_os.Guards.Goal
use fin_skill_os.Guards.Bands.{
  NoWorse, every, every_value, Drawdown-antitone, Goal-monotone, SinglePosition-verdict,
  Concentration-verdict,
}
use fin_skill_os.Samples.{sample_account, chip_maker, bank}

Drawdown-antitone_example :
    NoWorse
      (Drawdown.judge sample_account (minus_decimal 6 0))
      (Drawdown.judge sample_account (minus_decimal 12 0))
unfolding at_most
Drawdown-antitone_example =
    Drawdown-antitone sample_account (minus_decimal 12 0) (minus_decimal 6 0) refl

Goal-monotone_example : NoWorse (Goal.judge (decimal 71 0)) (Goal.judge (decimal 955 1))
unfolding at_most
Goal-monotone_example = Goal-monotone (decimal 71 0) (decimal 955 1) refl

SinglePosition-verdict_example :
    (r : GuardResult) × (SinglePosition.evaluate sample_account ≡ ok r)
    × (r.status ≡ (
        if every
          (λ p. at_most p.market_value sample_account.single_position_limit)
          sample_account.positions
        then (if every (λ p. at_most p.market_value (decimal 900000000 2)) sample_account.positions
            then Status.passed
            else Status.warn)
        else Status.failed))
unfolding times quantize
SinglePosition-verdict_example = SinglePosition-verdict sample_account (decimal 900000000 2) refl

abbrev sample_shares : Dict Decimal
sample_shares = ("SEMI", decimal 4419 4) ∷ ("FIN", decimal 5581 4) ∷ []

Concentration-verdict_example :
    (r : GuardResult) × (Concentration.evaluate sample_account ≡ ok r)
    × (r.status ≡ (
        if is_empty (without unclassified sample_shares)
        then Status.info
        else if every_value
            (λ v. at_most v default_sector_fail_pct)
            (without unclassified sample_shares)
        then (if every_value
              (λ v. at_most v default_sector_warn_pct)
              (without unclassified sample_shares)
            then Status.passed
            else Status.warn)
        else Status.failed))
unfolding at_most sum_values add_positions plus shares_of divide quantize
Concentration-verdict_example =
    Concentration-verdict sample_account chip_maker (bank ∷ []) sample_shares refl refl refl

worst_status_lem_example :
    worst_status (Status.info ∷ Status.failed ∷ Status.warn ∷ [])
    ≡ status_by_severity (Status.info ∷ Status.failed ∷ Status.warn ∷ [])
worst_status_lem_example = worst_status_lem (Status.info ∷ Status.failed ∷ Status.warn ∷ [])

at_most_trans_example : at_most (minus_decimal 15 1) (decimal 2 0) ≡ true
unfolding at_most
at_most_trans_example = at_most_trans (minus_decimal 15 1) (decimal 0 2) (decimal 2 0) refl refl

div_half_even-nearest_example :
    (2 * 25 ≤ 2 * (div_half_even 25 10 * 10) + 10) × (2 * (div_half_even 25 10 * 10) ≤ 2 * 25 + 10)
div_half_even-nearest_example = div_half_even-nearest 25 10 (omega arith)
