-- ===== src/Tests/Parity.antt =====
-- Each skill against its guard on the sample account.
use fin_skill_os.Prelude.{◌≡◌, refl, none, some, ok}
use fin_skill_os.Decimal.{Decimal, minus_decimal, at_most}
use fin_skill_os.Guards.Base.{Status, RiskLevel, GuardInput, GuardResult}
use fin_skill_os.Guards.Drawdown.{resolve_drawdown, no_drawdown}
use fin_skill_os.Skills.RiskRegistry.{as_guard, checked}
use fin_skill_os.Skills.Parity.Floor.{drawdown_skill-below_floor}
use fin_skill_os.Samples.{ascii, sample_account}
use fin_skill_os.Guards.CashRatio
use fin_skill_os.Skills.CashRatio.{cash_ratio_skill}
use fin_skill_os.Skills.Parity.CashRatio.{cash_ratio_skill-evaluate}
use fin_skill_os.Guards.SinglePosition
use fin_skill_os.Skills.SinglePosition.{single_position_skill}
use fin_skill_os.Skills.Parity.SinglePosition.{single_position_skill-evaluate}
use fin_skill_os.Guards.Concentration
use fin_skill_os.Skills.Concentration.{concentration_skill}
use fin_skill_os.Skills.Parity.Concentration.{concentration_skill-evaluate}
use fin_skill_os.Guards.Drawdown
use fin_skill_os.Skills.Drawdown.{drawdown_skill}
use fin_skill_os.Skills.Parity.Drawdown.{drawdown_skill-evaluate}
use fin_skill_os.Guards.Goal
use fin_skill_os.Skills.Goal.{goal_skill}
use fin_skill_os.Skills.Parity.Goal.{goal_skill-evaluate}
use fin_skill_os.Guards.Regime
use fin_skill_os.Skills.Regime.{regime_skill}
use fin_skill_os.Skills.Parity.Regime.{regime_skill-evaluate}
use fin_skill_os.Guards.Overheat
use fin_skill_os.Skills.Overheat.{overheat_skill}
use fin_skill_os.Skills.Parity.Overheat.{overheat_skill-evaluate}
use fin_skill_os.Guards.Event
use fin_skill_os.Skills.Event.{event_risk_skill}
use fin_skill_os.Skills.Parity.Event.{event_risk_skill-evaluate}

cash_ratio_skill-evaluate_example :
    as_guard ascii cash_ratio_skill sample_account none 3
    ≡ checked ascii (CashRatio.evaluate sample_account)
cash_ratio_skill-evaluate_example = cash_ratio_skill-evaluate ascii sample_account none 3

single_position_skill-evaluate_example :
    as_guard ascii single_position_skill sample_account none 3
    ≡ checked ascii (SinglePosition.evaluate sample_account)
single_position_skill-evaluate_example = single_position_skill-evaluate ascii sample_account none 3

concentration_skill-evaluate_example :
    as_guard ascii concentration_skill sample_account none 3
    ≡ checked ascii (Concentration.evaluate sample_account)
concentration_skill-evaluate_example = concentration_skill-evaluate ascii sample_account none 3

drawdown_skill-evaluate_example :
    as_guard ascii drawdown_skill sample_account none 3
    ≡ checked ascii (Drawdown.evaluate sample_account)
unfolding resolve_drawdown at_most
drawdown_skill-evaluate_example = drawdown_skill-evaluate ascii sample_account none 3 refl

goal_skill-evaluate_example :
    as_guard ascii goal_skill sample_account none 3 ≡ checked ascii (Goal.evaluate sample_account)
unfolding at_most
goal_skill-evaluate_example = goal_skill-evaluate ascii sample_account none 3 refl

regime_skill-evaluate_example :
    as_guard ascii regime_skill sample_account none 3
    ≡ checked ascii (Regime.evaluate sample_account)
regime_skill-evaluate_example = regime_skill-evaluate ascii sample_account none 3

overheat_skill-evaluate_example :
    as_guard ascii overheat_skill sample_account none 3
    ≡ checked ascii (Overheat.evaluate sample_account)
overheat_skill-evaluate_example = overheat_skill-evaluate ascii sample_account none 3

event_risk_skill-evaluate_example :
    as_guard ascii event_risk_skill sample_account none 3
    ≡ checked ascii (Event.evaluate sample_account)
event_risk_skill-evaluate_example = event_risk_skill-evaluate ascii sample_account none 3

abbrev sunken : Decimal
sunken = minus_decimal 2_000_000_000_000_000_000_000_000_000_000 0

abbrev sunken_account : GuardInput
sunken_account = record sample_account { drawdown_pct = some sunken }

drawdown_skill-below_floor_example :
    (as_guard ascii drawdown_skill sunken_account none 3
      ≡ checked ascii (ok (no_drawdown sunken_account)))
    × (r : GuardResult) × (Drawdown.evaluate sunken_account ≡ ok r)
    × (r.status ≡ Status.failed)
    × (r.risk_level ≡ RiskLevel.red)
unfolding resolve_drawdown at_most
drawdown_skill-below_floor_example =
    drawdown_skill-below_floor ascii sunken_account none 3 sunken refl refl
