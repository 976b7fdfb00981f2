-- ===== src/Firewall/Ladder.antt =====
-- The registry of finskillos/skills/risk_registry.py and the ladder run and report of
-- finskillos/services/risk_guard_service.py.
use fin_skill_os.Prelude.{ℕ, none, List, [], ◌∷◌, map, Result, ok, ◌>>=◌}
use fin_skill_os.Guards.Base.{
  GuardInput, GuardResult, RiskGuardReport, Moment, worst_status, worst_risk_level,
}
use fin_skill_os.Wording.Matching.{Unicode}
use fin_skill_os.Skills.Base.{SkillSpec, SkillResult, SkillRunRecord}
use fin_skill_os.Skills.CashRatio.{cash_ratio_skill}
use fin_skill_os.Skills.SinglePosition.{single_position_skill}
use fin_skill_os.Skills.Concentration.{concentration_skill}
use fin_skill_os.Skills.Drawdown.{drawdown_skill}
use fin_skill_os.Skills.Goal.{goal_skill}
use fin_skill_os.Skills.Regime.{regime_skill}
use fin_skill_os.Skills.Overheat.{overheat_skill}
use fin_skill_os.Skills.Event.{event_risk_skill}
use fin_skill_os.Skills.ConcentrationHhi.{concentration_hhi_skill}
use fin_skill_os.Skills.Runner.{declarative, SkillRegistry, register, run_all}
use fin_skill_os.Skills.RiskRegistry.{context_from_guard_input, skill_result_to_guard}

abbrev pub risk_skills : List SkillSpec
risk_skills =
    cash_ratio_skill ∷ single_position_skill ∷ concentration_skill ∷ drawdown_skill ∷ goal_skill
    ∷ regime_skill ∷ overheat_skill ∷ event_risk_skill ∷ concentration_hhi_skill ∷ []

-- One `register` after another.
unfoldable pub register_all : List SkillSpec → SkillRegistry → Result SkillRegistry
register_all [] registry = ok registry
register_all (s ∷ ss) registry = register (declarative s) registry >>= register_all ss

unfoldable pub build_risk_registry : Result SkillRegistry
build_risk_registry = register_all risk_skills []

unfoldable pub to_guards : List SkillResult → Result (List GuardResult)
to_guards [] = ok []
to_guards (r ∷ rs) =
    let rest = to_guards rs in do x ← skill_result_to_guard r; xs ← rest; ok (x ∷ xs)

module _ (u : Unicode) where
  -- `_run_skill_ladder`
  unfoldable pub run_skill_ladder : GuardInput → ℕ → Result (List GuardResult × List SkillRunRecord)
  run_skill_ladder g clock = do
    registry ← build_risk_registry
    (results, records) ← run_all u registry (context_from_guard_input g) none none clock
    guards ← to_guards results
    ok (guards, records)

  -- The report of `evaluate_with_audit`, once the input is built.
  unfoldable pub report_for :
      GuardInput → Moment → ℕ → Result (RiskGuardReport × List SkillRunRecord)
  report_for g generated_at clock = do
    (results, records) ← run_skill_ladder g clock
    ok (
      record {
        account_id = g.account_id;
        generated_at = generated_at;
        overall_status = worst_status (map (λ r. r.status) results);
        overall_risk_level = worst_risk_level (map (λ r. r.risk_level) results);
        results = results;
      },
      records,
    )
