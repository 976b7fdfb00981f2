-- ===== src/Tests/Ladder.antt =====
-- The ladder of skills on the sample account.
use fin_skill_os.Dict.{lookup}
use fin_skill_os.Prelude.{
  ◌↔◌, String, str_eq, false, true, value_error, ◌++◌, ◌≡◌, refl, none, some, List, [], ◌∷◌, map,
  Result, ok, err, ◌>>=◌,
}
use fin_skill_os.Decimal.{at_most, less, plus, minus, times, divide, quantize}
use fin_skill_os.Decimal.Format.{fixed, grouped, int_text, percent, plain, repr}
use fin_skill_os.Decimal.Parse.{decimal_of_int, decimal_of_text}
use fin_skill_os.Wording.{find_forbidden_term}
use fin_skill_os.Wording.Matching.{search, remove_all}
use fin_skill_os.Guards.Base.{Status, RiskLevel, RiskGuardReport, worst_status, worst_risk_level}
use fin_skill_os.Guards.Drawdown.{resolve_drawdown}
use fin_skill_os.Guards.Sectors.{add_positions, sum_values, shares_of, heaviest}
use fin_skill_os.Skills.Base.{SkillContext, Rule, SkillResult, SkillRunRecord}
use fin_skill_os.Skills.CashRatio.{cash_ratio_skill}
use fin_skill_os.Skills.SinglePosition.{single_position_skill}
use fin_skill_os.Skills.Concentration.{concentration_skill}
use fin_skill_os.Skills.Drawdown.{drawdown_skill}
use fin_skill_os.Skills.Goal.{goal_skill}
use fin_skill_os.Skills.Regime.{regime_skill}
use fin_skill_os.Skills.Overheat.{overheat_skill}
use fin_skill_os.Skills.Event.{event_risk_skill}
use fin_skill_os.Skills.ConcentrationHhi.{
  concentration_hhi_skill, weights_of, sum_squares, top_weight,
}
use fin_skill_os.Skills.RiskRegistry.{context_from_guard_input, skill_result_to_guard}
use fin_skill_os.Skills.Runner.{
  declarative, register, run_skill, run_one, run_each, run_all, assert_skill_safe, audit_record,
  first_rule, Skill, SkillRegistry, values, skill_id_of,
}
use fin_skill_os.Skills.Runner.Choice.{run_skill_lem, first_rule_lem, Selects, IsRunOf}
use fin_skill_os.Skills.Runner.Registry.{register_lem}
use fin_skill_os.Firewall.Ladder.{
  register_all, build_risk_registry, to_guards, run_skill_ladder, report_for,
}
use fin_skill_os.Firewall.Equivalence.{run_skill_ladder-guard_ladder, guard_ladder, guards_only}
use fin_skill_os.Firewall.Report.{report_for_lem, IsComplete}
use fin_skill_os.Samples.{ascii, sample_account, sample_moment, value_or, no_report}

abbrev sample_run : Result (RiskGuardReport × List SkillRunRecord)
sample_run = report_for ascii sample_account sample_moment 1

abbrev sample_report : RiskGuardReport
sample_report = (value_or (no_report, []) sample_run).0

abbrev sample_rows : List SkillRunRecord
sample_rows = (value_or (no_report, []) sample_run).1

sample_run-verdicts :
    (map (λ r. r.status) sample_report.results
      ≡ Status.passed ∷ Status.failed ∷ Status.failed ∷ Status.failed ∷ Status.passed
        ∷ Status.failed ∷ Status.failed ∷ Status.info ∷ Status.warn ∷ [])
    × (sample_run ≡ ok (sample_report, sample_rows))
unfolding report_for run_skill_ladder build_risk_registry register_all register cash_ratio_skill
    single_position_skill concentration_skill drawdown_skill goal_skill regime_skill overheat_skill
    event_risk_skill concentration_hhi_skill run_all run_each run_one run_skill to_guards
    worst_risk_level worst_status context_from_guard_input skill_result_to_guard assert_skill_safe
    audit_record at_most divide quantize find_forbidden_term search remove_all percent times less
    grouped sum_values add_positions plus shares_of heaviest weights_of sum_squares top_weight fixed
    plain int_text repr decimal_of_int decimal_of_text minus
sample_run-verdicts = (refl, refl)

report_for_lem_example : IsComplete sample_account sample_report sample_rows
report_for_lem_example =
    report_for_lem ascii sample_account sample_moment 1 sample_report sample_rows
      sample_run-verdicts.1

run_skill_ladder-guard_ladder_example :
    (run_skill_ladder ascii sample_account 1 >>= guards_only) ≡ guard_ladder ascii sample_account 1
unfolding resolve_drawdown at_most
run_skill_ladder-guard_ladder_example =
    run_skill_ladder-guard_ladder ascii sample_account 1 refl refl

abbrev no_result : SkillResult
no_result = record {
  skill_id = "";
  version = "";
  status = Status.info;
  risk_level = RiskLevel.unknown;
  title = "";
  message = "";
  evidence = [];
  watch_next = [];
  fired_rule_ids = [];
  label = "";
}

abbrev goal_context : SkillContext
goal_context = context_from_guard_input sample_account

abbrev goal_run : SkillResult × SkillRunRecord
goal_run =
    value_or (no_result, audit_record no_result none 0)
      (run_skill ascii goal_skill goal_context none 5)

goal_run_ok : run_skill ascii goal_skill goal_context none 5 ≡ ok (goal_run.0, goal_run.1)
unfolding run_skill goal_skill context_from_guard_input assert_skill_safe at_most fixed
    find_forbidden_term search remove_all
goal_run_ok = refl

run_skill_lem_example : IsRunOf ascii goal_skill goal_context none 5 goal_run.0 goal_run.1
run_skill_lem_example =
    run_skill_lem ascii goal_skill goal_context none 5 goal_run.0 goal_run.1 goal_run_ok

abbrev never : Rule
never = record goal_skill.fallback { when = λ ctx. ok false }

abbrev fires_first : Rule
fires_first = record goal_skill.fallback { rule_id = "first"; when = λ ctx. ok true }

first_rule_lem_example :
    (first_rule (never ∷ fires_first ∷ []) goal_skill.fallback [] ≡ ok fires_first)
    ↔ Selects goal_skill.fallback [] (never ∷ fires_first ∷ []) fires_first
first_rule_lem_example =
    first_rule_lem (never ∷ fires_first ∷ []) goal_skill.fallback fires_first []

abbrev goal : Skill
goal = declarative goal_skill

abbrev twice : SkillRegistry
twice = (skill_id_of goal, goal) ∷ []

register_lem_example :
    (lookup (skill_id_of goal) twice ≡ none
      → (larger : SkillRegistry) × (register goal twice ≡ ok larger)
        × (values larger ≡ values twice ++ goal ∷ [])
        × (lookup (skill_id_of goal) larger ≡ some goal)
        × ((id : String)
            → str_eq (skill_id_of goal) id ≡ false
            → lookup id larger ≡ lookup id twice))
    × ((taken : Skill)
        → lookup (skill_id_of goal) twice ≡ some taken
        → register goal twice ≡ err value_error)
register_lem_example = register_lem goal twice
