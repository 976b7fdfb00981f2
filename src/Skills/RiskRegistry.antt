-- ===== src/Skills/RiskRegistry.antt =====
-- finskillos/skills/risk_registry.py: the context that the risk skills share, and the way back from
-- a skill's result to a guard's.
use fin_skill_os.Prelude.{
  ℕ, Option, none, some, [], ◌∷◌, ◌++◌, String, Result, ok, err, key_error, ◌>>=◌, ◌>>◌,
}
use fin_skill_os.Dict.{Dict, lookup}
use fin_skill_os.Guards.Base.{
  Value, GuardInput, GuardResult, of_option, guard_cash_ratio, guard_single_position,
  guard_sector_concentration, guard_drawdown, guard_goal_protection, guard_regime_risk,
  guard_overheat_entry, guard_event_placeholder,
}
use fin_skill_os.Wording.{find_forbidden_term}
use fin_skill_os.Wording.Matching.{Unicode}
use fin_skill_os.Skills.Base.{SkillContext, SkillSpec, SkillResult}
use fin_skill_os.Skills.Runner.{run_skill, evidence_texts, raise_term}

abbrev pub skill_to_guard_name : Dict String
skill_to_guard_name =
    ("RISK.CASH_RATIO", guard_cash_ratio)
    ∷ ("RISK.SINGLE_POSITION", guard_single_position)
    ∷ ("RISK.SECTOR_CONCENTRATION", guard_sector_concentration)
    ∷ ("RISK.DRAWDOWN", guard_drawdown)
    ∷ ("RISK.GOAL_PROTECTION", guard_goal_protection)
    ∷ ("RISK.REGIME_RISK", guard_regime_risk)
    ∷ ("RISK.OVERHEAT_ENTRY", guard_overheat_entry)
    ∷ ("RISK.EVENT_RISK", guard_event_placeholder)
    ∷ ("RISK.CONCENTRATION_HHI", "CONCENTRATION_HHI_GUARD")
    ∷ []

unfoldable pub context_from_guard_input : GuardInput → SkillContext
context_from_guard_input g =
    ("guard_input", Value.input g)
    ∷ ("account_id", Value.uuid g.account_id)
    ∷ ("total_value", Value.number g.total_value)
    ∷ ("cash_value", Value.number g.cash_value)
    ∷ ("target_value", Value.number g.target_value)
    ∷ ("peak_value", of_option Value.number g.peak_value)
    ∷ ("drawdown_pct", of_option Value.number g.drawdown_pct)
    ∷ ("positions", Value.positions g.positions)
    ∷ ("regime", of_option Value.text g.regime)
    ∷ ("regime_risk_level", of_option Value.text g.regime_risk_level)
    ∷ ("decision_mode", of_option Value.text g.decision_mode)
    ∷ ("goal_progress_pct", of_option Value.number g.goal_progress_pct)
    ∷ ("single_position_limit", Value.number g.single_position_limit)
    ∷ ("min_cash_ratio", Value.number g.min_cash_ratio)
    ∷ ("event_risk", of_option Value.events g.event_risk)
    ∷ []

abbrev named : SkillResult → Option String → Result GuardResult
named r none = err key_error
named r (some name) = ok (record {
  guard_name = name;
  status = r.status;
  risk_level = r.risk_level;
  title = r.title;
  message = r.message;
  evidence = r.evidence;
  watch_next = r.watch_next;
})

-- `_skill_result_to_guard` of finskillos/services/risk_guard_service.py
unfoldable pub skill_result_to_guard : SkillResult → Result GuardResult
skill_result_to_guard r = named r (lookup r.skill_id skill_to_guard_name)

module _ (u : Unicode) where
  -- `assert_no_forbidden_wording` of finskillos/guards/base.py
  unfoldable pub assert_no_forbidden_wording : GuardResult → Result (Unit {0})
  assert_no_forbidden_wording r =
      raise_term
        (find_forbidden_term u (r.title ∷ r.message ∷ r.watch_next ++ evidence_texts r.evidence))

  -- The guard that a skill replaces, read back from a run of the skill on the shared context.
  abbrev pub as_guard : SkillSpec → GuardInput → Option ℕ → ℕ → Result GuardResult
  as_guard spec g now clock = do
    (r, _) ← run_skill u spec (context_from_guard_input g) now clock
    skill_result_to_guard r

  -- A guard's result that has passed the wording check.
  abbrev pub checked : Result GuardResult → Result GuardResult
  checked m = do r ← m; assert_no_forbidden_wording r; ok r
