-- ===== src/Firewall/Report.antt =====
-- The report of a ladder run: finskillos/services/risk_guard_service.py.
use fin_skill_os.Prelude.{
  ℕ, ◌≡◌, refl, ap, ◌∙◌, sym, not, is_empty, none, some, List, [], ◌∷◌, map, String, Result, ok,
  err, key_error, ◌>>=◌, ok-one, ok-pair, Result-cases, inl, inr, subst, arith,
}
use fin_skill_os.Dict.{lookup}
use fin_skill_os.Guards.Base.{
  GuardInput, GuardResult, RiskGuardReport, Moment, failing, guard_cash_ratio,
  guard_single_position, guard_sector_concentration, guard_drawdown, guard_goal_protection,
  guard_regime_risk, guard_overheat_entry, guard_event_placeholder,
}
use fin_skill_os.Guards.Base.Ranks.{
  status_by_severity, level_by_severity, fails, worst_status_lem, worst_risk_level_lem,
  failing_statuses,
}
use fin_skill_os.Wording.Matching.{Unicode}
use fin_skill_os.Skills.Base.{SkillResult, SkillRunRecord}
use fin_skill_os.Skills.Runner.{declarative, run_each, run_all}
use fin_skill_os.Skills.Runner.Registry.{run_each-ids, ids_of, row_ids_of}
use fin_skill_os.Skills.RiskRegistry.{
  skill_result_to_guard, skill_to_guard_name, context_from_guard_input,
}
use fin_skill_os.Skills.CashRatio.{cash_ratio_skill}
use fin_skill_os.Skills.SinglePosition.{single_position_skill}
use fin_skill_os.Skills.Concentration.{concentration_skill}
use fin_skill_os.Skills.Drawdown.{drawdown_skill}
use fin_skill_os.Skills.Goal.{goal_skill}
use fin_skill_os.Skills.Regime.{regime_skill}
use fin_skill_os.Skills.Overheat.{overheat_skill}
use fin_skill_os.Skills.Event.{event_risk_skill}
use fin_skill_os.Skills.ConcentrationHhi.{concentration_hhi_skill}
use fin_skill_os.Firewall.Ladder.{risk_skills, to_guards, run_skill_ladder, report_for}
use fin_skill_os.Firewall.Equivalence.{build_risk_registry_lem}

-- The guard names of skill ids.
name_all : List String → Result (List String)
name_all [] = ok []
name_all (id ∷ ids) =
    let rest = name_all ids in
    elim (lookup id skill_to_guard_name) [
      | none ↦ err key_error
      | some n ↦ rest >>= λ ns. ok (n ∷ ns)
    ]

to_guards-names :
    (rs : List SkillResult) (gs : List GuardResult)
    → to_guards rs ≡ ok gs
    → name_all (ids_of rs) ≡ ok (map (λ g. g.guard_name) gs)
unfolding to_guards name_all skill_result_to_guard
to_guards-names [] gs h = ground arith
to_guards-names (r ∷ rs) gs h = elim (Result-cases (to_guards rs)) [
  | inl (gs', e) ↦ ground (arith, e, to_guards-names rs gs' e)
  | inr (er, e) ↦ ground (arith, e)
]

abbrev pub ladder_names : List String
ladder_names =
    guard_cash_ratio ∷ guard_single_position ∷ guard_sector_concentration ∷ guard_drawdown
    ∷ guard_goal_protection ∷ guard_regime_risk ∷ guard_overheat_entry ∷ guard_event_placeholder
    ∷ "CONCENTRATION_HHI_GUARD" ∷ []

abbrev pub ladder_ids : List String
ladder_ids =
    "RISK.CASH_RATIO" ∷ "RISK.SINGLE_POSITION" ∷ "RISK.SECTOR_CONCENTRATION" ∷ "RISK.DRAWDOWN"
    ∷ "RISK.GOAL_PROTECTION" ∷ "RISK.REGIME_RISK" ∷ "RISK.OVERHEAT_ENTRY" ∷ "RISK.EVENT_RISK"
    ∷ "RISK.CONCENTRATION_HHI" ∷ []

name_all-ladder_ids : name_all ladder_ids ≡ ok ladder_names
unfolding name_all
name_all-ladder_ids = refl

risk_skills-ids : map (λ s. s.skill_id) risk_skills ≡ ladder_ids
unfolding cash_ratio_skill single_position_skill concentration_skill drawdown_skill goal_skill
    regime_skill overheat_skill event_risk_skill concentration_hhi_skill
risk_skills-ids = refl

run_skill_ladder-names :
    (u : Unicode) (g : GuardInput) (clock : ℕ) (gs : List GuardResult) (rows : List SkillRunRecord)
    → run_skill_ladder u g clock ≡ ok (gs, rows)
    → (map (λ x. x.guard_name) gs ≡ ladder_names) × (row_ids_of rows ≡ ladder_ids)
unfolding run_skill_ladder run_all
run_skill_ladder-names u g clock gs rows h =
    let (registry, built, order) = build_risk_registry_lem in
    elim (Result-cases
      (run_each u (map declarative risk_skills) (context_from_guard_input g) none clock)) [
        | inr (e, raised) ↦ ground (arith, built, order, raised)
        | inl ((rs, rows'), e) ↦ elim (Result-cases (to_guards rs)) [
          | inr (e', raised) ↦ ground (arith, built, order, e, raised)
          | inl (gs', e') ↦
              let (ids, row_ids) =
                run_each-ids u risk_skills (context_from_guard_input g) none clock e in
              let names =
                sym (to_guards-names rs gs' e')
                ∙ ap name_all (ids ∙ risk_skills-ids)
                ∙ name_all-ladder_ids in
              let (same, same_rows) =
                ok-pair gs' gs rows' rows (rw (run_skill_ladder, built, order, e, e') at h) in
              (
                ap (map λ x. x.guard_name) (sym same) ∙ ok-one _ _ names,
                ap row_ids_of (sym same_rows) ∙ row_ids ∙ risk_skills-ids,
              )
        ]
      ]

-- One result of each guard, one audit row of each skill, both in the order of the ladder, and the
-- worst of the results on top.
abbrev pub IsComplete : GuardInput → RiskGuardReport → List SkillRunRecord → Type 0
IsComplete g report rows =
    (map (λ x. x.guard_name) report.results ≡ ladder_names)
    × (row_ids_of rows ≡ ladder_ids)
    × (report.account_id ≡ g.account_id)
    × (report.overall_status ≡ status_by_severity (map (λ x. x.status) report.results))
    × (report.overall_risk_level ≡ level_by_severity (map (λ x. x.risk_level) report.results))
    × (is_empty (failing report) ≡ not (fails report.overall_status))

failing-worst :
    (report : RiskGuardReport)
    → report.overall_status ≡ status_by_severity (map (λ x. x.status) report.results)
    → is_empty (failing report) ≡ not (fails report.overall_status)
unfolding failing
failing-worst report e = failing_statuses report.results ∙ ap (λ s. not (fails s)) (sym e)

-- A report that is returned has one result of each guard, in the order of the ladder, and an audit
-- row of each skill. Its overall status is BLOCKED when a result is, else FAIL when one is, else WARN,
-- INFO, PASS in this order; its overall level is RED when a result is, else ORANGE, YELLOW, UNKNOWN,
-- GREEN in this order. It has no failing result exactly when its overall status is neither FAIL nor
-- BLOCKED.
pub report_for_lem :
    (u : Unicode) (g : GuardInput) (generated_at : Moment) (clock : ℕ) (report : RiskGuardReport)
    (rows : List SkillRunRecord)
    → report_for u g generated_at clock ≡ ok (report, rows)
    → IsComplete g report rows
unfolding report_for
report_for_lem u g generated_at clock report rows h =
    elim (Result-cases (run_skill_ladder u g clock)) [
      | inr (e, raised) ↦ absurd (ground (arith, raised))
      | inl ((gs, rows'), e) ↦
          let (names, ids) = run_skill_ladder-names u g clock gs rows' e in
          let (same, same_rows) = ok-pair _ report rows' rows (rw (e, report_for) at h) in
          subst (λ r. IsComplete g r rows) same
            (
              names,
              ap row_ids_of (sym same_rows) ∙ ids,
              refl,
              worst_status_lem _,
              worst_risk_level_lem _,
              failing-worst _ (worst_status_lem _),
            )
    ]
