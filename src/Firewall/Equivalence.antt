-- ===== src/Firewall/Equivalence.antt =====
-- The ladder of skills against the ladder of guards.
use fin_skill_os.Prelude.{
  ℕ, ◌≡◌, refl, Option, none, some, List, [], ◌∷◌, map, Result, ok, ◌>>=◌, ◌∙◌, All, String, inl,
  inr, Result-cases, arith,
}
use fin_skill_os.Dict.{lookup}
use fin_skill_os.Guards.Base.{GuardInput, GuardResult}
use fin_skill_os.Guards.CashRatio
use fin_skill_os.Guards.SinglePosition
use fin_skill_os.Guards.Concentration
use fin_skill_os.Guards.Drawdown
use fin_skill_os.Guards.Goal
use fin_skill_os.Guards.Regime
use fin_skill_os.Guards.Overheat
use fin_skill_os.Guards.Event
use fin_skill_os.Wording.Matching.{Unicode}
use fin_skill_os.Skills.Base.{SkillContext, SkillSpec, SkillResult, SkillRunRecord}
use fin_skill_os.Skills.Runner.{
  declarative, SkillRegistry, register, values, run_skill, run_one, run_each, run_all,
}
use fin_skill_os.Skills.RiskRegistry.{
  context_from_guard_input, skill_to_guard_name, skill_result_to_guard, as_guard, checked,
}
use fin_skill_os.Skills.CashRatio.{cash_ratio_skill}
use fin_skill_os.Skills.SinglePosition.{single_position_skill}
use fin_skill_os.Skills.Concentration.{concentration_skill}
use fin_skill_os.Skills.Drawdown.{drawdown_skill}
use fin_skill_os.Skills.Goal.{goal_skill}
use fin_skill_os.Skills.Regime.{regime_skill}
use fin_skill_os.Skills.Overheat.{overheat_skill}
use fin_skill_os.Skills.Event.{event_risk_skill}
use fin_skill_os.Skills.ConcentrationHhi.{concentration_hhi_skill}
use fin_skill_os.Skills.Parity.CashRatio.{cash_ratio_skill-evaluate}
use fin_skill_os.Skills.Parity.SinglePosition.{single_position_skill-evaluate}
use fin_skill_os.Skills.Parity.Concentration.{concentration_skill-evaluate}
use fin_skill_os.Skills.Parity.Drawdown.{drawdown_skill-evaluate}
use fin_skill_os.Skills.Parity.Drawdown as DrawdownParity
use fin_skill_os.Skills.Parity.Goal.{goal_skill-evaluate}
use fin_skill_os.Skills.Parity.Goal as GoalParity
use fin_skill_os.Skills.Parity.Regime.{regime_skill-evaluate}
use fin_skill_os.Skills.Parity.Overheat.{overheat_skill-evaluate}
use fin_skill_os.Skills.Parity.Event.{event_risk_skill-evaluate}
use fin_skill_os.Firewall.Ladder.{
  risk_skills, register_all, build_risk_registry, to_guards, run_skill_ladder,
}

-- A result carries the id of its skill.
run_skill-skill_id :
    (u : Unicode) (s : SkillSpec) (ctx : SkillContext) (now : Option ℕ) (clock : ℕ)
    {r : SkillResult} {row : SkillRunRecord}
    → run_skill u s ctx now clock ≡ ok (r, row)
    → r.skill_id ≡ s.skill_id
unfolding run_skill
run_skill-skill_id u s ctx now clock h = ground arith

-- Every result of the skill has a guard name.
abbrev IsNamed : SkillSpec → Type 0
IsNamed s =
    (r : SkillResult)
    → r.skill_id ≡ s.skill_id
    → (x : GuardResult) × (skill_result_to_guard r ≡ ok x)

lookup-IsNamed :
    (s : SkillSpec) {name : String} → lookup s.skill_id skill_to_guard_name ≡ some name → IsNamed s
unfolding skill_result_to_guard
lookup-IsNamed s {name} found r e = (
  record {
    guard_name = name;
    status = r.status;
    risk_level = r.risk_level;
    title = r.title;
    message = r.message;
    evidence = r.evidence;
    watch_next = r.watch_next;
  },
  rw (e, found),
)

risk_skills-IsNamed : All IsNamed risk_skills
unfolding cash_ratio_skill single_position_skill concentration_skill drawdown_skill goal_skill
    regime_skill overheat_skill event_risk_skill concentration_hhi_skill
risk_skills-IsNamed = (
  lookup-IsNamed cash_ratio_skill refl,
  (
    lookup-IsNamed single_position_skill refl,
    (
      lookup-IsNamed concentration_skill refl,
      (
        lookup-IsNamed drawdown_skill refl,
        (
          lookup-IsNamed goal_skill refl,
          (
            lookup-IsNamed regime_skill refl,
            (
              lookup-IsNamed overheat_skill refl,
              (
                lookup-IsNamed event_risk_skill refl,
                (lookup-IsNamed concentration_hhi_skill refl, tt),
              ),
            ),
          ),
        ),
      ),
    ),
  ),
)

-- Registration refuses none of the nine, and keeps their order.
pub build_risk_registry_lem :
    (registry : SkillRegistry) × (build_risk_registry ≡ ok registry)
    × (values registry ≡ map declarative risk_skills)
unfolding build_risk_registry register_all register cash_ratio_skill single_position_skill
    concentration_skill drawdown_skill goal_skill regime_skill overheat_skill event_risk_skill
    concentration_hhi_skill
build_risk_registry_lem = (_, refl, refl)

abbrev with_records :
    List SkillResult × List SkillRunRecord → Result (List GuardResult × List SkillRunRecord)
with_records p = do guards ← to_guards p.0; ok (guards, p.1)

-- The guard results of a ladder run.
abbrev pub guards_only : List GuardResult × List SkillRunRecord → Result (List GuardResult)
guards_only p = ok p.0

forget_records :
    (m : Result (List SkillResult × List SkillRunRecord))
    → (m >>= with_records >>= guards_only) ≡ (m >>= λ p. to_guards p.0)
forget_records m = ground arith

-- Calls in order, up to the first exception.
pub in_turn : List (Result GuardResult) → Result (List GuardResult)
in_turn [] = ok []
in_turn (m ∷ ms) = let rest = in_turn ms in do x ← m; xs ← rest; ok (x ∷ xs)

module _ (u : Unicode) (g : GuardInput) (clock : ℕ) where
  -- The skills read back as guards.
  gather : List SkillSpec → Result (List GuardResult)
  gather ss = in_turn (map (λ s. as_guard u s g none clock) ss)

  abbrev ran : List SkillSpec → Result (List SkillResult × List SkillRunRecord)
  ran ss = run_each u (map declarative ss) (context_from_guard_input g) none clock

  run_each-gather :
      (ss : List SkillSpec) → All IsNamed ss → (ran ss >>= λ p. to_guards p.0) ≡ gather ss
  unfolding run_each gather in_turn run_one to_guards
  run_each-gather [] named = refl
  run_each-gather (s ∷ ss) (name, named) =
      elim (Result-cases (run_skill u s (context_from_guard_input g) none clock)) [
        | inl ((r, row), e) ↦
            let (x, ex) = name r (run_skill-skill_id u s _ none clock e) in
            ground (arith, e, ex, run_each-gather ss named)
        | inr (er, e) ↦ rw e
      ]

  -- What `_run_skill_ladder` makes of the results, over the registry that it builds.
  run_skill_ladder-gather : (run_skill_ladder u g clock >>= guards_only) ≡ gather risk_skills
  unfolding run_skill_ladder run_all
  run_skill_ladder-gather =
      let (registry, built, order) = build_risk_registry_lem in
      rw (built, order, ← run_each-gather risk_skills risk_skills-IsNamed)
        (forget_records (ran risk_skills))

  -- The eight guards in the order of the ladder, each with its wording check, and the skill that
  -- has no guard.
  pub guard_ladder : Result (List GuardResult)
  guard_ladder = in_turn (
      checked u (CashRatio.evaluate g)
      ∷ checked u (SinglePosition.evaluate g)
      ∷ checked u (Concentration.evaluate g)
      ∷ checked u (Drawdown.evaluate g)
      ∷ checked u (Goal.evaluate g)
      ∷ checked u (Regime.evaluate g)
      ∷ checked u (Overheat.evaluate g)
      ∷ checked u (Event.evaluate g)
      ∷ as_guard u concentration_hhi_skill g none clock
      ∷ [])

  -- When the drawdown and the goal progress, if there are any, are at least -1e30, the results of the
  -- skill ladder over the registry that it builds are those of the eight guards in their order, each with its
  -- wording check, and of the concentration skill that has no guard; the first exception ends both.
  pub run_skill_ladder-guard_ladder :
      DrawdownParity.ReachesFloor (Drawdown.resolve_drawdown g)
      → GoalParity.ReachesFloor g.goal_progress_pct
      → (run_skill_ladder u g clock >>= guards_only) ≡ guard_ladder
  unfolding gather guard_ladder
  run_skill_ladder-guard_ladder d p =
      run_skill_ladder-gather
      ∙ rw (
        cash_ratio_skill-evaluate u g none clock,
        single_position_skill-evaluate u g none clock,
        concentration_skill-evaluate u g none clock,
        drawdown_skill-evaluate u g none clock d,
        goal_skill-evaluate u g none clock p,
        regime_skill-evaluate u g none clock,
        overheat_skill-evaluate u g none clock,
        event_risk_skill-evaluate u g none clock,
      )
