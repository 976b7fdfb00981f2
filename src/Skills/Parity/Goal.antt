-- ===== src/Skills/Parity/Goal.antt =====
-- The goal skill against its guard, likewise above the threshold of the floor rung.
use fin_skill_os.Prelude.{ℕ, ◌≡◌, true, Option, none, some, arith}
use fin_skill_os.Decimal.{Decimal, at_least}
use fin_skill_os.Guards.Base.{GuardInput}
use fin_skill_os.Guards.Goal.{evaluate}
use fin_skill_os.Wording.Matching.{Unicode}
use fin_skill_os.Skills.Base.{any_threshold}
use fin_skill_os.Skills.Goal.{goal_skill}
use fin_skill_os.Skills.Runner.{run_skill, assert_skill_safe}
use fin_skill_os.Skills.RiskRegistry.{
  as_guard, checked, context_from_guard_input, skill_result_to_guard, assert_no_forbidden_wording,
}

-- The progress, if there is one, reaches the floor rung.
abbrev pub ReachesFloor : Option Decimal → Type 0
ReachesFloor none = Unit
ReachesFloor (some d) = at_least d any_threshold ≡ true

-- When the progress, if there is one, is at least -1e30, running the skill on the
-- context of a guard input, and reading its result back as a guard's, gives the result of the
-- goal protection guard with its wording check, and raises the same exceptions.
pub goal_skill-evaluate :
    (u : Unicode) (g : GuardInput) (now : Option ℕ) (clock : ℕ)
    → ReachesFloor g.goal_progress_pct
    → as_guard u goal_skill g now clock ≡ checked u (evaluate g)
unfolding goal_skill evaluate run_skill assert_skill_safe context_from_guard_input
    skill_result_to_guard assert_no_forbidden_wording
goal_skill-evaluate u g now clock h = ground arith
