-- ===== src/Skills/Parity/Drawdown.antt =====
-- The drawdown skill against its guard. The floor rung of the skill asks for at least -1e30, the
-- guard's last branch for nothing.
use fin_skill_os.Prelude.{ℕ, ◌≡◌, true, Option, some, Result, ok, arith}
use fin_skill_os.Decimal.{Decimal, at_least}
use fin_skill_os.Guards.Base.{GuardInput}
use fin_skill_os.Guards.Drawdown.{evaluate, resolve_drawdown}
use fin_skill_os.Wording.Matching.{Unicode}
use fin_skill_os.Skills.Base.{any_threshold}
use fin_skill_os.Skills.Drawdown.{drawdown_skill}
use fin_skill_os.Skills.Runner.{run_skill, assert_skill_safe}
use fin_skill_os.Skills.RiskRegistry.{
  as_guard, checked, context_from_guard_input, skill_result_to_guard, assert_no_forbidden_wording,
}

-- A drawdown, if there is one, reaches the floor rung.
abbrev pub ReachesFloor : Result (Option Decimal) → Type 0
ReachesFloor (ok (some d)) = at_least d any_threshold ≡ true
ReachesFloor _ = Unit

-- When the drawdown, if there is one, is at least -1e30, running the skill on the
-- context of a guard input, and reading its result back as a guard's, gives the result of the
-- drawdown guard with its wording check, and raises the same exceptions.
pub drawdown_skill-evaluate :
    (u : Unicode) (g : GuardInput) (now : Option ℕ) (clock : ℕ)
    → ReachesFloor (resolve_drawdown g)
    → as_guard u drawdown_skill g now clock ≡ checked u (evaluate g)
unfolding drawdown_skill evaluate run_skill assert_skill_safe context_from_guard_input
    skill_result_to_guard assert_no_forbidden_wording
drawdown_skill-evaluate u g now clock h = ground arith
