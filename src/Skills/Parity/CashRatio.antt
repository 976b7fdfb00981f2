-- ===== src/Skills/Parity/CashRatio.antt =====
-- The cash-ratio skill against its guard.
use fin_skill_os.Prelude.{ℕ, ◌≡◌, Option}
use fin_skill_os.Prelude.{arith}
use fin_skill_os.Guards.Base.{GuardInput}
use fin_skill_os.Guards.CashRatio.{evaluate}
use fin_skill_os.Wording.Matching.{Unicode}
use fin_skill_os.Skills.CashRatio.{cash_ratio_skill}
use fin_skill_os.Skills.Runner.{run_skill, assert_skill_safe}
use fin_skill_os.Skills.RiskRegistry.{
  as_guard, checked, context_from_guard_input, skill_result_to_guard, assert_no_forbidden_wording,
}

-- Running the skill on the context of a guard input, and reading its result back as a guard's, gives
-- the result of the cash ratio guard with its wording check, and raises the same exceptions.
pub cash_ratio_skill-evaluate :
    (u : Unicode) (g : GuardInput) (now : Option ℕ) (clock : ℕ)
    → as_guard u cash_ratio_skill g now clock ≡ checked u (evaluate g)
unfolding cash_ratio_skill evaluate run_skill assert_skill_safe context_from_guard_input
    skill_result_to_guard assert_no_forbidden_wording
cash_ratio_skill-evaluate u g now clock = ground arith
