-- ===== src/Skills/Parity/Regime.antt =====
-- The Regime skill against its guard.
use fin_skill_os.Prelude.{ℕ, ◌≡◌, Option, arith}
use fin_skill_os.Guards.Base.{GuardInput}
use fin_skill_os.Guards.Regime.{evaluate, level_of}
use fin_skill_os.Wording.Matching.{Unicode}
use fin_skill_os.Skills.Regime.{regime_skill}
use fin_skill_os.Skills.Runner.{run_skill, assert_skill_safe}
use fin_skill_os.Skills.RiskRegistry.{
  as_guard, checked, context_from_guard_input, skill_result_to_guard, assert_no_forbidden_wording,
}

-- Running the skill on the context of a guard input, and reading its result back as a guard's, gives
-- the result of the regime guard with its wording check, and raises the same exceptions.
pub regime_skill-evaluate :
    (u : Unicode) (g : GuardInput) (now : Option ℕ) (clock : ℕ)
    → as_guard u regime_skill g now clock ≡ checked u (evaluate g)
unfolding regime_skill evaluate level_of run_skill assert_skill_safe context_from_guard_input
    skill_result_to_guard assert_no_forbidden_wording
regime_skill-evaluate u g now clock = ground arith
