-- ===== src/Skills/Parity/SinglePosition.antt =====
-- The SinglePosition skill against its guard.
use fin_skill_os.Prelude.{ℕ, ◌≡◌, Option, arith}
use fin_skill_os.Guards.Base.{GuardInput}
use fin_skill_os.Guards.SinglePosition.{evaluate}
use fin_skill_os.Wording.Matching.{Unicode}
use fin_skill_os.Skills.SinglePosition.{single_position_skill}
use fin_skill_os.Skills.Runner.{run_skill, assert_skill_safe}
use fin_skill_os.Skills.RiskRegistry.{
  as_guard, checked, context_from_guard_input, skill_result_to_guard, assert_no_forbidden_wording,
}

-- Running the skill on the context of a guard input, and reading its result back as a guard's, gives
-- the result of the single position guard with its wording check, and raises the same exceptions.
pub single_position_skill-evaluate :
    (u : Unicode) (g : GuardInput) (now : Option ℕ) (clock : ℕ)
    → as_guard u single_position_skill g now clock ≡ checked u (evaluate g)
unfolding single_position_skill evaluate run_skill assert_skill_safe context_from_guard_input
    skill_result_to_guard assert_no_forbidden_wording
single_position_skill-evaluate u g now clock = ground arith
