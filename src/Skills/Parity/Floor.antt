-- ===== src/Skills/Parity/Floor.antt =====
-- Where the drawdown skill and its guard part: a drawdown below the threshold of the floor rung.
use fin_skill_os.Prelude.{ℕ, ◌≡◌, refl, true, false, Option, some, ok, arith}
use fin_skill_os.Decimal.{Decimal, at_least, at_most, minus_decimal}
use fin_skill_os.Decimal.Order.{at_most_trans}
use fin_skill_os.Guards.Base.{Status, RiskLevel, GuardInput, GuardResult}
use fin_skill_os.Guards.Drawdown.{evaluate, resolve_drawdown, no_drawdown, judge}
use fin_skill_os.Wording.Matching.{Unicode}
use fin_skill_os.Skills.Base.{any_threshold}
use fin_skill_os.Skills.Drawdown.{drawdown_skill}
use fin_skill_os.Skills.Runner.{run_skill, assert_skill_safe}
use fin_skill_os.Skills.RiskRegistry.{
  as_guard, checked, context_from_guard_input, skill_result_to_guard, assert_no_forbidden_wording,
}

below :
    (d t : Decimal)
    → at_most any_threshold t ≡ true
    → at_least d any_threshold ≡ false
    → at_least d t ≡ false
below d t h j = ground (arith, at_most_trans any_threshold t d)

-- For a drawdown below -1e30 the skill answers what the guard answers when there is no drawdown at
-- all, while the guard answers FAIL and RED.
pub drawdown_skill-below_floor :
    (u : Unicode) (g : GuardInput) (now : Option ℕ) (clock : ℕ) (d : Decimal)
    → resolve_drawdown g ≡ ok (some d)
    → at_least d any_threshold ≡ false
    → (as_guard u drawdown_skill g now clock ≡ checked u (ok (no_drawdown g)))
      × (r : GuardResult) × (evaluate g ≡ ok r)
      × (r.status ≡ Status.failed)
      × (r.risk_level ≡ RiskLevel.red)
unfolding drawdown_skill evaluate run_skill assert_skill_safe context_from_guard_input
    skill_result_to_guard assert_no_forbidden_wording
drawdown_skill-below_floor u g now clock d e low =
    let b5 = below d (minus_decimal 5 0) (unfold at_most in refl) low in
    let b8 = below d (minus_decimal 8 0) (unfold at_most in refl) low in
    let b10 = below d (minus_decimal 10 0) (unfold at_most in refl) low in
    let b15 = below d (minus_decimal 15 0) (unfold at_most in refl) low in
    (ground arith, judge g d, rw e, ground arith, ground arith)
