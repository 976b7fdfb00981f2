-- ===== src/Skills/Runner/Choice.antt =====
-- Which rule of a ladder fires, and what a run of a skill returns.
use fin_skill_os.Prelude.{
  ℕ, ◌≡◌, refl, ap, true, false, Option, none, List, [], ◌∷◌, ◌++◌, String, Result, ok, ◌>>◌, ◌∙◌,
  ◌↔◌, inl, inr, subst, Result-cases, >>=-eq-ok, arith,
}
use fin_skill_os.Wording.{find_forbidden_term}
use fin_skill_os.Wording.Matching.{Unicode}
use fin_skill_os.Skills.Base.{SkillContext, Rule, SkillSpec, SkillResult, SkillRunRecord}
use fin_skill_os.Skills.Runner.{
  build_result, first_rule, derived, evidence_texts, audit_record, assert_skill_safe, run_skill,
}

-- The rule that a ladder with a fallback selects: every rung before it is tested and does not fire.
pub data Selects (fallback : Rule) (ctx : SkillContext) : List Rule → Rule → Type 0 where
  bottom : Selects fallback ctx [] fallback
  here :
      {rule : Rule} {rules : List Rule}
      → rule.when ctx ≡ ok true
      → Selects fallback ctx (rule ∷ rules) rule
  later :
      {rule selected : Rule} {rules : List Rule}
      → rule.when ctx ≡ ok false
      → Selects fallback ctx rules selected
      → Selects fallback ctx (rule ∷ rules) selected

module _ (fallback : Rule) (ctx : SkillContext) where
  first_rule-Selects :
      (rules : List Rule) {selected : Rule}
      → first_rule rules fallback ctx ≡ ok selected
      → Selects fallback ctx rules selected
  unfolding first_rule
  first_rule-Selects [] {selected} h = subst (Selects fallback ctx []) (ground arith) bottom
  first_rule-Selects (rule ∷ rules) {selected} h = elim (Result-cases (rule.when ctx)) [
    | inl (true, e) ↦ subst (Selects fallback ctx (rule ∷ rules)) (ground arith) (here e)
    | inl (false, e) ↦ later e (first_rule-Selects rules (ground (arith, e)))
    | inr (er, e) ↦ ground arith
  ]

  first_rule_of_Selects :
      {rules : List Rule} {selected : Rule}
      → Selects fallback ctx rules selected
      → first_rule rules fallback ctx ≡ ok selected
  unfolding first_rule
  first_rule_of_Selects bottom = refl
  first_rule_of_Selects (here fires) = rw fires
  first_rule_of_Selects (later quiet h) = rw (quiet, first_rule_of_Selects h)

-- A ladder yields a rule exactly when it selects that rule: the rungs before it do not fire, and it
-- fires, or is the fallback behind the last rung. No test raises on the way.
pub first_rule_lem :
    (rules : List Rule) (fallback selected : Rule) (ctx : SkillContext)
    → (first_rule rules fallback ctx ≡ ok selected) ↔ Selects fallback ctx rules selected
first_rule_lem rules fallback selected ctx =
    (first_rule-Selects fallback ctx rules, first_rule_of_Selects fallback ctx)

-- The texts of a result that the wording check reads.
abbrev pub shown_texts : SkillResult → List String
shown_texts r = r.title ∷ r.message ∷ r.watch_next ++ evidence_texts r.evidence

build_result-fired :
    (spec : SkillSpec) (rule : Rule) (ctx : SkillContext) {r : SkillResult}
    → build_result spec rule ctx ≡ ok r
    → (r.fired_rule_ids ≡ rule.rule_id ∷ []) × (r.skill_id ≡ spec.skill_id)
unfolding build_result
build_result-fired spec rule ctx h = ground arith

safe_of_ok :
    (u : Unicode) (r : SkillResult)
    → assert_skill_safe u r ≡ ok tt
    → find_forbidden_term u (shown_texts r) ≡ none
unfolding assert_skill_safe
safe_of_ok u r h = ground arith

ok_pair :
    (r' : SkillResult) (now : Option ℕ) (clock : ℕ) {r : SkillResult} {row : SkillRunRecord}
    → ◌≡◌ {A = Result (SkillResult × SkillRunRecord)}
        (ok (r', audit_record r' now clock))
        (ok (r, row))
    → (r' ≡ r) × (row ≡ audit_record r now clock)
ok_pair r' now clock h = ground arith

checked_of_ok :
    (u : Unicode) (r' : SkillResult) (now : Option ℕ) (clock : ℕ) {r : SkillResult}
    {row : SkillRunRecord}
    → ◌>>◌ {Next = SkillResult × SkillRunRecord}
        (assert_skill_safe u r')
        (ok (r', audit_record r' now clock))
      ≡ ok (r, row)
    → (r' ≡ r) × (assert_skill_safe u r ≡ ok tt) × (row ≡ audit_record r now clock)
checked_of_ok u r' now clock {r} {row} h = elim (Result-cases (assert_skill_safe u r')) [
  | inl (_, e) ↦
      let pair = rw e at h in
      let same = ok_pair r' now clock pair in
      (same.0, subst (λ x. assert_skill_safe u x ≡ ok tt) same.0 e, same.1)
  | inr (er, e) ↦ ground (arith, e)
]

-- The result comes from the rule that the ladder selects on the derived context and names that rule and
-- its skill, its texts hold no forbidden wording, and the audit row is the one of this result.
abbrev pub IsRunOf :
    Unicode → SkillSpec → SkillContext → Option ℕ → ℕ → SkillResult → SkillRunRecord → Type 0
IsRunOf u spec ctx now clock r row =
    (ctx' : SkillContext) × (rule : Rule) × (derived spec.derive ctx ≡ ok ctx')
    × Selects spec.fallback ctx' spec.ladder rule
    × (build_result spec rule ctx' ≡ ok r)
    × (r.fired_rule_ids ≡ rule.rule_id ∷ [])
    × (r.skill_id ≡ spec.skill_id)
    × (find_forbidden_term u (shown_texts r) ≡ none)
    × (row ≡ audit_record r now clock)

-- A run that returns a result took it from the rule that the ladder selects on the derived context,
-- names that rule and its skill in it, shows no forbidden wording in its texts, and returns the audit row
-- of that very result.
pub run_skill_lem :
    (u : Unicode) (spec : SkillSpec) (ctx : SkillContext) (now : Option ℕ) (clock : ℕ)
    (r : SkillResult) (row : SkillRunRecord)
    → run_skill u spec ctx now clock ≡ ok (r, row)
    → IsRunOf u spec ctx now clock r row
unfolding run_skill
run_skill_lem u spec ctx now clock r row h =
    let (ctx', d, h1) = >>=-eq-ok (derived spec.derive ctx) _ h in
    let (rule, sel, h2) = >>=-eq-ok (first_rule spec.ladder spec.fallback ctx') _ h1 in
    let (r', built, h3) = >>=-eq-ok (build_result spec rule ctx') _ h2 in
    let (same, safe, recorded) = checked_of_ok u r' now clock h3 in
    let built' = built ∙ ap ok same in
    let (ids, skill) = build_result-fired spec rule ctx' built' in
    (
      ctx',
      rule,
      d,
      first_rule-Selects spec.fallback ctx' spec.ladder sel,
      built',
      ids,
      skill,
      safe_of_ok u r safe,
      recorded,
    )
