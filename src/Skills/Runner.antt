-- ===== src/Skills/Runner.antt =====
-- finskillos/skills/runner.py and safety.py: one skill, and the registry of skills. The clock that
-- an audit row reads is an argument.
pub mod Choice
pub mod Registry
use fin_skill_os.Prelude.{
  ℕ, Bool, true, false, Option, none, some, List, [], ◌∷◌, ◌++◌, String, Result, ok, err,
  assertion_error, value_error, key_error, ◌>>=◌, ◌>>◌, if◌then◌else◌,
}
use fin_skill_os.Dict.{Dict, lookup, insert}
use fin_skill_os.Guards.Base.{Status, RiskLevel, Value, risk_text, status_text}
use fin_skill_os.Wording.{find_forbidden_term}
use fin_skill_os.Wording.Matching.{Unicode}
use fin_skill_os.Skills.Base.{
  SkillContext, Field, const, call, Rule, SkillSpec, SkillResult, SkillRunRecord, merged,
}

-- `_resolve`
abbrev pub resolve : {A : Type 0} → Field A → SkillContext → Result A
resolve (const a) ctx = ok a
resolve (call f) ctx = f ctx

abbrev resolve_evidence :
    Option (SkillContext → Result (Dict Value)) → SkillContext → Result (Dict Value)
resolve_evidence none ctx = ok []
resolve_evidence (some f) ctx = f ctx

unfoldable pub build_result : SkillSpec → Rule → SkillContext → Result SkillResult
build_result spec rule ctx = do
  evidence ← resolve_evidence rule.evidence ctx
  status ← resolve rule.status ctx
  risk_level ← resolve rule.risk_level ctx
  title ← resolve rule.title ctx
  message ← resolve rule.message ctx
  label ← resolve rule.label ctx
  ok (record {
    skill_id = spec.skill_id;
    version = spec.version;
    status = status;
    risk_level = risk_level;
    title = title;
    message = message;
    evidence = evidence;
    watch_next = rule.watch_next;
    fired_rule_ids = rule.rule_id ∷ [];
    label = label;
  })

-- `next((rule for rule in ladder if rule.when(ctx)), fallback)`
unfoldable pub first_rule : List Rule → Rule → SkillContext → Result Rule
first_rule [] fallback ctx = ok fallback
first_rule (rule ∷ rules) fallback ctx =
    let rest = first_rule rules fallback ctx in
    do fires ← rule.when ctx; if fires then ok rule else rest

abbrev derived : Option (SkillContext → Result (Dict Value)) → SkillContext → Result SkillContext
derived none ctx = ok ctx
derived (some f) ctx = do extra ← f ctx; ok (merged ctx extra)

-- The evidence values that are texts; statuses and levels are texts in the source.
abbrev pub evidence_texts : Dict Value → List String
evidence_texts [] = []
evidence_texts ((k, Value.text s) ∷ d) = s ∷ evidence_texts d
evidence_texts ((k, Value.status s) ∷ d) = status_text s ∷ evidence_texts d
evidence_texts ((k, Value.level l) ∷ d) = risk_text l ∷ evidence_texts d
evidence_texts ((k, _) ∷ d) = evidence_texts d

unfoldable pub audit_record : SkillResult → Option ℕ → ℕ → SkillRunRecord
audit_record r now clock = record {
  skill_id = r.skill_id;
  version = r.version;
  fired_rule_ids = r.fired_rule_ids;
  status = r.status;
  risk_level = r.risk_level;
  evidence = r.evidence;
  ran_at = elim now [ none ↦ clock | some t ↦ t ];
}

abbrev pub raise_term : Option (List ℕ) → Result (Unit {0})
raise_term none = ok tt
raise_term (some term) = err (assertion_error term)

module _ (u : Unicode) where
  unfoldable pub assert_skill_safe : SkillResult → Result (Unit {0})
  assert_skill_safe r =
      raise_term
        (find_forbidden_term u (r.title ∷ r.message ∷ r.watch_next ++ evidence_texts r.evidence))

  unfoldable pub run_skill :
      SkillSpec → SkillContext → Option ℕ → ℕ → Result (SkillResult × SkillRunRecord)
  unfolding build_result first_rule
  run_skill spec ctx now clock = do
    ctx' ← derived spec.derive ctx
    fired ← first_rule spec.ladder spec.fallback ctx'
    result ← build_result spec fired ctx'
    assert_skill_safe result
    ok (result, audit_record result now clock)

-- A registered skill is a `SkillSpec`, or an object with a `run` of its own.
pub record Seam : Type 0 where
  pub skill_id : String
  pub version : String
  pub run : SkillContext → Option ℕ → ℕ → Result (SkillResult × SkillRunRecord)

pub data Skill : Type 0 where
  declarative : SkillSpec → Skill
  seam : Seam → Skill

abbrev pub skill_id_of : Skill → String
skill_id_of (declarative spec) = spec.skill_id
skill_id_of (seam s) = s.skill_id

abbrev pub SkillRegistry : Type 0
SkillRegistry = Dict Skill

-- `registry.register(skill)`: a second skill of one id is refused.
unfoldable pub register : Skill → SkillRegistry → Result SkillRegistry
register skill registry = elim (lookup (skill_id_of skill) registry) [
  | some _ ↦ err value_error
  | none ↦ ok (insert (skill_id_of skill) skill registry)
]

abbrev pub values : SkillRegistry → List Skill
values [] = []
values ((k, s) ∷ r) = s ∷ values r

-- `[self._skills[s] for s in skill_ids]`
unfoldable pub select : List String → SkillRegistry → Result (List Skill)
select [] registry = ok []
select (k ∷ ks) registry =
    let rest = select ks registry in
    elim (lookup k registry) [ none ↦ err key_error | some s ↦ rest >>= λ ss. ok (s ∷ ss) ]

module _ (u : Unicode) where
  unfoldable pub run_one :
      Skill → SkillContext → Option ℕ → ℕ → Result (SkillResult × SkillRunRecord)
  run_one (declarative spec) ctx now clock = run_skill u spec ctx now clock
  run_one (seam s) ctx now clock = s.run ctx now clock

  -- The loop of `run_all`; an exception of one skill ends it.
  unfoldable pub run_each :
      List Skill → SkillContext → Option ℕ → ℕ → Result (List SkillResult × List SkillRunRecord)
  run_each [] ctx now clock = ok ([], [])
  run_each (skill ∷ skills) ctx now clock = do
    (result, record') ← run_one skill ctx now clock
    (results, records) ← run_each skills ctx now clock
    ok (result ∷ results, record' ∷ records)

  unfoldable pub run_all :
      SkillRegistry
      → SkillContext
      → Option (List String)
      → Option ℕ
      → ℕ
      → Result (List SkillResult × List SkillRunRecord)
  run_all registry ctx none now clock = run_each (values registry) ctx now clock
  run_all registry ctx (some ids) now clock = do
    skills ← select ids registry
    run_each skills ctx now clock
