-- ===== src/Skills/Runner/Registry.antt =====
-- Registering skills, and the order in which a registry runs them.
use fin_skill_os.Prelude.{
  ℕ, ◌≡◌, refl, ap, false, Option, none, some, List, [], ◌∷◌, ◌++◌, map, String, ok, err,
  value_error, str_eq, Result-cases, inl, inr, arith,
}
use fin_skill_os.Dict.{lookup}
use fin_skill_os.Dict.Insert.{lookup-insert, lookup-insert_of_other, insert_of_missing}
use fin_skill_os.Wording.Matching.{Unicode}
use fin_skill_os.Skills.Base.{SkillContext, SkillSpec, SkillResult, SkillRunRecord}
use fin_skill_os.Skills.Runner.{
  Skill, declarative, skill_id_of, SkillRegistry, register, values, run_skill, audit_record,
  run_one, run_each,
}

values-append :
    (r : SkillRegistry) (k : String) (s : Skill) → values (r ++ (k, s) ∷ []) ≡ values r ++ s ∷ []
values-append [] k s = refl
values-append ((j, t) ∷ r) k s = rw (values-append r k s)

-- A skill whose id is new is registered behind the others: it is found under its id, and whatever
-- was found under another id still is. A skill whose id is taken is refused with a ValueError.
pub register_lem :
    (skill : Skill) (registry : SkillRegistry)
    → (lookup (skill_id_of skill) registry ≡ none
        → (larger : SkillRegistry) × (register skill registry ≡ ok larger)
          × (values larger ≡ values registry ++ skill ∷ [])
          × (lookup (skill_id_of skill) larger ≡ some skill)
          × ((id : String)
              → str_eq (skill_id_of skill) id ≡ false
              → lookup id larger ≡ lookup id registry))
      × ((taken : Skill)
          → lookup (skill_id_of skill) registry ≡ some taken
          → register skill registry ≡ err value_error)
unfolding register
register_lem skill registry =
    let id = skill_id_of skill in
    (
      (λ h. (
        registry ++ (id, skill) ∷ [],
        rw (h, register) (ap ok (insert_of_missing id skill registry h)),
        values-append registry id skill,
        rw (← insert_of_missing id skill registry h) (lookup-insert id skill registry),
        λ other differs.
            rw (← insert_of_missing id skill registry h)
              (lookup-insert_of_other id other skill registry differs),
      )),
      λ taken h. rw (h, register),
    )

-- The results and the audit rows that stand for the skills, in their order.
abbrev pub ids_of : List SkillResult → List String
ids_of rs = map (λ r. r.skill_id) rs

abbrev pub row_ids_of : List SkillRunRecord → List String
row_ids_of rows = map (λ r. r.skill_id) rows

run_skill-ids :
    (u : Unicode) (s : SkillSpec) (ctx : SkillContext) (now : Option ℕ) (clock : ℕ)
    (r : SkillResult) (row : SkillRunRecord)
    → run_skill u s ctx now clock ≡ ok (r, row)
    → (r.skill_id ≡ s.skill_id) × (row.skill_id ≡ s.skill_id)
unfolding run_skill audit_record
run_skill-ids u s ctx now clock r row h = ground arith

pub run_each-ids :
    (u : Unicode) (specs : List SkillSpec) (ctx : SkillContext) (now : Option ℕ) (clock : ℕ)
    {results : List SkillResult} {rows : List SkillRunRecord}
    → run_each u (map declarative specs) ctx now clock ≡ ok (results, rows)
    → (ids_of results ≡ map (λ s. s.skill_id) specs)
      × (row_ids_of rows ≡ map (λ s. s.skill_id) specs)
unfolding run_each run_one
run_each-ids u [] ctx now clock h = ground arith
run_each-ids u (s ∷ ss) ctx now clock {results} {rows} h =
    elim (Result-cases (run_skill u s ctx now clock)) [
      | inr (e, raised) ↦ ground (arith, raised)
      | inl ((r, row), e) ↦ elim (Result-cases (run_each u (map declarative ss) ctx now clock)) [
        | inr (e', raised) ↦ ground (arith, e, raised)
        | inl ((rs, rows'), e') ↦
            let heads = run_skill-ids u s ctx now clock r row e in
            let tails = run_each-ids u ss ctx now clock e' in ground (arith, e, e', heads, tails)
      ]
    ]
