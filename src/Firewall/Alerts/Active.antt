-- ===== src/Firewall/Alerts/Active.antt =====
-- The active alerts of an account after a report is stored.
use fin_skill_os.Prelude.{
  ℕ, ◌≡◌, refl, sym, ◌∙◌, ap, subst, Bool, true, false, not, ◌&&◌, some, List, [], ◌∷◌, ◌++◌, map,
  String, Error, Result, ok, err, ◌⊎◌, inl, inr, Bool-cases, Result-cases, Option-cases,
  if◌then◌else◌, str_eq, eq_iff, arith,
}
use fin_skill_os.Decimal.{Decimal}
use fin_skill_os.Guards.Base.{GuardResult, RiskGuardReport}
use fin_skill_os.Wording.Matching.{Unicode}
use fin_skill_os.Skills.RiskRegistry.{assert_no_forbidden_wording}
use fin_skill_os.Firewall.Alerts.{
  Alert, Table, among, is_backed, is_existing, in_scope, find_first, change_first, resolve_if_stale,
  resolve_stale, create, refresh, upsert, persist_each, persist_alerts, is_firing,
}

-- The names of the guards that fire, the last first.
unfoldable pub firing_names : List GuardResult → List String → List String
firing_names [] names = names
firing_names (r ∷ rs) names =
    firing_names rs (if is_firing r.status then r.guard_name ∷ names else names)

abbrev pub exists_row : {F : Type 0} → (Alert F → Bool) → List (Alert F) → Bool
exists_row test [] = false
exists_row test (a ∷ rows) = if test a then true else exists_row test rows

module _ {F : Type 0} where
  exists-append :
      (test : Alert F → Bool) (xs : List (Alert F)) (y : Alert F)
      → (exists_row test xs ≡ true) ⊎ (test y ≡ true)
      → exists_row test (xs ++ y ∷ []) ≡ true
  exists-append test [] y h = ground arith
  exists-append test (x ∷ xs) y h = ground (arith, exists-append test xs y)

  exists-change_first :
      (test change : Alert F → Bool) (f : Alert F → Alert F) (xs : List (Alert F))
      → ((a : Alert F) → test (f a) ≡ test a)
      → exists_row test (change_first change f xs) ≡ exists_row test xs
  exists-change_first test change f [] same = refl
  exists-change_first test change f (x ∷ xs) same =
      ground (arith, same x, exists-change_first test change f xs same)

  exists_of_find_first :
      (test : Alert F → Bool) (xs : List (Alert F)) {a : Alert F}
      → find_first test xs ≡ some a
      → exists_row test xs ≡ true
  exists_of_find_first test [] h = cc
  exists_of_find_first test (x ∷ xs) {a} h = ground (arith, exists_of_find_first test xs {a = a})

module _ (u : Unicode) {F : Type 0} (float_of : Decimal → F) (account date clock : ℕ) where
  -- An unresolved row of the day for every one of the names.
  abbrev Covers : List String → Table F → Type 0
  Covers names t =
      (n : String) → among n names ≡ true → exists_row (is_existing account n date) t.rows ≡ true

  upsert-keeps :
      (n : String) (r : GuardResult) (t : Table F)
      → exists_row (is_existing account n date) t.rows ≡ true
      → exists_row (is_existing account n date) (upsert u float_of account date clock r t).rows
        ≡ true
  unfolding create upsert
  upsert-keeps n r t h =
      elim (Option-cases (find_first (is_existing account r.guard_name date) t.rows)) [
        | inl e ↦ rw (e, upsert) (exists-append (is_existing account n date) t.rows _ (inl h))
        | inr (a, e) ↦
            rw (e, upsert)
              (exists-change_first (is_existing account n date)
                  (is_existing account r.guard_name date) (refresh u float_of r) t.rows
                  (λ b. unfold is_existing in refl)
                ∙ h)
      ]

  is_existing_of_eq :
      (a : Alert F) (name : String)
      → a.account_id ≡ some account
      → a.guard_name ≡ name
      → a.alert_date ≡ date
      → a.resolved ≡ false
      → is_existing account name date a ≡ true
  unfolding is_existing
  is_existing_of_eq a name p q r s = ground (arith, (eq_iff a.guard_name name).1 q)

  upsert-adds :
      (r : GuardResult) (t : Table F)
      → exists_row
          (is_existing account r.guard_name date)
          (upsert u float_of account date clock r t).rows
        ≡ true
  unfolding create upsert
  upsert-adds r t =
      elim (Option-cases (find_first (is_existing account r.guard_name date) t.rows)) [
        | inl e ↦
            rw (e, upsert)
              (exists-append (is_existing account r.guard_name date) t.rows _
                (inr (is_existing_of_eq _ r.guard_name refl refl refl refl)))
        | inr (a, e) ↦
            rw (e, upsert)
              (exists-change_first (is_existing account r.guard_name date)
                  (is_existing account r.guard_name date) (refresh u float_of r) t.rows
                  (λ b. unfold is_existing in refl)
                ∙ exists_of_find_first (is_existing account r.guard_name date) t.rows e)
      ]

  abbrev stored : List GuardResult → List String → Table F → Result (List String) × Table F
  stored = persist_each u float_of account date clock

  persist_each_of_quiet :
      (r : GuardResult) (rs : List GuardResult) (names : List String) (t : Table F)
      → is_firing r.status ≡ false
      → stored (r ∷ rs) names t ≡ stored rs names t
  unfolding persist_each
  persist_each_of_quiet r rs names t q = rw q

  persist_each_of_firing :
      (r : GuardResult) (rs : List GuardResult) (names : List String) (t : Table F)
      → is_firing r.status ≡ true
      → assert_no_forbidden_wording u r ≡ ok tt
      → stored (r ∷ rs) names t
        ≡ stored rs (r.guard_name ∷ names) (upsert u float_of account date clock r t)
  unfolding persist_each
  persist_each_of_firing r rs names t q safe = rw (q, safe)

  persist_each_of_refused :
      (r : GuardResult) (rs : List GuardResult) (names : List String) (t : Table F) {e : Error}
      → is_firing r.status ≡ true
      → assert_no_forbidden_wording u r ≡ err e
      → stored (r ∷ rs) names t ≡ (err e, t)
  unfolding persist_each
  persist_each_of_refused r rs names t q bad = rw (q, bad)

  upsert-Covers :
      (r : GuardResult) (names : List String) (t : Table F)
      → Covers names t
      → Covers (r.guard_name ∷ names) (upsert u float_of account date clock r t)
  upsert-Covers r names t c n h = elim (Bool-cases (str_eq r.guard_name n)) [
    | inl same ↦
        subst
          (λ m.
            exists_row (is_existing account m date) (upsert u float_of account date clock r t).rows
            ≡ true)
          ((eq_iff r.guard_name n).0 same) (upsert-adds r t)
    | inr other ↦ upsert-keeps n r t (c n (ground arith))
  ]

  persist_each-Covers :
      (rs : List GuardResult) (names : List String) (t : Table F) {firing : List String}
      → Covers names t
      → (stored rs names t).0 ≡ ok firing
      → (firing ≡ firing_names rs names) × Covers firing (stored rs names t).1
  unfolding firing_names
  persist_each-Covers [] names t {firing} c h = unfold persist_each in ground (arith, c)
  persist_each-Covers (r ∷ rs) names t {firing} c h = elim (Bool-cases (is_firing r.status)) [
    | inr q ↦
        let step = persist_each_of_quiet r rs names t q in
        rw (step, q) (persist_each-Covers rs names t c (sym (ap (λ p. p.0) step) ∙ h))
    | inl q ↦ elim (Result-cases (assert_no_forbidden_wording u r)) [
      | inl (_, safe) ↦
          let step = persist_each_of_firing r rs names t q safe in
          rw (step, q)
            (persist_each-Covers rs (r.guard_name ∷ names)
              (upsert u float_of account date clock r t) (upsert-Covers r names t c)
              (sym (ap (λ p. p.0) step) ∙ h))
      | inr (e, bad) ↦
          let raised = sym (ap (λ p. p.0) (persist_each_of_refused r rs names t q bad)) ∙ h in cc
    ]
  ]

module _ {F : Type 0} (account date clock : ℕ) (firing : List String) where
  abbrev swept : List (Alert F) → List (Alert F)
  swept rows = map (resolve_if_stale (some account) date firing clock) rows

  exists-swept_of_backed :
      (n : String) (rows : List (Alert F))
      → among n firing ≡ true
      → exists_row (is_existing account n date) (swept rows)
        ≡ exists_row (is_existing account n date) rows
  unfolding resolve_if_stale is_existing
  exists-swept_of_backed n [] h = refl
  exists-swept_of_backed n (a ∷ rows) h = elim (Bool-cases (str_eq a.guard_name n)) [
    | inl same ↦
        let is_name = (eq_iff a.guard_name n).0 same in
        ground (arith, exists-swept_of_backed n rows, ap (λ m. among m firing) is_name)
    | inr other ↦ ground (arith, exists-swept_of_backed n rows)
  ]

  exists-swept_of_stale :
      (n : String) (rows : List (Alert F))
      → among n firing ≡ false
      → exists_row (is_existing account n date) (swept rows) ≡ false
  unfolding resolve_if_stale is_existing
  exists-swept_of_stale n [] h = refl
  exists-swept_of_stale n (a ∷ rows) h = elim (Bool-cases (str_eq a.guard_name n)) [
    | inl same ↦
        let is_name = (eq_iff a.guard_name n).0 same in
        ground (arith, exists-swept_of_stale n rows, ap (λ m. among m firing) is_name)
    | inr other ↦ ground (arith, exists-swept_of_stale n rows)
  ]

  exists-swept :
      (n : String) (rows : List (Alert F))
      → (among n firing ≡ true → exists_row (is_existing account n date) rows ≡ true)
      → exists_row (is_existing account n date) (swept rows) ≡ among n firing
  exists-swept n rows covered =
      ground (arith, exists-swept_of_backed n rows, exists-swept_of_stale n rows)

  -- An active row of another day, or of a guard that does not fire.
  abbrev pub is_unbacked : Alert F → Bool
  is_unbacked a = in_scope (some account) a && not (is_backed date firing a)

  exists_unbacked-swept : (rows : List (Alert F)) → exists_row is_unbacked (swept rows) ≡ false
  unfolding resolve_if_stale
  exists_unbacked-swept [] = refl
  exists_unbacked-swept (a ∷ rows) = ground (arith, exists_unbacked-swept rows)

-- When storing a report succeeds, then for every guard name the account has an unresolved alert
-- of the report's day exactly when a result of that name fires, and it has no unresolved alert of
-- another day or of a name that does not fire.
pub persist_alerts-active :
    (u : Unicode) {F : Type 0} (float_of : Decimal → F) (report : RiskGuardReport) (clock : ℕ)
    (t : Table F)
    → (persist_alerts u float_of report clock t).0 ≡ ok tt
    → let account = report.account_id in
      let date = report.generated_at.local_date in
      let firing = firing_names report.results [] in
      let rows = (persist_alerts u float_of report clock t).1.rows in
      ((n : String) → exists_row (is_existing account n date) rows ≡ among n firing)
      × (exists_row (is_unbacked account date clock firing) rows ≡ false)
unfolding persist_alerts resolve_stale
persist_alerts-active u {F} float_of report clock t h =
    let account = report.account_id in
    let date = report.generated_at.local_date in
    let loop = (persist_each u float_of account date clock report.results [] t).1 in
    elim (Result-cases (persist_each u float_of account date clock report.results [] t).0) [
      | inl (firing, e) ↦
          let (same, covers) =
            persist_each-Covers u float_of account date clock report.results [] t
              (λ n p. ground arith) e in
          rw (e, persist_alerts, ← same)
            (
              (λ n. exists-swept account date clock firing n loop.rows (covers n)),
              exists_unbacked-swept account date clock firing loop.rows,
            )
      | inr (raised, e) ↦ unfold persist_alerts in ground (arith, e)
    ]
