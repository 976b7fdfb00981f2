-- ===== src/Firewall/Alerts/Unique.antt =====
-- How many unresolved rows of a day a guard name has.
use fin_skill_os.Prelude.{
  ℕ, ◌+◌, ◌≤◌, ◌≡◌, refl, sym, ◌∙◌, ap, Bool, false, none, some, List, [], ◌∷◌, ◌++◌, map, String,
  if◌then◌else◌, ◌⊎◌, inl, inr, Bool-cases, Option-cases, Result-cases, str_eq, eq_iff, arith,
}
use fin_skill_os.Decimal.{Decimal}
use fin_skill_os.Guards.Base.{GuardResult, RiskGuardReport}
use fin_skill_os.Wording.Matching.{Unicode}
use fin_skill_os.Firewall.Alerts.{
  Alert, Table, is_existing, find_first, change_first, resolve_if_stale, resolve_stale, create,
  refresh, upsert, persist_each, persist_alerts,
}

abbrev pub count_rows : {F : Type 0} → (Alert F → Bool) → List (Alert F) → ℕ
count_rows test [] = 0
count_rows test (a ∷ rows) = if test a then 1 + count_rows test rows else count_rows test rows

module _ {F : Type 0} where
  count-append :
      (test : Alert F → Bool) (xs : List (Alert F)) (y : Alert F)
      → count_rows test (xs ++ y ∷ []) ≡ count_rows test xs + (if test y then 1 else 0)
  count-append test [] y = ground arith
  count-append test (x ∷ xs) y = ground (arith, count-append test xs y)

  append-le :
      (test : Alert F → Bool) (xs : List (Alert F)) (y : Alert F)
      → count_rows test xs ≤ 1
      → (count_rows test xs ≡ 0) ⊎ (test y ≡ false)
      → count_rows test (xs ++ y ∷ []) ≤ 1
  append-le test xs y h (inl e) = ground (arith, count-append test xs y)
  append-le test xs y h (inr e) = ground (arith, count-append test xs y)

  count_of_missing :
      (test : Alert F → Bool) (xs : List (Alert F))
      → find_first test xs ≡ none
      → count_rows test xs ≡ 0
  count_of_missing test [] h = refl
  count_of_missing test (x ∷ xs) h = ground (arith, count_of_missing test xs)

  count-change_first :
      (test change : Alert F → Bool) (f : Alert F → Alert F) (xs : List (Alert F))
      → ((a : Alert F) → test (f a) ≡ test a)
      → count_rows test (change_first change f xs) ≡ count_rows test xs
  count-change_first test change f [] same = refl
  count-change_first test change f (x ∷ xs) same =
      ground (arith, same x, count-change_first test change f xs same)

  count-swept :
      (account : ℕ) (name : String) (date day clock : ℕ) (firing : List String)
      (rows : List (Alert F))
      → count_rows
          (is_existing account name day)
          (map (resolve_if_stale (some account) date firing clock) rows)
        ≤ count_rows (is_existing account name day) rows
  unfolding resolve_if_stale is_existing
  count-swept account name date day clock firing [] = omega arith
  count-swept account name date day clock firing (a ∷ rows) =
      ground (arith, count-swept account name date day clock firing rows)

-- No guard name has two unresolved rows of the day.
abbrev pub IsUnique : {F : Type 0} → ℕ → ℕ → Table F → Type 0
IsUnique account date t = (n : String) → count_rows (is_existing account n date) t.rows ≤ 1

module _ (u : Unicode) {F : Type 0} (float_of : Decimal → F) (account date clock : ℕ) where
  not_existing :
      (a : Alert F) (n : String)
      → str_eq a.guard_name n ≡ false
      → is_existing account n date a ≡ false
  unfolding is_existing
  not_existing a n h = ground arith

  upsert-IsUnique :
      (r : GuardResult) (t : Table F)
      → IsUnique account date t
      → IsUnique account date (upsert u float_of account date clock r t)
  unfolding create upsert
  upsert-IsUnique r t unique n =
      elim (Option-cases (find_first (is_existing account r.guard_name date) t.rows)) [
        | inr (a, e) ↦
            rw
              (
                e,
                upsert,
                count-change_first (is_existing account n date)
                    (is_existing account r.guard_name date) (refresh u float_of r) t.rows
                    (λ b. unfold is_existing in refl),
              )
              (unique n)
        | inl e ↦
            rw (e, upsert)
              (append-le (is_existing account n date) t.rows _ (unique n)
                (elim (Bool-cases (str_eq r.guard_name n)) [
                  | inl same ↦
                      let names = (eq_iff r.guard_name n).0 same in
                      inl (
                        ap (λ m. count_rows (is_existing account m date) t.rows) (sym names)
                        ∙ count_of_missing (is_existing account r.guard_name date) t.rows e)
                  | inr other ↦ inr (not_existing _ n other)
                ]))
      ]

  persist_each-IsUnique :
      (rs : List GuardResult) (names : List String) (t : Table F)
      → IsUnique account date t
      → IsUnique account date (persist_each u float_of account date clock rs names t).1
  unfolding persist_each
  persist_each-IsUnique [] names t unique n = unique n
  persist_each-IsUnique (r ∷ rs) names t unique n = ground (
    arith,
    unique n,
    persist_each-IsUnique rs names t unique n,
    persist_each-IsUnique rs (r.guard_name ∷ names) (upsert u float_of account date clock r t)
        (upsert-IsUnique r t unique) n,
  )

-- When no guard name has two unresolved rows of the report's day in its account, none has after the
-- report is stored, whether or not storing it raises.
pub persist_alerts-IsUnique :
    (u : Unicode) {F : Type 0} (float_of : Decimal → F) (report : RiskGuardReport) (clock : ℕ)
    (t : Table F)
    → IsUnique report.account_id report.generated_at.local_date t
    → IsUnique report.account_id report.generated_at.local_date
        (persist_alerts u float_of report clock t).1
unfolding persist_alerts resolve_stale
persist_alerts-IsUnique u {F} float_of report clock t unique n =
    let account = report.account_id in
    let date = report.generated_at.local_date in
    let loop = persist_each-IsUnique u float_of account date clock report.results [] t unique n in
    elim (Result-cases (persist_each u float_of account date clock report.results [] t).0) [
      | inl (firing, e) ↦
          rw (e, persist_alerts)
            (omega (
              arith,
              loop,
              count-swept account n date date clock firing
                  (persist_each u float_of account date clock report.results [] t).1.rows,
            ))
      | inr (raised, e) ↦ rw (e, persist_alerts) loop
    ]
