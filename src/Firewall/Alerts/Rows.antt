-- ===== src/Firewall/Alerts/Rows.antt =====
-- What the row operations of the alerts table leave as it was.
use mathlib.Core.List.{append-nil}
use fin_skill_os.Prelude.{
  ℕ, ◌≡◌, refl, ◌∙◌, Bool, true, false, not, some, List, [], ◌∷◌, ◌++◌, map, String, inl, inr,
  Result-cases, Option-cases, keep, arith,
}
use fin_skill_os.Decimal.{Decimal}
use fin_skill_os.Guards.Base.{GuardResult, RiskGuardReport}
use fin_skill_os.Wording.Matching.{Unicode}
use fin_skill_os.Firewall.Alerts.{
  Alert, Table, is_account, is_existing, find_first, change_first, resolve_if_stale, resolve_stale,
  create, refresh, upsert, persist_each, persist_alerts,
}

module _ {ℓ} {A : Type ℓ} where
  pub keep-append :
      (test : A → Bool) (xs ys : List A) → keep test (xs ++ ys) ≡ keep test xs ++ keep test ys
  keep-append test [] ys = refl
  keep-append test (x ∷ xs) ys = ground (arith, keep-append test xs ys)

module _ {F : Type 0} (account : ℕ) where
  -- The row belongs to another account, or to none.
  abbrev pub is_other : Alert F → Bool
  is_other a = not (is_account a.account_id account)

  keep-change_first :
      (test : Alert F → Bool) (f : Alert F → Alert F) (rows : List (Alert F))
      → ((a : Alert F) → test a ≡ true → (is_other a ≡ false) × (is_other (f a) ≡ false))
      → keep is_other (change_first test f rows) ≡ keep is_other rows
  keep-change_first test f [] own = refl
  keep-change_first test f (a ∷ rows) own = ground (arith, own a, keep-change_first test f rows own)

  keep-resolve_if_stale :
      (date : ℕ) (guards : List String) (now : ℕ) (rows : List (Alert F))
      → keep is_other (map (resolve_if_stale (some account) date guards now) rows)
        ≡ keep is_other rows
  unfolding resolve_if_stale
  keep-resolve_if_stale date guards now [] = refl
  keep-resolve_if_stale date guards now (a ∷ rows) =
      ground (arith, keep-resolve_if_stale date guards now rows)

module _ (u : Unicode) {F : Type 0} (float_of : Decimal → F) (account date clock : ℕ) where
  upsert-others :
      (r : GuardResult) (t : Table F)
      → keep (is_other account) (upsert u float_of account date clock r t).rows
        ≡ keep (is_other account) t.rows
  unfolding upsert create is_existing
  upsert-others r t =
      elim (Option-cases (find_first (is_existing account r.guard_name date) t.rows)) [
        | inl e ↦
            rw (e, upsert, keep-append)
              (ground (arith, append-nil (keep (is_other account) t.rows)))
        | inr (a, e) ↦
            rw (e, upsert)
              (keep-change_first account (is_existing account r.guard_name date)
                (refresh u float_of r) t.rows (λ b h. ground arith))
      ]

  persist_each-others :
      (rs : List GuardResult) (firing : List String) (t : Table F)
      → keep (is_other account) (persist_each u float_of account date clock rs firing t).1.rows
        ≡ keep (is_other account) t.rows
  unfolding persist_each
  persist_each-others [] firing t = refl
  persist_each-others (r ∷ rs) firing t = ground (
    arith,
    persist_each-others rs firing t,
    persist_each-others rs (r.guard_name ∷ firing) (upsert u float_of account date clock r t),
    upsert-others r t,
  )

-- Whatever its outcome, storing a report leaves the rows of every other account as they were.
pub persist_alerts-others :
    (u : Unicode) {F : Type 0} (float_of : Decimal → F) (report : RiskGuardReport) (clock : ℕ)
    (t : Table F)
    → keep (is_other report.account_id) (persist_alerts u float_of report clock t).1.rows
      ≡ keep (is_other report.account_id) t.rows
unfolding persist_alerts resolve_stale
persist_alerts-others u {F} float_of report clock t =
    let account = report.account_id in
    let date = report.generated_at.local_date in
    let loop = persist_each-others u float_of account date clock report.results [] t in
    elim (Result-cases (persist_each u float_of account date clock report.results [] t).0) [
      | inl (firing, e) ↦
          rw (e, persist_alerts)
            (keep-resolve_if_stale account date firing clock
                (persist_each u float_of account date clock report.results [] t).1.rows
              ∙ loop)
      | inr (raised, e) ↦ rw (e, persist_alerts) loop
    ]
