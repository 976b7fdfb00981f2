-- ===== src/Tests/Alerts.antt =====
-- The alerts table after a report.
use fin_skill_os.Prelude.{arith, ℕ, ◌≡◌, refl, false, none, some, [], ◌∷◌, String, ok, keep}
use fin_skill_os.Decimal.{Decimal}
use fin_skill_os.Guards.Base.{
  Status, RiskLevel, Severity, GuardResult, RiskGuardReport, guard_cash_ratio, guard_drawdown,
}
use fin_skill_os.Wording.{find_forbidden_term}
use fin_skill_os.Wording.Matching.{search, remove_all}
use fin_skill_os.Skills.RiskRegistry.{assert_no_forbidden_wording}
use fin_skill_os.Firewall.Alerts.{
  Alert, Table, among, is_existing, create, upsert, persist_each, persist_alerts, resolve_stale,
  resolve_if_stale,
}
use fin_skill_os.Firewall.Alerts.Active.{
  persist_alerts-active, exists_row, firing_names, is_unbacked,
}
use fin_skill_os.Firewall.Alerts.Rows.{persist_alerts-others, is_other}
use fin_skill_os.Firewall.Alerts.Unique.{IsUnique, persist_alerts-IsUnique}
use fin_skill_os.Samples.{ascii, sample_moment}

abbrev result_of : String → Status → RiskLevel → GuardResult
result_of name status level = record {
  guard_name = name;
  status = status;
  risk_level = level;
  title = "Cash";
  message = "Low";
  evidence = [];
  watch_next = [];
}

abbrev small_report : RiskGuardReport
small_report = record {
  account_id = 7;
  generated_at = sample_moment;
  overall_status = Status.failed;
  overall_risk_level = RiskLevel.red;
  results =
      result_of guard_cash_ratio Status.passed RiskLevel.green
      ∷ result_of guard_drawdown Status.failed RiskLevel.red
      ∷ [];
}

-- A row of a guard that fired on another day.
abbrev row_of : ℕ → ℕ → Alert ℕ
row_of id account = record {
  id = id;
  account_id = some account;
  alert_date = 19674;
  guard_name = guard_cash_ratio;
  severity = Severity.yellow;
  title = "Cash";
  message = none;
  payload = none;
  resolved = false;
  resolved_at = none;
  created_at = 0;
}

abbrev old_table : Table ℕ
old_table = record { rows = row_of 0 7 ∷ row_of 1 8 ∷ []; next_id = 2 }

abbrev float_of : Decimal → ℕ
float_of d = d.coefficient

stored_ok : (persist_alerts ascii float_of small_report 9 old_table).0 ≡ ok tt
unfolding persist_alerts persist_each upsert is_existing create resolve_stale resolve_if_stale
    assert_no_forbidden_wording find_forbidden_term search remove_all
stored_ok = refl

persist_alerts-active_example :
    ((n : String)
      → exists_row
          (is_existing 7 n 19675)
          (persist_alerts ascii float_of small_report 9 old_table).1.rows
        ≡ among n (firing_names small_report.results []))
    × (exists_row
          (is_unbacked 7 19675 9 (firing_names small_report.results []))
          (persist_alerts ascii float_of small_report 9 old_table).1.rows
        ≡ false)
persist_alerts-active_example =
    persist_alerts-active ascii float_of small_report 9 old_table stored_ok

persist_alerts-others_example :
    keep (is_other 7) (persist_alerts ascii float_of small_report 9 old_table).1.rows
    ≡ keep (is_other 7) old_table.rows
persist_alerts-others_example = persist_alerts-others ascii float_of small_report 9 old_table

old_table-IsUnique : IsUnique 7 19675 old_table
unfolding is_existing
old_table-IsUnique n = ground arith

persist_alerts-IsUnique_example :
    IsUnique 7 19675 (persist_alerts ascii float_of small_report 9 old_table).1
persist_alerts-IsUnique_example =
    persist_alerts-IsUnique ascii float_of small_report 9 old_table old_table-IsUnique
