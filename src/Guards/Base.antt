-- ===== src/Guards/Base.antt =====
-- finskillos/guards/base.py: vocabularies, severity ranks, defaults and the data that a guard takes
-- and returns.
pub mod Ranks
use fin_skill_os.Prelude.{
  ℕ, Bool, true, false, Option, none, some, List, [], ◌∷◌, String, ltb, if◌then◌else◌, str_eq, keep,
}
use fin_skill_os.Prelude.Int.{ℤ}
use fin_skill_os.Decimal.{Decimal, decimal}
use fin_skill_os.Dict.{Dict}

pub data Status : Type 0 where
  passed info warn failed blocked : Status

pub data RiskLevel : Type 0 where
  green yellow orange red unknown : RiskLevel

pub data Severity : Type 0 where
  info yellow orange red : Severity

-- The texts that stand for the levels in the database.
abbrev pub risk_text : RiskLevel → String
risk_text RiskLevel.green = "GREEN"
risk_text RiskLevel.yellow = "YELLOW"
risk_text RiskLevel.orange = "ORANGE"
risk_text RiskLevel.red = "RED"
risk_text RiskLevel.unknown = "UNKNOWN"

abbrev pub status_text : Status → String
status_text Status.passed = "PASS"
status_text Status.info = "INFO"
status_text Status.warn = "WARN"
status_text Status.failed = "FAIL"
status_text Status.blocked = "BLOCKED"

-- Higher number == more severe.
abbrev pub status_rank : Status → ℕ
status_rank Status.passed = 0
status_rank Status.info = 1
status_rank Status.warn = 2
status_rank Status.failed = 3
status_rank Status.blocked = 4

abbrev pub risk_rank : RiskLevel → ℕ
risk_rank RiskLevel.green = 0
risk_rank RiskLevel.unknown = 1
risk_rank RiskLevel.yellow = 2
risk_rank RiskLevel.orange = 3
risk_rank RiskLevel.red = 4

-- `max(xs, key=rank)` goes on from the best so far; the first of equals stays.
abbrev pub max_from {ℓ} : {A : Type ℓ} → (A → ℕ) → A → List A → A
max_from rank best [] = best
max_from rank best (x ∷ xs) = max_from rank (if ltb (rank best) (rank x) then x else best) xs

unfoldable pub worst_status : List Status → Status
worst_status [] = Status.passed
worst_status (s ∷ ss) = max_from status_rank s ss

unfoldable pub worst_risk_level : List RiskLevel → RiskLevel
worst_risk_level [] = RiskLevel.green
worst_risk_level (l ∷ ls) = max_from risk_rank l ls

unfoldable pub risk_level_to_severity : RiskLevel → Severity
risk_level_to_severity RiskLevel.red = Severity.red
risk_level_to_severity RiskLevel.orange = Severity.orange
risk_level_to_severity RiskLevel.yellow = Severity.yellow
risk_level_to_severity RiskLevel.green = Severity.info
risk_level_to_severity RiskLevel.unknown = Severity.info

-- The canonical guard names.
abbrev pub guard_cash_ratio : String
guard_cash_ratio = "CASH_RATIO_GUARD"

abbrev pub guard_single_position : String
guard_single_position = "SINGLE_POSITION_LIMIT_GUARD"

abbrev pub guard_sector_concentration : String
guard_sector_concentration = "SECTOR_CONCENTRATION_GUARD"

abbrev pub guard_drawdown : String
guard_drawdown = "DRAWDOWN_GUARD"

abbrev pub guard_goal_protection : String
guard_goal_protection = "GOAL_PROTECTION_GUARD"

abbrev pub guard_regime_risk : String
guard_regime_risk = "REGIME_RISK_GUARD"

abbrev pub guard_overheat_entry : String
guard_overheat_entry = "OVERHEAT_ENTRY_GUARD"

abbrev pub guard_event_placeholder : String
guard_event_placeholder = "EVENT_PLACEHOLDER_GUARD"

-- The thresholds.
abbrev pub default_single_position_limit_krw : Decimal
default_single_position_limit_krw = decimal 10000000 0

abbrev pub default_min_cash_ratio : Decimal
default_min_cash_ratio = decimal 10 2

abbrev pub default_cash_fail_threshold : Decimal
default_cash_fail_threshold = decimal 5 2

abbrev pub default_sector_warn_pct : Decimal
default_sector_warn_pct = decimal 35 2

abbrev pub default_sector_fail_pct : Decimal
default_sector_fail_pct = decimal 50 2

abbrev pub default_goal_warn_pct : Decimal
default_goal_warn_pct = decimal 70 0

abbrev pub default_goal_protection_pct : Decimal
default_goal_protection_pct = decimal 90 0

abbrev pub default_goal_complete_pct : Decimal
default_goal_complete_pct = decimal 100 0

pub record PositionRiskInput : Type 0 where
  pub ticker : String
  pub market_value : Decimal
  pub sector : Option String
  pub theme : Option String

pub record EventRiskSummary : Type 0 where
  pub connected : Bool
  pub upcoming_count : ℤ
  pub holdings_relevant_count : ℤ
  pub highest_label : Option String
  pub highest_score : Option Decimal
  pub nearest_days : Option ℤ
  pub affected_tickers : List String

-- `account_id` is a UUID, that is a number of 128 bits.
pub record GuardInput : Type 0 where
  pub account_id : ℕ
  pub total_value : Decimal
  pub cash_value : Decimal
  pub target_value : Decimal
  pub peak_value : Option Decimal
  pub drawdown_pct : Option Decimal
  pub positions : List PositionRiskInput
  pub regime : Option String
  pub regime_risk_level : Option String
  pub decision_mode : Option String
  pub goal_progress_pct : Option Decimal
  pub single_position_limit : Decimal
  pub min_cash_ratio : Decimal
  pub event_risk : Option EventRiskSummary

-- What stands in an evidence dict or in a skill's context: `object` in the source.
pub data Value : Type 0 where
  null : Value
  number : Decimal → Value
  int : ℤ → Value
  flag : Bool → Value
  text : String → Value
  texts : List String → Value
  numbers : Dict Decimal → Value
  status : Status → Value
  level : RiskLevel → Value
  positions : List PositionRiskInput → Value
  events : EventRiskSummary → Value
  input : GuardInput → Value
  uuid : ℕ → Value

abbrev pub of_option {ℓ} : {A : Type ℓ} → (A → Value) → Option A → Value
of_option f none = Value.null
of_option f (some a) = f a

pub record GuardResult : Type 0 where
  pub guard_name : String
  pub status : Status
  pub risk_level : RiskLevel
  pub title : String
  pub message : String
  pub evidence : Dict Value
  pub watch_next : List String

-- A `datetime` with its zone: the instant in microseconds, and the date on its own calendar, which
-- is what `.date()` returns (as a day number).
pub record Moment : Type 0 where
  pub instant : ℕ
  pub local_date : ℕ

pub record RiskGuardReport : Type 0 where
  pub account_id : ℕ
  pub generated_at : Moment
  pub overall_status : Status
  pub overall_risk_level : RiskLevel
  pub results : List GuardResult

find_name : String → List GuardResult → Option GuardResult
find_name name [] = none
find_name name (r ∷ rs) = if str_eq r.guard_name name then some r else find_name name rs

unfoldable pub by_name : RiskGuardReport → String → Option GuardResult
unfolding find_name
by_name report name = find_name name report.results

abbrev is_failing : GuardResult → Bool
is_failing r = elim r.status [ Status.failed ↦ true | Status.blocked ↦ true | _ ↦ false ]

abbrev is_warning : GuardResult → Bool
is_warning r = elim r.status [ Status.warn ↦ true | _ ↦ false ]

unfoldable pub failing : RiskGuardReport → List GuardResult
failing report = keep is_failing report.results

unfoldable pub warning : RiskGuardReport → List GuardResult
warning report = keep is_warning report.results
