-- ===== src/Samples.antt =====
-- Data for the tests and the examples: an ASCII table of characters, an account and its report.
use fin_skill_os.Prelude.{
  ℕ, Bool, none, some, [], ◌∷◌, Result, ok, err, ◌+◌, ◌&&◌, ◌||◌, leb, ◌==◌, if◌then◌else◌,
}
use fin_skill_os.Decimal.{decimal, minus_decimal}
use fin_skill_os.Guards.Base.{
  Status, RiskLevel, PositionRiskInput, GuardInput, Moment, RiskGuardReport,
}
use fin_skill_os.Wording.Matching.{Unicode}
use fin_skill_os.Firewall.Alerts.{Table}

abbrev is_upper : ℕ → Bool
is_upper c = leb 65 c && leb c 90

abbrev lower_ascii : ℕ → ℕ
lower_ascii c = if is_upper c then c + 32 else c

abbrev is_word_ascii : ℕ → Bool
is_word_ascii c =
    leb 128 c || (leb 48 c && leb c 57) || is_upper c || (leb 97 c && leb c 122) || c == 95

-- ASCII, with every further character taken for a letter.
abbrev pub ascii : Unicode
ascii = record {
  is_word = is_word_ascii;
  is_space = λ c. c == 32 || (leb 9 c && leb c 13);
  lower = λ c. lower_ascii c ∷ [];
  fold = lower_ascii;
}

abbrev pub chip_maker : PositionRiskInput
chip_maker = record {
  ticker = "005930";
  market_value = decimal 9500000 0;
  sector = some "SEMI";
  theme = none;
}

abbrev pub bank : PositionRiskInput
bank = record {
  ticker = "105560";
  market_value = decimal 12000000 0;
  sector = some "FIN";
  theme = none;
}

abbrev pub sample_account : GuardInput
sample_account = record {
  account_id = 7;
  total_value = decimal 25000000 0;
  cash_value = decimal 3500000 0;
  target_value = decimal 100000000 0;
  peak_value = some (decimal 28000000 0);
  drawdown_pct = some (minus_decimal 1071 2);
  positions = chip_maker ∷ bank ∷ [];
  regime = some "RISK_ON_OVERHEAT";
  regime_risk_level = some "ORANGE";
  decision_mode = none;
  goal_progress_pct = some (decimal 25 0);
  single_position_limit = decimal 10000000 0;
  min_cash_ratio = decimal 10 2;
  event_risk = none;
}

abbrev pub sample_moment : Moment
sample_moment = record { instant = 1_700_000_000; local_date = 19675 }

abbrev pub empty_table : Table ℕ
empty_table = record { rows = []; next_id = 0 }

abbrev pub value_or {ℓ} : {A : Type ℓ} → A → Result A → A
value_or default (ok a) = a
value_or default (err e) = default

abbrev pub no_report : RiskGuardReport
no_report = record {
  account_id = 0;
  generated_at = sample_moment;
  overall_status = Status.passed;
  overall_risk_level = RiskLevel.green;
  results = [];
}
