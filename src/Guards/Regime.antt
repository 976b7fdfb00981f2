-- ===== src/Guards/Regime.antt =====
-- finskillos/guards/regime_guard.py: the market regime as a constraint.
use fin_skill_os.Prelude.{[], ◌∷◌, String, Option, some, Result, ok}
use fin_skill_os.Decimal.Format.{◌+s◌, option_text, repr}
use fin_skill_os.Dict.{Dict, lookup_or}
use fin_skill_os.Guards.Base.{
  Status, RiskLevel, Value, GuardInput, GuardResult, of_option, guard_regime_risk,
}

-- `_REGIME_LEVEL_MAP`
abbrev pub regime_level_map : Dict (Status × RiskLevel)
regime_level_map =
    ("RED", (Status.failed, RiskLevel.red))
    ∷ ("ORANGE", (Status.failed, RiskLevel.orange))
    ∷ ("YELLOW", (Status.warn, RiskLevel.yellow))
    ∷ ("GREEN", (Status.passed, RiskLevel.green))
    ∷ ("UNKNOWN", (Status.info, RiskLevel.unknown))
    ∷ []

unfoldable pub level_of : String → Status × RiskLevel
level_of found = lookup_or (Status.info, RiskLevel.unknown) found regime_level_map

abbrev no_regime : GuardInput → GuardResult
no_regime g = record {
  guard_name = guard_regime_risk;
  status = Status.info;
  risk_level = RiskLevel.unknown;
  title = "시장 regime 정보가 아직 수집되지 않았습니다.";
  message = "RegimeService.evaluate_today_regime이 실행되어 market_regimes에 결과가 누적되면 자동으로 점검합니다.";
  evidence =
      ("regime", Value.null)
      ∷ ("regime_risk_level", Value.null)
      ∷ ("decision_mode", of_option Value.text g.decision_mode)
      ∷ [];
  watch_next = [];
}

abbrev regime_evidence : GuardInput → String → String → Dict Value
regime_evidence g regime found =
    ("regime", Value.text regime)
    ∷ ("regime_risk_level", Value.text found)
    ∷ ("decision_mode", of_option Value.text g.decision_mode)
    ∷ []

abbrev uninterpretable : GuardInput → String → String → Status → RiskLevel → GuardResult
uninterpretable g regime found status level = record {
  guard_name = guard_regime_risk;
  status = status;
  risk_level = level;
  title = "시장 regime 정보를 해석할 수 없습니다.";
  message = "regime_risk_level=" +s repr found +s "이 알려진 값이 아닙니다.";
  evidence = regime_evidence g regime found;
  watch_next = [];
}

-- The copy for a status; the guard tests for PASS, WARN and FAIL in turn.
abbrev judge : GuardInput → String → String → Status × RiskLevel → GuardResult
judge g regime found (Status.passed, level) = record {
  guard_name = guard_regime_risk;
  status = Status.passed;
  risk_level = level;
  title = "시장 regime이 우호적인 구간입니다.";
  message =
      "현재 regime "
      +s regime
      +s " / 운영 모드 "
      +s option_text g.decision_mode
      +s "에서 기본 검토 모드가 가능한 환경입니다.";
  evidence = regime_evidence g regime found;
  watch_next = [];
}
judge g regime found (Status.warn, level) = record {
  guard_name = guard_regime_risk;
  status = Status.warn;
  risk_level = level;
  title = "시장 regime이 주의 구간으로 진입했습니다.";
  message =
      "현재 regime "
      +s regime
      +s "는 운영 모드 "
      +s option_text g.decision_mode
      +s "로 공격적 노출 확대에는 제약 검토가 필요합니다.";
  evidence = regime_evidence g regime found;
  watch_next = "주도 섹터 RSI / VIX 추이 점검" ∷ "추격형 노출 제약 유지" ∷ [];
}
judge g regime found (Status.failed, level) = record {
  guard_name = guard_regime_risk;
  status = Status.failed;
  risk_level = level;
  title = "시장 regime이 방어 구간입니다.";
  message =
      "현재 regime " +s regime +s "는 운영 모드 " +s option_text g.decision_mode +s "로 계좌 보호가 우선되는 환경입니다.";
  evidence = regime_evidence g regime found;
  watch_next = "현금 비중 / drawdown guard 상태 점검" ∷ "공격적 노출 확대 제약 유지" ∷ [];
}
judge g regime found (Status.info, level) = uninterpretable g regime found Status.info level
judge g regime found (Status.blocked, level) = uninterpretable g regime found Status.blocked level

abbrev of_regime : GuardInput → Option String → Option String → GuardResult
of_regime g (some regime) (some found) = judge g regime found (level_of found)
of_regime g _ _ = no_regime g

unfoldable pub evaluate : GuardInput → Result GuardResult
evaluate g = ok (of_regime g g.regime g.regime_risk_level)
