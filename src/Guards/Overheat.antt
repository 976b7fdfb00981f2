-- ===== src/Guards/Overheat.antt =====
-- finskillos/guards/overheat_guard.py: aggressive exposure in an overheated regime.
use fin_skill_os.Prelude.{[], ◌∷◌, String, none, some, Result, ok, if◌then◌else◌, str_eq}
use fin_skill_os.Decimal.Format.{◌+s◌}
use fin_skill_os.Dict.{Dict}
use fin_skill_os.Guards.Base.{
  Status, RiskLevel, Value, GuardInput, GuardResult, of_option, guard_overheat_entry,
}

abbrev pub regime_risk_on_overheat : String
regime_risk_on_overheat = "RISK_ON_OVERHEAT"

abbrev pub regime_distribution_risk : String
regime_distribution_risk = "DISTRIBUTION_RISK"

abbrev regime_evidence : GuardInput → Dict Value
regime_evidence g =
    ("regime", of_option Value.text g.regime)
    ∷ ("decision_mode", of_option Value.text g.decision_mode)
    ∷ []

abbrev no_regime : GuardInput → GuardResult
no_regime g = record {
  guard_name = guard_overheat_entry;
  status = Status.info;
  risk_level = RiskLevel.unknown;
  title = "시장 regime 정보가 없어 overheat 진입 제한을 평가할 수 없습니다.";
  message = "RegimeService 결과가 누적되면 자동으로 overheat 노출 제약을 점검합니다.";
  evidence = regime_evidence g;
  watch_next = [];
}

abbrev judge : GuardInput → String → GuardResult
judge g regime =
    if str_eq regime regime_risk_on_overheat
    then record {
      guard_name = guard_overheat_entry;
      status = Status.failed;
      risk_level = RiskLevel.orange;
      title = "시장이 RISK_ON_OVERHEAT — 추격형 노출 제약 구간입니다.";
      message = "기존 강자 추세는 남아 있지만 추격형 노출은 기대 수익률 대비 위험이 큰 구간으로 보입니다.";
      evidence = regime_evidence g;
      watch_next = "기존 강자의 stop / sizing 기준 점검" ∷ "추격형 노출의 sizing 제약 검토" ∷ [];
    }
    else if str_eq regime regime_distribution_risk
    then record {
      guard_name = guard_overheat_entry;
      status = Status.warn;
      risk_level = RiskLevel.yellow;
      title = "DISTRIBUTION_RISK — 공격적 노출 확대에 제약이 붙습니다.";
      message = "추세는 유지되지만 모멘텀 약화 신호가 누적되어 노출 확대의 기대값이 낮아질 수 있습니다.";
      evidence = regime_evidence g;
      watch_next = "주도 종목의 RSI 둔화 / 거래량 점검" ∷ "추격형 노출 검토 시 sizing 제약 확인" ∷ [];
    }
    else record {
      guard_name = guard_overheat_entry;
      status = Status.passed;
      risk_level = RiskLevel.green;
      title = "현재 regime 기준 추격형 노출 제약은 낮습니다.";
      message = "regime " +s regime +s "은 추격형 노출 제약이 강하게 요구되는 상태가 아닙니다.";
      evidence = regime_evidence g;
      watch_next = [];
    }

unfoldable pub evaluate : GuardInput → Result GuardResult
evaluate g = elim g.regime [ none ↦ ok (no_regime g) | some regime ↦ ok (judge g regime) ]
