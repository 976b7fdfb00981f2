-- ===== src/Skills/Overheat.antt =====
-- finskillos/skills/library/overheat_skill.py
use fin_skill_os.Prelude.{[], ◌∷◌, none, some, Result, ok}
use fin_skill_os.Decimal.Format.{◌+s◌}
use fin_skill_os.Dict.{Dict}
use fin_skill_os.Guards.Base.{Status, RiskLevel, Value}
use fin_skill_os.Skills.Base.{
  SkillContext, get, is_text, is_there, show, always, const, call, SkillSpec,
}

-- `_evidence`
overheat_evidence : SkillContext → Result (Dict Value)
overheat_evidence ctx =
    ok (("regime", get ctx "regime") ∷ ("decision_mode", get ctx "decision_mode") ∷ [])

unfoldable pub overheat_skill : SkillSpec
unfolding overheat_evidence
overheat_skill = record {
  skill_id = "RISK.OVERHEAT_ENTRY";
  version = "overheat-v1-2026-06-17";
  title = "Overheat entry — chase-exposure constraint by regime";
  reads = "regime" ∷ "decision_mode" ∷ [];
  derive = none;
  ladder =
      record {
        rule_id = "RISK.OVERHEAT_ENTRY-002";
        when = λ ctx. ok (is_text (get ctx "regime") "RISK_ON_OVERHEAT");
        status = const Status.failed;
        risk_level = const RiskLevel.orange;
        title = const "시장이 RISK_ON_OVERHEAT — 추격형 노출 제약 구간입니다.";
        message = const "기존 강자 추세는 남아 있지만 추격형 노출은 기대 수익률 대비 위험이 큰 구간으로 보입니다.";
        evidence = some overheat_evidence;
        watch_next = "기존 강자의 stop / sizing 기준 점검" ∷ "추격형 노출의 sizing 제약 검토" ∷ [];
        label = const "";
      }
      ∷ record {
        rule_id = "RISK.OVERHEAT_ENTRY-001";
        when = λ ctx. ok (is_text (get ctx "regime") "DISTRIBUTION_RISK");
        status = const Status.warn;
        risk_level = const RiskLevel.yellow;
        title = const "DISTRIBUTION_RISK — 공격적 노출 확대에 제약이 붙습니다.";
        message = const "추세는 유지되지만 모멘텀 약화 신호가 누적되어 노출 확대의 기대값이 낮아질 수 있습니다.";
        evidence = some overheat_evidence;
        watch_next = "주도 종목의 RSI 둔화 / 거래량 점검" ∷ "추격형 노출 검토 시 sizing 제약 확인" ∷ [];
        label = const "";
      }
      ∷ record {
        rule_id = "RISK.OVERHEAT_ENTRY-003";
        when = λ ctx. ok (is_there (get ctx "regime"));
        status = const Status.passed;
        risk_level = const RiskLevel.green;
        title = const "현재 regime 기준 추격형 노출 제약은 낮습니다.";
        message =
            call
              λ ctx. ok ("regime " +s show (get ctx "regime") +s "은 추격형 노출 제약이 강하게 요구되는 상태가 아닙니다.");
        evidence = some overheat_evidence;
        watch_next = [];
        label = const "";
      }
      ∷ [];
  fallback = record {
    rule_id = "RISK.OVERHEAT_ENTRY-000";
    when = always;
    status = const Status.info;
    risk_level = const RiskLevel.unknown;
    title = const "시장 regime 정보가 없어 overheat 진입 제한을 평가할 수 없습니다.";
    message = const "RegimeService 결과가 누적되면 자동으로 overheat 노출 제약을 점검합니다.";
    evidence = some overheat_evidence;
    watch_next = [];
    label = const "";
  };
  safety = "descriptive-only";
}
