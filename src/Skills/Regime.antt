-- ===== src/Skills/Regime.antt =====
-- finskillos/skills/library/regime_skill.py
use fin_skill_os.Prelude.{[], ◌∷◌, some, Result, ok, err, type_error}
use fin_skill_os.Decimal.Format.{◌+s◌}
use fin_skill_os.Dict.{Dict, lookup_or}
use fin_skill_os.Guards.Base.{Status, RiskLevel, Value}
use fin_skill_os.Skills.Base.{
  SkillContext, get, is_status, show, show_repr, always, const, call, SkillSpec,
}

-- `_REGIME_LEVEL_MAP`
abbrev regime_level_map : Dict (Status × RiskLevel)
regime_level_map =
    ("RED", (Status.failed, RiskLevel.red))
    ∷ ("ORANGE", (Status.failed, RiskLevel.orange))
    ∷ ("YELLOW", (Status.warn, RiskLevel.yellow))
    ∷ ("GREEN", (Status.passed, RiskLevel.green))
    ∷ ("UNKNOWN", (Status.info, RiskLevel.unknown))
    ∷ []

-- The level is a text or None here; no other object is a key of the map.
level_of : Value → Status × RiskLevel
level_of (Value.text s) = lookup_or (Status.info, RiskLevel.unknown) s regime_level_map
level_of _ = (Status.info, RiskLevel.unknown)

derive_from : Value → Value → Result (Dict Value)
unfolding level_of
derive_from Value.null found = ok []
derive_from regime Value.null = ok []
derive_from regime found =
    let (status, level) = level_of found in
    ok (("_regime_status", Value.status status) ∷ ("_regime_level", Value.level level) ∷ [])

derive : SkillContext → Result (Dict Value)
unfolding derive_from
derive ctx = derive_from (get ctx "regime") (get ctx "regime_risk_level")

-- `_evidence`
regime_evidence : SkillContext → Result (Dict Value)
regime_evidence ctx = ok (
    ("regime", get ctx "regime")
    ∷ ("regime_risk_level", get ctx "regime_risk_level")
    ∷ ("decision_mode", get ctx "decision_mode")
    ∷ [])

-- The risk level of a rule whose level the context holds; `derive` puts a level there.
level_value : Value → Result RiskLevel
level_value (Value.level l) = ok l
level_value _ = err type_error

unfoldable pub regime_skill : SkillSpec
unfolding derive regime_evidence level_value
regime_skill = record {
  skill_id = "RISK.REGIME_RISK";
  version = "regime-risk-v1-2026-06-17";
  title = "Regime risk — operating posture by market regime";
  reads = "regime" ∷ "regime_risk_level" ∷ "decision_mode" ∷ [];
  derive = some derive;
  ladder =
      record {
        rule_id = "RISK.REGIME_RISK-001";
        when = λ ctx. ok (is_status (get ctx "_regime_status") Status.passed);
        status = const Status.passed;
        risk_level = const RiskLevel.green;
        title = const "시장 regime이 우호적인 구간입니다.";
        message = call λ ctx. ok (
            "현재 regime "
            +s show (get ctx "regime")
            +s " / 운영 모드 "
            +s show (get ctx "decision_mode")
            +s "에서 기본 검토 모드가 가능한 환경입니다.");
        evidence = some regime_evidence;
        watch_next = [];
        label = const "";
      }
      ∷ record {
        rule_id = "RISK.REGIME_RISK-002";
        when = λ ctx. ok (is_status (get ctx "_regime_status") Status.warn);
        status = const Status.warn;
        risk_level = const RiskLevel.yellow;
        title = const "시장 regime이 주의 구간으로 진입했습니다.";
        message = call λ ctx. ok (
            "현재 regime "
            +s show (get ctx "regime")
            +s "는 운영 모드 "
            +s show (get ctx "decision_mode")
            +s "로 공격적 노출 확대에는 제약 검토가 필요합니다.");
        evidence = some regime_evidence;
        watch_next = "주도 섹터 RSI / VIX 추이 점검" ∷ "추격형 노출 제약 유지" ∷ [];
        label = const "";
      }
      ∷ record {
        rule_id = "RISK.REGIME_RISK-003";
        when = λ ctx. ok (is_status (get ctx "_regime_status") Status.failed);
        status = const Status.failed;
        risk_level = call λ ctx. level_value (get ctx "_regime_level");
        title = const "시장 regime이 방어 구간입니다.";
        message = call λ ctx. ok (
            "현재 regime "
            +s show (get ctx "regime")
            +s "는 운영 모드 "
            +s show (get ctx "decision_mode")
            +s "로 계좌 보호가 우선되는 환경입니다.");
        evidence = some regime_evidence;
        watch_next = "현금 비중 / drawdown guard 상태 점검" ∷ "공격적 노출 확대 제약 유지" ∷ [];
        label = const "";
      }
      ∷ record {
        rule_id = "RISK.REGIME_RISK-004";
        when = λ ctx. ok (is_status (get ctx "_regime_status") Status.info);
        status = const Status.info;
        risk_level = const RiskLevel.unknown;
        title = const "시장 regime 정보를 해석할 수 없습니다.";
        message = call λ ctx.
            ok
              ("regime_risk_level=" +s show_repr (get ctx "regime_risk_level") +s "이 알려진 값이 아닙니다.");
        evidence = some regime_evidence;
        watch_next = [];
        label = const "";
      }
      ∷ [];
  fallback = record {
    rule_id = "RISK.REGIME_RISK-000";
    when = always;
    status = const Status.info;
    risk_level = const RiskLevel.unknown;
    title = const "시장 regime 정보가 아직 수집되지 않았습니다.";
    message =
        const "RegimeService.evaluate_today_regime이 실행되어 market_regimes에 결과가 누적되면 자동으로 점검합니다.";
    evidence = some λ ctx. ok (
        ("regime", Value.null)
        ∷ ("regime_risk_level", Value.null)
        ∷ ("decision_mode", get ctx "decision_mode")
        ∷ []);
    watch_next = [];
    label = const "";
  };
  safety = "descriptive-only";
}
