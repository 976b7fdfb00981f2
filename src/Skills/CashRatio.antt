-- ===== src/Skills/CashRatio.antt =====
-- finskillos/skills/library/cash_ratio_skill.py
use fin_skill_os.Prelude.{
  [], ◌∷◌, Bool, true, false, Option, none, some, Result, ok, ◌>>=◌, if◌then◌else◌,
}
use fin_skill_os.Decimal.{Decimal, decimal, at_most, at_least, divide, quantize}
use fin_skill_os.Decimal.Format.{◌+s◌, percent}
use fin_skill_os.Dict.{Dict}
use fin_skill_os.Guards.Base.{Status, RiskLevel, Value, of_option, default_cash_fail_threshold}
use fin_skill_os.Skills.Base.{SkillContext, get, num, need, always, const, call, SkillSpec}

ratio_of : Option Decimal → Option Decimal → Result (Dict Value)
ratio_of (some total) (some cash) =
    if at_most total (decimal 0 0)
    then ok []
    else do ratio ← quantize 4 (← divide cash total); ok (("cash_ratio", Value.number ratio) ∷ [])
ratio_of _ _ = ok []

derive : SkillContext → Result (Dict Value)
unfolding ratio_of
derive ctx = ratio_of (num ctx "total_value") (num ctx "cash_value")

ev_ok : SkillContext → Result (Dict Value)
ev_ok ctx = ok (
    ("cash_ratio", of_option Value.number (num ctx "cash_ratio"))
    ∷ ("min_cash_ratio", get ctx "min_cash_ratio")
    ∷ ("cash_value", get ctx "cash_value")
    ∷ ("total_value", get ctx "total_value")
    ∷ [])

ev_fail : SkillContext → Result (Dict Value)
ev_fail ctx = ok (
    ("cash_ratio", of_option Value.number (num ctx "cash_ratio"))
    ∷ ("min_cash_ratio", get ctx "min_cash_ratio")
    ∷ ("fail_floor", Value.number default_cash_fail_threshold)
    ∷ ("cash_value", get ctx "cash_value")
    ∷ ("total_value", get ctx "total_value")
    ∷ [])

-- Whether the ratio is there and reaches the bound; a bound that is missing is a TypeError.
reaches_min : SkillContext → Result Bool
reaches_min ctx = elim (num ctx "cash_ratio") [
  | none ↦ ok false
  | some ratio ↦ do least ← need (num ctx "min_cash_ratio"); ok (at_least ratio least)
]

reaches_floor : SkillContext → Result Bool
reaches_floor ctx = elim (num ctx "cash_ratio") [
  | none ↦ ok false
  | some ratio ↦ ok (at_least ratio default_cash_fail_threshold)
]

has_ratio : SkillContext → Result Bool
has_ratio ctx = elim (num ctx "cash_ratio") [ none ↦ ok false | some _ ↦ ok true ]

unfoldable pub cash_ratio_skill : SkillSpec
unfolding derive ev_ok ev_fail reaches_min reaches_floor has_ratio
cash_ratio_skill = record {
  skill_id = "RISK.CASH_RATIO";
  version = "cash-ratio-v1-2026-06-17";
  title = "Cash ratio — liquidity buffer vs the account minimum";
  reads = "cash_value" ∷ "total_value" ∷ "min_cash_ratio" ∷ [];
  derive = some derive;
  ladder =
      record {
        rule_id = "RISK.CASH_RATIO-001";
        when = reaches_min;
        status = const Status.passed;
        risk_level = const RiskLevel.green;
        title = const "현금비중이 최소 기준을 충족합니다.";
        message = call λ ctx. do
          ratio ← need (num ctx "cash_ratio")
          least ← need (num ctx "min_cash_ratio")
          ok ("현재 현금비중 " +s percent 2 ratio +s "은 목표 최소치 " +s percent 0 least +s " 이상을 유지하고 있습니다.");
        evidence = some ev_ok;
        watch_next = [];
        label = const "";
      }
      ∷ record {
        rule_id = "RISK.CASH_RATIO-002";
        when = reaches_floor;
        status = const Status.warn;
        risk_level = const RiskLevel.yellow;
        title = const "현금비중이 목표 최소치 아래로 내려갔습니다.";
        message = call λ ctx. do
          ratio ← need (num ctx "cash_ratio")
          least ← need (num ctx "min_cash_ratio")
          ok (
              "현재 현금비중 "
              +s percent 2 ratio
              +s "이 목표 최소치 "
              +s percent 0 least
              +s "보다 낮습니다. 급락/이벤트 대응 여력을 점검하세요.");
        evidence = some ev_ok;
        watch_next = "유동성 버퍼가 목표 하한 아래인지 확인" ∷ "이벤트 캘린더 대비 현금 여력 점검" ∷ [];
        label = const "";
      }
      ∷ record {
        rule_id = "RISK.CASH_RATIO-003";
        when = has_ratio;
        status = const Status.failed;
        risk_level = const RiskLevel.orange;
        title = const "현금비중이 위험 수준까지 낮아졌습니다.";
        message = call λ ctx. do
          ratio ← need (num ctx "cash_ratio")
          ok (
              "현재 현금비중 "
              +s percent 2 ratio
              +s "이 안전 한계 "
              +s percent 0 default_cash_fail_threshold
              +s " 미만입니다. 급락이나 이벤트 발생 시 대응 여력이 매우 제한적입니다.");
        evidence = some ev_fail;
        watch_next = "유동성 버퍼 목표치와 현재 격차 확인" ∷ "공격적 노출 확대 제약 유지" ∷ [];
        label = const "";
      }
      ∷ [];
  fallback = record {
    rule_id = "RISK.CASH_RATIO-000";
    when = always;
    status = const Status.info;
    risk_level = const RiskLevel.unknown;
    title = const "포트폴리오 총평가금액이 0이라 현금비중을 계산할 수 없습니다.";
    message = const "포지션이나 현금이 입력되지 않은 상태입니다. 기본 portfolio 입력 후 다시 점검하세요.";
    evidence = some λ ctx. ok (
        ("cash_value", get ctx "cash_value")
        ∷ ("total_value", get ctx "total_value")
        ∷ ("min_cash_ratio", get ctx "min_cash_ratio")
        ∷ []);
    watch_next = "최신 portfolio snapshot이 입력되어 있는지 확인" ∷ [];
    label = const "";
  };
  safety = "descriptive-only";
}
