-- ===== src/Guards/CashRatio.antt =====
-- finskillos/guards/cash_ratio_guard.py: the minimum-cash buffer.
use fin_skill_os.Prelude.{[], ◌∷◌, Result, ok, ◌>>=◌, if◌then◌else◌}
use fin_skill_os.Decimal.{Decimal, decimal, at_most, at_least, divide, quantize}
use fin_skill_os.Decimal.Format.{◌+s◌, percent}
use fin_skill_os.Dict.{Dict}
use fin_skill_os.Guards.Base.{
  Status, RiskLevel, Value, GuardInput, GuardResult, guard_cash_ratio, default_cash_fail_threshold,
}

abbrev no_value : GuardInput → GuardResult
no_value g = record {
  guard_name = guard_cash_ratio;
  status = Status.info;
  risk_level = RiskLevel.unknown;
  title = "포트폴리오 총평가금액이 0이라 현금비중을 계산할 수 없습니다.";
  message = "포지션이나 현금이 입력되지 않은 상태입니다. 기본 portfolio 입력 후 다시 점검하세요.";
  evidence =
      ("cash_value", Value.number g.cash_value)
      ∷ ("total_value", Value.number g.total_value)
      ∷ ("min_cash_ratio", Value.number g.min_cash_ratio)
      ∷ [];
  watch_next = "최신 portfolio snapshot이 입력되어 있는지 확인" ∷ [];
}

abbrev ratio_evidence : GuardInput → Decimal → Dict Value
ratio_evidence g ratio =
    ("cash_ratio", Value.number ratio)
    ∷ ("min_cash_ratio", Value.number g.min_cash_ratio)
    ∷ ("cash_value", Value.number g.cash_value)
    ∷ ("total_value", Value.number g.total_value)
    ∷ []

abbrev judge : GuardInput → Decimal → GuardResult
judge g ratio =
    if at_least ratio g.min_cash_ratio
    then record {
      guard_name = guard_cash_ratio;
      status = Status.passed;
      risk_level = RiskLevel.green;
      title = "현금비중이 최소 기준을 충족합니다.";
      message =
          "현재 현금비중 "
          +s percent 2 ratio
          +s "은 목표 최소치 "
          +s percent 0 g.min_cash_ratio
          +s " 이상을 유지하고 있습니다.";
      evidence = ratio_evidence g ratio;
      watch_next = [];
    }
    else if at_least ratio default_cash_fail_threshold
    then record {
      guard_name = guard_cash_ratio;
      status = Status.warn;
      risk_level = RiskLevel.yellow;
      title = "현금비중이 목표 최소치 아래로 내려갔습니다.";
      message =
          "현재 현금비중 "
          +s percent 2 ratio
          +s "이 목표 최소치 "
          +s percent 0 g.min_cash_ratio
          +s "보다 낮습니다. 급락/이벤트 대응 여력을 점검하세요.";
      evidence = ratio_evidence g ratio;
      watch_next = "유동성 버퍼가 목표 하한 아래인지 확인" ∷ "이벤트 캘린더 대비 현금 여력 점검" ∷ [];
    }
    else record {
      guard_name = guard_cash_ratio;
      status = Status.failed;
      risk_level = RiskLevel.orange;
      title = "현금비중이 위험 수준까지 낮아졌습니다.";
      message =
          "현재 현금비중 "
          +s percent 2 ratio
          +s "이 안전 한계 "
          +s percent 0 default_cash_fail_threshold
          +s " 미만입니다. 급락이나 이벤트 발생 시 대응 여력이 매우 제한적입니다.";
      evidence =
          ("cash_ratio", Value.number ratio)
          ∷ ("min_cash_ratio", Value.number g.min_cash_ratio)
          ∷ ("fail_floor", Value.number default_cash_fail_threshold)
          ∷ ("cash_value", Value.number g.cash_value)
          ∷ ("total_value", Value.number g.total_value)
          ∷ [];
      watch_next = "유동성 버퍼 목표치와 현재 격차 확인" ∷ "공격적 노출 확대 제약 유지" ∷ [];
    }

unfoldable pub evaluate : GuardInput → Result GuardResult
evaluate g =
    if at_most g.total_value (decimal 0 0)
    then ok (no_value g)
    else do ratio ← quantize 4 (← divide g.cash_value g.total_value); ok (judge g ratio)
