-- ===== src/Guards/Drawdown.antt =====
-- finskillos/guards/drawdown_guard.py: the peak-to-current loss. `total_value` is never None here.
use fin_skill_os.Prelude.{[], ◌∷◌, Option, none, some, Result, ok, ◌>>=◌, if◌then◌else◌}
use fin_skill_os.Decimal.{
  Decimal, decimal, minus_decimal, at_most, at_least, minus, times, divide, quantize,
}
use fin_skill_os.Decimal.Format.{◌+s◌, fixed}
use fin_skill_os.Dict.{Dict}
use fin_skill_os.Guards.Base.{
  Status, RiskLevel, Value, GuardInput, GuardResult, of_option, guard_drawdown,
}

from_peak : Option Decimal → Decimal → Result (Option Decimal)
from_peak none total = ok none
from_peak (some peak) total = if at_most peak (decimal 0 0) then ok none else do
  share ← divide (minus total peak) peak
  drawdown ← quantize 2 (times share (decimal 100 0))
  ok (some drawdown)

-- `_resolve_drawdown`
unfoldable pub resolve_drawdown : GuardInput → Result (Option Decimal)
unfolding from_peak
resolve_drawdown g = elim g.drawdown_pct [
  | some d ↦ ok (some d)
  | none ↦ from_peak g.peak_value g.total_value
]

abbrev base_evidence : GuardInput → Decimal → Dict Value
base_evidence g drawdown =
    ("drawdown_pct", Value.number drawdown)
    ∷ ("peak_value", of_option Value.number g.peak_value)
    ∷ ("total_value", Value.number g.total_value)
    ∷ []

abbrev pub no_drawdown : GuardInput → GuardResult
no_drawdown g = record {
  guard_name = guard_drawdown;
  status = Status.info;
  risk_level = RiskLevel.unknown;
  title = "drawdown을 계산할 수 있는 peak / total_value 정보가 없습니다.";
  message = "portfolio_snapshots에 peak_value 또는 drawdown_pct가 기록되면 자동으로 계산됩니다.";
  evidence =
      ("peak_value", of_option Value.number g.peak_value)
      ∷ ("total_value", Value.number g.total_value)
      ∷ [];
  watch_next = [];
}

abbrev pub judge : GuardInput → Decimal → GuardResult
judge g drawdown =
    if at_least drawdown (minus_decimal 5 0)
    then record {
      guard_name = guard_drawdown;
      status = Status.passed;
      risk_level = RiskLevel.green;
      title = "고점 대비 drawdown이 일반 변동 범위입니다.";
      message = "현재 고점 대비 " +s fixed 2 drawdown +s "% 수준이며 안전 구간에서 변동하고 있습니다.";
      evidence = base_evidence g drawdown;
      watch_next = [];
    }
    else if at_least drawdown (minus_decimal 8 0)
    then record {
      guard_name = guard_drawdown;
      status = Status.warn;
      risk_level = RiskLevel.yellow;
      title = "고점 대비 -5% ~ -8% 구간 — 최근 수익 일부 반납.";
      message =
          "현재 drawdown "
          +s fixed 2 drawdown
          +s "%로 최근 수익 일부가 반납되고 있습니다. 포지션별 thesis와 stop 기준을 점검하세요.";
      evidence = base_evidence g drawdown;
      watch_next = "약한 포지션의 stop 기준 점검" ∷ "단기 추격형 노출 제약 검토" ∷ [];
    }
    else if at_least drawdown (minus_decimal 10 0)
    then record {
      guard_name = guard_drawdown;
      status = Status.warn;
      risk_level = RiskLevel.yellow;
      title = "고점 대비 -8% ~ -10% 구간 — Yellow Alert.";
      message =
          "현재 drawdown "
          +s fixed 2 drawdown
          +s "%로 손실 구간이 깊어지고 있습니다. 추격형 노출을 제약하고 약한 포지션 기준을 점검하세요.";
      evidence = base_evidence g drawdown;
      watch_next = "약한 포지션 기준 점검" ∷ "단기 추격형 노출 제약 강화" ∷ "유동성 버퍼 상태 점검" ∷ [];
    }
    else if at_least drawdown (minus_decimal 15 0)
    then record {
      guard_name = guard_drawdown;
      status = Status.failed;
      risk_level = RiskLevel.orange;
      title = "고점 대비 -10% 이상 손실 — Risk Reduction Mode.";
      message =
          "현재 drawdown " +s fixed 2 drawdown +s "%로 리스크 검토 구간에 진입했습니다. 유동성 버퍼와 취약 포지션 기준을 점검하세요.";
      evidence = base_evidence g drawdown;
      watch_next = "유동성 버퍼 상태 점검" ∷ "취약 포지션 기준 점검" ∷ "단기 추격형 노출 제약 유지" ∷ [];
    }
    else record {
      guard_name = guard_drawdown;
      status = Status.failed;
      risk_level = RiskLevel.red;
      title = "고점 대비 -15% 이상 손실 — Defensive Mode.";
      message =
          "현재 drawdown "
          +s fixed 2 drawdown
          +s "%로 계좌 보호가 최우선되는 구간입니다. 공격적 노출 확대를 보류하고 주간 복기 후 재평가하세요.";
      evidence = base_evidence g drawdown;
      watch_next = "주간 복기 전 공격적 노출 확대 보류" ∷ "방어 모드 전환 점검" ∷ [];
    }

abbrev pub of_drawdown : GuardInput → Option Decimal → GuardResult
of_drawdown g none = no_drawdown g
of_drawdown g (some drawdown) = judge g drawdown

unfoldable pub evaluate : GuardInput → Result GuardResult
unfolding resolve_drawdown
evaluate g = do drawdown ← resolve_drawdown g; ok (of_drawdown g drawdown)
