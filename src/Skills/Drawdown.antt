-- ===== src/Skills/Drawdown.antt =====
-- finskillos/skills/library/drawdown_skill.py
use fin_skill_os.Prelude.{[], ◌∷◌, String, Option, none, some, Result, ok, ◌>>=◌, if◌then◌else◌}
use fin_skill_os.Decimal.{Decimal, decimal, minus_decimal, at_most, minus, times, divide, quantize}
use fin_skill_os.Decimal.Format.{◌+s◌, fixed}
use fin_skill_os.Dict.{Dict}
use fin_skill_os.Guards.Base.{Status, RiskLevel, Value, of_option}
use fin_skill_os.Skills.Base.{
  SkillContext, Field, get, num, need, always, any_threshold, band_rule, const, call, SkillSpec,
}

derive_from : Option Decimal → Option Decimal → Result (Dict Value)
derive_from (some peak) (some total) = if at_most peak (decimal 0 0) then ok [] else do
  share ← divide (minus total peak) peak
  derived ← quantize 2 (times share (decimal 100 0))
  ok (("drawdown_pct", Value.number derived) ∷ [])
derive_from _ _ = ok []

-- `_derive_drawdown`
derive : SkillContext → Result (Dict Value)
unfolding derive_from
derive ctx = elim (num ctx "drawdown_pct") [
  | some direct ↦ ok (("drawdown_pct", Value.number direct) ∷ [])
  | none ↦ derive_from (num ctx "peak_value") (num ctx "total_value")
]

base_evidence : SkillContext → Result (Dict Value)
base_evidence ctx = ok (
    ("drawdown_pct", of_option Value.number (num ctx "drawdown_pct"))
    ∷ ("peak_value", get ctx "peak_value")
    ∷ ("total_value", get ctx "total_value")
    ∷ [])

-- `_msg`: the template around the drawdown.
filled : String → String → Field String
filled before after =
    call
      λ ctx. do drawdown ← need (num ctx "drawdown_pct"); ok (before +s fixed 2 drawdown +s after)

unfoldable pub drawdown_skill : SkillSpec
unfolding derive base_evidence filled
drawdown_skill = record {
  skill_id = "RISK.DRAWDOWN";
  version = "drawdown-v1-2026-06-17";
  title = "Drawdown — peak-to-current loss band";
  reads = "drawdown_pct" ∷ "peak_value" ∷ "total_value" ∷ [];
  derive = some derive;
  ladder =
      band_rule "RISK.DRAWDOWN-001" "drawdown_pct" (minus_decimal 5 0) Status.passed RiskLevel.green
        "고점 대비 drawdown이 일반 변동 범위입니다." (filled "현재 고점 대비 " "% 수준이며 안전 구간에서 변동하고 있습니다.")
        base_evidence ([])
      ∷ band_rule "RISK.DRAWDOWN-002" "drawdown_pct" (minus_decimal 8 0) Status.warn
          RiskLevel.yellow "고점 대비 -5% ~ -8% 구간 — 최근 수익 일부 반납."
          (filled "현재 drawdown " "%로 최근 수익 일부가 반납되고 있습니다. 포지션별 thesis와 stop 기준을 점검하세요.")
          base_evidence ("약한 포지션의 stop 기준 점검" ∷ "단기 추격형 노출 제약 검토" ∷ [])
      ∷ band_rule "RISK.DRAWDOWN-003" "drawdown_pct" (minus_decimal 10 0) Status.warn
          RiskLevel.yellow "고점 대비 -8% ~ -10% 구간 — Yellow Alert."
          (filled "현재 drawdown " "%로 손실 구간이 깊어지고 있습니다. 추격형 노출을 제약하고 약한 포지션 기준을 점검하세요.")
          base_evidence ("약한 포지션 기준 점검" ∷ "단기 추격형 노출 제약 강화" ∷ "유동성 버퍼 상태 점검" ∷ [])
      ∷ band_rule "RISK.DRAWDOWN-004" "drawdown_pct" (minus_decimal 15 0) Status.failed
          RiskLevel.orange "고점 대비 -10% 이상 손실 — Risk Reduction Mode."
          (filled "현재 drawdown " "%로 리스크 검토 구간에 진입했습니다. 유동성 버퍼와 취약 포지션 기준을 점검하세요.") base_evidence
          ("유동성 버퍼 상태 점검" ∷ "취약 포지션 기준 점검" ∷ "단기 추격형 노출 제약 유지" ∷ [])
      ∷ band_rule "RISK.DRAWDOWN-005" "drawdown_pct" any_threshold Status.failed RiskLevel.red
          "고점 대비 -15% 이상 손실 — Defensive Mode."
          (filled "현재 drawdown " "%로 계좌 보호가 최우선되는 구간입니다. 공격적 노출 확대를 보류하고 주간 복기 후 재평가하세요.")
          base_evidence ("주간 복기 전 공격적 노출 확대 보류" ∷ "방어 모드 전환 점검" ∷ [])
      ∷ [];
  fallback = record {
    rule_id = "RISK.DRAWDOWN-000";
    when = always;
    status = const Status.info;
    risk_level = const RiskLevel.unknown;
    title = const "drawdown을 계산할 수 있는 peak / total_value 정보가 없습니다.";
    message = const "portfolio_snapshots에 peak_value 또는 drawdown_pct가 기록되면 자동으로 계산됩니다.";
    evidence = some λ ctx.
        ok (("peak_value", get ctx "peak_value") ∷ ("total_value", get ctx "total_value") ∷ []);
    watch_next = [];
    label = const "";
  };
  safety = "descriptive-only";
}
