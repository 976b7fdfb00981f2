-- ===== src/Skills/Goal.antt =====
-- finskillos/skills/library/goal_skill.py
use fin_skill_os.Prelude.{[], ◌∷◌, String, none, some, Result, ok, ◌>>=◌}
use fin_skill_os.Decimal.Format.{◌+s◌, fixed}
use fin_skill_os.Dict.{Dict}
use fin_skill_os.Guards.Base.{
  Status, RiskLevel, Value, of_option, default_goal_warn_pct, default_goal_protection_pct,
  default_goal_complete_pct,
}
use fin_skill_os.Skills.Base.{
  SkillContext, Field, num, need, always, any_threshold, band_rule, const, call, SkillSpec,
}

-- `_evidence`
goal_evidence : SkillContext → Result (Dict Value)
goal_evidence ctx = ok (
    ("goal_progress_pct", of_option Value.number (num ctx "goal_progress_pct"))
    ∷ ("warn_threshold", Value.number default_goal_warn_pct)
    ∷ ("protection_threshold", Value.number default_goal_protection_pct)
    ∷ ("complete_threshold", Value.number default_goal_complete_pct)
    ∷ [])

-- `_msg`: the template around the progress.
filled : String → String → Field String
filled before after = call λ ctx. do
  progress ← need (num ctx "goal_progress_pct")
  ok (before +s fixed 1 progress +s after)

unfoldable pub goal_skill : SkillSpec
unfolding goal_evidence filled
goal_skill = record {
  skill_id = "RISK.GOAL_PROTECTION";
  version = "goal-v1-2026-06-17";
  title = "Goal protection — progress-band operating posture";
  reads = "goal_progress_pct" ∷ [];
  derive = none;
  ladder =
      band_rule "RISK.GOAL_PROTECTION-004" "goal_progress_pct" default_goal_complete_pct
        Status.blocked RiskLevel.red "목표 달성 — 챌린지 완료 단계입니다."
        (filled "목표 진행률이 " "%로 달성/초과 상태입니다. 추가 공격적 운용보다 이익 보호가 우선되는 단계입니다.") goal_evidence
        ("다음 목표 설정 전 냉각 기간 유지" ∷ "이익 보호 기준 / 분산 상태 검토" ∷ [])
      ∷ band_rule "RISK.GOAL_PROTECTION-003" "goal_progress_pct" default_goal_protection_pct
          Status.failed RiskLevel.orange "목표 근접 구간 — 보호 모드로 전환할 시점입니다."
          (filled "목표 진행률 " "%로 목표에 매우 근접했습니다. 수익 극대화보다 손실 회피가 우선되는 운영이 어울립니다.") goal_evidence
          ("drawdown guard 민감도 상향" ∷ "고위험 추격형 노출 제약" ∷ [])
      ∷ band_rule "RISK.GOAL_PROTECTION-002" "goal_progress_pct" default_goal_warn_pct Status.warn
          RiskLevel.yellow "목표 진행률이 상승 구간 — 무리한 위험 확대 경계."
          (filled "목표 진행률 " "%로 후반부에 진입했습니다. 추가 위험 확대보다 이익 보호 기준 점검이 우선입니다.") goal_evidence
          ("이벤트 전 과대 포지션 점검" ∷ "현금 비중 최소치 회복 여부" ∷ [])
      ∷ band_rule "RISK.GOAL_PROTECTION-001" "goal_progress_pct" any_threshold Status.passed
          RiskLevel.green "목표 진행률이 정상 운영 구간에 있습니다."
          (filled "목표 진행률 " "%로 기본 운영 모드를 유지할 수 있는 구간입니다.") goal_evidence ([])
      ∷ [];
  fallback = record {
    rule_id = "RISK.GOAL_PROTECTION-000";
    when = always;
    status = const Status.info;
    risk_level = const RiskLevel.unknown;
    title = const "목표 진행률 정보가 없어 보호 모드를 평가할 수 없습니다.";
    message = const "Goal Tracker가 최신 portfolio_snapshots를 읽고 있는지 또는 target_value가 설정되어 있는지 점검하세요.";
    evidence = some λ ctx. ok (("goal_progress_pct", Value.null) ∷ []);
    watch_next = [];
    label = const "";
  };
  safety = "descriptive-only";
}
