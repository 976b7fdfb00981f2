-- ===== src/Guards/Goal.antt =====
-- finskillos/guards/goal_guard.py: the posture near the goal.
use fin_skill_os.Prelude.{[], ◌∷◌, none, some, Result, ok, if◌then◌else◌}
use fin_skill_os.Decimal.{Decimal, at_least}
use fin_skill_os.Decimal.Format.{◌+s◌, fixed}
use fin_skill_os.Dict.{Dict}
use fin_skill_os.Guards.Base.{
  Status, RiskLevel, Value, GuardInput, GuardResult, guard_goal_protection, default_goal_warn_pct,
  default_goal_protection_pct, default_goal_complete_pct,
}

abbrev no_progress : GuardResult
no_progress = record {
  guard_name = guard_goal_protection;
  status = Status.info;
  risk_level = RiskLevel.unknown;
  title = "목표 진행률 정보가 없어 보호 모드를 평가할 수 없습니다.";
  message = "Goal Tracker가 최신 portfolio_snapshots를 읽고 있는지 또는 target_value가 설정되어 있는지 점검하세요.";
  evidence = ("goal_progress_pct", Value.null) ∷ [];
  watch_next = [];
}

abbrev base_evidence : Decimal → Dict Value
base_evidence progress =
    ("goal_progress_pct", Value.number progress)
    ∷ ("warn_threshold", Value.number default_goal_warn_pct)
    ∷ ("protection_threshold", Value.number default_goal_protection_pct)
    ∷ ("complete_threshold", Value.number default_goal_complete_pct)
    ∷ []

abbrev pub judge : Decimal → GuardResult
judge progress =
    if at_least progress default_goal_complete_pct
    then record {
      guard_name = guard_goal_protection;
      status = Status.blocked;
      risk_level = RiskLevel.red;
      title = "목표 달성 — 챌린지 완료 단계입니다.";
      message = "목표 진행률이 " +s fixed 1 progress +s "%로 달성/초과 상태입니다. 추가 공격적 운용보다 이익 보호가 우선되는 단계입니다.";
      evidence = base_evidence progress;
      watch_next = "다음 목표 설정 전 냉각 기간 유지" ∷ "이익 보호 기준 / 분산 상태 검토" ∷ [];
    }
    else if at_least progress default_goal_protection_pct
    then record {
      guard_name = guard_goal_protection;
      status = Status.failed;
      risk_level = RiskLevel.orange;
      title = "목표 근접 구간 — 보호 모드로 전환할 시점입니다.";
      message =
          "목표 진행률 " +s fixed 1 progress +s "%로 목표에 매우 근접했습니다. 수익 극대화보다 손실 회피가 우선되는 운영이 어울립니다.";
      evidence = base_evidence progress;
      watch_next = "drawdown guard 민감도 상향" ∷ "고위험 추격형 노출 제약" ∷ [];
    }
    else if at_least progress default_goal_warn_pct
    then record {
      guard_name = guard_goal_protection;
      status = Status.warn;
      risk_level = RiskLevel.yellow;
      title = "목표 진행률이 상승 구간 — 무리한 위험 확대 경계.";
      message = "목표 진행률 " +s fixed 1 progress +s "%로 후반부에 진입했습니다. 추가 위험 확대보다 이익 보호 기준 점검이 우선입니다.";
      evidence = base_evidence progress;
      watch_next = "이벤트 전 과대 포지션 점검" ∷ "현금 비중 최소치 회복 여부" ∷ [];
    }
    else record {
      guard_name = guard_goal_protection;
      status = Status.passed;
      risk_level = RiskLevel.green;
      title = "목표 진행률이 정상 운영 구간에 있습니다.";
      message = "목표 진행률 " +s fixed 1 progress +s "%로 기본 운영 모드를 유지할 수 있는 구간입니다.";
      evidence = base_evidence progress;
      watch_next = [];
    }

unfoldable pub evaluate : GuardInput → Result GuardResult
evaluate g = elim g.goal_progress_pct [
  | none ↦ ok no_progress
  | some progress ↦ ok (judge progress)
]
