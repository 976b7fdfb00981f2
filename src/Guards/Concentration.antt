-- ===== src/Guards/Concentration.antt =====
-- finskillos/guards/concentration_guard.py: the exposure to one sector.
use fin_skill_os.Prelude.{List, [], ◌∷◌, String, Result, ok, ◌>>=◌, if◌then◌else◌, length}
use fin_skill_os.Prelude.Int.{pos}
use fin_skill_os.Decimal.{Decimal, decimal, at_most, more}
use fin_skill_os.Decimal.Format.{◌+s◌, percent}
use fin_skill_os.Dict.{Dict, lookup_or, without}
use fin_skill_os.Guards.Base.{
  Status, RiskLevel, Value, PositionRiskInput, GuardInput, GuardResult, guard_sector_concentration,
  default_sector_warn_pct, default_sector_fail_pct,
}
use fin_skill_os.Guards.Sectors.{unclassified, add_positions, sum_values, shares_of, heaviest}

abbrev no_positions : GuardResult
no_positions = record {
  guard_name = guard_sector_concentration;
  status = Status.info;
  risk_level = RiskLevel.unknown;
  title = "포지션이 없어 섹터 노출을 계산할 수 없습니다.";
  message = "포트폴리오에 포지션이 등록되면 섹터 집중도를 자동으로 점검합니다.";
  evidence = ("position_count", Value.int (pos 0)) ∷ [];
  watch_next = [];
}

abbrev no_value : List PositionRiskInput → GuardResult
no_value ps = record {
  guard_name = guard_sector_concentration;
  status = Status.info;
  risk_level = RiskLevel.unknown;
  title = "포지션 평가금액이 0이라 섹터 노출을 계산할 수 없습니다.";
  message = "positions.market_value 값이 입력되어 있는지 점검하세요.";
  evidence = ("position_count", Value.int (pos (length ps))) ∷ [];
  watch_next = [];
}

abbrev no_sectors : List PositionRiskInput → Decimal → GuardResult
no_sectors ps share = record {
  guard_name = guard_sector_concentration;
  status = Status.info;
  risk_level = RiskLevel.unknown;
  title = "보유 종목의 섹터 정보가 없어 섹터 집중도를 평가할 수 없습니다.";
  message =
      "보유 종목에 섹터가 분류되어 있지 않습니다(전량 UNCLASSIFIED). 섹터가 채워지면 집중도를 자동으로 점검합니다 — 그 전까지는 섹터 집중 위험으로 단정하지 않습니다.";
  evidence =
      ("unclassified_share", Value.number share)
      ∷ ("position_count", Value.int (pos (length ps)))
      ∷ [];
  watch_next = [];
}

abbrev base_evidence : Dict Decimal → String × Decimal → Decimal → Dict Value
base_evidence shares top unclassified_share =
    ("sector_shares", Value.numbers shares)
    ∷ ("heaviest_sector", Value.text top.0)
    ∷ ("heaviest_share", Value.number top.1)
    ∷ ("unclassified_share", Value.number unclassified_share)
    ∷ ("warn_threshold", Value.number default_sector_warn_pct)
    ∷ ("fail_threshold", Value.number default_sector_fail_pct)
    ∷ []

abbrev judge : Dict Decimal → String × Decimal → Decimal → GuardResult
judge shares top unclassified_share =
    if more top.1 default_sector_fail_pct
    then record {
      guard_name = guard_sector_concentration;
      status = Status.failed;
      risk_level = RiskLevel.orange;
      title = "섹터 집중도가 위험 수준까지 높아졌습니다.";
      message =
          top.0 +s " 섹터가 포지션 평가금액의 " +s percent 1 top.1 +s "를 차지합니다. 한 가지 테마 위험에 묶일 가능성이 큽니다.";
      evidence = base_evidence shares top unclassified_share;
      watch_next = "동일 테마 추가 진입 제한" ∷ "현금/방어 섹터로 분산 여지 점검" ∷ [];
    }
    else if more top.1 default_sector_warn_pct
    then record {
      guard_name = guard_sector_concentration;
      status = Status.warn;
      risk_level = RiskLevel.yellow;
      title = "특정 섹터 비중이 빠르게 커지고 있습니다.";
      message =
          top.0 +s " 섹터가 " +s percent 1 top.1 +s "로 일반 한계를 넘어섰습니다. 같은 테마 추가 진입은 집중 위험을 키울 수 있습니다.";
      evidence = base_evidence shares top unclassified_share;
      watch_next = "동일 테마 종목 추가 진입 검토" ∷ "포트폴리오 내 분산 비중 재점검" ∷ [];
    }
    else record {
      guard_name = guard_sector_concentration;
      status = Status.passed;
      risk_level = RiskLevel.green;
      title = "섹터 집중도가 안전 구간에 있습니다.";
      message = "가장 큰 섹터 비중은 " +s top.0 +s " " +s percent 1 top.1 +s "로 한계 이내입니다.";
      evidence = base_evidence shares top unclassified_share;
      watch_next = [];
    }

abbrev pub of_classified :
    List PositionRiskInput → Dict Decimal → Decimal → Dict Decimal → GuardResult
of_classified ps shares unclassified_share [] = no_sectors ps unclassified_share
of_classified ps shares unclassified_share (first ∷ rest) =
    judge shares (heaviest first rest) unclassified_share

abbrev of_positions : List PositionRiskInput → Result GuardResult
of_positions [] = ok no_positions
of_positions (p ∷ ps) =
    let buckets = add_positions [] (p ∷ ps) in
    let total = sum_values buckets in
    if at_most total (decimal 0 0) then ok (no_value (p ∷ ps)) else do
      shares ← shares_of total buckets
      ok (
          of_classified (p ∷ ps) shares (lookup_or (decimal 0 0) unclassified shares)
            (without unclassified shares))

unfoldable pub evaluate : GuardInput → Result GuardResult
evaluate g = of_positions g.positions
