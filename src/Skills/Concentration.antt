-- ===== src/Skills/Concentration.antt =====
-- finskillos/skills/library/concentration_skill.py
use fin_skill_os.Prelude.{
  Bool, false, List, [], ◌∷◌, some, Result, ok, ◌>>=◌, if◌then◌else◌, length,
}
use fin_skill_os.Prelude.Int.{pos}
use fin_skill_os.Decimal.{Decimal, decimal, at_most, more}
use fin_skill_os.Decimal.Format.{◌+s◌, percent}
use fin_skill_os.Dict.{Dict, lookup_or, without}
use fin_skill_os.Guards.Base.{
  Status, RiskLevel, Value, PositionRiskInput, default_sector_warn_pct, default_sector_fail_pct,
}
use fin_skill_os.Guards.Sectors.{unclassified, add_positions, sum_values, shares_of, heaviest}
use fin_skill_os.Skills.Base.{
  SkillContext, get, num, need, positions_of, is_text, show, always, const, call, SkillSpec,
}

-- The features when some position has a sector, and when none has.
abbrev of_classified : List PositionRiskInput → Dict Decimal → Decimal → Dict Decimal → Dict Value
of_classified ps shares unclassified_share [] =
    ("_conc_state", Value.text "UNCLASSIFIED")
    ∷ ("_shares", Value.numbers shares)
    ∷ ("_unclassified_share", Value.number unclassified_share)
    ∷ ("_position_count", Value.int (pos (length ps)))
    ∷ []
of_classified ps shares unclassified_share (first ∷ rest) =
    let top = heaviest first rest in
    ("_conc_state", Value.text "OK")
    ∷ ("_shares", Value.numbers shares)
    ∷ ("_heaviest_sector", Value.text top.0)
    ∷ ("_heaviest_share", Value.number top.1)
    ∷ ("_unclassified_share", Value.number unclassified_share)
    ∷ []

derive_from : List PositionRiskInput → Result (Dict Value)
derive_from [] = ok (("_conc_state", Value.text "EMPTY") ∷ [])
derive_from (p ∷ ps) =
    let buckets = add_positions [] (p ∷ ps) in
    let total = sum_values buckets in
    if at_most total (decimal 0 0)
    then ok (
        ("_conc_state", Value.text "ZERO")
        ∷ ("_position_count", Value.int (pos (length (p ∷ ps))))
        ∷ [])
    else do
      shares ← shares_of total buckets
      ok (
          of_classified (p ∷ ps) shares (lookup_or (decimal 0 0) unclassified shares)
            (without unclassified shares))

-- `_derive`
derive : SkillContext → Result (Dict Value)
unfolding derive_from
derive ctx = do ps ← positions_of (get ctx "positions"); derive_from ps

base_evidence : SkillContext → Result (Dict Value)
base_evidence ctx = ok (
    ("sector_shares", get ctx "_shares")
    ∷ ("heaviest_sector", get ctx "_heaviest_sector")
    ∷ ("heaviest_share", get ctx "_heaviest_share")
    ∷ ("unclassified_share", get ctx "_unclassified_share")
    ∷ ("warn_threshold", Value.number default_sector_warn_pct)
    ∷ ("fail_threshold", Value.number default_sector_fail_pct)
    ∷ [])

-- `_ok`
is_ok : SkillContext → Bool
is_ok ctx = is_text (get ctx "_conc_state") "OK"

-- `_ok(ctx) and _share(ctx) > bound`
share_above : Decimal → SkillContext → Result Bool
unfolding is_ok
share_above bound ctx =
    if is_ok ctx
    then (do share ← need (num ctx "_heaviest_share"); ok (more share bound))
    else ok false

unfoldable pub concentration_skill : SkillSpec
unfolding derive base_evidence is_ok share_above
concentration_skill = record {
  skill_id = "RISK.SECTOR_CONCENTRATION";
  version = "sector-concentration-v1-2026-06-17";
  title = "Sector concentration — heaviest-sector share band";
  reads = "positions" ∷ [];
  derive = some derive;
  ladder =
      record {
        rule_id = "RISK.SECTOR_CONCENTRATION-003";
        when = share_above default_sector_fail_pct;
        status = const Status.failed;
        risk_level = const RiskLevel.orange;
        title = const "섹터 집중도가 위험 수준까지 높아졌습니다.";
        message = call λ ctx. do
          share ← need (num ctx "_heaviest_share")
          ok (
              show (get ctx "_heaviest_sector")
              +s " 섹터가 포지션 평가금액의 "
              +s percent 1 share
              +s "를 차지합니다. 한 가지 테마 위험에 묶일 가능성이 큽니다.");
        evidence = some base_evidence;
        watch_next = "동일 테마 추가 진입 제한" ∷ "현금/방어 섹터로 분산 여지 점검" ∷ [];
        label = const "";
      }
      ∷ record {
        rule_id = "RISK.SECTOR_CONCENTRATION-002";
        when = share_above default_sector_warn_pct;
        status = const Status.warn;
        risk_level = const RiskLevel.yellow;
        title = const "특정 섹터 비중이 빠르게 커지고 있습니다.";
        message = call λ ctx. do
          share ← need (num ctx "_heaviest_share")
          ok (
              show (get ctx "_heaviest_sector")
              +s " 섹터가 "
              +s percent 1 share
              +s "로 일반 한계를 넘어섰습니다. 같은 테마 추가 진입은 집중 위험을 키울 수 있습니다.");
        evidence = some base_evidence;
        watch_next = "동일 테마 종목 추가 진입 검토" ∷ "포트폴리오 내 분산 비중 재점검" ∷ [];
        label = const "";
      }
      ∷ record {
        rule_id = "RISK.SECTOR_CONCENTRATION-001";
        when = λ ctx. ok (is_ok ctx);
        status = const Status.passed;
        risk_level = const RiskLevel.green;
        title = const "섹터 집중도가 안전 구간에 있습니다.";
        message = call λ ctx. do
          share ← need (num ctx "_heaviest_share")
          ok (
              "가장 큰 섹터 비중은 "
              +s show (get ctx "_heaviest_sector")
              +s " "
              +s percent 1 share
              +s "로 한계 이내입니다.");
        evidence = some base_evidence;
        watch_next = [];
        label = const "";
      }
      ∷ record {
        rule_id = "RISK.SECTOR_CONCENTRATION-005";
        when = λ ctx. ok (is_text (get ctx "_conc_state") "UNCLASSIFIED");
        status = const Status.info;
        risk_level = const RiskLevel.unknown;
        title = const "보유 종목의 섹터 정보가 없어 섹터 집중도를 평가할 수 없습니다.";
        message =
            const
              "보유 종목에 섹터가 분류되어 있지 않습니다(전량 UNCLASSIFIED). 섹터가 채워지면 집중도를 자동으로 점검합니다 — 그 전까지는 섹터 집중 위험으로 단정하지 않습니다.";
        evidence = some λ ctx. ok (
            ("unclassified_share", get ctx "_unclassified_share")
            ∷ ("position_count", get ctx "_position_count")
            ∷ []);
        watch_next = [];
        label = const "";
      }
      ∷ record {
        rule_id = "RISK.SECTOR_CONCENTRATION-004";
        when = λ ctx. ok (is_text (get ctx "_conc_state") "ZERO");
        status = const Status.info;
        risk_level = const RiskLevel.unknown;
        title = const "포지션 평가금액이 0이라 섹터 노출을 계산할 수 없습니다.";
        message = const "positions.market_value 값이 입력되어 있는지 점검하세요.";
        evidence = some λ ctx. ok (("position_count", get ctx "_position_count") ∷ []);
        watch_next = [];
        label = const "";
      }
      ∷ [];
  fallback = record {
    rule_id = "RISK.SECTOR_CONCENTRATION-000";
    when = always;
    status = const Status.info;
    risk_level = const RiskLevel.unknown;
    title = const "포지션이 없어 섹터 노출을 계산할 수 없습니다.";
    message = const "포트폴리오에 포지션이 등록되면 섹터 집중도를 자동으로 점검합니다.";
    evidence = some λ ctx. ok (("position_count", Value.int (pos 0)) ∷ []);
    watch_next = [];
    label = const "";
  };
  safety = "descriptive-only";
}
