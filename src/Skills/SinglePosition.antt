-- ===== src/Skills/SinglePosition.antt =====
-- finskillos/skills/library/single_position_skill.py
use fin_skill_os.Prelude.{◌&&◌, List, [], ◌∷◌, map, String, some, Result, ok, ◌>>=◌, keep, length}
use fin_skill_os.Prelude.Int.{pos}
use fin_skill_os.Decimal.{Decimal, decimal, at_most, less, more, times, quantize}
use fin_skill_os.Decimal.Format.{◌+s◌, grouped, join}
use fin_skill_os.Dict.{Dict, update}
use fin_skill_os.Guards.Base.{Status, RiskLevel, Value, PositionRiskInput, of_option}
use fin_skill_os.Skills.Base.{
  SkillContext, get, num, need, positions_of, truthy, show, always, const, call, SkillSpec,
}

abbrev warn_ratio_of_limit : Decimal
warn_ratio_of_limit = decimal 9 1

abbrev offender : PositionRiskInput → String
offender p = p.ticker +s "(" +s grouped p.market_value +s " KRW)"

-- `_offenders`
abbrev offenders : List PositionRiskInput → String
offenders ps = join ", " (map offender ps)

abbrev value_entry : PositionRiskInput → String × Decimal
value_entry p = (p.ticker, p.market_value)

-- What the rules read, once the positions are sorted out.
features :
    Decimal
    → Decimal
    → List PositionRiskInput
    → List PositionRiskInput
    → List PositionRiskInput
    → Dict Value
features limit warn ps over near =
    ("_limit", Value.number limit)
    ∷ ("_warn_threshold", Value.number warn)
    ∷ ("_position_count", Value.int (pos (length ps)))
    ∷ ("_over_count", Value.int (pos (length over)))
    ∷ ("_approaching_count", Value.int (pos (length near)))
    ∷ ("_over_offenders", Value.text (offenders over))
    ∷ ("_approaching_offenders", Value.text (offenders near))
    ∷ ("_over_tickers", Value.texts (map (λ p. p.ticker) over))
    ∷ ("_over_values", Value.numbers (update [] (map value_entry over)))
    ∷ ("_approaching_tickers", Value.texts (map (λ p. p.ticker) near))
    ∷ ("_approaching_values", Value.numbers (update [] (map value_entry near)))
    ∷ []

-- `_derive`
derive : SkillContext → Result (Dict Value)
unfolding features
derive ctx = do
  limit ← need (num ctx "single_position_limit")
  ps ← positions_of (get ctx "positions")
  warn ← quantize 2 (times limit warn_ratio_of_limit)
  let over = keep (λ p. more p.market_value limit) ps
  let near = keep (λ p. less warn p.market_value && at_most p.market_value limit) ps
  ok (features limit warn ps over near)

unfoldable pub single_position_skill : SkillSpec
unfolding derive
single_position_skill = record {
  skill_id = "RISK.SINGLE_POSITION";
  version = "single-position-v1-2026-06-17";
  title = "Single position limit — per-name size ceiling";
  reads = "positions" ∷ "single_position_limit" ∷ [];
  derive = some derive;
  ladder =
      record {
        rule_id = "RISK.SINGLE_POSITION-002";
        when = λ ctx. ok (truthy (get ctx "_over_count"));
        status = const Status.failed;
        risk_level = const RiskLevel.orange;
        title = const "단일 종목 한도를 초과한 포지션이 있습니다.";
        message = call λ ctx. do
          limit ← need (num ctx "_limit")
          ok (
              show (get ctx "_over_offenders")
              +s " 포지션이 단일 종목 한도 "
              +s grouped limit
              +s " KRW를 초과합니다. 신규 추가보다 사이즈 점검이 우선되는 상태입니다.");
        evidence = some λ ctx. ok (
            ("limit", of_option Value.number (num ctx "_limit"))
            ∷ ("over_limit_tickers", get ctx "_over_tickers")
            ∷ ("over_limit_values", get ctx "_over_values")
            ∷ []);
        watch_next = "한도 초과 종목의 thesis / stop 기준 재확인" ∷ "신규 동일 테마 추가 진입 제한" ∷ [];
        label = const "";
      }
      ∷ record {
        rule_id = "RISK.SINGLE_POSITION-001";
        when = λ ctx. ok (truthy (get ctx "_approaching_count"));
        status = const Status.warn;
        risk_level = const RiskLevel.yellow;
        title = const "단일 종목 한도 근접 포지션이 있습니다.";
        message = call λ ctx. do
          limit ← need (num ctx "_limit")
          ok (
              show (get ctx "_approaching_offenders")
              +s " 포지션이 한도 "
              +s grouped limit
              +s " KRW의 90%를 넘어섰습니다. 추가 비중 확대 전에 사이즈를 점검하세요.");
        evidence = some λ ctx. ok (
            ("limit", of_option Value.number (num ctx "_limit"))
            ∷ ("warn_threshold", of_option Value.number (num ctx "_warn_threshold"))
            ∷ ("approaching_tickers", get ctx "_approaching_tickers")
            ∷ ("approaching_values", get ctx "_approaching_values")
            ∷ []);
        watch_next = "한도 근접 종목의 추가 진입 시 사이즈 재계산" ∷ [];
        label = const "";
      }
      ∷ [];
  fallback = record {
    rule_id = "RISK.SINGLE_POSITION-000";
    when = always;
    status = const Status.passed;
    risk_level = const RiskLevel.green;
    title = const "모든 포지션이 단일 종목 한도 이내입니다.";
    message = call λ ctx. do
      limit ← need (num ctx "_limit")
      ok ("현재 모든 포지션이 한도 " +s grouped limit +s " KRW 안에서 유지되고 있습니다.");
    evidence = some λ ctx. ok (
        ("limit", of_option Value.number (num ctx "_limit"))
        ∷ ("position_count", get ctx "_position_count")
        ∷ []);
    watch_next = [];
    label = const "";
  };
  safety = "descriptive-only";
}
