-- ===== src/Guards/SinglePosition.antt =====
-- finskillos/guards/single_position_guard.py: the limit on one position.
use fin_skill_os.Prelude.{
  ◌&&◌, List, [], ◌∷◌, map, String, Result, ok, ◌>>=◌, if◌then◌else◌, keep, is_empty, length,
}
use fin_skill_os.Prelude.Int.{pos}
use fin_skill_os.Decimal.{Decimal, decimal, at_most, less, more, times, quantize}
use fin_skill_os.Decimal.Format.{◌+s◌, grouped, join}
use fin_skill_os.Dict.{Dict, update}
use fin_skill_os.Guards.Base.{
  Status, RiskLevel, Value, PositionRiskInput, GuardInput, GuardResult, guard_single_position,
}

abbrev pub warn_ratio_of_limit : Decimal
warn_ratio_of_limit = decimal 9 1

abbrev pub over_limit : Decimal → List PositionRiskInput → List PositionRiskInput
over_limit limit = keep λ p. more p.market_value limit

abbrev pub approaching : Decimal → Decimal → List PositionRiskInput → List PositionRiskInput
approaching warn limit = keep λ p. less warn p.market_value && at_most p.market_value limit

abbrev offender : PositionRiskInput → String
offender p = p.ticker +s "(" +s grouped p.market_value +s " KRW)"

abbrev offenders : List PositionRiskInput → String
offenders ps = join ", " (map offender ps)

abbrev value_entry : PositionRiskInput → String × Decimal
value_entry p = (p.ticker, p.market_value)

abbrev tickers_of : List PositionRiskInput → List String
tickers_of ps = map (λ p. p.ticker) ps

-- `{p.ticker: p.market_value for p in ps}`
abbrev values_of : List PositionRiskInput → Dict Decimal
values_of ps = update [] (map value_entry ps)

abbrev over_result : Decimal → List PositionRiskInput → GuardResult
over_result limit over = record {
  guard_name = guard_single_position;
  status = Status.failed;
  risk_level = RiskLevel.orange;
  title = "단일 종목 한도를 초과한 포지션이 있습니다.";
  message =
      offenders over
      +s " 포지션이 단일 종목 한도 "
      +s grouped limit
      +s " KRW를 초과합니다. 신규 추가보다 사이즈 점검이 우선되는 상태입니다.";
  evidence =
      ("limit", Value.number limit)
      ∷ ("over_limit_tickers", Value.texts (tickers_of over))
      ∷ ("over_limit_values", Value.numbers (values_of over))
      ∷ [];
  watch_next = "한도 초과 종목의 thesis / stop 기준 재확인" ∷ "신규 동일 테마 추가 진입 제한" ∷ [];
}

abbrev approaching_result : Decimal → Decimal → List PositionRiskInput → GuardResult
approaching_result limit warn near = record {
  guard_name = guard_single_position;
  status = Status.warn;
  risk_level = RiskLevel.yellow;
  title = "단일 종목 한도 근접 포지션이 있습니다.";
  message =
      offenders near
      +s " 포지션이 한도 "
      +s grouped limit
      +s " KRW의 90%를 넘어섰습니다. 추가 비중 확대 전에 사이즈를 점검하세요.";
  evidence =
      ("limit", Value.number limit)
      ∷ ("warn_threshold", Value.number warn)
      ∷ ("approaching_tickers", Value.texts (tickers_of near))
      ∷ ("approaching_values", Value.numbers (values_of near))
      ∷ [];
  watch_next = "한도 근접 종목의 추가 진입 시 사이즈 재계산" ∷ [];
}

abbrev within_result : Decimal → List PositionRiskInput → GuardResult
within_result limit ps = record {
  guard_name = guard_single_position;
  status = Status.passed;
  risk_level = RiskLevel.green;
  title = "모든 포지션이 단일 종목 한도 이내입니다.";
  message = "현재 모든 포지션이 한도 " +s grouped limit +s " KRW 안에서 유지되고 있습니다.";
  evidence = ("limit", Value.number limit) ∷ ("position_count", Value.int (pos (length ps))) ∷ [];
  watch_next = [];
}

abbrev pub judge : Decimal → Decimal → List PositionRiskInput → GuardResult
judge limit warn ps =
    let over = over_limit limit ps in
    let near = approaching warn limit ps in
    if is_empty over
    then (if is_empty near then within_result limit ps else approaching_result limit warn near)
    else over_result limit over

unfoldable pub evaluate : GuardInput → Result GuardResult
evaluate g = do
  let limit = g.single_position_limit
  warn ← quantize 2 (times limit warn_ratio_of_limit)
  ok (judge limit warn g.positions)
