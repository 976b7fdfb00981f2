-- ===== src/Skills/ConcentrationHhi.antt =====
-- finskillos/skills/library/concentration_hhi_skill.py. The live shape of a position always has a
-- ticker and a market value.
use fin_skill_os.Prelude.{
  Bool, true, false, List, [], ◌∷◌, String, Option, none, some, Result, ok, ◌>>=◌, if◌then◌else◌,
  length, str_eq,
}
use fin_skill_os.Prelude.Int.{pos}
use fin_skill_os.Decimal.{Decimal, decimal, at_most, less, more, plus, times, divide, quantize}
use fin_skill_os.Decimal.Format.{◌+s◌, fixed, plain}
use fin_skill_os.Dict.{Dict}
use fin_skill_os.Guards.Base.{Status, RiskLevel, Value, PositionRiskInput, of_option}
use fin_skill_os.Skills.Base.{
  SkillContext, get, num, positions_of, show, always, const, call, SkillSpec,
}

abbrev pub max_weight_limit : Decimal
max_weight_limit = decimal 5 1

abbrev pub hhi_limit : Decimal
hhi_limit = decimal 25 2

-- `str(pos.ticker or "?")`
abbrev name_of : String → String
name_of ticker = if str_eq ticker "" then "?" else ticker

unfoldable pub weights_of : Decimal → List PositionRiskInput → Result (List (String × Decimal))
weights_of total [] = ok []
weights_of total (p ∷ ps) =
    let rest = weights_of total ps in
    do
      weight ← divide p.market_value total
      weights ← rest
      ok ((name_of p.ticker, weight) ∷ weights)

-- `sum((w * w for _, w in weights), Decimal("0"))` goes on from the sum so far.
unfoldable pub sum_squares : Decimal → List (String × Decimal) → Decimal
sum_squares acc [] = acc
sum_squares acc ((t, w) ∷ ws) = sum_squares (plus acc (times w w)) ws

-- `max(weights, key=lambda item: item[1])`
unfoldable pub top_weight : String × Decimal → List (String × Decimal) → String × Decimal
top_weight best [] = best
top_weight best ((t, w) ∷ ws) = top_weight (if less best.1 w then (t, w) else best) ws

features : List (String × Decimal) → Result (Dict Value)
features [] = ok []
features (first ∷ rest) = do
  hhi ← quantize 4 (sum_squares (decimal 0 0) (first ∷ rest))
  let top = top_weight first rest
  ok (
      ("hhi", Value.number hhi)
      ∷ ("max_weight", Value.number top.1)
      ∷ ("top_ticker", Value.text top.0)
      ∷ ("position_count", Value.int (pos (length (first ∷ rest))))
      ∷ [])

derive_from : List PositionRiskInput → Option Decimal → Result (Dict Value)
unfolding features
derive_from [] total = ok []
derive_from (p ∷ ps) none = ok []
derive_from (p ∷ ps) (some total) =
    if at_most total (decimal 0 0)
    then ok []
    else do weights ← weights_of total (p ∷ ps); features weights

-- `_derive_concentration`
derive : SkillContext → Result (Dict Value)
unfolding derive_from
derive ctx = do ps ← positions_of (get ctx "positions"); derive_from ps (num ctx "total_value")

-- `_evidence`
hhi_evidence : SkillContext → Result (Dict Value)
hhi_evidence ctx = ok (
    ("hhi", of_option Value.number (num ctx "hhi"))
    ∷ ("max_weight", of_option Value.number (num ctx "max_weight"))
    ∷ ("top_ticker", get ctx "top_ticker")
    ∷ ("position_count", get ctx "position_count")
    ∷ [])

-- `_pct`
pct : SkillContext → String → String
pct ctx key = elim (num ctx key) [
  | none ↦ "N/A"
  | some value ↦ fixed 1 (times value (decimal 100 0)) +s "%"
]

-- `{ctx.num('hhi')}`
hhi_text : SkillContext → String
hhi_text ctx = elim (num ctx "hhi") [ none ↦ "None" | some hhi ↦ plain hhi ]

exceeds : String → Decimal → SkillContext → Result Bool
exceeds key bound ctx = elim (num ctx key) [ none ↦ ok false | some x ↦ ok (more x bound) ]

has : String → SkillContext → Result Bool
has key ctx = elim (num ctx key) [ none ↦ ok false | some _ ↦ ok true ]

unfoldable pub concentration_hhi_skill : SkillSpec
unfolding derive hhi_evidence pct hhi_text exceeds has
concentration_hhi_skill = record {
  skill_id = "RISK.CONCENTRATION_HHI";
  version = "concentration-hhi-v1-2026-06-17";
  title = "Concentration — Herfindahl index + max single-name weight";
  reads = "positions" ∷ "total_value" ∷ [];
  derive = some derive;
  ladder =
      record {
        rule_id = "RISK.CONCENTRATION_HHI-003";
        when = exceeds "max_weight" max_weight_limit;
        status = const Status.warn;
        risk_level = const RiskLevel.yellow;
        title = const "단일 종목 비중이 과반입니다.";
        message = call λ ctx. ok (
            show (get ctx "top_ticker")
            +s " 비중이 "
            +s pct ctx "max_weight"
            +s "로 포트폴리오의 절반을 넘습니다. 단일 종목 손실이 계좌 전체에 크게 전이될 수 있습니다.");
        evidence = some hhi_evidence;
        watch_next = "종목별 비중 상한 점검" ∷ "신규 종목 노출 확대 시 단일 종목 비중 제약 검토" ∷ [];
        label = const "";
      }
      ∷ record {
        rule_id = "RISK.CONCENTRATION_HHI-002";
        when = exceeds "hhi" hhi_limit;
        status = const Status.warn;
        risk_level = const RiskLevel.yellow;
        title = const "HHI 기준 집중도가 높습니다.";
        message = call λ ctx.
            ok ("Herfindahl 지수가 " +s hhi_text ctx +s "로 0.25를 초과해 소수 종목 집중도가 높습니다. 분산 정도를 점검하세요.");
        evidence = some hhi_evidence;
        watch_next = "종목별 비중 상한 점검" ∷ "신규 종목 노출 확대 시 단일 종목 비중 제약 검토" ∷ [];
        label = const "";
      }
      ∷ record {
        rule_id = "RISK.CONCENTRATION_HHI-001";
        when = has "hhi";
        status = const Status.passed;
        risk_level = const RiskLevel.green;
        title = const "종목 집중도가 분산 범위입니다.";
        message = call λ ctx. ok (
            "Herfindahl 지수 "
            +s hhi_text ctx
            +s ", 최대 종목 비중 "
            +s pct ctx "max_weight"
            +s "로 집중 리스크가 낮은 편입니다.");
        evidence = some hhi_evidence;
        watch_next = [];
        label = const "";
      }
      ∷ [];
  fallback = record {
    rule_id = "RISK.CONCENTRATION_HHI-000";
    when = always;
    status = const Status.info;
    risk_level = const RiskLevel.unknown;
    title = const "집중도를 계산할 포지션 / 총액 정보가 없습니다.";
    message = const "보유 포지션과 총 평가액이 기록되면 HHI 집중도가 자동으로 계산됩니다.";
    evidence = some λ ctx. ok (
        ("position_count", get ctx "position_count") ∷ ("total_value", get ctx "total_value") ∷ []);
    watch_next = [];
    label = const "";
  };
  safety = "descriptive-only";
}
