-- ===== src/Skills/Event.antt =====
-- finskillos/skills/library/event_risk_skill.py
use fin_skill_os.Prelude.{
  [], ◌∷◌, Bool, true, false, ◌&&◌, String, none, some, Result, ok, err, attribute_error, ◌>>=◌,
  if◌then◌else◌, is_empty,
}
use fin_skill_os.Prelude.Int.{pos, ltb_ℤ}
use fin_skill_os.Decimal.Format.{◌+s◌, int_text, option_text, join}
use fin_skill_os.Dict.{Dict}
use fin_skill_os.Guards.Base.{Status, RiskLevel, Value, EventRiskSummary, of_option}
use fin_skill_os.Skills.Base.{SkillContext, get, always, const, call, SkillSpec}

-- The attributes of `_summary(ctx)`; an object without them is an AttributeError.
abbrev summary : Value → Result EventRiskSummary
summary (Value.events s) = ok s
summary _ = err attribute_error

-- `_summary(ctx) is not None and test`
abbrev when_there : (EventRiskSummary → Bool) → Value → Result Bool
when_there test Value.null = ok false
when_there test (Value.events s) = ok (test s)
when_there test _ = err attribute_error

abbrev affected : EventRiskSummary → String
affected s = if is_empty s.affected_tickers then "—" else join ", " s.affected_tickers

connected_title : SkillContext → Result String
connected_title ctx = do
  s ← summary (get ctx "event_risk")
  ok (
      "예정 이벤트 "
      +s int_text s.upcoming_count
      +s "건 모니터링 중 (최고 노출 "
      +s option_text s.highest_label
      +s ").")

connected_evidence : SkillContext → Result (Dict Value)
connected_evidence ctx = do
  s ← summary (get ctx "event_risk")
  ok (
      ("events_table_connected", Value.flag true)
      ∷ ("upcoming_count", Value.int s.upcoming_count)
      ∷ ("holdings_relevant_count", Value.int s.holdings_relevant_count)
      ∷ ("highest_label", of_option Value.text s.highest_label)
      ∷ ("highest_score", of_option Value.number s.highest_score)
      ∷ ("nearest_days", of_option Value.int s.nearest_days)
      ∷ ("affected_tickers", Value.text (affected s))
      ∷ [])

unfoldable pub event_risk_skill : SkillSpec
unfolding connected_title connected_evidence
event_risk_skill = record {
  skill_id = "RISK.EVENT_RISK";
  version = "event-risk-v1-2026-06-17";
  title = "Event risk — descriptive Catalyst Watch exposure";
  reads = "event_risk" ∷ [];
  derive = none;
  ladder =
      record {
        rule_id = "RISK.EVENT_RISK-002";
        when = λ ctx.
            when_there (λ s. s.connected && ltb_ℤ (pos 0) s.upcoming_count) (get ctx "event_risk");
        status = const Status.info;
        risk_level = const RiskLevel.green;
        title = call connected_title;
        message =
            const
              "Catalyst Watch 노출도는 보유 종목과 이벤트 연결을 바탕으로 한 서술적 참고 지표입니다. 가격 방향 예측이 아니라 점검이 필요한 노출 구간을 표시합니다.";
        evidence = some connected_evidence;
        watch_next = "보유 종목과 연결된 고노출 이벤트의 일정/상태를 Catalyst Watch에서 확인" ∷ [];
        label = const "";
      }
      ∷ record {
        rule_id = "RISK.EVENT_RISK-001";
        when = λ ctx. when_there (λ s. s.connected) (get ctx "event_risk");
        status = const Status.info;
        risk_level = const RiskLevel.green;
        title = const "추적 중인 예정 이벤트가 없습니다.";
        message =
            const
              "Catalyst Watch에 등록된 다가오는 이벤트가 없어 이벤트 노출도는 현재 중립입니다. System Ops 이벤트 시드 이후 다시 평가됩니다.";
        evidence = some λ ctx. ok (
            ("events_table_connected", Value.flag true)
            ∷ ("upcoming_count", Value.int (pos 0))
            ∷ []);
        watch_next = "Catalyst Watch에 다가오는 이벤트가 등록되면 노출도를 자동 갱신" ∷ [];
        label = const "";
      }
      ∷ [];
  fallback = record {
    rule_id = "RISK.EVENT_RISK-000";
    when = always;
    status = const Status.info;
    risk_level = const RiskLevel.green;
    title = const "Catalyst Watch 이벤트 근거가 아직 없습니다.";
    message = const "이벤트 노출도 평가는 Catalyst Watch의 예정 이벤트와 보유 종목 연결 근거가 있을 때 서술적 참고 지표로 표시됩니다.";
    evidence = some λ ctx. ok (
        ("events_table_connected", Value.flag false)
        ∷ ("event_exposure_status", Value.text "missing_catalyst_watch_evidence")
        ∷ []);
    watch_next = "Catalyst Watch 이벤트 시드 또는 refresh 이후 이벤트 노출도 재평가" ∷ [];
    label = const "";
  };
  safety = "descriptive-only";
}
