-- ===== src/Guards/Event.antt =====
-- finskillos/guards/event_risk_guard.py: exposure to the coming events.
use fin_skill_os.Prelude.{
  [], ◌∷◌, true, false, String, Option, none, some, Result, ok, if◌then◌else◌, is_empty,
}
use fin_skill_os.Prelude.Int.{pos, leb_ℤ}
use fin_skill_os.Decimal.Format.{◌+s◌, int_text, option_text, join}
use fin_skill_os.Guards.Base.{
  Status, RiskLevel, Value, EventRiskSummary, GuardInput, GuardResult, of_option,
  guard_event_placeholder,
}

abbrev deferred_result : GuardResult
deferred_result = record {
  guard_name = guard_event_placeholder;
  status = Status.info;
  risk_level = RiskLevel.green;
  title = "Catalyst Watch 이벤트 근거가 아직 없습니다.";
  message = "이벤트 노출도 평가는 Catalyst Watch의 예정 이벤트와 보유 종목 연결 근거가 있을 때 서술적 참고 지표로 표시됩니다.";
  evidence =
      ("events_table_connected", Value.flag false)
      ∷ ("event_exposure_status", Value.text "missing_catalyst_watch_evidence")
      ∷ [];
  watch_next = "Catalyst Watch 이벤트 시드 또는 refresh 이후 이벤트 노출도 재평가" ∷ [];
}

abbrev no_events_result : GuardResult
no_events_result = record {
  guard_name = guard_event_placeholder;
  status = Status.info;
  risk_level = RiskLevel.green;
  title = "추적 중인 예정 이벤트가 없습니다.";
  message = "Catalyst Watch에 등록된 다가오는 이벤트가 없어 이벤트 노출도는 현재 중립입니다. System Ops 이벤트 시드 이후 다시 평가됩니다.";
  evidence =
      ("events_table_connected", Value.flag true) ∷ ("upcoming_count", Value.int (pos 0)) ∷ [];
  watch_next = "Catalyst Watch에 다가오는 이벤트가 등록되면 노출도를 자동 갱신" ∷ [];
}

abbrev affected : EventRiskSummary → String
affected s = if is_empty s.affected_tickers then "—" else join ", " s.affected_tickers

abbrev connected_result : EventRiskSummary → GuardResult
connected_result s = record {
  guard_name = guard_event_placeholder;
  status = Status.info;
  risk_level = RiskLevel.green;
  title =
      "예정 이벤트 "
      +s int_text s.upcoming_count
      +s "건 모니터링 중 (최고 노출 "
      +s option_text s.highest_label
      +s ").";
  message =
      "Catalyst Watch 노출도는 보유 종목과 이벤트 연결을 바탕으로 한 서술적 참고 지표입니다. 가격 방향 예측이 아니라 점검이 필요한 노출 구간을 표시합니다.";
  evidence =
      ("events_table_connected", Value.flag true)
      ∷ ("upcoming_count", Value.int s.upcoming_count)
      ∷ ("holdings_relevant_count", Value.int s.holdings_relevant_count)
      ∷ ("highest_label", of_option Value.text s.highest_label)
      ∷ ("highest_score", of_option Value.number s.highest_score)
      ∷ ("nearest_days", of_option Value.int s.nearest_days)
      ∷ ("affected_tickers", Value.text (affected s))
      ∷ [];
  watch_next = "보유 종목과 연결된 고노출 이벤트의 일정/상태를 Catalyst Watch에서 확인" ∷ [];
}

abbrev of_summary : Option EventRiskSummary → GuardResult
of_summary none = deferred_result
of_summary (some s) =
    if s.connected
    then (if leb_ℤ s.upcoming_count (pos 0) then no_events_result else connected_result s)
    else deferred_result

unfoldable pub evaluate : GuardInput → Result GuardResult
evaluate g = ok (of_summary g.event_risk)
