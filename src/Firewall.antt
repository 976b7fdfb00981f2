-- ===== src/Firewall.antt =====
-- finskillos/services/risk_guard_service.py: the ladder of nine skills, the report and the alerts
-- that it leaves behind.
pub mod Ladder
pub mod Equivalence
pub mod Report
pub mod Alerts
