-- ===== src/Tests.antt =====
-- Runs of the definitions on concrete inputs, and the theorems at concrete data.
mod Ladder
mod Alerts
mod Parity
mod Guards
mod Texts
mod Engines
mod Simulation
mod Trades
mod Jobs
mod Portfolio
