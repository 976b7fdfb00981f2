-- ===== src/Guards.antt =====
-- finskillos/guards: the guard ladder of the Risk Firewall.
pub mod Base
pub mod CashRatio
pub mod Drawdown
pub mod Goal
pub mod Overheat
pub mod Regime
pub mod Event
pub mod SinglePosition
pub mod Concentration
pub mod Sectors
pub mod Bands
