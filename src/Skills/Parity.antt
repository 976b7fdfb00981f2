-- ===== src/Skills/Parity.antt =====
-- The declarative skills against the guards that they replace.
pub mod CashRatio
pub mod SinglePosition
pub mod Concentration
pub mod Drawdown
pub mod Goal
pub mod Regime
pub mod Overheat
pub mod Event
pub mod Floor
