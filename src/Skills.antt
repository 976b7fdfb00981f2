-- ===== src/Skills.antt =====
-- finskillos/skills: the guards again, as declarative rule ladders under one runner.
pub mod Base
pub mod Runner
pub mod CashRatio
pub mod RiskRegistry
pub mod Parity
pub mod Drawdown
pub mod Goal
pub mod Overheat
pub mod Regime
pub mod Event
pub mod SinglePosition
pub mod Concentration
pub mod ConcentrationHhi
