-- ===== src/Simulation.antt =====
-- finskillos/simulation/: conditions, the parser of authored strategies, the replay of a strategy
-- over daily bars, its walk-forward run, and the synthesis of a portfolio.
pub mod Floats
pub mod Conditions
pub mod Parser
pub mod Features
pub mod Metrics
pub mod State
pub mod Engine
pub mod WalkForward
pub mod Portfolio
