-- ===== src/Regime.antt =====
-- finskillos/regime/: the classification of the market regime. The narrative texts are left out.
pub mod Rules
pub mod Scores
pub mod Classify
pub mod Bounds
pub mod Confidence
pub mod Priority
