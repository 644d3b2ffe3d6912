-- ===== src/Api/Metrics.antt =====
-- metrics/figures.py: the figures of a run.
pub mod Figures
pub mod Settlement
pub mod Failure
pub mod Costs
