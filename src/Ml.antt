-- ===== src/Ml.antt =====
-- aegis/ml: the models that the pipeline asks.
pub mod RiskScorer
