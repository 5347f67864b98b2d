-- ===== src/Evaluation.antt =====
-- cad2ml/evaluation: how predictions are counted.
pub mod Metrics
