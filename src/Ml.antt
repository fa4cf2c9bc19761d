-- ===== src/Ml.antt =====
-- app/ml: the history of toner levels, and what keeps the tables of the forecast small.
pub mod Retention
pub mod Pruning
