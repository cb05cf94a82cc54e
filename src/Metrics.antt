-- ===== src/Metrics.antt =====
-- llm_serve/metrics: the collectors and their text format.
pub mod Registry
pub mod Math
pub mod Serving
