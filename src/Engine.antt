-- ===== src/Engine.antt =====
-- The engine core: llm_serve/engine.
pub mod Blocks
pub mod Prefix
pub mod Scheduler
pub mod Statistics
