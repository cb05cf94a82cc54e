-- ===== src/Backends.antt =====
-- llm_serve/backends: the registry of the backends, and the one that runs in the process.
pub mod Base
pub mod Mock
