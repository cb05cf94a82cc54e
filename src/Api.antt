-- ===== src/Api.antt =====
-- llm_serve/api: what of the HTTP interface is pure.
pub mod Sse
pub mod ChatTemplate
pub mod Schemas
pub mod App
