-- ===== src/Llm.antt =====
-- internal/llm: what is sent to a model and what comes back.
pub mod Request
pub mod History
pub mod Discovery
pub mod Client
pub mod Schema
