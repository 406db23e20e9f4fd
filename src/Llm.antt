-- ===== src/Llm.antt =====
-- Language models (backend/app/llm): packing the context, calling providers, reading citations.
pub mod Context
pub mod Gateway
pub mod Citations
pub mod Json
pub mod Rag
mod Tests
