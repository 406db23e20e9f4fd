-- ===== src/Ingestion.antt =====
-- Ingestion of papers (backend/app/ingestion): chunking.
pub mod Chunks
mod Tests
