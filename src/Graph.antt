-- ===== src/Graph.antt =====
-- The knowledge graph of papers (backend/app/graph): the in-memory store.
pub mod Store
pub mod Schema
pub mod Saved
pub mod Search
pub mod Expand
mod Tests
