-- ===== src/Retrieval.antt =====
-- Retrieval (backend/app/retrieval): filters and scores, the BM25 index and rank fusion.
pub mod Scores
pub mod Filters
pub mod Hits
pub mod Sparse
pub mod Fusion
pub mod Vectors
pub mod Rerank
pub mod Sentences
pub mod Service
pub mod Indexer
mod Tests
