-- ===== src/Retrieval/Hits.antt =====
-- A search result: `SparseHit` of backend/app/retrieval/sparse.py and `SearchHit` of
-- backend/app/retrieval/vector_store.py, over the type of scores.
use research_mind_ai.Prelude.{ℕ}
use research_mind_ai.Retrieval.Filters.{Metadata}

pub record Hit (F : Type 0) : Type 0 where
  pub chunk_id : ℕ
  pub paper_id : ℕ
  pub score : F
  pub metadata : Metadata
