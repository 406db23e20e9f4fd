-- ===== src/Retrieval/Indexer.antt =====
-- The indexer: backend/app/retrieval/indexer.py. The embedding model is a parameter: `none` is an
-- exception, which leaves what earlier batches have done.
pub mod Entries
pub mod Sync
pub mod Rebuild
pub mod Served
pub mod Complete
mod Tests
use research_mind_ai.Prelude.{
  ℕ, zero, suc, ◌+◌, ◌-◌, Text, codes, Bool, true, false, not, ◌&&◌, ◌||◌, Option, none, some, List,
  [], ◌∷◌, map, take, drop, length, keep_if, contains, leb, ◌==◌, nat_eq, list_eq, if◌then◌else◌,
}
use research_mind_ai.Prelude.Dict.{put}
use research_mind_ai.Prelude.Sort.{sort_by}
use research_mind_ai.Retrieval.Filters.{Metadata, num, text}
use research_mind_ai.Retrieval.Sparse.{Index, add, remove_paper}
use research_mind_ai.Retrieval.Vectors.{VectorRecord, Records, upsert, delete_by_paper}
use research_mind_ai.Retrieval.Service.{Paper, find_paper, paper_key, is_empty}

pub record DocumentChunk : Type 0 where
  pub id : ℕ
  pub paper_id : ℕ
  pub chunk_index : ℕ
  pub content : Text
  pub section_path : Option Text
  pub page_number : Option ℕ
  pub kind : Text
  pub is_embedded : Bool

-- The rows of the database that the indexer reads and writes, and the two stores.
pub record Library (F : Type 0) : Type 0 where
  pub papers : List Paper
  pub chunks : List DocumentChunk
  pub records : Records F
  pub bm25 : Index

-- _batched, for a positive size; a batch takes an item, so the number of items is fuel enough.
unfoldable pub batches_of : {A : Type 0} → ℕ → ℕ → List A → List (List A)
batches_of zero size items = []
batches_of (suc fuel) size [] = []
batches_of (suc fuel) size (x ∷ xs) = take size (x ∷ xs) ∷ batches_of fuel size (drop size (x ∷ xs))

abbrev pub batched : {A : Type 0} → ℕ → List A → List (List A)
batched size items = batches_of (length items) size items

-- The query for the chunks to embed.
unfoldable pub select_chunks : ℕ → Bool → List DocumentChunk → List DocumentChunk
select_chunks paper_id reindex chunks =
    sort_by (λ (a : DocumentChunk) (b : DocumentChunk). leb a.chunk_index b.chunk_index)
      (keep_if (λ (c : DocumentChunk). c.paper_id == paper_id && (reindex || not c.is_embedded))
        chunks)

abbrev pub or_text : Option Text → Text
or_text none = []
or_text (some t) = t

abbrev pub or_zero : Option ℕ → ℕ
or_zero none = 0
or_zero (some n) = n

-- `show` is str.
module _ (show : ℕ → Text) where
  unfoldable pub sparse_metadata : Paper → DocumentChunk → Metadata
  sparse_metadata paper chunk =
      (codes "chunk_id", text (show chunk.id))
      ∷ (paper_key, text (show paper.id))
      ∷ (codes "workspace_id", text (show paper.workspace_id))
      ∷ (codes "kind", text chunk.kind)
      ∷ (codes "section_path", text (or_text chunk.section_path))
      ∷ []

  unfoldable pub dense_metadata : Paper → DocumentChunk → Metadata
  dense_metadata paper chunk =
      (codes "chunk_id", text (show chunk.id))
      ∷ (paper_key, text (show paper.id))
      ∷ (codes "workspace_id", text (show paper.workspace_id))
      ∷ (codes "kind", text chunk.kind)
      ∷ (codes "section_path", text (or_text chunk.section_path))
      ∷ (codes "page_number", num (or_zero chunk.page_number))
      ∷ []

  module _ {F : Type 0} where
    abbrev pub make_record : Paper → DocumentChunk → List F → VectorRecord F
    make_record paper chunk vector = record {
      chunk_id = chunk.id;
      paper_id = paper.id;
      workspace_id = paper.workspace_id;
      vector = vector;
      metadata = dense_metadata paper chunk;
    }

    -- zip(batch, vectors, strict=True)
    unfoldable pub make_records :
        Paper → List DocumentChunk → List (List F) → Option (List (VectorRecord F))
    unfolding dense_metadata
    make_records paper [] [] = some []
    make_records paper [] (v ∷ vs) = none
    make_records paper (c ∷ cs) [] = none
    make_records paper (c ∷ cs) (v ∷ vs) = elim (make_records paper cs vs) [
      | none ↦ none
      | some rs ↦ some (make_record paper c v ∷ rs)
    ]

  -- bm25.add for each chunk of a batch; `lower` is str.lower.
  unfoldable pub add_chunks : (Text → Text) → Paper → List DocumentChunk → Index → Index
  unfolding sparse_metadata
  add_chunks lower paper [] idx = idx
  add_chunks lower paper (c ∷ cs) idx =
      add_chunks lower paper cs (add lower c.id paper.id c.content (sparse_metadata paper c) idx)

  abbrev pub mark : List ℕ → DocumentChunk → DocumentChunk
  mark ids c = record c { is_embedded = contains c.id ids || c.is_embedded }

  module _ {F : Type 0} (lower : Text → Text) (embed : List Text → Option (List (List F))) where
    abbrev pub store_batch :
        Paper → List DocumentChunk → List (VectorRecord F) → Library F → Library F
    store_batch paper batch records s = record s {
      chunks = map (mark (map (λ (c : DocumentChunk). c.id) batch)) s.chunks;
      records = upsert records s.records;
      bm25 = add_chunks lower paper batch s.bm25;
    }

    -- The records of a batch, if neither the model nor `zip` raises.
    abbrev pub embed_batch : Paper → List DocumentChunk → Option (List (VectorRecord F))
    embed_batch paper batch = elim (embed (map (λ (c : DocumentChunk). c.content) batch)) [
      | none ↦ none
      | some vectors ↦ make_records paper batch vectors
    ]

    -- The loop over the batches: the state, and the count unless a batch raises.
    unfoldable pub index_batches :
        Paper → List (List DocumentChunk) → ℕ → Library F → Library F × Option ℕ
    unfolding make_records add_chunks
    index_batches paper [] indexed s = (s, some indexed)
    index_batches paper (batch ∷ batches) indexed s = elim (embed_batch paper batch) [
      | none ↦ (s, none)
      | some records ↦
          index_batches paper batches (indexed + length batch) (store_batch paper batch records s)
    ]

    abbrev pub forget_paper : ℕ → Library F → Library F
    forget_paper paper_id s = record s {
      records = (delete_by_paper paper_id s.records).0;
      bm25 = (remove_paper paper_id s.bm25).0;
    }

    -- What `index_paper` does once it has the paper and its chunks.
    abbrev pub index_chunks :
        ℕ → ℕ → Bool → Paper → List DocumentChunk → Library F → Library F × Option ℕ
    index_chunks size paper_id reindex paper [] s = (s, some 0)
    index_chunks size paper_id reindex paper (c ∷ cs) s =
        index_batches paper (batched size (c ∷ cs)) 0
          (if reindex then forget_paper paper_id s else s)

    unfoldable pub index_paper : ℕ → ℕ → Bool → Library F → Library F × Option ℕ
    unfolding index_batches select_chunks batches_of
    index_paper size paper_id reindex s = elim (find_paper paper_id s.papers) [
      | none ↦ (s, some 0)
      | some paper ↦
          index_chunks size paper_id reindex paper (select_chunks paper_id reindex s.chunks) s
    ]

    -- remove_paper_from_index
    unfoldable pub remove_from_index : ℕ → Library F → Library F × ℕ
    remove_from_index paper_id s = (forget_paper paper_id s, (delete_by_paper paper_id s.records).1)
