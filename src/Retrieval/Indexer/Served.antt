-- ===== src/Retrieval/Indexer/Served.antt =====
-- Retrieval (backend/app/retrieval/service.py) over what the indexer (indexer.py) has written.
use research_mind_ai.Prelude.{
  ℕ, ◌≤◌, Text, ◌≡◌, refl, Bool, Option, List, [], ◌∷◌, length, All, In→All, nat_eq, list_eq,
}
use research_mind_ai.Prelude.Dict.{get, get_of_In, In→AllValues}
use research_mind_ai.Retrieval.Scores.{Floats}
use research_mind_ai.Retrieval.Sparse.{empty_index, clear}
use research_mind_ai.Retrieval.Sparse.Valid.{empty-IsValid}
use research_mind_ai.Retrieval.Rerank.{Candidate}
use research_mind_ai.Retrieval.Service.{Paper, Database, RetrievalFilters, Backends, retrieve}
use research_mind_ai.Retrieval.Service.Access.{IsFaithful}
use research_mind_ai.Retrieval.Service.Answer.{IsAnswer, retrieve_authorized}
use research_mind_ai.Retrieval.Service.Stores.{
  local_backends, local_backends-IsFaithful, NamesPaper, RecordFits,
}
use research_mind_ai.Retrieval.Indexer.{DocumentChunk, Library, index_paper, remove_from_index}
use research_mind_ai.Retrieval.Indexer.Rebuild.{
  joined_rows, rebuild_sparse_index, rebuild_from-IsValid, rebuild_from-AllDocsNamed,
}
use research_mind_ai.Retrieval.Indexer.Entries.{record_owner, document_owner}
use research_mind_ai.Retrieval.Indexer.Sync.{
  IsIndexed, HasDimension, index_paper-IsIndexed, forget-IsIndexed,
}

-- What happens to a library: the indexer is run on a paper, with a batch size, a paper is taken out
-- of the stores, or the BM25 index is built again from the tables; in between the rest of the
-- program writes the tables.
pub data Event : Type 0 where
  indexed : ℕ → ℕ → Bool → Event
  removed : ℕ → Event
  rebuilt : Event
  written : List Paper → List DocumentChunk → Event

-- Any event but a rebuild.
abbrev pub IsNoRebuild : Event → Type 0
IsNoRebuild rebuilt = ⊥
IsNoRebuild _ = Unit

abbrev pub new_library : {F : Type 0} → Library F
new_library = record { papers = []; chunks = []; records = []; bm25 = empty_index }

module _ (fl : Floats) (show : ℕ → Text) (lower : Text → Text)
    (embed : List Text → Option (List (List fl.F))) where
  open fl use {F}

  unfoldable pub live : List Event → Library F → Library F
  live [] s = s
  live (indexed size p reindex ∷ es) s = live es (index_paper show lower embed size p reindex s).0
  live (removed p ∷ es) s = live es (remove_from_index show lower embed p s).0
  live (rebuilt ∷ es) s = live es (rebuild_sparse_index show lower s).0
  live (written papers chunks ∷ es) s = live es (record s { papers = papers; chunks = chunks })

  new-IsIndexed :
      (Synced : Type 0) (dimension : ℕ) → IsIndexed {F = F} show dimension Synced new_library
  unfolding get
  new-IsIndexed Synced dimension = record {
    valid = empty-IsValid;
    distinct = tt;
    documents_named = λ k d h. absurd (cc h);
    records_named = λ k r h. absurd (cc h);
    in_sync = λ y k. refl;
  }

  module _ (dimension : ℕ) (right_size : HasDimension {F = F} show dimension lower embed) where
    live-IsIndexed :
        (Synced : Type 0) (es : List Event) (s : Library F)
        → (Synced → All IsNoRebuild es)
        → IsIndexed show dimension Synced s
        → IsIndexed show dimension Synced (live es s)
    unfolding live remove_from_index rebuild_sparse_index clear
    live-IsIndexed Synced [] s kept v = v
    live-IsIndexed Synced (indexed size p reindex ∷ es) s kept v =
        live-IsIndexed Synced es (index_paper show lower embed size p reindex s).0 (λ y. (kept y).1)
          (index_paper-IsIndexed show dimension lower embed right_size size p reindex s v)
    live-IsIndexed Synced (removed p ∷ es) s kept v =
        live-IsIndexed Synced es (remove_from_index show lower embed p s).0 (λ y. (kept y).1)
          (forget-IsIndexed show dimension lower embed p s v)
    live-IsIndexed Synced (rebuilt ∷ es) s kept v =
        let rows = joined_rows s.papers s.chunks in
        live-IsIndexed Synced es (rebuild_sparse_index show lower s).0 (λ y. (kept y).1)
          (record {
            valid = rebuild_from-IsValid show lower rows empty_index empty-IsValid;
            distinct = v.distinct;
            documents_named =
                rebuild_from-AllDocsNamed show lower rows empty_index empty-IsValid
                  (λ k d h. absurd (unfold get in cc h));
            records_named = v.records_named;
            in_sync = λ y k. absurd (kept y).0;
          })
    live-IsIndexed Synced (written papers chunks ∷ es) s kept v =
        live-IsIndexed Synced es (record s { papers = papers; chunks = chunks }) (λ y. (kept y).1)
          (record {
            valid = v.valid;
            distinct = v.distinct;
            documents_named = v.documents_named;
            records_named = v.records_named;
            in_sync = v.in_sync;
          })

    -- Where the model's vectors have one dimension: whatever the indexer did to a new library, with
    -- any writes to the tables in between but no rebuild of the BM25 index, a chunk has an entry for
    -- a paper in the vector store exactly if it has one in the BM25 index, also after a run of the
    -- indexer that raised half way.
    pub stores_in_sync :
        (es : List Event) (k : ℕ)
        → All IsNoRebuild es
        → record_owner (get k (live es new_library).records)
          ≡ document_owner (get k (live es new_library).bm25.documents)
    stores_in_sync es k kept =
        (live-IsIndexed Unit es new_library (λ y. kept) (new-IsIndexed Unit dimension)).in_sync tt k

  module _ (dimension : ℕ) (right_size : HasDimension {F = F} show dimension lower embed)
      (k1 b weight : F) (ilike : Text → Text → Bool) (embed_query : Text → List F)
      (scorer : Text → List (Candidate F) → List F)
      (same_size : (q : Text) → length (embed_query q) ≡ dimension)
      (scored : (q : Text) (cs : List (Candidate F)) → length cs ≡ length (scorer q cs))
      (show_injective : (x y : ℕ) → show x ≡ show y → x ≡ y) where
    -- The retrievers over a library, after the events.
    abbrev pub served : List Event → Backends F
    served es =
        let s = live es new_library in
        local_backends fl k1 b weight show lower ilike embed_query scorer s.records s.bm25

    pub served-IsFaithful : (es : List Event) → IsFaithful (served es)
    served-IsFaithful es =
        let s = live es new_library in
        let v =
          live-IsIndexed dimension right_size ⊥ es new_library (λ y. absurd y)
            (new-IsIndexed ⊥ dimension) in
        local_backends-IsFaithful fl k1 b weight show lower ilike embed_query scorer s.records
          s.bm25 dimension same_size
          (In→All (RecordFits fl show dimension) s.records
            (λ e i. v.records_named e.0 e.1 (get_of_In e.0 e.1 s.records v.distinct i)))
          v.valid
          (In→AllValues (NamesPaper fl show) s.bm25.documents
            (λ k d i. v.documents_named k d (get_of_In k d s.bm25.documents v.valid.distinct i)))
          scored show_injective

    -- Whatever the indexer and rebuilds of the BM25 index did before, retrieval with a positive limit over its two stores returns,
    -- at most limit chunks, and every one is of a paper in a workspace that the user owns; where
    -- the vectors of the model have one dimension, the scorer scores each candidate and printing an
    -- id loses nothing.
    pub indexed_retrieve_authorized :
        (es : List Event) (db : Database) (user : ℕ) (query : Text) (limit : ℕ)
        (filters : RetrievalFilters) (use_reranker : Bool)
        → 1 ≤ limit
        → IsAnswer fl
            (served es)
            (served-IsFaithful es)
            db
            user
            limit
            (retrieve fl (served es) db user query limit filters use_reranker)
    indexed_retrieve_authorized es db user query limit filters use_reranker pos =
        retrieve_authorized fl (served es) (served-IsFaithful es) db user query limit filters
          use_reranker pos
