-- ===== src/Retrieval/Indexer/Tests.antt =====
-- The indexer at a small library.
use research_mind_ai.Prelude.{
  ℕ, Text, codes, ◌≡◌, refl, sym, true, false, Option, none, some, List, [], ◌∷◌, map, length,
  length-map, arith, nat_eq, list_eq, contains, if◌then◌else◌, keep_if, All, ◌++◌,
}
use research_mind_ai.Prelude.Dict.{get, put}
use research_mind_ai.Prelude.Sort.{sort_by}
use research_mind_ai.Retrieval.Vectors.{upsert}
use mathlib.Core.Path.{subst}
use research_mind_ai.Retrieval.Scores.{nat_floats}
use research_mind_ai.Retrieval.Sparse.{empty_index, add, clear}
use research_mind_ai.Retrieval.Rerank.{Candidate}
use research_mind_ai.Retrieval.Service.{find_paper, Paper, Database, RetrievalFilters, retrieve}
use research_mind_ai.Retrieval.Service.Answer.{IsAnswer}
use research_mind_ai.Retrieval.Indexer.{DocumentChunk, Library, index_paper, select_chunks}
use research_mind_ai.Retrieval.Indexer.Entries.{record_owner, document_owner, ids}
use research_mind_ai.Retrieval.Indexer.Sync.{HasDimension}
use research_mind_ai.Retrieval.Indexer.Served.{
  Event, new_library, live, served, served-IsFaithful, stores_in_sync, indexed_retrieve_authorized,
}
use research_mind_ai.Retrieval.Indexer.Rebuild.{
  rebuild_sparse_index, rebuild-owner, owner_in, has_paper,
}
use research_mind_ai.Retrieval.Indexer.Complete.{Answers, dropped, index_paper-owner}

abbrev show : ℕ → Text
show n = n ∷ []

show_injective : (x y : ℕ) → show x ≡ show y → x ≡ y
show_injective x y e = cc

abbrev same : Text → Text
same t = t

-- A model with vectors of one dimension: the length of the text.
abbrev embed : List Text → Option (List (List ℕ))
embed ts = some (map (λ (t : Text). length t ∷ []) ts)

embed_size :
    (ts : List Text) → All (λ (v : List ℕ). length v ≡ 1) (map (λ (t : Text). length t ∷ []) ts)
embed_size [] = tt
embed_size (t ∷ ts) = (refl, embed_size ts)

embed-HasDimension : HasDimension {F = ℕ} show 1 same embed
embed-HasDimension ts vs e =
    let q : map (λ (t : Text). length t ∷ []) ts ≡ vs = some-inj e in
    subst (λ us. All (λ (v : List ℕ). length v ≡ 1) us) q (embed_size ts)
  where
    some-inj : {x y : List (List ℕ)} → some x ≡ some y → x ≡ y
    some-inj h = cc h

embed_answers : Answers {F = ℕ} show 1 same embed
embed_answers ts =
    (map (λ (t : Text). length t ∷ []) ts, refl, length-map (λ (t : Text). length t ∷ []) ts)

abbrev papers : List Paper
papers = record { id = 7; workspace_id = 1; title = none } ∷ []

abbrev chunk : ℕ → DocumentChunk
chunk n = record {
  id = n;
  paper_id = 7;
  chunk_index = n;
  content = codes "graph search";
  section_path = none;
  page_number = none;
  kind = codes "text";
  is_embedded = false;
}

-- The paper is indexed, its text is cut again, and it is indexed without reindexing.
abbrev events : List Event
events =
    Event.written papers (chunk 1 ∷ chunk 2 ∷ [])
    ∷ Event.indexed 1 7 false
    ∷ Event.written papers (chunk 3 ∷ [])
    ∷ Event.indexed 64 7 false
    ∷ []

-- The entry of a chunk that is no more is still there.
stale : record_owner (get 1 (live nat_floats show same embed events new_library).records) ≡ some 7
unfolding live get index_paper find_paper sort_by upsert put
stale = refl

stores_in_sync_example :
    record_owner (get 1 (live nat_floats show same embed events new_library).records)
    ≡ document_owner (get 1 (live nat_floats show same embed events new_library).bm25.documents)
stores_in_sync_example =
    stores_in_sync nat_floats show same embed 1 embed-HasDimension events 1
      (tt, (tt, (tt, (tt, tt))))

-- After a rebuild the stale entry is in the vector store alone.
rebuilt_differs :
    document_owner (
        get 1
          (live nat_floats show same embed
            (events ++ (Event.rebuilt ∷ []))
            new_library).bm25.documents)
      ∷ record_owner (
          get 1
            (live nat_floats show same embed (events ++ (Event.rebuilt ∷ [])) new_library).records)
      ∷ []
    ≡ none ∷ some 7 ∷ []
unfolding live get index_paper find_paper sort_by upsert put rebuild_sparse_index add clear
rebuilt_differs = refl

abbrev scorer : Text → List (Candidate ℕ) → List ℕ
scorer q cs = map (λ (c : Candidate ℕ). c.original_score) cs

abbrev library : Database
library = record {
  workspaces = record { id = 1; owner_id = 100 } ∷ record { id = 2; owner_id = 200 } ∷ [];
  papers = papers;
  chunks =
      record {
        id = 3;
        paper_id = 7;
        content = codes "graph search";
        section_path = none;
        page_number = none;
        kind = codes "text";
      }
      ∷ [];
}

abbrev everything : RetrievalFilters
everything = record { paper_ids = []; kinds = []; year_from = none; year_to = none; sections = [] }

scored : (q : Text) (cs : List (Candidate ℕ)) → length cs ≡ length (scorer q cs)
scored q cs = sym (length-map (λ (c : Candidate ℕ). c.original_score) cs)

indexed_retrieve_authorized_example :
    IsAnswer nat_floats
      (served nat_floats show same embed 1 embed-HasDimension 1 0 1000
        (λ a b. true)
        (λ q. 3 ∷ [])
        scorer
        (λ q. refl)
        scored
        show_injective
        events)
      (served-IsFaithful nat_floats show same embed 1 embed-HasDimension 1 0 1000
        (λ a b. true)
        (λ q. 3 ∷ [])
        scorer
        (λ q. refl)
        scored
        show_injective
        events)
      library
      100
      5
      (retrieve nat_floats
        (served nat_floats show same embed 1 embed-HasDimension 1 0 1000
          (λ a b. true)
          (λ q. 3 ∷ [])
          scorer
          (λ q. refl)
          scored
          show_injective
          events)
        library
        100
        (codes "graph")
        5
        everything
        true)
indexed_retrieve_authorized_example =
    indexed_retrieve_authorized nat_floats show same embed 1 embed-HasDimension 1 0 1000
      (λ a b. true) (λ q. 3 ∷ []) scorer (λ q. refl) scored show_injective events library 100
      (codes "graph") 5 everything true (omega arith)

abbrev start : Library ℕ
start = record {
  papers = papers;
  chunks = chunk 1 ∷ chunk 2 ∷ [];
  records = [];
  bm25 = empty_index;
}

index_paper-owner_example :
    ((index_paper show same embed 1 7 false start).1 ≡ some 2)
    × ((k : ℕ)
        → record_owner (get k (index_paper show same embed 1 7 false start).0.records) ≡ (
            if contains k (ids (chunk 1 ∷ chunk 2 ∷ []))
            then some 7
            else dropped false 7 (record_owner (get k start.records))))
unfolding select_chunks get find_paper sort_by
index_paper-owner_example =
    index_paper-owner show 1 same embed embed-HasDimension embed_answers 1 7 false
      (record { id = 7; workspace_id = 1; title = none }) (chunk 1) (chunk 2 ∷ []) start
      (omega arith) tt refl refl

rebuild-owner_example :
    ((k : ℕ)
      → document_owner (get k (rebuild_sparse_index show same start).0.bm25.documents)
        ≡ owner_in k papers (chunk 1 ∷ chunk 2 ∷ []))
    × ((rebuild_sparse_index show same start).0.records ≡ [])
    × ((rebuild_sparse_index show same start).0.papers ≡ papers)
    × ((rebuild_sparse_index show same start).0.chunks ≡ chunk 1 ∷ chunk 2 ∷ [])
    × ((rebuild_sparse_index show same start).1
        ≡ length (keep_if (has_paper papers) (chunk 1 ∷ chunk 2 ∷ [])))
rebuild-owner_example = rebuild-owner show same start (((λ e. omega (arith, e)), tt), (tt, tt))
