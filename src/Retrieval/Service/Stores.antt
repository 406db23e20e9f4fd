-- ===== src/Retrieval/Service/Stores.antt =====
-- The BM25 index and the in-memory vector store as the two retrievers of the pipeline
-- (backend/app/retrieval/service.py with sparse.py and vector_store.py).
use research_mind_ai.Prelude.{
  ℕ, Text, ◌≡◌, refl, sym, Bool, some, List, length, All, In→All, All→In, nat_eq, list_eq,
}
use research_mind_ai.Prelude.Dict.{AllValues, get-AllValues}
use mathlib.Core.Path.{subst}
use research_mind_ai.Retrieval.Rerank.{Candidate}
use research_mind_ai.Retrieval.Scores.{Floats}
use research_mind_ai.Retrieval.Filters.{Filters, text, lookup_value}
use research_mind_ai.Retrieval.Hits.{Hit}
use research_mind_ai.Retrieval.Sparse.{Document, Index, tokenize}
use research_mind_ai.Retrieval.Sparse.Valid.{IsValid}
use research_mind_ai.Retrieval.Sparse.Search.{search}
use research_mind_ai.Retrieval.Sparse.Results.{IsResult, search_sound}
use research_mind_ai.Retrieval.Vectors.{VectorRecord, Records, vector_search}
use research_mind_ai.Retrieval.Vectors.Laws.{Carries, vector_search_holds}
use research_mind_ai.Retrieval.Service.{paper_key, Backends}
use research_mind_ai.Retrieval.Service.Access.{IsLabelled, IsFaithful}

module _ (fl : Floats) (show : ℕ → Text) where
  open fl use {F}

  -- The metadata names the paper, as the indexer writes it.
  abbrev pub NamesPaper : Document → Type 0
  NamesPaper doc = lookup_value paper_key doc.metadata ≡ text (show doc.paper_id)

  abbrev pub RecordFits : ℕ → ℕ × VectorRecord F → Type 0
  RecordFits dimension e =
      (length e.1.vector ≡ dimension)
      × (lookup_value paper_key e.1.metadata ≡ text (show e.1.paper_id))

  module _ (k1 b : F) (lower : Text → Text) (idx : Index) where
    result-IsLabelled :
        (terms : List Text) (filters : Filters) (h : Hit F)
        → AllValues NamesPaper idx.documents
        → IsResult fl k1 b idx terms filters h
        → IsLabelled show filters h
    result-IsLabelled terms filters h a (doc, found, e, m, _) =
        rw e (m, get-AllValues NamesPaper h.chunk_id doc idx.documents a found)

    sparse-IsLabelled :
        (query : Text) (limit : ℕ) (filters : Filters)
        → IsValid idx
        → AllValues NamesPaper idx.documents
        → All (IsLabelled show filters) (search fl k1 b lower query limit filters idx)
    sparse-IsLabelled query limit filters v a =
        let hits = search fl k1 b lower query limit filters idx in
        let P = IsResult fl k1 b idx (tokenize lower query) filters in
        let (_, _, results) = search_sound fl k1 b lower query limit filters idx v in
        In→All (IsLabelled show filters) hits
          (λ h i. result-IsLabelled (tokenize lower query) filters h a (All→In P hits results h i))

  abbrev Named : Hit F → Type 0
  Named h = lookup_value paper_key h.metadata ≡ text (show h.paper_id)

  vector-IsLabelled :
      (vector : List F) (limit : ℕ) (filters : Filters) (records : Records F)
      → All (RecordFits (length vector)) records
      → (hits : List (Hit F)) × (vector_search fl vector limit filters records ≡ some hits)
        × All (IsLabelled show filters) hits
  vector-IsLabelled vector limit filters records a =
      let (hits, e, _, _, good) = vector_search_holds fl vector filters Named limit records (
        In→All (Carries fl vector filters Named) records (λ r i.
          let f = All→In (RecordFits (length vector)) records a r i in (sym f.0, λ t. f.1))) in
      (hits, e, good)

-- The pipeline's backends in memory: the query's embedding, and the model's scores, are from outside.
abbrev pub local_backends :
    (fl : Floats)
    → (k1 b weight : fl.F) → (ℕ → Text)
    → (Text → Text)
    → (Text → Text → Bool)
    → (Text → List fl.F)
    → (Text → List (Candidate fl.F) → List fl.F)
    → Records fl.F
    → Index
    → Backends fl.F
local_backends fl k1 b weight show lower ilike embed scorer records idx = record {
  dense_search = λ q n f. vector_search fl (embed q) n f records;
  sparse_search = λ q n f. some (search fl k1 b lower q n f idx);
  rerank_scores = scorer;
  show = show;
  lower = lower;
  ilike = ilike;
  weight = weight;
}

-- A well-formed index and vectors of the model's dimension, whose metadata names each chunk's
-- paper, meet what the pipeline asks of its retrievers; printing an id must lose nothing, and the
-- scorer must score each candidate.
pub local_backends-IsFaithful :
    (fl : Floats) (k1 b weight : fl.F) (show : ℕ → Text) (lower : Text → Text)
    (ilike : Text → Text → Bool) (embed : Text → List fl.F)
    (scorer : Text → List (Candidate fl.F) → List fl.F) (records : Records fl.F) (idx : Index)
    (dimension : ℕ)
    → ((q : Text) → length (embed q) ≡ dimension)
    → All (RecordFits fl show dimension) records
    → IsValid idx
    → AllValues (NamesPaper fl show) idx.documents
    → ((q : Text) (cs : List (Candidate fl.F)) → length cs ≡ length (scorer q cs))
    → ((x y : ℕ) → show x ≡ show y → x ≡ y)
    → IsFaithful (local_backends fl k1 b weight show lower ilike embed scorer records idx)
local_backends-IsFaithful fl k1 b weight show lower ilike embed scorer records idx dimension dim
      fits valid named scores injective =
    record {
      dense = λ q n f.
          vector-IsLabelled fl show (embed q) n f records
            (subst (λ d. All (RecordFits fl show d) records) (sym (dim q)) fits);
      sparse = λ q n f. (
        search fl k1 b lower q n f idx,
        refl,
        sparse-IsLabelled fl show k1 b lower idx q n f valid named,
      );
      scores = scores;
      show_injective = injective;
    }
