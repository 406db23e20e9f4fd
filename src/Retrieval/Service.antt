-- ===== src/Retrieval/Service.antt =====
-- The retrieval pipeline: backend/app/retrieval/service.py, over database tables as lists of rows.
-- The embedding model is part of the dense retriever, the reranking model is a parameter, and so
-- are str.lower, str of an id and the database's ILIKE. `none` is an exception.
pub mod Access
pub mod Answer
pub mod Stores
pub mod Sample
mod Tests
use research_mind_ai.Prelude.{
  ℕ, ◌*◌, min, max, Text, codes, is_space, strip, Bool, true, false, not, ◌&&◌, ◌||◌, ◌≡◌, Option,
  none, some, List, [], ◌∷◌, map, take, length, keep_if, contains, All, ◌==◌, nat_eq, list_eq,
  if◌then◌else◌, and_then,
}
use research_mind_ai.Prelude.Dict.{Dict, get, put}
use research_mind_ai.Retrieval.Scores.{Floats}
use research_mind_ai.Retrieval.Filters.{
  Metadata, Filters, Value, text, any_of, matches, lookup_value, value_eq,
}
use research_mind_ai.Retrieval.Hits.{Hit}
use research_mind_ai.Retrieval.Fusion.{FusedHit, rrf_k, reciprocal_rank_fusion}
use research_mind_ai.Retrieval.Rerank.{Candidate, RerankResult, rerank}
use research_mind_ai.Retrieval.Sentences.{extract_supporting_sentences}

pub record RetrievalFilters : Type 0 where
  pub paper_ids : List ℕ
  pub kinds : List Text
  pub year_from : Option ℕ
  pub year_to : Option ℕ
  pub sections : List Text

pub record Workspace : Type 0 where
  pub id : ℕ
  pub owner_id : ℕ

pub record Paper : Type 0 where
  pub id : ℕ
  pub workspace_id : ℕ
  pub title : Option Text

pub record ChunkRow : Type 0 where
  pub id : ℕ
  pub paper_id : ℕ
  pub content : Text
  pub section_path : Option Text
  pub page_number : Option ℕ
  pub kind : Text

pub record Database : Type 0 where
  pub workspaces : List Workspace
  pub papers : List Paper
  pub chunks : List ChunkRow

pub record RetrievedChunk (F : Type 0) : Type 0 where
  pub chunk_id : ℕ
  pub paper_id : ℕ
  pub paper_title : Option Text
  pub content : Text
  pub section_path : Option Text
  pub page_number : Option ℕ
  pub kind : Text
  pub score : F
  pub dense_rank : Option ℕ
  pub sparse_rank : Option ℕ
  pub rerank_score : Option F
  pub supporting_sentences : List Text

abbrev pub candidate_multiplier : ℕ
candidate_multiplier = 4

abbrev pub max_candidates : ℕ
max_candidates = 200

abbrev pub is_empty : {A : Type 0} → List A → Bool
is_empty [] = true
is_empty (x ∷ xs) = false

abbrev pub paper_key : Text
paper_key = codes "paper_id"

unfoldable pub to_metadata_filters : (ℕ → Text) → RetrievalFilters → Filters
to_metadata_filters show f =
    let by_paper : Filters =
      if is_empty f.paper_ids
      then []
      else put paper_key (any_of (map (λ p. text (show p)) f.paper_ids)) [] in
    if is_empty f.kinds then by_paper else put (codes "kind") (any_of (map text f.kinds)) by_paper

unfoldable pub resolve_workspace_ids : Database → ℕ → List ℕ
resolve_workspace_ids db user =
    map (λ (w : Workspace). w.id) (keep_if (λ (w : Workspace). w.owner_id == user) db.workspaces)

unfoldable pub allowed_paper_ids : Database → ℕ → RetrievalFilters → List ℕ
unfolding resolve_workspace_ids
allowed_paper_ids db user filters =
    let ids = resolve_workspace_ids db user in
    if is_empty ids
    then []
    else map (λ (p : Paper). p.id)
        (keep_if
          (λ (p : Paper).
            contains p.workspace_id ids
            && (is_empty filters.paper_ids || contains p.id filters.paper_ids))
          db.papers)

unfoldable pub find_paper : ℕ → List Paper → Option Paper
find_paper pid [] = none
find_paper pid (p ∷ ps) = if p.id == pid then some p else find_paper pid ps

module _ (ilike : Text → Text → Bool) where
  -- or_(*conditions); a NULL section path meets none.
  unfoldable pub in_sections : List Text → Option Text → Bool
  in_sections [] path = false
  in_sections (s ∷ ss) none = false
  in_sections (s ∷ ss) (some path) = ilike path s || in_sections ss (some path)

  unfoldable pub wants_row : List ℕ → RetrievalFilters → ChunkRow → Bool
  unfolding in_sections
  wants_row ids filters row =
      contains row.id ids
      && (is_empty filters.sections || in_sections filters.sections row.section_path)

  -- {row[0].id: (row[0], row[1]) for row in rows}
  unfoldable pub index_rows :
      List ℕ
      → RetrievalFilters
      → List Paper
      → List ChunkRow
      → Dict ℕ (ChunkRow × Option Text)
      → Dict ℕ (ChunkRow × Option Text)
  unfolding wants_row find_paper
  index_rows ids filters papers [] d = d
  index_rows ids filters papers (row ∷ rows) d = index_rows ids filters papers rows (
      if wants_row ids filters row
      then elim (find_paper row.paper_id papers) [ none ↦ d | some p ↦ put row.id (row, p.title) d ]
      else d)

  unfoldable pub load_chunks :
      Database → List ℕ → RetrievalFilters → Dict ℕ (ChunkRow × Option Text)
  unfolding index_rows
  load_chunks db ids filters =
      if is_empty ids then [] else index_rows ids filters db.papers db.chunks []

-- What the pipeline takes from outside: the two retrievers and the reranking model.
pub record Backends (F : Type 0) : Type 0 where
  pub dense_search : Text → ℕ → Filters → Option (List (Hit F))
  pub sparse_search : Text → ℕ → Filters → Option (List (Hit F))
  pub rerank_scores : Text → List (Candidate F) → List F
  pub show : ℕ → Text
  pub lower : Text → Text
  pub ilike : Text → Text → Bool
  pub weight : F

abbrev pub Rows : Type 0
Rows = Dict ℕ (ChunkRow × Option Text)

module _ (fl : Floats) where
  open fl use {F}

  abbrev pub make_chunk : FusedHit F → ChunkRow × Option Text → RetrievedChunk F
  make_chunk hit (row, title) = record {
    chunk_id = hit.chunk_id;
    paper_id = hit.paper_id;
    paper_title = title;
    content = row.content;
    section_path = row.section_path;
    page_number = row.page_number;
    kind = row.kind;
    score = hit.score;
    dense_rank = hit.dense_rank;
    sparse_rank = hit.sparse_rank;
    rerank_score = none;
    supporting_sentences = [];
  }

  -- [… for hit in fused if hit.chunk_id in chunks]
  unfoldable pub resolve_hits : Rows → List (FusedHit F) → List (RetrievedChunk F)
  resolve_hits rows [] = []
  resolve_hits rows (hit ∷ hits) =
      let rest = resolve_hits rows hits in
      elim (get hit.chunk_id rows) [ none ↦ rest | some r ↦ make_chunk hit r ∷ rest ]

  -- {result.chunk_id: result for result in results}
  unfoldable pub results_by_id :
      List (RetrievedChunk F) → Dict ℕ (RetrievedChunk F) → Dict ℕ (RetrievedChunk F)
  results_by_id [] d = d
  results_by_id (r ∷ rs) d = results_by_id rs (put r.chunk_id r d)

  -- The loop over `ranked`; a missing id is a KeyError.
  unfoldable pub reorder :
      Dict ℕ (RetrievedChunk F) → List (RerankResult F) → Option (List (RetrievedChunk F))
  reorder by_id [] = some []
  reorder by_id (entry ∷ entries) =
      let rest = reorder by_id entries in
      and_then (get entry.chunk_id by_id)
        λ r. and_then rest λ rs. some (record r { rerank_score = some entry.score } ∷ rs)

  abbrev pub candidate_of : RetrievedChunk F → Candidate F
  candidate_of r = record { chunk_id = r.chunk_id; text = r.content; original_score = r.score }

  unfoldable pub apply_reranker :
      (Text → List (Candidate F) → List F)
      → Text
      → List (RetrievedChunk F)
      → ℕ
      → Option (List (RetrievedChunk F))
  unfolding results_by_id reorder
  apply_reranker scorer query results limit =
      and_then (rerank fl scorer query (map candidate_of results) (some limit))
        (reorder (results_by_id results []))

  module _ (b : Backends F) (db : Database) (user : ℕ) where
    -- The default `limit` of extract_supporting_sentences is 3.
    abbrev pub with_sentences : Text → RetrievedChunk F → RetrievedChunk F
    with_sentences query r = record r {
      supporting_sentences = extract_supporting_sentences b.lower 3 query r.content;
    }

    abbrev pub candidate_count : ℕ → ℕ
    candidate_count limit = min max_candidates (max (limit * candidate_multiplier) limit)

    abbrev pub search_filters : RetrievalFilters → Filters
    search_filters filters =
        put paper_key (any_of (map (λ p. text (b.show p)) (allowed_paper_ids db user filters)))
          (to_metadata_filters b.show filters)

    -- From the fused hits on.
    unfoldable pub finish :
        Text → ℕ → RetrievalFilters → Bool → List (FusedHit F) → Option (List (RetrievedChunk F))
    unfolding resolve_hits apply_reranker load_chunks
    finish query limit filters use_reranker fused =
        let rows = load_chunks b.ilike db (map (λ (h : FusedHit F). h.chunk_id) fused) filters in
        let results = resolve_hits rows fused in
        if is_empty fused || is_empty rows
        then some []
        else and_then
            (if use_reranker && not (is_empty results)
              then apply_reranker b.rerank_scores query results limit
              else some (take limit results))
            λ rs. some (map (with_sentences query) rs)

    unfoldable pub retrieve : Text → ℕ → RetrievalFilters → Bool → Option (List (RetrievedChunk F))
    unfolding finish allowed_paper_ids to_metadata_filters
    retrieve query limit filters use_reranker =
        if is_empty (strip is_space query) || is_empty (allowed_paper_ids db user filters)
        then some []
        else and_then (b.dense_search query (candidate_count limit) (search_filters filters))
            λ dense.
              and_then (b.sparse_search query (candidate_count limit) (search_filters filters))
                λ sparse. finish query limit filters use_reranker (
                  reciprocal_rank_fusion fl rrf_k (candidate_count limit) b.weight b.weight dense
                    sparse)
