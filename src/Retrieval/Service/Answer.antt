-- ===== src/Retrieval/Service/Answer.antt =====
-- The retrieval pipeline (backend/app/retrieval/service.py) returns, and what it returns.
use research_mind_ai.Prelude.{
  ℕ, zero, suc, ◌-◌, ◌≤◌, Text, is_space, strip, ◌≡◌, refl, ap, Bool, true, false, not, ◌&&◌, ◌||◌,
  Option, some, List, [], ◌∷◌, map, take, length, length-take-le, All, All-take, All-map,
  length-map, nat_eq, list_eq, ==_iff, if◌then◌else◌, Bool-cases, Option-cases, inl, inr, arith,
  and_then, get_elem?,
}
use research_mind_ai.Prelude.Dict.{Dict, get, put, get-put, AllValues, put-AllValues, get-AllValues}
use research_mind_ai.Retrieval.Scores.{Floats}
use research_mind_ai.Retrieval.Hits.{Hit}
use research_mind_ai.Retrieval.Fusion.{FusedHit, rrf_k, reciprocal_rank_fusion, is_some}
use research_mind_ai.Retrieval.Fusion.Papers.{rrf-papers}
use research_mind_ai.Retrieval.Rerank.{Candidate, RerankResult}
use research_mind_ai.Retrieval.Rerank.Laws.{rerank_sound, IsScored}
use research_mind_ai.Retrieval.Service.{
  RetrievalFilters, Database, RetrievedChunk, Backends, Rows, is_empty, allowed_paper_ids,
  load_chunks, resolve_hits, results_by_id, reorder, candidate_of, apply_reranker, with_sentences,
  candidate_count, search_filters, finish, retrieve, to_metadata_filters, index_rows, wants_row,
  Paper, ChunkRow,
}
use research_mind_ai.Retrieval.Service.Access.{
  IsVisible, allowed-IsVisible, IsFaithful, IsLabelled, labelled-In,
}

module _ (fl : Floats) (P : ℕ → Type 0) where
  open fl use {F}

  abbrev Ok : RetrievedChunk F → Type 0
  Ok r = P r.paper_id

  resolve_hits-Ok :
      (rows : Rows) (hits : List (FusedHit F))
      → All (λ (h : FusedHit F). P h.paper_id) hits
      → All Ok (resolve_hits fl rows hits)
  unfolding resolve_hits
  resolve_hits-Ok rows [] a = tt
  resolve_hits-Ok rows (h ∷ hits) a = elim (Option-cases (get h.chunk_id rows)) [
    | inl e ↦ rw (e, resolve_hits) (resolve_hits-Ok rows hits a.1)
    | inr (r, e) ↦ rw (e, resolve_hits) (a.0, resolve_hits-Ok rows hits a.1)
  ]

  results_by_id-Ok :
      (rs : List (RetrievedChunk F)) (d : Dict ℕ (RetrievedChunk F))
      → All Ok rs
      → AllValues Ok d
      → AllValues Ok (results_by_id fl rs d)
  unfolding results_by_id
  results_by_id-Ok [] d a g = g
  results_by_id-Ok (r ∷ rs) d a g =
      results_by_id-Ok rs (put r.chunk_id r d) a.1 (put-AllValues Ok r.chunk_id r d a.0 g)

  abbrev Has : Dict ℕ (RetrievedChunk F) → ℕ → Type 0
  Has d k = is_some (get k d) ≡ true

  results_by_id-keeps :
      (rs : List (RetrievedChunk F)) (d : Dict ℕ (RetrievedChunk F)) (k : ℕ)
      → Has d k
      → Has (results_by_id fl rs d) k
  unfolding results_by_id
  results_by_id-keeps [] d k h = h
  results_by_id-keeps (r ∷ rs) d k h =
      results_by_id-keeps rs (put r.chunk_id r d) k (ground (arith, get-put r.chunk_id k r d))

  results_by_id-Has :
      (rs : List (RetrievedChunk F)) (d : Dict ℕ (RetrievedChunk F)) (i : ℕ) (c : Candidate F)
      → get_elem? (map (candidate_of fl) rs) i ≡ some c
      → Has (results_by_id fl rs d) c.chunk_id
  unfolding results_by_id
  results_by_id-Has [] d i c h = cc
  results_by_id-Has (r ∷ rs) d zero c h =
      results_by_id-keeps rs (put r.chunk_id r d) c.chunk_id
        (ground (arith, get-put r.chunk_id c.chunk_id r d, ==_iff r.chunk_id c.chunk_id))
  results_by_id-Has (r ∷ rs) d (suc i) c h = results_by_id-Has rs (put r.chunk_id r d) i c h

  reorder-total :
      (d : Dict ℕ (RetrievedChunk F)) (entries : List (RerankResult F))
      → AllValues Ok d
      → All (λ (e : RerankResult F). Has d e.chunk_id) entries
      → (rs : List (RetrievedChunk F)) × (reorder fl d entries ≡ some rs)
        × (length rs ≡ length entries)
        × All Ok rs
  unfolding reorder
  reorder-total d [] g a = ([], refl, refl, tt)
  reorder-total d (e ∷ es) g a =
      let (rs, q, n, ok) = reorder-total d es g a.1 in
      elim (Option-cases (get e.chunk_id d)) [
        | inl missing ↦ absurd (cc (a.0, ap is_some missing))
        | inr (r, found) ↦ (
          record r { rerank_score = some e.score } ∷ rs,
          rw (found, reorder, q),
          ap suc n,
          (get-AllValues Ok e.chunk_id r d g found, ok),
        )
      ]

  IsScored-Has :
      (scorer : Text → List (Candidate F) → List F) (query : Text)
      (results : List (RetrievedChunk F)) (entries : List (RerankResult F))
      → All (IsScored fl scorer query (map (candidate_of fl) results)) entries
      → All (λ (e : RerankResult F). Has (results_by_id fl results []) e.chunk_id) entries
  IsScored-Has scorer query results [] a = tt
  IsScored-Has scorer query results (e ∷ es) a =
      let (c, at_place, same, _) = a.0 in
      (
        rw same (results_by_id-Has results [] (e.original_rank - 1) c at_place),
        IsScored-Has scorer query results es a.1,
      )

  apply_reranker-total :
      (scorer : Text → List (Candidate F) → List F) (query : Text)
      (results : List (RetrievedChunk F)) (limit : ℕ)
      → 1 ≤ limit
      → length (map (candidate_of fl) results)
        ≡ length (scorer query (map (candidate_of fl) results))
      → All Ok results
      → (rs : List (RetrievedChunk F)) × (apply_reranker fl scorer query results limit ≡ some rs)
        × (length rs ≤ limit)
        × All Ok rs
  unfolding apply_reranker
  apply_reranker-total scorer query results limit pos n ok =
      let candidates = map (candidate_of fl) results in
      let (all, _, e, _, _, _, scored) = rerank_sound fl scorer query candidates limit pos n in
      let ranked = take limit all in
      let (rs, q, m, good) =
        reorder-total (results_by_id fl results []) ranked (results_by_id-Ok results [] ok tt) (
          IsScored-Has scorer query results ranked
            (All-take (IsScored fl scorer query candidates) limit all scored)) in
      (rs, rw (e, apply_reranker) q, omega (arith, length-take-le limit all), good)

module _ (fl : Floats) (b : Backends fl.F) (faithful : IsFaithful b) (db : Database)
    (user : ℕ) where
  open fl use {F}

  abbrev Visible : RetrievedChunk F → Type 0
  Visible r = IsVisible db user r.paper_id

  abbrev pub IsAnswer : ℕ → Option (List (RetrievedChunk F)) → Type 0
  IsAnswer limit out =
      (rs : List (RetrievedChunk F)) × (out ≡ some rs) × (length rs ≤ limit) × All Visible rs

  polish :
      (query : Text) (limit : ℕ) (out : Option (List (RetrievedChunk F)))
      → IsAnswer limit out
      → IsAnswer limit (and_then out λ rs. some (map (with_sentences fl b db user query) rs))
  polish query limit out (rs, e, n, a) =
      let f = with_sentences fl b db user query in
      (map f rs, rw e, omega (arith, length-map f rs), All-map Visible f rs a)

  nothing : (limit : ℕ) → IsAnswer limit (some [])
  nothing limit = ([], refl, omega arith, tt)

  finish-IsAnswer :
      (query : Text) (limit : ℕ) (filters : RetrievalFilters) (use_reranker : Bool)
      (fused : List (FusedHit F))
      → 1 ≤ limit
      → All (λ (h : FusedHit F). IsVisible db user h.paper_id) fused
      → IsAnswer limit (finish fl b db user query limit filters use_reranker fused)
  unfolding finish
  finish-IsAnswer query limit filters use_reranker fused pos a =
      let rows = load_chunks b.ilike db (map (λ (h : FusedHit F). h.chunk_id) fused) filters in
      let results = resolve_hits fl rows fused in
      let ok = resolve_hits-Ok fl (IsVisible db user) rows fused a in
      let reranked = apply_reranker fl b.rerank_scores query results limit in
      let plain = some (take limit results) in
      either (is_empty fused || is_empty rows) (nothing limit) (
        polish query limit _ (
          either (use_reranker && not (is_empty results))
            (apply_reranker-total fl (IsVisible db user) b.rerank_scores query results limit pos
              (faithful.scores query (map (candidate_of fl) results)) ok)
            (
              take limit results,
              refl,
              length-take-le limit results,
              All-take Visible limit results ok,
            )))
    where
      either :
          (t : Bool) {x y : Option (List (RetrievedChunk F))}
          → IsAnswer limit x
          → IsAnswer limit y
          → IsAnswer limit (if t then x else y)
      either true p q = p
      either false p q = q

  In-Visible :
      (filters : RetrievalFilters) (hits : List (Hit F))
      → All (IsLabelled b.show (search_filters fl b db user filters)) hits
      → All (λ (h : Hit F). IsVisible db user h.paper_id) hits
  In-Visible filters [] a = tt
  In-Visible filters (h ∷ hits) a = (
    allowed-IsVisible db user filters h.paper_id (
        labelled-In b.show (allowed_paper_ids db user filters) (to_metadata_filters b.show filters)
          h faithful.show_injective a.0),
    In-Visible filters hits a.1,
  )

  -- With backends that answer with labelled hits, retrieval with a positive limit returns, at most
  -- `limit` chunks, and every one is of a paper in a workspace that the user owns.
  pub retrieve_authorized :
      (query : Text) (limit : ℕ) (filters : RetrievalFilters) (use_reranker : Bool)
      → 1 ≤ limit
      → IsAnswer limit (retrieve fl b db user query limit filters use_reranker)
  unfolding retrieve
  retrieve_authorized query limit filters use_reranker pos =
      let n = candidate_count fl b db user limit in
      let f = search_filters fl b db user filters in
      let (dense, e, p) = faithful.dense query n f in
      let (sparse, g, q) = faithful.sparse query n f in
      let fused = reciprocal_rank_fusion fl rrf_k n b.weight b.weight dense sparse in
      let fine =
        rrf-papers fl rrf_k (IsVisible db user) n b.weight b.weight dense sparse
          (In-Visible filters dense p) (In-Visible filters sparse q) in
      elim (Bool-cases
        (is_empty (strip is_space query) || is_empty (allowed_paper_ids db user filters))) [
          | inl t ↦ rw (t, retrieve) (nothing limit)
          | inr t ↦
              rw (t, retrieve, e, g)
                (finish-IsAnswer query limit filters use_reranker fused pos fine)
        ]

abbrev pub with_years : Option ℕ → Option ℕ → RetrievalFilters → RetrievalFilters
with_years low high filters = record filters { year_from = low; year_to = high }

index_rows-years :
    (ilike : Text → Text → Bool) (low high : Option ℕ) (ids : List ℕ) (f : RetrievalFilters)
    (papers : List Paper) (rows : List ChunkRow) (d : Rows)
    → index_rows ilike ids (with_years low high f) papers rows d
      ≡ index_rows ilike ids f papers rows d
unfolding index_rows wants_row
index_rows-years ilike low high ids f papers [] d = refl
index_rows-years ilike low high ids f papers (row ∷ rows) d =
    index_rows-years ilike low high ids f papers rows _

load_chunks-years :
    (ilike : Text → Text → Bool) (low high : Option ℕ) (db : Database) (ids : List ℕ)
    (f : RetrievalFilters)
    → load_chunks ilike db ids (with_years low high f) ≡ load_chunks ilike db ids f
unfolding load_chunks
load_chunks-years ilike low high db ids f = rw (index_rows-years, load_chunks)

-- The year bounds of the filters change nothing.
pub retrieve_years :
    (fl : Floats) (b : Backends fl.F) (db : Database) (user : ℕ) (query : Text) (limit : ℕ)
    (filters : RetrievalFilters) (use_reranker : Bool) (low high : Option ℕ)
    → retrieve fl b db user query limit (with_years low high filters) use_reranker
      ≡ retrieve fl b db user query limit filters use_reranker
unfolding retrieve finish allowed_paper_ids to_metadata_filters
retrieve_years fl b db user query limit filters use_reranker low high = simp load_chunks-years
