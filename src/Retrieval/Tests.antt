-- ===== src/Retrieval/Tests.antt =====
-- Tests of the retrieval model, and its theorems at concrete inputs.
use research_mind_ai.Prelude.{
  ℕ, ◌≤◌, Text, codes, ◌≡◌, refl, true, some, List, [], ◌∷◌, arith, length, In, nat_eq, list_eq,
  All,
}
use research_mind_ai.Prelude.Dict.{get, put, remove}
use research_mind_ai.Prelude.Sort.{IsSorted}
use research_mind_ai.Retrieval.Scores.{nat_floats, by_score}
use research_mind_ai.Retrieval.Filters.{Filters, text, exactly, matches}
use research_mind_ai.Retrieval.Hits.{Hit}
use research_mind_ai.Retrieval.Sparse.{
  Document, Index, empty_index, make_document, add, tokenize, add_terms, counter, drop_terms,
}
use research_mind_ai.Retrieval.Sparse.Valid.{empty-IsValid, holders, total_size, entry_of}
use research_mind_ai.Retrieval.Sparse.Corpus.{Call, add_chunk, run, run-IsValid, run_statistics}
use research_mind_ai.Retrieval.Sparse.Search.{search, score_of, score_from, add_term, idf, make_hit}
use research_mind_ai.Retrieval.Sparse.Results.{search_sound, search_complete, IsResult}
use research_mind_ai.Retrieval.Fusion.{reciprocal_rank_fusion, fused_before}
use research_mind_ai.Retrieval.Fusion.Ranking.{rrf_results, IsFused}
use mathlib.Core.List.{Perm}
use research_mind_ai.Prelude.{map, none, keep_if, take, count_up}
use research_mind_ai.Prelude.Dict.{Distinct}
use research_mind_ai.Retrieval.Vectors.{VectorRecord, Records, vector_search}
use research_mind_ai.Retrieval.Vectors.Laws.{vector_search_sound, passes, hit_of}
use research_mind_ai.Retrieval.Rerank.{Candidate, RerankResult, rerank}
use research_mind_ai.Retrieval.Rerank.Laws.{rerank_sound, Numbered, IsScored}

abbrev same : Text → Text
same s = s

abbrev calls : List Call
calls =
    add_chunk 1 10 (codes "graph neural networks") []
    ∷ add_chunk 2 20 (codes "graph search") ((codes "kind", text (codes "table")) ∷ [])
    ∷ add_chunk 1 10 (codes "neural search") []
    ∷ []

abbrev corpus : Index
corpus = run same calls empty_index

run_statistics_example :
    (get (codes "search") (run same calls empty_index).document_frequency
      ≡ entry_of (holders (codes "search") (run same calls empty_index).documents))
    × ((run same calls empty_index).total_length
        ≡ total_size (run same calls empty_index).documents)
run_statistics_example = run_statistics same calls (codes "search")

search_df : get (codes "search") corpus.document_frequency ≡ some 2
unfolding run get add add_terms counter tokenize put drop_terms remove
search_df = refl

search_sound_example :
    (length (search nat_floats 1 0 same (codes "graph search") 5 [] corpus) ≤ 5)
    × IsSorted
        (by_score nat_floats (λ (h : Hit ℕ). h.score))
        (search nat_floats 1 0 same (codes "graph search") 5 [] corpus)
    × All
        (IsResult nat_floats 1 0 corpus (tokenize same (codes "graph search")) [])
        (search nat_floats 1 0 same (codes "graph search") 5 [] corpus)
search_sound_example =
    search_sound nat_floats 1 0 same (codes "graph search") 5 [] corpus
      (run-IsValid same calls empty_index empty-IsValid)

abbrev doc2 : Document
doc2 =
    make_document 2 20 (tokenize same (codes "graph search"))
      ((codes "kind", text (codes "table")) ∷ [])

abbrev tables : Filters
tables = (codes "kind", exactly (text (codes "table"))) ∷ []

found_doc2 : get 2 corpus.documents ≡ some doc2
unfolding run get add put remove
found_doc2 = refl

table_doc2 : matches doc2.metadata tables ≡ true
unfolding matches make_document
table_doc2 = refl

positive_doc2 :
    nat_floats.lt
      (nat_floats.of_ℕ 0)
      (score_of nat_floats 1 0 corpus (tokenize same (codes "graph")) doc2)
    ≡ true
unfolding run score_of score_from tokenize add_term get make_document counter put idf add add_terms
    drop_terms remove
positive_doc2 = refl

search_complete_example :
    In
      (make_hit nat_floats 1 0 doc2
        (score_of nat_floats 1 0 corpus (tokenize same (codes "graph")) doc2))
      (search nat_floats 1 0 same (codes "graph") 5 tables corpus)
unfolding run add put get remove
search_complete_example =
    search_complete nat_floats 1 0 same (codes "graph") 5 tables corpus 2 doc2 found_doc2 table_doc2
      positive_doc2 (omega arith)

abbrev hit : ℕ → ℕ → Hit ℕ
hit c s = record { chunk_id = c; paper_id = 7; score = s; metadata = [] }

abbrev dense : List (Hit ℕ)
dense = hit 1 90 ∷ hit 2 80 ∷ []

abbrev sparse : List (Hit ℕ)
sparse = hit 2 12 ∷ hit 3 4 ∷ []

rrf_results_example :
    (length (reciprocal_rank_fusion nat_floats 60 2 1000 1000 dense sparse) ≤ 2)
    × IsSorted
        (fused_before nat_floats 60)
        (reciprocal_rank_fusion nat_floats 60 2 1000 1000 dense sparse)
    × All
        (IsFused nat_floats 60 2 1000 1000 dense sparse)
        (reciprocal_rank_fusion nat_floats 60 2 1000 1000 dense sparse)
rrf_results_example = rrf_results nat_floats 60 2 1000 1000 dense sparse

abbrev record_of : ℕ → ℕ → List ℕ → VectorRecord ℕ
record_of c p v = record { chunk_id = c; paper_id = p; workspace_id = 1; vector = v; metadata = [] }

abbrev stored : Records ℕ
stored = (1, record_of 1 7 (1 ∷ 0 ∷ [])) ∷ (2, record_of 2 8 (0 ∷ 1 ∷ [])) ∷ []

stored-Distinct : Distinct stored
unfolding get
stored-Distinct = (refl, (refl, tt))

vector_search_sound_example :
    (hits : List (Hit ℕ)) × (vector_search nat_floats (1 ∷ 1 ∷ []) 1 [] stored ≡ some (take 1 hits))
    × IsSorted (by_score nat_floats (λ (h : Hit ℕ). h.score)) hits
    × Perm hits (
        map
          (hit_of nat_floats (1 ∷ 1 ∷ []) [])
          (keep_if (passes nat_floats (1 ∷ 1 ∷ []) []) stored))
vector_search_sound_example =
    vector_search_sound nat_floats (1 ∷ 1 ∷ []) [] 1 stored (refl, (refl, tt))

abbrev candidates : List (Candidate ℕ)
candidates =
    record { chunk_id = 1; text = codes "one"; original_score = 5 }
    ∷ record { chunk_id = 2; text = codes "three"; original_score = 4 }
    ∷ []

abbrev by_length : Text → List (Candidate ℕ) → List ℕ
by_length q cs = map (λ (c : Candidate ℕ). length c.text) cs

rerank_sound_example :
    (rs : List (RerankResult ℕ)) × (rerank nat_floats by_length [] candidates none ≡ some rs)
    × (rerank nat_floats by_length [] candidates (some 1) ≡ some (take 1 rs))
    × Perm (map (λ (r : RerankResult ℕ). r.original_rank) rs) (count_up 1 (length candidates))
    × IsSorted (by_score nat_floats (λ (r : RerankResult ℕ). r.score)) rs
    × Numbered nat_floats by_length [] candidates 0 rs
    × All (IsScored nat_floats by_length [] candidates) rs
rerank_sound_example = rerank_sound nat_floats by_length [] candidates 1 (omega arith) refl
