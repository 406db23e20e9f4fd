-- ===== src/Retrieval/Sparse/Search.antt =====
-- `search` of backend/app/retrieval/sparse.py, over the platform's floats.

use research_mind_ai.Prelude.{
  ℕ, ◌-◌, Text, List, [], ◌∷◌, ◌==◌, nat_eq, list_eq, length, take, if◌then◌else◌,
}
use research_mind_ai.Prelude.Dict.{Dict}
use research_mind_ai.Retrieval.Scores.{Floats, sort_by_score}
use research_mind_ai.Retrieval.Filters.{Filters, matches}
use research_mind_ai.Retrieval.Hits.{Hit}
use research_mind_ai.Retrieval.Sparse.{Document, Index, tokenize, count_of}

module _ (fl : Floats) where
  open fl use {F, of_ℕ, lt, add, sub, mul, div, log as log_f, half}

  unfoldable pub idf : Index → ℕ → Text → F
  unfolding count_of
  idf idx corpus_size term =
      let frequency = count_of term idx.document_frequency in
      if frequency == 0
      then of_ℕ 0
      else log_f (
          add (of_ℕ 1)
            (div (add (of_ℕ (corpus_size - frequency)) half) (add (of_ℕ frequency) half)))

  module _ (k1 b : F) where
    -- One round of the loop over the query terms.
    unfoldable pub add_term : Index → F → Document → F → Text → F
    unfolding count_of
    add_term idx average_length doc score term =
        let tf = count_of term doc.term_frequencies in
        if tf == 0
        then score
        else add score (
            div (mul (idf idx (length idx.documents) term) (mul (of_ℕ tf) (add k1 (of_ℕ 1)))) (
              add (of_ℕ tf)
                (mul k1 (add (sub (of_ℕ 1) b) (mul b (div (of_ℕ doc.size) average_length))))))

    unfoldable pub score_from : Index → F → Document → F → List Text → F
    score_from idx average_length doc score [] = score
    score_from idx average_length doc score (t ∷ ts) =
        score_from idx average_length doc (add_term idx average_length doc score t) ts

    unfoldable pub score_of : Index → List Text → Document → F
    score_of idx terms doc =
        score_from idx (div (of_ℕ idx.total_length) (of_ℕ (length idx.documents))) doc (of_ℕ 0)
          terms

    abbrev pub make_hit : Document → F → Hit F
    make_hit doc score = record {
      chunk_id = doc.chunk_id;
      paper_id = doc.paper_id;
      score = score;
      metadata = doc.metadata;
    }

    -- The loop over the documents.
    unfoldable pub collect : Index → List Text → Filters → Dict ℕ Document → List (Hit F)
    unfolding score_of
    collect idx terms filters [] = []
    collect idx terms filters ((k, doc) ∷ docs) =
        let rest = collect idx terms filters docs in
        let score = score_of idx terms doc in
        if matches doc.metadata filters
        then (if lt (of_ℕ 0) score then make_hit doc score ∷ rest else rest)
        else rest

    -- An empty query and an empty corpus return early.
    unfoldable pub search : (Text → Text) → Text → ℕ → Filters → Index → List (Hit F)
    unfolding collect
    search lower query limit filters idx =
        let terms = tokenize lower query in
        if length terms == 0
        then []
        else if length idx.documents == 0
        then []
        else take limit
            (sort_by_score fl (λ (h : Hit F). h.score) (collect idx terms filters idx.documents))
