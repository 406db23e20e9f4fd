-- ===== src/Retrieval/Rerank.antt =====
-- `Reranker.rerank` of backend/app/retrieval/reranker.py. The scorer is a parameter; `none` stands
-- for the ValueError of `zip(…, strict=True)` when the scorer returns another number of scores.
pub mod Laws
use research_mind_ai.Prelude.{
  ℕ, suc, ◌+◌, Text, Option, none, some, List, [], ◌∷◌, take, map, ◌==◌, nat_eq, if◌then◌else◌,
}
use research_mind_ai.Retrieval.Scores.{Floats, sort_by_score}

pub record Candidate (F : Type 0) : Type 0 where
  pub chunk_id : ℕ
  pub text : Text
  pub original_score : F

-- A candidate with its place and score: an item of `zip(range(n), candidates, scores)`.
pub record Scored (F : Type 0) : Type 0 where
  pub place : ℕ
  pub candidate : Candidate F
  pub score : F

pub record RerankResult (F : Type 0) : Type 0 where
  pub chunk_id : ℕ
  pub score : F
  pub original_rank : ℕ
  pub new_rank : ℕ

module _ {F : Type 0} where
  unfoldable pub zip_scores : ℕ → List (Candidate F) → List F → Option (List (Scored F))
  zip_scores i [] [] = some []
  zip_scores i [] (s ∷ ss) = none
  zip_scores i (c ∷ cs) [] = none
  zip_scores i (c ∷ cs) (s ∷ ss) = elim (zip_scores (i + 1) cs ss) [
    | none ↦ none
    | some rest ↦ some (record { place = i; candidate = c; score = s } ∷ rest)
  ]

  unfoldable pub number_results : ℕ → List (Scored F) → List (RerankResult F)
  number_results i [] = []
  number_results i (x ∷ xs) =
      record {
        chunk_id = x.candidate.chunk_id;
        score = x.score;
        original_rank = x.place + 1;
        new_rank = i + 1;
      }
      ∷ number_results (i + 1) xs

-- results[:limit] if limit else results
unfoldable pub apply_limit : {A : Type 0} → Option ℕ → List A → List A
apply_limit none xs = xs
apply_limit (some n) xs = if n == 0 then xs else take n xs

module _ (fl : Floats) where
  open fl use {F}

  abbrev pub ordered_results : List (Scored F) → List (RerankResult F)
  ordered_results xs = number_results 0 (sort_by_score fl (λ (x : Scored F). x.score) xs)

  unfoldable pub rerank :
      (Text → List (Candidate F) → List F)
      → Text
      → List (Candidate F)
      → Option ℕ
      → Option (List (RerankResult F))
  unfolding zip_scores number_results apply_limit
  rerank scorer query [] limit = some []
  rerank scorer query (c ∷ cs) limit = elim (zip_scores 0 (c ∷ cs) (scorer query (c ∷ cs))) [
    | none ↦ none
    | some xs ↦ some (apply_limit limit (ordered_results xs))
  ]
