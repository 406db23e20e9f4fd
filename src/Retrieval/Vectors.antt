-- ===== src/Retrieval/Vectors.antt =====
-- The exact in-memory vector store: `InMemoryVectorStore` of backend/app/retrieval/vector_store.py.
-- A search returns `none` where `zip(…, strict=True)` raises.
pub mod Laws
use research_mind_ai.Prelude.{
  ℕ, Bool, Option, none, some, List, [], ◌∷◌, ◌==◌, nat_eq, list_eq, take, length, if◌then◌else◌,
}
use research_mind_ai.Prelude.Dict.{Dict, get, put, remove}
use research_mind_ai.Retrieval.Scores.{Floats, sort_by_score}
use research_mind_ai.Retrieval.Filters.{Metadata, Filters, matches}
use research_mind_ai.Retrieval.Hits.{Hit}

pub record VectorRecord (F : Type 0) : Type 0 where
  pub chunk_id : ℕ
  pub paper_id : ℕ
  pub workspace_id : ℕ
  pub vector : List F
  pub metadata : Metadata

abbrev pub Records : Type 0 → Type 0
Records F = Dict ℕ (VectorRecord F)

module _ {F : Type 0} where
  unfoldable pub upsert : List (VectorRecord F) → Records F → Records F
  upsert [] records = records
  upsert (r ∷ rs) records = upsert rs (put r.chunk_id r records)

  unfoldable pub doomed_vectors : ℕ → Records F → List ℕ
  doomed_vectors paper_id [] = []
  doomed_vectors paper_id ((key, rec) ∷ records) =
      let rest = doomed_vectors paper_id records in
      if rec.paper_id == paper_id then key ∷ rest else rest

  unfoldable pub delete_all : List ℕ → Records F → Records F
  delete_all [] records = records
  delete_all (k ∷ ks) records = delete_all ks (remove k records)

  unfoldable pub delete_by_paper : ℕ → Records F → Records F × ℕ
  delete_by_paper paper_id records =
      let ks = doomed_vectors paper_id records in (delete_all ks records, length ks)

module _ (fl : Floats) where
  open fl use {F, of_ℕ, add, mul}

  -- sum(a * b for a, b in zip(vector, record.vector, strict=True))
  unfoldable pub dot_from : F → List F → List F → Option F
  dot_from s [] [] = some s
  dot_from s [] (b ∷ bs) = none
  dot_from s (a ∷ as') [] = none
  dot_from s (a ∷ as') (b ∷ bs) = dot_from (add s (mul a b)) as' bs

  abbrev pub vector_hit : VectorRecord F → F → Hit F
  vector_hit r score = record {
    chunk_id = r.chunk_id;
    paper_id = r.paper_id;
    score = score;
    metadata = r.metadata;
  }

  unfoldable pub score_records : List F → Filters → Records F → Option (List (Hit F))
  unfolding dot_from
  score_records vector filters [] = some []
  score_records vector filters ((k, r) ∷ records) =
      let rest = score_records vector filters records in
      if matches r.metadata filters
      then elim (dot_from (of_ℕ 0) vector r.vector) [
        | none ↦ none
        | some s ↦ elim rest [ none ↦ none | some hits ↦ some (vector_hit r s ∷ hits) ]
      ]
      else rest

  unfoldable pub vector_search : List F → ℕ → Filters → Records F → Option (List (Hit F))
  unfolding score_records
  vector_search vector limit filters records = elim (score_records vector filters records) [
    | none ↦ none
    | some hits ↦ some (take limit (sort_by_score fl (λ (h : Hit F). h.score) hits))
  ]
