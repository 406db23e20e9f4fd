-- ===== src/Retrieval/Fusion.antt =====
-- Reciprocal rank fusion: backend/app/retrieval/fusion.py. The two closures of `merge` are one
-- function; its flag says which ranking is merged.
pub mod Entries
pub mod Ranking
pub mod Papers
use research_mind_ai.Prelude.{
  ℕ, ◌+◌, Bool, true, false, not, ◌&&◌, ◌||◌, Option, none, some, List, [], ◌∷◌, nat_eq, list_eq,
  take, if◌then◌else◌,
}
use research_mind_ai.Prelude.Dict.{Dict, get, put, values, update}
use research_mind_ai.Prelude.Sort.{sort_by}
use research_mind_ai.Retrieval.Scores.{Floats}
use research_mind_ai.Retrieval.Filters.{Metadata}
use research_mind_ai.Retrieval.Hits.{Hit}

abbrev pub rrf_k : ℕ
rrf_k = 60

pub record FusedHit (F : Type 0) : Type 0 where
  pub chunk_id : ℕ
  pub paper_id : ℕ
  pub score : F
  pub dense_rank : Option ℕ
  pub sparse_rank : Option ℕ
  pub dense_score : Option F
  pub sparse_score : Option F
  pub metadata : Metadata

abbrev pub is_some : {A : Type 0} → Option A → Bool
is_some none = false
is_some (some a) = true

unfoldable pub found_by_both : {F : Type 0} → FusedHit F → Bool
found_by_both h = is_some h.dense_rank && is_some h.sparse_rank

module _ (fl : Floats) where
  open fl use {F, of_ℕ, lt, add, div}

  -- FusedHit(chunk_id, paper_id, 0.0, metadata=dict(hit.metadata))
  unfoldable pub new_entry : Hit F → FusedHit F
  new_entry hit = record {
    chunk_id = hit.chunk_id;
    paper_id = hit.paper_id;
    score = of_ℕ 0;
    dense_rank = none;
    sparse_rank = none;
    dense_score = none;
    sparse_score = none;
    metadata = hit.metadata;
  }

  -- The entry that `merge` goes on with: a new one, or the old one with the merged metadata.
  unfoldable pub entry_for : Hit F → Option (FusedHit F) → FusedHit F
  unfolding new_entry
  entry_for hit none = new_entry hit
  entry_for hit (some entry) = record entry { metadata = update hit.metadata entry.metadata }

  -- entry.score += contribution, and the rank and the score in the ranking that is merged
  unfoldable pub record_rank : Bool → F → ℕ → Hit F → FusedHit F → FusedHit F
  record_rank true contribution rank hit entry = record entry {
    score = add entry.score contribution;
    dense_rank = some rank;
    dense_score = some hit.score;
  }
  record_rank false contribution rank hit entry = record entry {
    score = add entry.score contribution;
    sparse_rank = some rank;
    sparse_score = some hit.score;
  }

  module _ (k : ℕ) where
    abbrev pub contribution : F → ℕ → F
    contribution weight rank = div weight (of_ℕ (k + rank))

    -- The loop of `merge`, from a rank on.
    unfoldable pub merge : Bool → F → ℕ → List (Hit F) → Dict ℕ (FusedHit F) → Dict ℕ (FusedHit F)
    unfolding entry_for record_rank
    merge is_dense weight rank [] fused = fused
    merge is_dense weight rank (hit ∷ hits) fused = merge is_dense weight (rank + 1) hits (
        put hit.chunk_id
          (record_rank is_dense (contribution weight rank) rank hit
            (entry_for hit (get hit.chunk_id fused)))
          fused)

    unfoldable pub fuse : F → F → List (Hit F) → List (Hit F) → Dict ℕ (FusedHit F)
    fuse dense_weight sparse_weight dense sparse =
        merge false sparse_weight 1 sparse (merge true dense_weight 1 dense [])

    -- `a < b` of the sort key (score, found_by_both)
    unfoldable pub key_lt : FusedHit F → FusedHit F → Bool
    unfolding found_by_both
    key_lt a b =
        lt a.score b.score
        || (not (lt b.score a.score) && (not (found_by_both a) && found_by_both b))

    -- The order of `sorted(…, reverse=True)`.
    abbrev pub fused_before : FusedHit F → FusedHit F → Bool
    fused_before a b = not (key_lt a b)

    unfoldable pub reciprocal_rank_fusion :
        ℕ → F → F → List (Hit F) → List (Hit F) → List (FusedHit F)
    unfolding fuse
    reciprocal_rank_fusion limit dense_weight sparse_weight dense sparse =
        take limit (sort_by fused_before (values (fuse dense_weight sparse_weight dense sparse)))
