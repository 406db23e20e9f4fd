-- ===== src/Retrieval/Fusion/Papers.antt =====
-- Fusion (backend/app/retrieval/fusion.py) invents no paper.
use research_mind_ai.Prelude.{
  ℕ, ◌+◌, ◌≡◌, refl, Bool, true, false, Option, none, some, List, [], ◌∷◌, All, All-take, nat_eq,
}
use research_mind_ai.Prelude.Dict.{
  Dict, get, put, values, AllValues, put-AllValues, get-AllValues, values-All,
}
use research_mind_ai.Prelude.Sort.{sort_by-All}
use research_mind_ai.Retrieval.Scores.{Floats}
use research_mind_ai.Retrieval.Hits.{Hit}
use research_mind_ai.Retrieval.Fusion.{
  FusedHit, entry_for, record_rank, merge, fuse, contribution, fused_before, reciprocal_rank_fusion,
}

module _ (fl : Floats) (k : ℕ) (P : ℕ → Type 0) where
  open fl use {F}

  abbrev HitOk : Hit F → Type 0
  HitOk h = P h.paper_id

  abbrev pub FusedOk : FusedHit F → Type 0
  FusedOk h = P h.paper_id

  record_rank-Ok :
      (d : Bool) (w : F) (r : ℕ) (hit : Hit F) (o : Option (FusedHit F))
      → HitOk hit
      → ((h : FusedHit F) → o ≡ some h → FusedOk h)
      → FusedOk (record_rank fl d w r hit (entry_for fl hit o))
  unfolding record_rank entry_for
  record_rank-Ok true w r hit none p f = p
  record_rank-Ok false w r hit none p f = p
  record_rank-Ok true w r hit (some h) p f = f h refl
  record_rank-Ok false w r hit (some h) p f = f h refl

  merge-Ok :
      (d : Bool) (w : F) (r : ℕ) (hits : List (Hit F)) (fused : Dict ℕ (FusedHit F))
      → All HitOk hits
      → AllValues FusedOk fused
      → AllValues FusedOk (merge fl k d w r hits fused)
  unfolding merge
  merge-Ok d w r [] fused a g = g
  merge-Ok d w r (hit ∷ hits) fused a g =
      let old = get hit.chunk_id fused in
      let e = record_rank fl d (contribution fl k w r) r hit (entry_for fl hit old) in
      let fine =
        record_rank-Ok d (contribution fl k w r) r hit old a.0
          (λ h p. get-AllValues FusedOk hit.chunk_id h fused g p) in
      merge-Ok d w (r + 1) hits (put hit.chunk_id e fused) a.1
        (put-AllValues FusedOk hit.chunk_id e fused fine g)

  -- A property of the papers of all hits holds of the papers of the fused results.
  pub rrf-papers :
      (limit : ℕ) (dw sw : F) (dense sparse : List (Hit F))
      → All HitOk dense
      → All HitOk sparse
      → All FusedOk (reciprocal_rank_fusion fl k limit dw sw dense sparse)
  unfolding reciprocal_rank_fusion
  rrf-papers limit dw sw dense sparse a b =
      let fused = fuse fl k dw sw dense sparse in
      All-take FusedOk limit _ (
        sort_by-All (fused_before fl k) FusedOk (values fused) (
          values-All FusedOk fused (
            unfold fuse in
            merge-Ok false sw 1 sparse (merge fl k true dw 1 dense []) b
              (merge-Ok true dw 1 dense [] a tt))))
