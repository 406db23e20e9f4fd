-- ===== src/Retrieval/Fusion/Entries.antt =====
-- What fusion (backend/app/retrieval/fusion.py) records of one chunk.
use research_mind_ai.Prelude.{
  ℕ, ◌+◌, ◌≡◌, refl, ◌∙◌, ap, Bool, true, false, Option, none, some, List, [], ◌∷◌, arith, ◌==◌,
  nat_eq, ==_iff, if◌then◌else◌, or_else,
}
use research_mind_ai.Prelude.Dict.{Dict, get, put, get-put}
use research_mind_ai.Retrieval.Scores.{Floats}
use research_mind_ai.Retrieval.Hits.{Hit}
use research_mind_ai.Retrieval.Fusion.{FusedHit, entry_for, record_rank, merge, fuse, contribution}

-- The rank of the last hit of a chunk, counted from `rank`.
unfoldable pub last_rank : {F : Type 0} → ℕ → ℕ → List (Hit F) → Option ℕ
last_rank c rank [] = none
last_rank c rank (hit ∷ hits) =
    or_else (last_rank c (rank + 1) hits) (if hit.chunk_id == c then some rank else none)

or_else-none : (o : Option ℕ) → or_else o none ≡ o
or_else-none none = refl
or_else-none (some n) = refl

module _ (fl : Floats) (k c : ℕ) where
  open fl use {F, of_ℕ, add}

  -- The contributions of the hits of a chunk, added to a score.
  unfoldable pub add_ranks : F → ℕ → List (Hit F) → F → F
  add_ranks weight rank [] s = s
  add_ranks weight rank (hit ∷ hits) s =
      add_ranks weight (rank + 1) hits
        (if hit.chunk_id == c then add s (contribution fl k weight rank) else s)

  abbrev pub dense_of : Option (FusedHit F) → Option ℕ
  dense_of none = none
  dense_of (some h) = h.dense_rank

  abbrev pub sparse_of : Option (FusedHit F) → Option ℕ
  sparse_of none = none
  sparse_of (some h) = h.sparse_rank

  abbrev pub score_or_zero : Option (FusedHit F) → F
  score_or_zero none = of_ℕ 0
  score_or_zero (some h) = h.score

  -- What one hit does to the entry of the chunk.
  abbrev follow_one : Bool → F → ℕ → Hit F → Option (FusedHit F) → Option (FusedHit F)
  follow_one d w r hit o =
      if hit.chunk_id == c
      then some (record_rank fl d (contribution fl k w r) r hit (entry_for fl hit o))
      else o

  follow : Bool → F → ℕ → List (Hit F) → Option (FusedHit F) → Option (FusedHit F)
  follow d w r [] o = o
  follow d w r (hit ∷ hits) o = follow d w (r + 1) hits (follow_one d w r hit o)

  get-merge :
      (d : Bool) (w : F) (r : ℕ) (hits : List (Hit F)) (fused : Dict ℕ (FusedHit F))
      → get c (merge fl k d w r hits fused) ≡ follow d w r hits (get c fused)
  unfolding merge follow
  get-merge d w r [] fused = refl
  get-merge d w r (hit ∷ hits) fused =
      let e =
        record_rank fl d (contribution fl k w r) r hit
          (entry_for fl hit (get hit.chunk_id fused)) in
      get-merge d w (r + 1) hits (put hit.chunk_id e fused)
      ∙ ap (follow d w (r + 1) hits)
          (ground (arith, get-put hit.chunk_id c e fused, ==_iff hit.chunk_id c))

  dense-follow :
      (w : F) (r : ℕ) (hits : List (Hit F)) (o : Option (FusedHit F))
      → dense_of (follow true w r hits o) ≡ or_else (last_rank c r hits) (dense_of o)
  unfolding follow last_rank record_rank
  dense-follow w r [] o = refl
  dense-follow w r (hit ∷ hits) o =
      ground (arith, dense-follow w (r + 1) hits (follow_one true w r hit o))

  sparse-follow :
      (w : F) (r : ℕ) (hits : List (Hit F)) (o : Option (FusedHit F))
      → sparse_of (follow false w r hits o) ≡ or_else (last_rank c r hits) (sparse_of o)
  unfolding follow last_rank record_rank
  sparse-follow w r [] o = refl
  sparse-follow w r (hit ∷ hits) o =
      ground (arith, sparse-follow w (r + 1) hits (follow_one false w r hit o))

  dense-follow_sparse :
      (w : F) (r : ℕ) (hits : List (Hit F)) (o : Option (FusedHit F))
      → dense_of (follow false w r hits o) ≡ dense_of o
  unfolding follow record_rank entry_for
  dense-follow_sparse w r [] o = refl
  dense-follow_sparse w r (hit ∷ hits) o =
      ground (arith, dense-follow_sparse w (r + 1) hits (follow_one false w r hit o))

  sparse-follow_dense :
      (w : F) (r : ℕ) (hits : List (Hit F)) (o : Option (FusedHit F))
      → sparse_of (follow true w r hits o) ≡ sparse_of o
  unfolding follow record_rank entry_for
  sparse-follow_dense w r [] o = refl
  sparse-follow_dense w r (hit ∷ hits) o =
      ground (arith, sparse-follow_dense w (r + 1) hits (follow_one true w r hit o))

  score-follow :
      (d : Bool) (w : F) (r : ℕ) (hits : List (Hit F)) (o : Option (FusedHit F))
      → score_or_zero (follow d w r hits o) ≡ add_ranks w r hits (score_or_zero o)
  unfolding follow add_ranks record_rank entry_for
  score-follow d w r [] o = refl
  score-follow d w r (hit ∷ hits) o =
      ground (arith, score-follow d w (r + 1) hits (follow_one d w r hit o))

  module _ (dense_weight sparse_weight : F) (dense sparse : List (Hit F)) where
    abbrev pub entry : Option (FusedHit F)
    entry = get c (fuse fl k dense_weight sparse_weight dense sparse)

    -- The entry of a chunk has its rank in each list, and the sum of its contributions, those of
    -- the dense list first.
    pub fuse_entry :
        (dense_of entry ≡ last_rank c 1 dense)
        × (sparse_of entry ≡ last_rank c 1 sparse)
        × (score_or_zero entry
            ≡ add_ranks sparse_weight 1 sparse (add_ranks dense_weight 1 dense (of_ℕ 0)))
    unfolding fuse get
    fuse_entry =
        let first = follow true dense_weight 1 dense none in
        let e : entry ≡ follow false sparse_weight 1 sparse first =
          get-merge false sparse_weight 1 sparse (merge fl k true dense_weight 1 dense [])
          ∙ ap (follow false sparse_weight 1 sparse) (get-merge true dense_weight 1 dense []) in
        (
          ap dense_of e
              ∙ dense-follow_sparse sparse_weight 1 sparse first
              ∙ dense-follow dense_weight 1 dense none
              ∙ or_else-none (last_rank c 1 dense),
          ap sparse_of e
              ∙ sparse-follow sparse_weight 1 sparse first
              ∙ ap (or_else (last_rank c 1 sparse)) (sparse-follow_dense dense_weight 1 dense none)
              ∙ or_else-none (last_rank c 1 sparse),
          ap score_or_zero e
              ∙ score-follow false sparse_weight 1 sparse first
              ∙ ap (add_ranks sparse_weight 1 sparse) (score-follow true dense_weight 1 dense none),
        )
