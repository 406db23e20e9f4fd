-- ===== src/Retrieval/Fusion/Ranking.antt =====
-- What fusion (backend/app/retrieval/fusion.py) returns.
use research_mind_ai.Prelude.{
  ℕ, ◌+◌, ◌≤◌, ◌≡◌, refl, ◌∙◌, ap, sym, Bool, true, false, Option, none, some, List, [], ◌∷◌, arith,
  nat_eq, ==_iff, All, All-take, All→In, In→All, length, length-take-le,
}
use research_mind_ai.Prelude.Dict.{Dict, get, put, values, Distinct, get_of_In, put-Distinct}
use research_mind_ai.Prelude.Sort.{IsSorted, IsSorted-take, sort_by-All, sort_by-IsSorted}
use research_mind_ai.Retrieval.Scores.{Floats}
use research_mind_ai.Retrieval.Hits.{Hit}
use research_mind_ai.Retrieval.Fusion.{
  FusedHit, entry_for, record_rank, merge, fuse, contribution, key_lt, fused_before,
  reciprocal_rank_fusion,
}
use research_mind_ai.Retrieval.Fusion.Entries.{
  last_rank, add_ranks, fuse_entry, dense_of, sparse_of, score_or_zero,
}

module _ (fl : Floats) (k : ℕ) where
  open fl use {F, of_ℕ, lt_asym, ge_trans}

  abbrev IsKeyed : ℕ × FusedHit F → Type 0
  IsKeyed e = e.1.chunk_id ≡ e.0

  IsKeyed-put :
      (c : ℕ) (h : FusedHit F) (d : Dict ℕ (FusedHit F))
      → h.chunk_id ≡ c
      → All IsKeyed d
      → All IsKeyed (put c h d)
  unfolding put
  IsKeyed-put c h [] p a = (p, tt)
  IsKeyed-put c h ((j, v) ∷ d) p a = ground (arith, ==_iff j c, IsKeyed-put c h d p a.1)

  IsKeyed-get :
      (c : ℕ) (h : FusedHit F) (d : Dict ℕ (FusedHit F))
      → All IsKeyed d
      → get c d ≡ some h
      → h.chunk_id ≡ c
  unfolding get
  IsKeyed-get c h [] a g = cc
  IsKeyed-get c h ((j, v) ∷ d) a g = ground (arith, ==_iff j c, IsKeyed-get c h d a.1)

  abbrev IsGood : Dict ℕ (FusedHit F) → Type 0
  IsGood d = Distinct d × All IsKeyed d

  entry-keyed :
      (d : Bool) (w : F) (r : ℕ) (hit : Hit F) (o : Option (FusedHit F))
      → ((h : FusedHit F) → o ≡ some h → h.chunk_id ≡ hit.chunk_id)
      → (record_rank fl d w r hit (entry_for fl hit o)).chunk_id ≡ hit.chunk_id
  unfolding record_rank entry_for
  entry-keyed true w r hit none f = refl
  entry-keyed false w r hit none f = refl
  entry-keyed true w r hit (some h) f = f h refl
  entry-keyed false w r hit (some h) f = f h refl

  merge-IsGood :
      (d : Bool) (w : F) (r : ℕ) (hits : List (Hit F)) (fused : Dict ℕ (FusedHit F))
      → IsGood fused
      → IsGood (merge fl k d w r hits fused)
  unfolding merge
  merge-IsGood d w r [] fused g = g
  merge-IsGood d w r (hit ∷ hits) fused g =
      let e =
        record_rank fl d (contribution fl k w r) r hit
          (entry_for fl hit (get hit.chunk_id fused)) in
      let keyed =
        entry-keyed d (contribution fl k w r) r hit (get hit.chunk_id fused)
          (λ h p. IsKeyed-get hit.chunk_id h fused g.1 p) in
      merge-IsGood d w (r + 1) hits (put hit.chunk_id e fused)
        (put-Distinct hit.chunk_id e fused g.0, IsKeyed-put hit.chunk_id e fused keyed g.1)

  key_total : (a b : FusedHit F) → fused_before fl k a b ≡ false → fused_before fl k b a ≡ true
  unfolding key_lt
  key_total a b h = ground (arith, lt_asym a.score b.score, lt_asym b.score a.score)

  key_trans :
      (a b c : FusedHit F)
      → fused_before fl k a b ≡ true
      → fused_before fl k b c ≡ true
      → fused_before fl k a c ≡ true
  unfolding key_lt
  key_trans a b c h p = ground (
    arith,
    ge_trans a.score b.score c.score,
    ge_trans b.score c.score a.score,
    ge_trans c.score a.score b.score,
    ge_trans c.score b.score a.score,
    ge_trans b.score a.score c.score,
    ge_trans a.score c.score b.score,
    lt_asym a.score b.score,
    lt_asym b.score c.score,
    lt_asym a.score c.score,
  )

  values-All :
      (P : FusedHit F → Type 0) (d : Dict ℕ (FusedHit F))
      → All (λ (e : ℕ × FusedHit F). P e.1) d
      → All P (values d)
  values-All P [] a = tt
  values-All P ((j, v) ∷ d) a = (a.0, values-All P d a.1)

  module _ (limit : ℕ) (dense_weight sparse_weight : F) (dense sparse : List (Hit F)) where
    abbrev results : List (FusedHit F)
    results = reciprocal_rank_fusion fl k limit dense_weight sparse_weight dense sparse

    -- A result has its chunk's rank in each list, and the sum of the chunk's contributions.
    abbrev pub IsFused : FusedHit F → Type 0
    IsFused h =
        (h.dense_rank ≡ last_rank h.chunk_id 1 dense)
        × (h.sparse_rank ≡ last_rank h.chunk_id 1 sparse)
        × (h.score
            ≡ add_ranks fl k h.chunk_id sparse_weight 1 sparse
                (add_ranks fl k h.chunk_id dense_weight 1 dense (of_ℕ 0)))

    fused : Dict ℕ (FusedHit F)
    fused = fuse fl k dense_weight sparse_weight dense sparse

    fused-IsGood : IsGood fused
    unfolding fused fuse
    fused-IsGood =
        merge-IsGood false sparse_weight 1 sparse (merge fl k true dense_weight 1 dense [])
          (merge-IsGood true dense_weight 1 dense [] (tt, tt))

    entry-IsFused : (c : ℕ) (h : FusedHit F) → get c fused ≡ some h → h.chunk_id ≡ c → IsFused h
    unfolding fused
    entry-IsFused c h g own =
        let (d, s, t) = fuse_entry fl k c dense_weight sparse_weight dense sparse in
        rw own (
          ap (dense_of fl k c) (sym g) ∙ d,
          ap (sparse_of fl k c) (sym g) ∙ s,
          ap (score_or_zero fl k c) (sym g) ∙ t,
        )

    values-IsFused : All IsFused (values fused)
    values-IsFused = values-All IsFused fused (
        In→All (λ (e : ℕ × FusedHit F). IsFused e.1) fused
          λ e i.
            entry-IsFused e.0 e.1 (get_of_In e.0 e.1 fused fused-IsGood.0 i)
              (All→In IsKeyed fused fused-IsGood.1 e i))

    -- The results are at most `limit`, in falling order of (score, found by both), and each has
    -- the rank that its chunk has in either list and the sum of the chunk's contributions.
    pub rrf_results :
        (length results ≤ limit) × IsSorted (fused_before fl k) results × All IsFused results
    unfolding reciprocal_rank_fusion fused
    rrf_results =
        let order = fused_before fl k in
        (
          length-take-le limit _,
          IsSorted-take order limit _ (sort_by-IsSorted order key_total key_trans (values fused)),
          All-take IsFused limit _ (sort_by-All order IsFused (values fused) values-IsFused),
        )
