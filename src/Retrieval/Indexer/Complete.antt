-- ===== src/Retrieval/Indexer/Complete.antt =====
-- What a run of the indexer (backend/app/retrieval/indexer.py) that no batch interrupts has written.
use research_mind_ai.Prelude.{
  ℕ, zero, suc, ◌+◌, ◌≤◌, Text, ◌≡◌, refl, ap, ◌∙◌, Bool, true, false, ◌||◌, Option, some, List, [],
  ◌∷◌, ◌++◌, map, take, drop, length, length-append, length-drop, take-append-drop, length-map,
  contains, nat_eq, list_eq, if◌then◌else◌, arith,
}
use research_mind_ai.Prelude.Dict.{get, Distinct}
use research_mind_ai.Retrieval.Vectors.{VectorRecord}
use research_mind_ai.Retrieval.Vectors.Laws.{get-delete_by_paper}
use research_mind_ai.Retrieval.Service.{Paper, find_paper}
use research_mind_ai.Retrieval.Indexer.{
  DocumentChunk, Library, make_record, make_records, store_batch, embed_batch, index_batches,
  forget_paper, index_chunks, index_paper, batched, batches_of, select_chunks,
}
use research_mind_ai.Retrieval.Indexer.Entries.{record_owner, ids, upsert-owner}
use research_mind_ai.Retrieval.Indexer.Sync.{
  drop_owner, owner-delete, HasDimension, embed_batch-IsMade,
}

abbrev concat : {A : Type 0} → List (List A) → List A
concat [] = []
concat (xs ∷ xss) = xs ++ concat xss

concat-batches_of :
    {A : Type 0} (fuel size : ℕ) (xs : List A)
    → 1 ≤ size
    → length xs ≤ fuel
    → concat (batches_of fuel size xs) ≡ xs
unfolding batches_of
concat-batches_of zero size [] pos h = refl
concat-batches_of zero size (x ∷ xs) pos h = absurd (omega arith)
concat-batches_of (suc fuel) size [] pos h = refl
concat-batches_of (suc fuel) size (x ∷ xs) pos h =
    ap (◌++◌ (take size (x ∷ xs))) (
      concat-batches_of fuel size (drop size (x ∷ xs)) pos
        (omega (arith, length-drop size (x ∷ xs))))
    ∙ take-append-drop size (x ∷ xs)

-- The entries that a run takes away before it writes: those of the paper, if it reindexes.
abbrev pub dropped : Bool → ℕ → Option ℕ → Option ℕ
dropped true p o = drop_owner p o
dropped false p o = o

contains-ids-append :
    (k : ℕ) (xs ys : List DocumentChunk)
    → contains k (ids (xs ++ ys)) ≡ (contains k (ids xs) || contains k (ids ys))
contains-ids-append k [] ys = refl
contains-ids-append k (x ∷ xs) ys = ground (arith, contains-ids-append k xs ys)

module _ {F : Type 0} (show : ℕ → Text) (dimension : ℕ) (lower : Text → Text)
    (embed : List Text → Option (List (List F))) where
  -- The model does not raise, and gives a vector for each text.
  abbrev pub Answers : Type 0
  Answers = (ts : List Text) → (vs : List (List F)) × (embed ts ≡ some vs) × (length vs ≡ length ts)

  make_records-total :
      (paper : Paper) (b : List DocumentChunk) (vs : List (List F))
      → length vs ≡ length b
      → (rs : List (VectorRecord F)) × (make_records show paper b vs ≡ some rs)
  unfolding make_records
  make_records-total paper [] [] h = ([], refl)
  make_records-total paper [] (v ∷ vs) h = absurd (omega arith)
  make_records-total paper (c ∷ cs) [] h = absurd (omega arith)
  make_records-total paper (c ∷ cs) (v ∷ vs) h =
      let (rs, e) = make_records-total paper cs vs (omega arith) in
      (make_record show paper c v ∷ rs, rw e refl)

  module _ (right_size : HasDimension {F = F} show dimension lower embed) (answers : Answers) where
    embed_batch-total :
        (paper : Paper) (b : List DocumentChunk)
        → (rs : List (VectorRecord F)) × (embed_batch show lower embed paper b ≡ some rs)
    embed_batch-total paper b =
        let (vs, e, n) = answers (map (λ (c : DocumentChunk). c.content) b) in
        let (rs, q) =
          make_records-total paper b vs (n ∙ length-map (λ (c : DocumentChunk). c.content) b) in
        (rs, rw (e, embed_batch) q)

    index_batches-owner :
        (paper : Paper) (bs : List (List DocumentChunk)) (n : ℕ) (s : Library F)
        → ((index_batches show lower embed paper bs n s).1 ≡ some (n + length (concat bs)))
          × ((k : ℕ)
              → record_owner (get k (index_batches show lower embed paper bs n s).0.records) ≡ (
                  if contains k (ids (concat bs))
                  then some paper.id
                  else record_owner (get k s.records)))
    unfolding index_batches
    index_batches-owner paper [] n s = (ap some (omega arith), λ k. refl)
    index_batches-owner paper (b ∷ bs) n s =
        let (rs, e) = embed_batch-total paper b in
        let (made, same) = embed_batch-IsMade show dimension lower embed right_size paper b rs e in
        let (count, owner) =
          index_batches-owner paper bs (n + length b) (store_batch show lower embed paper b rs s) in
        let next = store_batch show lower embed paper b rs s in
        let step : index_batches show lower embed paper (b ∷ bs) n s
            ≡ index_batches show lower embed paper bs (n + length b) next =
          rw (e, index_batches) refl in
        (
          ap (λ r. r.1) step ∙ (count ∙ ap some (omega (arith, length-append b (concat bs)))),
          λ k.
              ap (λ r. record_owner (get k r.0.records)) step
              ∙ (owner k
                  ∙ ground (
                    arith,
                    contains-ids-append k b (concat bs),
                    upsert-owner show paper dimension rs s.records k made,
                    same,
                  )),
        )

    index_chunks-owner :
        (size p : ℕ) (reindex : Bool) (paper : Paper) (c : DocumentChunk) (cs : List DocumentChunk)
        (s : Library F)
        → 1 ≤ size
        → Distinct s.records
        → ((index_chunks show lower embed size p reindex paper (c ∷ cs) s).1
            ≡ some (length (c ∷ cs)))
          × ((k : ℕ)
              → record_owner
                  (get k (index_chunks show lower embed size p reindex paper (c ∷ cs) s).0.records)
                ≡ (if contains k (ids (c ∷ cs))
                    then some paper.id
                    else dropped reindex p (record_owner (get k s.records))))
    index_chunks-owner size p reindex paper c cs s pos d =
        let whole = concat-batches_of (length (c ∷ cs)) size (c ∷ cs) pos (omega arith) in
        let start = if reindex then forget_paper show lower embed p s else s in
        let (count, owner) = index_batches-owner paper (batched size (c ∷ cs)) 0 start in
        (
          count ∙ ap some (omega (arith, ap length whole)),
          λ k.
              owner k
              ∙ (ap
                    (λ xs.
                      if contains k (ids xs)
                      then some paper.id
                      else record_owner (get k start.records))
                    whole
                  ∙ ap (λ o. if contains k (ids (c ∷ cs)) then some paper.id else o)
                      (before reindex k)),
        )
      where
        before :
            (r : Bool) (k : ℕ)
            → record_owner (get k (if r then forget_paper show lower embed p s else s).records)
              ≡ dropped r p (record_owner (get k s.records))
        before true k =
            ap record_owner (get-delete_by_paper p k s.records d) ∙ owner-delete p (get k s.records)
        before false k = refl

    -- A run of the indexer on a paper that has chunks to embed, with a positive batch size and a
    -- model that always answers with a vector of the one dimension for each text, returns the
    -- number of these chunks and leaves the vector store with each of them under the paper; of the
    -- other entries a reindexing run drops those of the paper, and any other run keeps all, also
    -- those of chunks that the paper no longer has.
    pub index_paper-owner :
        (size p : ℕ) (reindex : Bool) (paper : Paper) (c : DocumentChunk) (cs : List DocumentChunk)
        (s : Library F)
        → 1 ≤ size
        → Distinct s.records
        → find_paper p s.papers ≡ some paper
        → select_chunks p reindex s.chunks ≡ c ∷ cs
        → ((index_paper show lower embed size p reindex s).1 ≡ some (length (c ∷ cs)))
          × ((k : ℕ)
              → record_owner (get k (index_paper show lower embed size p reindex s).0.records) ≡ (
                  if contains k (ids (c ∷ cs))
                  then some paper.id
                  else dropped reindex p (record_owner (get k s.records))))
    unfolding index_paper index_batches
    index_paper-owner size p reindex paper c cs s pos d found chunks =
        let step : index_paper show lower embed size p reindex s
            ≡ index_chunks show lower embed size p reindex paper (c ∷ cs) s =
          rw (found, chunks, index_paper) refl in
        let (count, owner) = index_chunks-owner size p reindex paper c cs s pos d in
        (ap (λ r. r.1) step ∙ count, λ k. ap (λ r. record_owner (get k r.0.records)) step ∙ owner k)
