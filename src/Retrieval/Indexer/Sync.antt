-- ===== src/Retrieval/Indexer/Sync.antt =====
-- The two stores of the indexer (backend/app/retrieval/indexer.py) hold the same chunks.
use research_mind_ai.Prelude.{
  ℕ, ◌+◌, Text, ◌≡◌, refl, sym, ap, ◌∙◌, inl, inr, Bool, true, false, Bool-cases, Option, none,
  some, List, [], ◌∷◌, map, length, contains, ◌==◌, nat_eq, list_eq, if◌then◌else◌, arith, All,
}
use research_mind_ai.Prelude.Dict.{get, Distinct}
use research_mind_ai.Retrieval.Sparse.{Document}
use research_mind_ai.Retrieval.Sparse.Valid.{IsValid}
use research_mind_ai.Retrieval.Sparse.Corpus.{get-remove_paper, without_paper}
use research_mind_ai.Retrieval.Vectors.{VectorRecord}
use research_mind_ai.Retrieval.Vectors.Laws.{
  get-delete_by_paper, vector_of_paper, delete_by_paper-Distinct,
}
use research_mind_ai.Retrieval.Service.{Paper, find_paper}
use research_mind_ai.Retrieval.Indexer.{
  DocumentChunk, Library, make_records, store_batch, embed_batch, index_batches, forget_paper,
  index_chunks, index_paper, batched, select_chunks,
}
use research_mind_ai.Retrieval.Indexer.Entries.{
  record_owner, document_owner, ids, AllDocsNamed, AllRecordsNamed, add_chunks-IsValid,
  add_chunks-owner, add_chunks-AllDocsNamed, make_records-IsMade, upsert-AllRecordsNamed,
  upsert-owner, IsMade,
}

unfoldable pub drop_owner : ℕ → Option ℕ → Option ℕ
drop_owner p none = none
drop_owner p (some q) = if q == p then none else some q

pub owner-delete :
    {F : Type 0} (p : ℕ) (o : Option (VectorRecord F))
    → record_owner (if vector_of_paper p o then none else o) ≡ drop_owner p (record_owner o)
unfolding drop_owner
owner-delete p none = refl
owner-delete p (some r) = ground arith

owner-without :
    (p : ℕ) (o : Option Document)
    → document_owner (without_paper p o) ≡ drop_owner p (document_owner o)
unfolding drop_owner
owner-without p none = refl
owner-without p (some d) = ground arith

record_kept :
    {F : Type 0} (b : Bool) (o : Option (VectorRecord F)) (r : VectorRecord F)
    → (if b then none else o) ≡ some r
    → o ≡ some r
record_kept true o r h = absurd (cc h)
record_kept false o r h = h

document_kept :
    (p : ℕ) (o : Option Document) (d : Document) → without_paper p o ≡ some d → o ≡ some d
document_kept p none d h = h
document_kept p (some e) d h = elim (Bool-cases (e.paper_id == p)) [
  | inl q ↦ absurd (cc (rw q at h))
  | inr q ↦ rw q at h
]

module _ {F : Type 0} (show : ℕ → Text) (dimension : ℕ) where
  -- Both stores are well formed, every entry names its paper, and, where `Synced`, a chunk has an
  -- entry in one of them for a paper exactly if it has one in the other.
  pub record IsIndexed (Synced : Type 0) (s : Library F) : Type 0 where
    pub valid : IsValid s.bm25
    pub distinct : Distinct s.records
    pub documents_named : AllDocsNamed show s.bm25
    pub records_named : AllRecordsNamed show dimension s.records
    pub in_sync :
        Synced → (k : ℕ) → record_owner (get k s.records) ≡ document_owner (get k s.bm25.documents)

  module _ (lower : Text → Text) (embed : List Text → Option (List (List F))) where
    pub forget-IsIndexed :
        {Synced : Type 0} (p : ℕ) (s : Library F)
        → IsIndexed Synced s
        → IsIndexed Synced (forget_paper show lower embed p s)
    forget-IsIndexed p s v = record {
      valid = (get-remove_paper p 0 s.bm25 v.valid).1;
      distinct = delete_by_paper-Distinct p s.records v.distinct;
      documents_named = λ k d h. v.documents_named k d (
          document_kept p (get k s.bm25.documents) d
            (sym (get-remove_paper p k s.bm25 v.valid).0 ∙ h));
      records_named = λ k r h. v.records_named k r (
          record_kept (vector_of_paper p (get k s.records)) (get k s.records) r
            (sym (get-delete_by_paper p k s.records v.distinct) ∙ h));
      in_sync = λ y k.
          ap record_owner (get-delete_by_paper p k s.records v.distinct)
          ∙ (owner-delete p (get k s.records)
              ∙ (ap (drop_owner p) (v.in_sync y k)
                  ∙ (sym (owner-without p (get k s.bm25.documents))
                      ∙ ap document_owner (sym (get-remove_paper p k s.bm25 v.valid).0))));
    }

    store-IsIndexed :
        {Synced : Type 0} (paper : Paper) (batch : List DocumentChunk) (rs : List (VectorRecord F))
        (s : Library F)
        → All (IsMade show paper dimension) rs
        → map (λ (r : VectorRecord F). r.chunk_id) rs ≡ ids batch
        → IsIndexed Synced s
        → IsIndexed Synced (store_batch show lower embed paper batch rs s)
    store-IsIndexed paper batch rs s made same v =
        let (d, a) =
          upsert-AllRecordsNamed show paper dimension rs s.records made v.distinct
            v.records_named in
        record {
          valid = add_chunks-IsValid show lower paper batch s.bm25 v.valid;
          distinct = d;
          documents_named =
              add_chunks-AllDocsNamed show lower paper batch s.bm25 v.valid v.documents_named;
          records_named = a;
          in_sync = λ y k.
              upsert-owner show paper dimension rs s.records k made
              ∙ (ap (λ ks. if contains k ks then some paper.id else record_owner (get k s.records))
                    same
                  ∙ (ap (λ o. if contains k (ids batch) then some paper.id else o) (v.in_sync y k)
                      ∙ sym (add_chunks-owner show lower paper batch s.bm25 k v.valid)));
        }

    -- The model's vectors have the dimension.
    abbrev pub HasDimension : Type 0
    HasDimension =
        (ts : List Text) (vs : List (List F))
        → embed ts ≡ some vs
        → All (λ v. length v ≡ dimension) vs

    module _ (right_size : HasDimension) where
      pub embed_batch-IsMade :
          (paper : Paper) (b : List DocumentChunk) (rs : List (VectorRecord F))
          → embed_batch show lower embed paper b ≡ some rs
          → All (IsMade show paper dimension) rs
            × (map (λ (r : VectorRecord F). r.chunk_id) rs ≡ ids b)
      embed_batch-IsMade paper b rs h = go (embed (map (λ (c : DocumentChunk). c.content) b)) refl h
        where
          go :
              (o : Option (List (List F)))
              → embed (map (λ (c : DocumentChunk). c.content) b) ≡ o
              → (elim o as (λ _. Option (List (VectorRecord F))) [
                | none ↦ none
                | some vs ↦ make_records show paper b vs
              ])
                ≡ some rs
              → All (IsMade show paper dimension) rs
                × (map (λ (r : VectorRecord F). r.chunk_id) rs ≡ ids b)
          go none e q = absurd (cc q)
          go (some vs) e q = make_records-IsMade show paper dimension b vs rs q (right_size _ vs e)

      index_batches-IsIndexed :
          {Synced : Type 0} (paper : Paper) (batches : List (List DocumentChunk)) (n : ℕ)
          (s : Library F)
          → IsIndexed Synced s
          → IsIndexed Synced (index_batches show lower embed paper batches n s).0
      unfolding index_batches
      index_batches-IsIndexed paper [] n s v = v
      index_batches-IsIndexed {Synced} paper (b ∷ bs) n s v =
          go (embed_batch show lower embed paper b) refl (λ rs w.
            index_batches-IsIndexed paper bs (n + length b)
              (store_batch show lower embed paper b rs s) w)
        where
          go :
              (o : Option (List (VectorRecord F)))
              → embed_batch show lower embed paper b ≡ o
              → ((rs : List (VectorRecord F))
                  → IsIndexed Synced (store_batch show lower embed paper b rs s)
                  → IsIndexed Synced
                      (index_batches show lower embed paper bs
                        (n + length b)
                        (store_batch show lower embed paper b rs s)).0)
              → IsIndexed Synced
                  (elim o as (λ _. Library F × Option ℕ) [
                    | none ↦ (s, none)
                    | some rs ↦
                        index_batches show lower embed paper bs
                          (n + length b)
                          (store_batch show lower embed paper b rs s)
                  ]).0
          go none e rest = v
          go (some rs) e rest =
              let (made, same) = embed_batch-IsMade paper b rs e in
              rest rs (store-IsIndexed paper b rs s made same v)

      index_chunks-IsIndexed :
          {Synced : Type 0} (size p : ℕ) (reindex : Bool) (paper : Paper) (cs : List DocumentChunk)
          (s : Library F)
          → IsIndexed Synced s
          → IsIndexed Synced (index_chunks show lower embed size p reindex paper cs s).0
      index_chunks-IsIndexed size p reindex paper [] s v = v
      index_chunks-IsIndexed size p true paper (c ∷ cs) s v =
          index_batches-IsIndexed paper (batched size (c ∷ cs)) 0
            (forget_paper show lower embed p s) (forget-IsIndexed p s v)
      index_chunks-IsIndexed size p false paper (c ∷ cs) s v =
          index_batches-IsIndexed paper (batched size (c ∷ cs)) 0 s v

      pub index_paper-IsIndexed :
          {Synced : Type 0} (size p : ℕ) (reindex : Bool) (s : Library F)
          → IsIndexed Synced s
          → IsIndexed Synced (index_paper show lower embed size p reindex s).0
      unfolding index_paper
      index_paper-IsIndexed {Synced} size p reindex s v = go (find_paper p s.papers)
        where
          go :
              (o : Option Paper)
              → IsIndexed Synced
                  (elim o as (λ _. Library F × Option ℕ) [
                    | none ↦ (s, some 0)
                    | some paper ↦
                        index_chunks show lower embed size p reindex paper
                          (select_chunks p reindex s.chunks)
                          s
                  ]).0
          go none = v
          go (some paper) =
              index_chunks-IsIndexed size p reindex paper (select_chunks p reindex s.chunks) s v
