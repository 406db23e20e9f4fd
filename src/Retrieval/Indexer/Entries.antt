-- ===== src/Retrieval/Indexer/Entries.antt =====
-- What one batch of the indexer (backend/app/retrieval/indexer.py) writes to the two stores.
use research_mind_ai.Prelude.{
  ℕ, Text, ◌≡◌, refl, sym, ap, ◌∙◌, inl, inr, Bool-cases, Option-cases, Option, none, some, List,
  [], ◌∷◌, map, length, contains, ◌==◌, nat_eq, list_eq, if◌then◌else◌, arith, All,
}
use mathlib.Core.Path.{subst}
use research_mind_ai.Prelude.Dict.{get, put, Distinct, get-put, put-Distinct}
use research_mind_ai.Retrieval.Filters.{lookup_value, text}
use research_mind_ai.Retrieval.Sparse.{Document, Index, add, make_document, tokenize}
use research_mind_ai.Retrieval.Sparse.Valid.{IsValid, add-IsValid}
use research_mind_ai.Retrieval.Sparse.Corpus.{get-add}
use research_mind_ai.Retrieval.Vectors.{VectorRecord, Records, upsert}
use research_mind_ai.Retrieval.Service.{Paper, paper_key}
use research_mind_ai.Retrieval.Indexer.{
  DocumentChunk, sparse_metadata, dense_metadata, make_record, make_records, add_chunks,
}

-- The paper of an entry.
abbrev pub record_owner : {F : Type 0} → Option (VectorRecord F) → Option ℕ
record_owner none = none
record_owner (some r) = some r.paper_id

abbrev pub document_owner : Option Document → Option ℕ
document_owner none = none
document_owner (some d) = some d.paper_id

abbrev pub ids : List DocumentChunk → List ℕ
ids cs = map (λ (c : DocumentChunk). c.id) cs

-- The metadata of an entry names its paper, and vectors have the dimension.
module _ (show : ℕ → Text) where
  abbrev pub DocNamed : Document → Type 0
  DocNamed d = lookup_value paper_key d.metadata ≡ text (show d.paper_id)

  abbrev pub RecordNamed : {F : Type 0} → ℕ → VectorRecord F → Type 0
  RecordNamed dimension r =
      (length r.vector ≡ dimension) × (lookup_value paper_key r.metadata ≡ text (show r.paper_id))

  abbrev pub AllDocsNamed : Index → Type 0
  AllDocsNamed idx = (k : ℕ) (d : Document) → get k idx.documents ≡ some d → DocNamed d

  abbrev pub AllRecordsNamed : {F : Type 0} → ℕ → Records F → Type 0
  AllRecordsNamed {F} dimension records =
      (k : ℕ) (r : VectorRecord F) → get k records ≡ some r → RecordNamed dimension r

  sparse_names :
      (p : Paper) (c : DocumentChunk)
      → lookup_value paper_key (sparse_metadata show p c) ≡ text (show p.id)
  unfolding sparse_metadata lookup_value
  sparse_names p c = refl

  dense_names :
      (p : Paper) (c : DocumentChunk)
      → lookup_value paper_key (dense_metadata show p c) ≡ text (show p.id)
  unfolding dense_metadata lookup_value
  dense_names p c = refl

  module _ (lower : Text → Text) (paper : Paper) where
    pub add_chunks-IsValid :
        (cs : List DocumentChunk) (idx : Index)
        → IsValid idx
        → IsValid (add_chunks show lower paper cs idx)
    unfolding add_chunks
    add_chunks-IsValid [] idx v = v
    add_chunks-IsValid (c ∷ cs) idx v =
        add_chunks-IsValid cs (add lower c.id paper.id c.content (sparse_metadata show paper c) idx)
          (add-IsValid lower c.id paper.id c.content (sparse_metadata show paper c) idx v)

    pub add_chunks-owner :
        (cs : List DocumentChunk) (idx : Index) (k : ℕ)
        → IsValid idx
        → document_owner (get k (add_chunks show lower paper cs idx).documents)
          ≡ (if contains k (ids cs) then some paper.id else document_owner (get k idx.documents))
    unfolding add_chunks make_document
    add_chunks-owner [] idx k v = refl
    add_chunks-owner (c ∷ cs) idx k v =
        let m = sparse_metadata show paper c in
        ground (
          arith,
          add_chunks-owner cs (add lower c.id paper.id c.content m idx) k
              (add-IsValid lower c.id paper.id c.content m idx v),
          get-add lower c.id paper.id c.content m idx k v,
        )

    add-AllDocsNamed :
        (c : DocumentChunk) (idx : Index)
        → IsValid idx
        → AllDocsNamed idx
        → AllDocsNamed (add lower c.id paper.id c.content (sparse_metadata show paper c) idx)
    unfolding make_document
    add-AllDocsNamed c idx v a k d h =
        let m = sparse_metadata show paper c in
        let doc = make_document c.id paper.id (tokenize lower c.content) m in
        let e = sym (get-add lower c.id paper.id c.content m idx k v) ∙ h in
        elim (Bool-cases (c.id == k)) [
          | inl p ↦
              let same : doc ≡ d = some-inj doc d (rw p at e) in
              subst DocNamed same (sparse_names paper c)
          | inr p ↦ a k d (rw p at e)
        ]
      where
        some-inj : (x y : Document) → some x ≡ some y → x ≡ y
        some-inj x y q = cc q

    pub add_chunks-AllDocsNamed :
        (cs : List DocumentChunk) (idx : Index)
        → IsValid idx
        → AllDocsNamed idx
        → AllDocsNamed (add_chunks show lower paper cs idx)
    unfolding add_chunks
    add_chunks-AllDocsNamed [] idx v a = a
    add_chunks-AllDocsNamed (c ∷ cs) idx v a =
        let next = add lower c.id paper.id c.content (sparse_metadata show paper c) idx in
        add_chunks-AllDocsNamed cs next
          (add-IsValid lower c.id paper.id c.content (sparse_metadata show paper c) idx v)
          (add-AllDocsNamed c idx v a)

  module _ {F : Type 0} (paper : Paper) (dimension : ℕ) where
    abbrev pub IsMade : VectorRecord F → Type 0
    IsMade r = (r.paper_id ≡ paper.id) × RecordNamed dimension r

    -- The records of a batch, in its order.
    pub make_records-IsMade :
        (cs : List DocumentChunk) (vs : List (List F)) (rs : List (VectorRecord F))
        → make_records show paper cs vs ≡ some rs
        → All (λ v. length v ≡ dimension) vs
        → All IsMade rs × (map (λ (r : VectorRecord F). r.chunk_id) rs ≡ ids cs)
    unfolding make_records
    make_records-IsMade [] [] rs e w =
        let q : [] ≡ rs = cc e in
        (subst (All IsMade) q tt, ap (map (λ (r : VectorRecord F). r.chunk_id)) (sym q))
    make_records-IsMade [] (v ∷ vs) rs e w = absurd (cc e)
    make_records-IsMade (c ∷ cs) [] rs e w = absurd (cc e)
    make_records-IsMade (c ∷ cs) (v ∷ vs) rs e w =
        elim (Option-cases (make_records show paper cs vs)) [
          | inl none_left ↦ absurd (ground (arith, none_left, e))
          | inr (rest, q) ↦
              let (good, same) = make_records-IsMade cs vs rest q w.1 in
              let r = make_record show paper c v in
              let p : r ∷ rest ≡ rs = ground (arith, q, e) in
              (
                subst (All IsMade) p ((refl, (w.0, dense_names paper c)), good),
                ap (map (λ (r : VectorRecord F). r.chunk_id)) (sym p) ∙ ap (◌∷◌ c.id) same,
              )
        ]

    put-AllRecordsNamed :
        (r : VectorRecord F) (records : Records F)
        → IsMade r
        → AllRecordsNamed dimension records
        → AllRecordsNamed dimension (put r.chunk_id r records)
    put-AllRecordsNamed r records g a k x h =
        let e = sym (get-put r.chunk_id k r records) ∙ h in
        elim (Bool-cases (r.chunk_id == k)) [
          | inl p ↦ subst (RecordNamed dimension) (some-inj r x (rw p at e)) g.1
          | inr p ↦ a k x (rw p at e)
        ]
      where
        some-inj : (x y : VectorRecord F) → some x ≡ some y → x ≡ y
        some-inj x y q = cc q

    pub upsert-AllRecordsNamed :
        (rs : List (VectorRecord F)) (records : Records F)
        → All IsMade rs
        → Distinct records
        → AllRecordsNamed dimension records
        → Distinct (upsert rs records) × AllRecordsNamed dimension (upsert rs records)
    unfolding upsert
    upsert-AllRecordsNamed [] records g d a = (d, a)
    upsert-AllRecordsNamed (r ∷ rs) records g d a =
        upsert-AllRecordsNamed rs (put r.chunk_id r records) g.1
          (put-Distinct r.chunk_id r records d) (put-AllRecordsNamed r records g.0 a)

    pub upsert-owner :
        (rs : List (VectorRecord F)) (records : Records F) (k : ℕ)
        → All IsMade rs
        → record_owner (get k (upsert rs records)) ≡ (
            if contains k (map (λ (r : VectorRecord F). r.chunk_id) rs)
            then some paper.id
            else record_owner (get k records))
    unfolding upsert
    upsert-owner [] records k g = refl
    upsert-owner (r ∷ rs) records k g = ground (
      arith,
      g.0.0,
      upsert-owner rs (put r.chunk_id r records) k g.1,
      get-put r.chunk_id k r records,
    )
