-- ===== src/Retrieval/Indexer/Rebuild.antt =====
-- rebuild_sparse_index of backend/app/retrieval/service.py: the BM25 index from the tables alone.
use research_mind_ai.Prelude.{
  ℕ, Text, Bool, true, false, keep_if, ◌≡◌, ◌≢◌, refl, sym, ap, ◌∙◌, inl, inr, Bool-cases,
  Option-cases, Option, none, some, List, [], ◌∷◌, length, or_else, ◌==◌, ==_iff, nat_eq, list_eq,
  if◌then◌else◌, arith, All, NoRepeat,
}
use mathlib.Core.Path.{subst}
use research_mind_ai.Prelude.Dict.{get}
use research_mind_ai.Retrieval.Sparse.{Index, empty_index, clear}
use research_mind_ai.Retrieval.Sparse.Valid.{IsValid, empty-IsValid}
use research_mind_ai.Retrieval.Service.{Paper, find_paper}
use research_mind_ai.Retrieval.Indexer.{DocumentChunk, Library, add_chunks}
use research_mind_ai.Retrieval.Indexer.Entries.{
  document_owner, ids, AllDocsNamed, add_chunks-IsValid, add_chunks-owner, add_chunks-AllDocsNamed,
}

-- The join of the chunks with their papers.
unfoldable pub joined_rows : List Paper → List DocumentChunk → List (Paper × DocumentChunk)
joined_rows papers [] = []
joined_rows papers (c ∷ cs) =
    let rest = joined_rows papers cs in
    elim (find_paper c.paper_id papers) [ none ↦ rest | some p ↦ (p, c) ∷ rest ]

module _ (show : ℕ → Text) (lower : Text → Text) where
  -- The loop over the rows; the join gives each the paper of its paper_id.
  unfoldable pub rebuild_from : List (Paper × DocumentChunk) → Index → Index
  rebuild_from [] idx = idx
  rebuild_from ((p, c) ∷ rows) idx = rebuild_from rows (add_chunks show lower p (c ∷ []) idx)

  unfoldable pub rebuild_sparse_index : {F : Type 0} → Library F → Library F × ℕ
  unfolding joined_rows rebuild_from
  rebuild_sparse_index s =
      let rows = joined_rows s.papers s.chunks in
      (record s { bm25 = rebuild_from rows (clear s.bm25) }, length rows)

  pub rebuild_from-IsValid :
      (rows : List (Paper × DocumentChunk)) (idx : Index)
      → IsValid idx
      → IsValid (rebuild_from rows idx)
  unfolding rebuild_from
  rebuild_from-IsValid [] idx v = v
  rebuild_from-IsValid ((p, c) ∷ rows) idx v =
      rebuild_from-IsValid rows (add_chunks show lower p (c ∷ []) idx)
        (add_chunks-IsValid show lower p (c ∷ []) idx v)

  pub rebuild_from-AllDocsNamed :
      (rows : List (Paper × DocumentChunk)) (idx : Index)
      → IsValid idx
      → AllDocsNamed show idx
      → AllDocsNamed show (rebuild_from rows idx)
  unfolding rebuild_from
  rebuild_from-AllDocsNamed [] idx v a = a
  rebuild_from-AllDocsNamed ((p, c) ∷ rows) idx v a =
      rebuild_from-AllDocsNamed rows (add_chunks show lower p (c ∷ []) idx)
        (add_chunks-IsValid show lower p (c ∷ []) idx v)
        (add_chunks-AllDocsNamed show lower p (c ∷ []) idx v a)

-- The paper of the chunk with an id, if the tables have both.
abbrev pub owner_in : ℕ → List Paper → List DocumentChunk → Option ℕ
owner_in k papers [] = none
owner_in k papers (c ∷ cs) =
    or_else
      (if c.id == k
        then elim (find_paper c.paper_id papers) [ none ↦ none | some p ↦ some c.paper_id ]
        else none)
      (owner_in k papers cs)

find_paper-id :
    (pid : ℕ) (papers : List Paper) (p : Paper) → find_paper pid papers ≡ some p → p.id ≡ pid
unfolding find_paper
find_paper-id pid [] p h = cc
find_paper-id pid (q ∷ qs) p h = elim (Bool-cases (q.id == pid)) [
  | inl e ↦
      let same : q ≡ p = ground (arith, e, h) in
      ap (λ (x : Paper). x.id) (sym same) ∙ (==_iff q.id pid).0 e
  | inr e ↦ find_paper-id pid qs p (ground (arith, e, h))
]

absent :
    (k : ℕ) (papers : List Paper) (cs : List DocumentChunk)
    → All (λ j. k ≢ j) (ids cs)
    → owner_in k papers cs ≡ none
absent k papers [] h = refl
absent k papers (c ∷ cs) h = elim (Bool-cases (c.id == k)) [
  | inl e ↦ absurd (h.0 (sym ((==_iff c.id k).0 e)))
  | inr e ↦ rw e (absent k papers cs h.1)
]

abbrev pub has_paper : List Paper → DocumentChunk → Bool
has_paper papers c = elim (find_paper c.paper_id papers) [ none ↦ false | some p ↦ true ]

length-joined_rows :
    (papers : List Paper) (cs : List DocumentChunk)
    → length (joined_rows papers cs) ≡ length (keep_if (has_paper papers) cs)
unfolding joined_rows
length-joined_rows papers [] = refl
length-joined_rows papers (c ∷ cs) = elim (Option-cases (find_paper c.paper_id papers)) [
  | inl e ↦ ground (arith, e, length-joined_rows papers cs)
  | inr (p, e) ↦ ground (arith, e, length-joined_rows papers cs)
]

or_else-none : (o : Option ℕ) → or_else o none ≡ o
or_else-none none = refl
or_else-none (some x) = refl

module _ (show : ℕ → Text) (lower : Text → Text) where
  rebuild_from-owner :
      (papers : List Paper) (cs : List DocumentChunk) (idx : Index) (k : ℕ)
      → NoRepeat (ids cs)
      → IsValid idx
      → document_owner (get k (rebuild_from show lower (joined_rows papers cs) idx).documents)
        ≡ or_else (owner_in k papers cs) (document_owner (get k idx.documents))
  unfolding rebuild_from joined_rows
  rebuild_from-owner papers [] idx k n v = refl
  rebuild_from-owner papers (c ∷ cs) idx k n v =
      elim (Option-cases (find_paper c.paper_id papers)) [
        | inl e ↦
            rw (e, joined_rows)
              (rebuild_from-owner papers cs idx k n.1 v
                ∙ elim (Bool-cases (c.id == k)) [ inl q ↦ rw q refl | inr q ↦ rw q refl ])
        | inr (p, e) ↦
            let next = add_chunks show lower p (c ∷ []) idx in
            rw (e, joined_rows)
              (rebuild_from-owner papers cs next k n.1
                  (add_chunks-IsValid show lower p (c ∷ []) idx v)
                ∙ (ap (or_else (owner_in k papers cs))
                      (add_chunks-owner show lower p (c ∷ []) idx k v)
                    ∙ elim (Bool-cases (c.id == k)) [
                      | inl q ↦ ground (
                        arith,
                        q,
                        find_paper-id c.paper_id papers p e,
                        subst (λ j. owner_in j papers cs ≡ none) ((==_iff c.id k).0 q)
                            (absent c.id papers cs n.0),
                      )
                      | inr q ↦ ground (arith, q)
                    ]))
      ]

  -- Where no two chunks of the tables have one id: after a rebuild, whatever the index held, the
  -- entry of a chunk is one of its paper, if the tables have the chunk and the paper, and else
  -- there is none; the vectors and the tables stay, and the count is that of the chunks whose
  -- paper is there.
  pub rebuild-owner :
      {F : Type 0} (s : Library F)
      → NoRepeat (ids s.chunks)
      → let after = rebuild_sparse_index show lower s in
        ((k : ℕ) → document_owner (get k after.0.bm25.documents) ≡ owner_in k s.papers s.chunks)
        × (after.0.records ≡ s.records)
        × (after.0.papers ≡ s.papers)
        × (after.0.chunks ≡ s.chunks)
        × (after.1 ≡ length (keep_if (has_paper s.papers) s.chunks))
  unfolding rebuild_sparse_index clear get
  rebuild-owner s n = (
    λ k.
        rebuild_from-owner s.papers s.chunks empty_index k n empty-IsValid
        ∙ or_else-none (owner_in k s.papers s.chunks),
    refl,
    refl,
    refl,
    length-joined_rows s.papers s.chunks,
  )
