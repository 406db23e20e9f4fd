-- ===== src/Ingestion/Chunks/Order.antt =====
-- The indices of a document's chunks (backend/app/ingestion/chunking.py).
use research_mind_ai.Prelude.{
  ℕ, suc, count_up, ◌+◌, Text, ◌≡◌, refl, sym, ap, ◌∙◌, List, [], ◌∷◌, map, length,
}
use research_mind_ai.Ingestion.Chunks.{
  Chunk, Heading, reindex, chunk_sections, split_sections, chunk_document,
}

abbrev pub contents : List Chunk → List Text
contents cs = map (λ (c : Chunk). c.content) cs

abbrev pub indices : List Chunk → List ℕ
indices cs = map (λ (c : Chunk). c.index) cs

reindex-indices : (i : ℕ) (cs : List Chunk) → indices (reindex i cs) ≡ count_up i (length cs)
unfolding reindex
reindex-indices i [] = refl
reindex-indices i (c ∷ cs) = ap (◌∷◌ i) (reindex-indices (i + 1) cs)

pub reindex-contents : (i : ℕ) (cs : List Chunk) → contents (reindex i cs) ≡ contents cs
unfolding reindex
reindex-contents i [] = refl
reindex-contents i (c ∷ cs) = ap (◌∷◌ c.content) (reindex-contents (i + 1) cs)

length-reindex : (i : ℕ) (cs : List Chunk) → length (reindex i cs) ≡ length cs
unfolding reindex
length-reindex i [] = refl
length-reindex i (c ∷ cs) = ap suc (length-reindex (i + 1) cs)

-- The chunks of a document are numbered 0, 1, … without a gap, and renumbering changes no text.
pub document_indices :
    (find : Text → List Heading) (text : Text) (max_tokens overlap_tokens : ℕ)
    → (indices (chunk_document find text max_tokens overlap_tokens)
        ≡ count_up 0 (length (chunk_document find text max_tokens overlap_tokens)))
      × (contents (chunk_document find text max_tokens overlap_tokens)
          ≡ contents (chunk_sections max_tokens overlap_tokens [] [] (split_sections find text)))
unfolding chunk_document
document_indices find text max_tokens overlap_tokens =
    let cs = chunk_sections max_tokens overlap_tokens [] [] (split_sections find text) in
    (reindex-indices 0 cs ∙ ap (count_up 0) (sym (length-reindex 0 cs)), reindex-contents 0 cs)
