-- ===== src/Ingestion/Tests.antt =====
-- Chunking at concrete texts.
use research_mind_ai.Prelude.{
  ◌≤◌, ◌*◌, Text, codes, ◌≡◌, refl, List, [], ◌∷◌, All, length, arith, map, strip, is_space,
}
use research_mind_ai.Retrieval.Sentences.{split_sentences}
use research_mind_ai.Ingestion.Chunks.{
  Chunk, Heading, cut_long, chunk_document, hard_split, split_paragraphs,
}
use research_mind_ai.Ingestion.Chunks.Bounds.{cut_long_fits, document_bounds, IsPart}
use research_mind_ai.Ingestion.Chunks.Order.{contents}

abbrev paper : Text
paper = codes "A title.\n\nAn abstract.\n1 Methods\nWe did it. Twice."

abbrev find : Text → List Heading
find t = record { start = 23; stop = 32; title = codes "1 Methods"; level = 1 } ∷ []

document_bounds_example :
    All (λ (c : Chunk). IsPart (2 * 4) (1 * 4) c.content) (chunk_document find paper 2 1)
document_bounds_example = document_bounds find paper 2 1

cut_long_fits_example : length (cut_long 4 1 9 (codes "abcdefghijkl")).1 ≤ 4
cut_long_fits_example = cut_long_fits 4 1 9 (codes "abcdefghijkl") (omega arith)

two_chunks :
    contents (chunk_document find paper 512 64)
    ≡ codes "A title.\n\nAn abstract." ∷ codes "We did it. Twice." ∷ []
unfolding chunk_document strip is_space
two_chunks = refl

paragraphs : split_paragraphs (codes "a\n \nb\nc\n\n\nd") ≡ map codes ("a" ∷ "b\nc" ∷ "d" ∷ [])
unfolding split_paragraphs strip is_space
paragraphs = refl

-- A piece with its overlap can be longer than the budget of 10 characters.
long_piece :
    hard_split (codes "abcdefgh. ijklmnop.") 10 4 ≡ codes "abcdefgh." ∷ codes "fgh. ijklmnop." ∷ []
unfolding hard_split strip split_sentences is_space
long_piece = refl
