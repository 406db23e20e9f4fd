-- ===== src/Ingestion/Chunks/Bounds.antt =====
-- How long the chunks of backend/app/ingestion/chunking.py can be.
use research_mind_ai.Prelude.{
  ℕ, zero, suc, ◌+◌, ◌-◌, ◌*◌, ◌≤◌, max, Text, is_space, ◌≡◌, inl, inr, Bool, false, not, ◌&&◌,
  ◌||◌, Bool-cases, Option, List, [], ◌∷◌, ◌++◌, take, drop, length, length-append, length-drop,
  length-take-le, leb, ltb, nat_eq, if◌then◌else◌, arith, All, All-append, All-keep_if,
  length-strip-le,
}
use research_mind_ai.Ingestion.Chunks.{
  Chunk, Section, Heading, Splitting, Packing, no_text, stripped, clean, cut_long, tail_of, flush,
  begin_piece, join_sentence, after_cuts, add_sentence, add_sentences, hard_split, flush_buffer,
  candidate, add_paragraph, add_paragraphs, parts_of, number_parts, chunk_text, split_paragraphs,
  min_chunk_chars, chunk_sections, pop_levels, reindex, chunk_document, split_sections,
}
use research_mind_ai.Retrieval.Sentences.{split_sentences}

-- The loop that cuts a long sentence ends with one that fits, on every fuel from the excess of its
-- length over the budget on.
pub cut_long_fits :
    (m o fuel : ℕ) (s : Text) → length s ≤ fuel + m → length (cut_long m o fuel s).1 ≤ m
unfolding cut_long
cut_long_fits m o zero s h = omega arith
cut_long_fits m o (suc fuel) s h =
    ground (arith, length-drop (max 1 (m - o)) s, cut_long_fits m o fuel (drop (max 1 (m - o)) s))

module _ (m o : ℕ) where
  -- A piece, or what becomes one.
  abbrev Fits : Text → Type 0
  Fits t = length t ≤ m + o + 1

  cut_long-Fits : (fuel : ℕ) (s : Text) → All Fits (cut_long m o fuel s).0
  unfolding cut_long
  cut_long-Fits zero s = tt
  cut_long-Fits (suc fuel) s = elim (Bool-cases (ltb m (length s))) [
    | inl long ↦ rw long (
      omega (arith, length-strip-le is_space (take m s), length-take-le m s),
      cut_long-Fits fuel (drop (max 1 (m - o)) s),
    )
    | inr short ↦ rw short tt
  ]

  abbrev IsSplitting : Splitting → Type 0
  IsSplitting s = All Fits s.pieces × Fits s.current

  push : (ps : List Text) (t : Text) → All Fits ps → Fits t → All Fits (ps ++ (stripped t ∷ []))
  push ps t a f = All-append Fits ps _ a (omega (arith, length-strip-le is_space t), tt)

  after_cuts-IsSplitting :
      (cuts : List Text) (s : Splitting)
      → All Fits cuts
      → IsSplitting s
      → IsSplitting (after_cuts cuts s)
  after_cuts-IsSplitting [] s c h = h
  after_cuts-IsSplitting (p ∷ ps) s c h =
      (All-append Fits (flush s).pieces (p ∷ ps) (flushed s h) c, omega arith)
    where
      flushed : (s : Splitting) → IsSplitting s → All Fits (flush s).pieces
      flushed s h = elim (Bool-cases (no_text s.current)) [
        | inl e ↦ rw e h.0
        | inr e ↦ rw e (push s.pieces s.current h.0 h.1)
      ]

  length-tail-le : (t : Text) → length (tail_of o t) ≤ o
  length-tail-le t = ground (arith, length-drop (length t - o) t)

  -- What is joined fits, once the piece before it was pushed where it had to be.
  finish_sentence :
      (left : Text) (s : Splitting)
      → length left ≤ m
      → IsSplitting s
      → IsSplitting (join_sentence left (begin_piece m o left s))
  finish_sentence left s short h =
      elim (Bool-cases (not (no_text s.current) && ltb m (length s.current + length left + 1))) [
        | inl full ↦ rw full (
          push s.pieces s.current h.0 h.1,
          omega (
            arith,
            length-strip-le is_space (tail_of o s.current ++ (32 ∷ left)),
            length-append (tail_of o s.current) (32 ∷ left),
            length-tail-le s.current,
          ),
        )
        | inr room ↦ rw room (
          h.0,
          ground (
            arith,
            length-strip-le is_space (s.current ++ (32 ∷ left)),
            length-append s.current (32 ∷ left),
          ),
        )
      ]

  add_sentence-IsSplitting :
      (t : Text) (s : Splitting) → IsSplitting s → IsSplitting (add_sentence m o t s)
  unfolding add_sentence
  add_sentence-IsSplitting t s h =
      let (cuts, left) = cut_long m o (length t) t in
      finish_sentence left (after_cuts cuts s) (cut_long_fits m o (length t) t (omega arith))
        (after_cuts-IsSplitting cuts s (cut_long-Fits (length t) t) h)

  add_sentences-IsSplitting :
      (ts : List Text) (s : Splitting) → IsSplitting s → IsSplitting (add_sentences m o ts s)
  unfolding add_sentences
  add_sentences-IsSplitting [] s h = h
  add_sentences-IsSplitting (t ∷ ts) s h =
      add_sentences-IsSplitting ts (add_sentence m o t s) (add_sentence-IsSplitting t s h)

  hard_split-Fits : (text : Text) → All Fits (hard_split text m o)
  unfolding hard_split
  hard_split-Fits text =
      let s = add_sentences m o (split_sentences text) (record { pieces = []; current = [] }) in
      let (a, f) =
        add_sentences-IsSplitting (split_sentences text) (record { pieces = []; current = [] })
          (tt, omega arith) in
      All-keep_if Fits (λ p. not (no_text p))
        (if no_text (stripped s.current) then s.pieces else s.pieces ++ (stripped s.current ∷ []))
        (elim (Bool-cases (no_text (stripped s.current))) [
          | inl e ↦ rw e a
          | inr e ↦ rw e (push s.pieces s.current a f)
        ])

  abbrev IsPacking : Packing → Type 0
  IsPacking p = All Fits p.parts × (length p.buffer ≤ m)

  flush_buffer-Fits : (p : Packing) → IsPacking p → All Fits (flush_buffer p)
  flush_buffer-Fits p h = elim (Bool-cases (no_text p.buffer)) [
    | inl e ↦ rw e h.0
    | inr e ↦ rw e (All-append Fits p.parts _ h.0 (omega arith, tt))
  ]

  add_paragraph-IsPacking :
      (t : Text) (p : Packing) → IsPacking p → IsPacking (add_paragraph m o t p)
  unfolding add_paragraph
  add_paragraph-IsPacking t p h = elim (Bool-cases (ltb m (length t))) [
    | inl long ↦ rw long (
      All-append Fits (flush_buffer p) _ (flush_buffer-Fits p h) (hard_split-Fits t),
      omega arith,
    )
    | inr short ↦ elim (Bool-cases (ltb m (length (candidate p.buffer t)))) [
      | inl full ↦ rw (short, full) (All-append Fits p.parts _ h.0 (omega arith, tt), ground arith)
      | inr room ↦ rw (short, room) (h.0, ground arith)
    ]
  ]

  add_paragraphs-IsPacking :
      (ts : List Text) (p : Packing) → IsPacking p → IsPacking (add_paragraphs m o ts p)
  unfolding add_paragraphs
  add_paragraphs-IsPacking [] p h = h
  add_paragraphs-IsPacking (t ∷ ts) p h =
      add_paragraphs-IsPacking ts (add_paragraph m o t p) (add_paragraph-IsPacking t p h)

  -- Some text, and not too long.
  abbrev pub IsPart : Text → Type 0
  IsPart t = (1 ≤ length t) × (length t ≤ m + o + 1)

  clean-IsPart : (ts : List Text) → All Fits ts → All IsPart (clean ts)
  unfolding clean
  clean-IsPart [] a = tt
  clean-IsPart (t ∷ ts) a = elim (Bool-cases (no_text (stripped t))) [
    | inl e ↦ rw e (clean-IsPart ts a.1)
    | inr e ↦
        rw e (
          (has_text (stripped t) e, omega (arith, length-strip-le is_space t)),
          clean-IsPart ts a.1,
        )
  ]
    where
      has_text : (s : Text) → no_text s ≡ false → 1 ≤ length s
      has_text [] e = cc
      has_text (c ∷ cs) e = omega arith

  parts-IsPart : (text : Text) → All IsPart (parts_of text m o)
  parts-IsPart text =
      let start : Packing = record { parts = []; buffer = [] } in
      let p = add_paragraphs m o (split_paragraphs text) start in
      clean-IsPart (flush_buffer p) (
        flush_buffer-Fits p
          (add_paragraphs-IsPacking (split_paragraphs text) start (tt, omega arith)))

  numbered-IsPart :
      (all : Bool) (path : Option Text) (i : ℕ) (ts : List Text)
      → All IsPart ts
      → All (λ (c : Chunk). IsPart c.content) (number_parts all path i ts)
  unfolding number_parts
  numbered-IsPart all path i [] a = tt
  numbered-IsPart all path i (t ∷ ts) a =
      elim (Bool-cases (all || leb min_chunk_chars (length t))) [
        | inl e ↦ rw e (a.0, numbered-IsPart all path (i + 1) ts a.1)
        | inr e ↦ rw e (numbered-IsPart all path (i + 1) ts a.1)
      ]

-- Every chunk of a text has some text, at most the budget and the overlap and one character of it,
-- at 4 characters for a token.
pub chunk_text_bounds :
    (text : Text) (max_tokens overlap_tokens : ℕ) (path : Option Text) (start : ℕ)
    → All
        (λ (c : Chunk). IsPart (max_tokens * 4) (overlap_tokens * 4) c.content)
        (chunk_text text max_tokens overlap_tokens path start)
unfolding chunk_text
chunk_text_bounds text max_tokens overlap_tokens path start =
    let parts = parts_of text (max_tokens * 4) (overlap_tokens * 4) in
    numbered-IsPart (max_tokens * 4) (overlap_tokens * 4) (leb (length parts) 1) path start parts
      (parts-IsPart (max_tokens * 4) (overlap_tokens * 4) text)

sections_bounds :
    (max_tokens overlap_tokens : ℕ) (stack : List (ℕ × Text)) (cs : List Chunk) (ss : List Section)
    → All (λ (c : Chunk). IsPart (max_tokens * 4) (overlap_tokens * 4) c.content) cs
    → All
        (λ (c : Chunk). IsPart (max_tokens * 4) (overlap_tokens * 4) c.content)
        (chunk_sections max_tokens overlap_tokens stack cs ss)
unfolding chunk_sections
sections_bounds m o stack cs [] a = a
sections_bounds m o stack cs (s ∷ ss) a =
    let stack' = (s.level, s.title) ∷ pop_levels s.level stack in
    sections_bounds m o stack' _ ss (
      All-append (λ (c : Chunk). IsPart (m * 4) (o * 4) c.content) cs _ a
        (chunk_text_bounds s.text m o _ (length cs)))

reindex_bounds :
    (P : Text → Type 0) (i : ℕ) (cs : List Chunk)
    → All (λ (c : Chunk). P c.content) cs
    → All (λ (c : Chunk). P c.content) (reindex i cs)
unfolding reindex
reindex_bounds P i [] a = tt
reindex_bounds P i (c ∷ cs) a = (a.0, reindex_bounds P (i + 1) cs a.1)

-- Wherever its headings are, every chunk of a document has some text, and at most the budget, the
-- overlap and one character of it, at 4 characters for a token.
pub document_bounds :
    (find : Text → List Heading) (text : Text) (max_tokens overlap_tokens : ℕ)
    → All
        (λ (c : Chunk). IsPart (max_tokens * 4) (overlap_tokens * 4) c.content)
        (chunk_document find text max_tokens overlap_tokens)
unfolding chunk_document
document_bounds find text m o =
    reindex_bounds (IsPart (m * 4) (o * 4)) 0 _
      (sections_bounds m o [] [] (split_sections find text) tt)
