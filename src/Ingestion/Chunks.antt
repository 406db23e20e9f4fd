-- ===== src/Ingestion/Chunks.antt =====
-- Chunking of a paper: backend/app/ingestion/chunking.py. Where the heading pattern matches is a
-- parameter, and so are the title and the level that a match gives.
pub mod Bounds
pub mod Order
use research_mind_ai.Prelude.{
  ℕ, zero, suc, ◌+◌, ◌-◌, ◌*◌, ◌/◌, max, Text, codes, is_space, strip, join, Bool, true, false, not,
  ◌&&◌, ◌||◌, Option, none, some, List, [], ◌∷◌, ◌++◌, map, take, drop, length, keep_if, leb, ltb,
  ◌==◌, nat_eq, if◌then◌else◌,
}
use research_mind_ai.Retrieval.Sentences.{split_sentences}

abbrev pub chars_per_token : ℕ
chars_per_token = 4

abbrev pub min_chunk_chars : ℕ
min_chunk_chars = 80

pub record Section : Type 0 where
  pub title : Text
  pub level : ℕ
  pub text : Text
  pub start_offset : ℕ

pub record Chunk : Type 0 where
  pub index : ℕ
  pub content : Text
  pub section_path : Option Text
  pub token_estimate : ℕ
  pub page_number : Option ℕ
  pub kind : Text

unfoldable pub estimate_tokens : Text → ℕ
estimate_tokens text = max 1 (length text / chars_per_token)

abbrev pub no_text : Text → Bool
no_text [] = true
no_text (c ∷ cs) = false

abbrev pub stripped : Text → Text
stripped t = strip is_space t

-- [p.strip() for p in parts if p.strip()]
unfoldable pub clean : List Text → List Text
clean parts = keep_if (λ p. not (no_text p)) (map stripped parts)

-- A match of the heading pattern.
pub record Heading : Type 0 where
  pub start : ℕ
  pub stop : ℕ
  pub title : Text
  pub level : ℕ

-- The sections of the matches, in a text with the given length.
unfoldable pub sections_of : Text → List Heading → List Section
sections_of text [] = []
sections_of text (h ∷ hs) =
    let rest = sections_of text hs in
    let end : ℕ = elim hs [ [] ↦ length text | next ∷ _ ↦ next.start ] in
    let body = stripped (take (end - h.stop) (drop h.stop text)) in
    if no_text body
    then rest
    else record { title = h.title; level = h.level; text = body; start_offset = h.start } ∷ rest

abbrev pub whole : Text → Text → List Section
whole title body =
    if no_text body
    then []
    else record { title = title; level = 1; text = body; start_offset = 0 } ∷ []

unfoldable pub split_sections : (Text → List Heading) → Text → List Section
unfolding sections_of
split_sections find text = elim (find text) [
  | [] ↦ whole (codes "Document") (stripped text)
  | h ∷ hs ↦
      whole (codes "Front Matter") (stripped (take h.start text)) ++ sections_of text (h ∷ hs)
]

-- re.split(r"\n[ \t]*\n", text): the paragraph so far, and the blanks after a newline that may
-- begin a separator.
unfoldable pub cut_paragraphs : Text → Option Text → Text → List Text
cut_paragraphs current none [] = current ∷ []
cut_paragraphs current (some blanks) [] = (current ++ (10 ∷ blanks)) ∷ []
cut_paragraphs current none (c ∷ cs) = elim (c == 10) [
  | true ↦ cut_paragraphs current (some []) cs
  | false ↦ cut_paragraphs (current ++ (c ∷ [])) none cs
]
cut_paragraphs current (some blanks) (c ∷ cs) = elim (c == 10) [
  | true ↦ current ∷ cut_paragraphs [] none cs
  | false ↦ elim (c == 32 || c == 9) [
    | true ↦ cut_paragraphs current (some (blanks ++ (c ∷ []))) cs
    | false ↦ cut_paragraphs (current ++ (10 ∷ (blanks ++ (c ∷ [])))) none cs
  ]
]

unfoldable pub split_paragraphs : Text → List Text
unfolding cut_paragraphs clean
split_paragraphs text = elim (clean (cut_paragraphs [] none text)) [
  | [] ↦ if no_text (stripped text) then [] else stripped text ∷ []
  | p ∷ ps ↦ p ∷ ps
]

-- `while len(sentence) > max_chars`: the pieces that it cuts, and the sentence that is left. A
-- round takes at least one character away, so the length of the sentence is fuel enough.
unfoldable pub cut_long : ℕ → ℕ → ℕ → Text → List Text × Text
cut_long max_chars overlap zero sentence = ([], sentence)
cut_long max_chars overlap (suc fuel) sentence =
    let (pieces, left) =
      cut_long max_chars overlap fuel (drop (max 1 (max_chars - overlap)) sentence) in
    if ltb max_chars (length sentence)
    then (stripped (take max_chars sentence) ∷ pieces, left)
    else ([], sentence)

pub record Splitting : Type 0 where
  pub pieces : List Text
  pub current : Text

abbrev pub flush : Splitting → Splitting
flush s = record {
  pieces = if no_text s.current then s.pieces else s.pieces ++ (stripped s.current ∷ []);
  current = [];
}

-- current[-overlap_chars:] if overlap_chars else ""
abbrev pub tail_of : ℕ → Text → Text
tail_of overlap t = if overlap == 0 then [] else drop (length t - overlap) t

abbrev pub begin_piece : ℕ → ℕ → Text → Splitting → Splitting
begin_piece max_chars overlap sentence s =
    if not (no_text s.current) && ltb max_chars (length s.current + length sentence + 1)
    then record {
      pieces = s.pieces ++ (stripped s.current ∷ []);
      current = tail_of overlap s.current;
    }
    else s

abbrev pub join_sentence : Text → Splitting → Splitting
join_sentence sentence s = record s { current = stripped (s.current ++ (32 ∷ sentence)) }

-- After the cuts of a long sentence, which first flush the current piece.
abbrev pub after_cuts : List Text → Splitting → Splitting
after_cuts [] s = s
after_cuts (p ∷ ps) s = let f = flush s in record f { pieces = f.pieces ++ (p ∷ ps) }

-- The body of the loop over the sentences.
unfoldable pub add_sentence : ℕ → ℕ → Text → Splitting → Splitting
unfolding cut_long
add_sentence max_chars overlap sentence s =
    let (cuts, left) = cut_long max_chars overlap (length sentence) sentence in
    join_sentence left (begin_piece max_chars overlap left (after_cuts cuts s))

unfoldable pub add_sentences : ℕ → ℕ → List Text → Splitting → Splitting
unfolding add_sentence
add_sentences max_chars overlap [] s = s
add_sentences max_chars overlap (t ∷ ts) s =
    add_sentences max_chars overlap ts (add_sentence max_chars overlap t s)

unfoldable pub hard_split : Text → ℕ → ℕ → List Text
unfolding add_sentences
hard_split text max_chars overlap =
    let s =
      add_sentences max_chars overlap (split_sentences text)
        (record { pieces = []; current = [] }) in
    keep_if (λ p. not (no_text p))
      (if no_text (stripped s.current) then s.pieces else s.pieces ++ (stripped s.current ∷ []))

pub record Packing : Type 0 where
  pub parts : List Text
  pub buffer : Text

abbrev pub flush_buffer : Packing → List Text
flush_buffer p = if no_text p.buffer then p.parts else p.parts ++ (p.buffer ∷ [])

abbrev pub candidate : Text → Text → Text
candidate buffer paragraph = if no_text buffer then paragraph else buffer ++ (10 ∷ 10 ∷ paragraph)

unfoldable pub add_paragraph : ℕ → ℕ → Text → Packing → Packing
unfolding hard_split
add_paragraph max_chars overlap paragraph p =
    if ltb max_chars (length paragraph)
    then record { parts = flush_buffer p ++ hard_split paragraph max_chars overlap; buffer = [] }
    else if ltb max_chars (length (candidate p.buffer paragraph))
    then record { parts = p.parts ++ (p.buffer ∷ []); buffer = paragraph }
    else record p { buffer = candidate p.buffer paragraph }

unfoldable pub add_paragraphs : ℕ → ℕ → List Text → Packing → Packing
unfolding add_paragraph
add_paragraphs max_chars overlap [] p = p
add_paragraphs max_chars overlap (t ∷ ts) p =
    add_paragraphs max_chars overlap ts (add_paragraph max_chars overlap t p)

abbrev pub parts_of : Text → ℕ → ℕ → List Text
parts_of text max_chars overlap = clean (
    flush_buffer (
      add_paragraphs max_chars overlap (split_paragraphs text)
        (record { parts = []; buffer = [] })))

-- The chunks of the parts that are kept, counted from an offset over all parts.
unfoldable pub number_parts : Bool → Option Text → ℕ → List Text → List Chunk
unfolding estimate_tokens
number_parts keep_all path i [] = []
number_parts keep_all path i (t ∷ ts) =
    let rest = number_parts keep_all path (i + 1) ts in
    if keep_all || leb min_chunk_chars (length t)
    then record {
      index = i;
      content = t;
      section_path = path;
      token_estimate = estimate_tokens t;
      page_number = none;
      kind = codes "text";
    }
      ∷ rest
    else rest

unfoldable pub chunk_text : Text → ℕ → ℕ → Option Text → ℕ → List Chunk
unfolding add_paragraphs number_parts split_paragraphs
chunk_text text max_tokens overlap_tokens path start_index =
    let parts = parts_of text (max_tokens * chars_per_token) (overlap_tokens * chars_per_token) in
    number_parts (leb (length parts) 1) path start_index parts

-- The stack of headings, the top first.
unfoldable pub pop_levels : ℕ → List (ℕ × Text) → List (ℕ × Text)
pop_levels level [] = []
pop_levels level ((l, t) ∷ stack) =
    let rest = pop_levels level stack in if leb level l then rest else (l, t) ∷ stack

abbrev pub titles : List (ℕ × Text) → List Text
titles [] = []
titles ((l, t) ∷ stack) = titles stack ++ (t ∷ [])

unfoldable pub chunk_sections : ℕ → ℕ → List (ℕ × Text) → List Chunk → List Section → List Chunk
unfolding chunk_text pop_levels
chunk_sections max_tokens overlap_tokens stack chunks [] = chunks
chunk_sections max_tokens overlap_tokens stack chunks (s ∷ ss) =
    let stack' = (s.level, s.title) ∷ pop_levels s.level stack in
    chunk_sections max_tokens overlap_tokens stack'
      (chunks
        ++ chunk_text s.text max_tokens overlap_tokens (some (join (codes " > ") (titles stack')))
            (length chunks))
      ss

unfoldable pub reindex : ℕ → List Chunk → List Chunk
reindex i [] = []
reindex i (c ∷ cs) = record c { index = i } ∷ reindex (i + 1) cs

unfoldable pub chunk_document : (Text → List Heading) → Text → ℕ → ℕ → List Chunk
unfolding chunk_sections reindex split_sections
chunk_document find text max_tokens overlap_tokens =
    reindex 0 (chunk_sections max_tokens overlap_tokens [] [] (split_sections find text))
