-- ===== src/Retrieval/Sentences.antt =====
-- `extract_supporting_sentences` of backend/app/retrieval/reranker.py.
use research_mind_ai.Prelude.{
  ℕ, Text, is_space, strip, Bool, true, false, ◌&&◌, ◌||◌, List, [], ◌∷◌, ◌++◌, ◌==◌, nat_eq,
  list_eq, take, map, contains, keep_if, length, ltb, leb, if◌then◌else◌, codes, ◌≡◌, refl, ◌≤◌,
  length-take-le, arith,
}
use research_mind_ai.Prelude.Sort.{sort_by}
use research_mind_ai.Retrieval.Sparse.{tokenize}

-- [.!?]
unfoldable pub ends_sentence : ℕ → Bool
ends_sentence c = c == b'.' || c == b'!' || c == b'?'

-- `_SENTENCE_SPLIT.split`: a run of white space after `.`, `!` or `?` separates. The flags say that
-- such a run is being skipped, and that the last character ends a sentence.
unfoldable pub split_from : Bool → Bool → Text → Text → List Text
unfolding ends_sentence
split_from skipping ended current [] = current ∷ []
split_from skipping ended current (c ∷ cs) = elim (skipping && is_space c) [
  | true ↦ split_from true false current cs
  | false ↦ elim (ended && is_space c) [
    | true ↦ current ∷ split_from true false [] cs
    | false ↦ split_from false (ends_sentence c) (current ++ (c ∷ [])) cs
  ]
]

unfoldable pub split_sentences : Text → List Text
unfolding split_from
split_sentences text = split_from false false [] text

split_sample :
    split_sentences (codes "One. Two?  Three 3.5 x!")
    ≡ map codes ("One." ∷ "Two?" ∷ "Three 3.5 x!" ∷ [])
unfolding split_sentences is_space
split_sample = refl

-- The elements of `set(terms)`.
unfoldable pub distinct : List Text → List Text
distinct [] = []
distinct (t ∷ ts) = let rest = distinct ts in if contains t ts then rest else t ∷ rest

-- len(query_terms & set(tokens))
unfoldable pub overlap : List Text → List Text → ℕ
unfolding distinct
overlap terms tokens = length (keep_if (λ t. contains t tokens) (distinct terms))

unfoldable pub scored_sentences : (Text → Text) → List Text → List Text → List (ℕ × Text)
unfolding overlap
scored_sentences lower terms [] = []
scored_sentences lower terms (sentence ∷ rest) =
    let others = scored_sentences lower terms rest in
    let cleaned = strip is_space sentence in
    let shared = overlap terms (tokenize lower cleaned) in
    if ltb (length cleaned) 20
    then others
    else if shared == 0
    then others
    else (shared, cleaned) ∷ others

abbrev pub by_overlap : ℕ × Text → ℕ × Text → Bool
by_overlap a b = leb b.0 a.0

abbrev sentences_of : List (ℕ × Text) → List Text
sentences_of l = map (λ (e : ℕ × Text). e.1) l

unfoldable pub extract_supporting_sentences : (Text → Text) → ℕ → Text → Text → List Text
unfolding split_sentences scored_sentences
extract_supporting_sentences lower limit query text =
    let terms = tokenize lower query in
    if length terms == 0
    then []
    else sentences_of
        (take limit (sort_by by_overlap (scored_sentences lower terms (split_sentences text))))

length-sentences_of : (l : List (ℕ × Text)) → length (sentences_of l) ≡ length l
length-sentences_of [] = refl
length-sentences_of (e ∷ l) = ground (arith, length-sentences_of l)

-- At most `limit` sentences are returned.
pub length-extract-le :
    (lower : Text → Text) (limit : ℕ) (query text : Text)
    → length (extract_supporting_sentences lower limit query text) ≤ limit
unfolding extract_supporting_sentences
length-extract-le lower limit query text =
    let ranked =
      sort_by by_overlap (scored_sentences lower (tokenize lower query) (split_sentences text)) in
    ground (arith, length-sentences_of (take limit ranked), length-take-le limit ranked)
