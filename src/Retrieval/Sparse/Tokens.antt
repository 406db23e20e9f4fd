-- ===== src/Retrieval/Sparse/Tokens.antt =====
-- `tokenize` of backend/app/retrieval/sparse.py.
use research_mind_ai.Prelude.{
  ℕ, Text, codes, in_range, is_digit, Bool, true, false, ◌&&◌, ◌||◌, not, Option, none, some, List,
  [], ◌∷◌, ◌++◌, map, ◌≡◌, refl, ◌==◌, nat_eq, list_eq, contains, length, ltb, keep_if,
}

abbrev pub stopwords : List Text
stopwords = map codes (
    "a" ∷ "an" ∷ "and" ∷ "are" ∷ "as" ∷ "at" ∷ "be" ∷ "by" ∷ "for" ∷ "from" ∷ "has" ∷ "have" ∷ "in"
    ∷ "is" ∷ "it" ∷ "its" ∷ "of" ∷ "on" ∷ "or" ∷ "that" ∷ "the" ∷ "to" ∷ "was" ∷ "were" ∷ "will"
    ∷ "with" ∷ "this" ∷ "these" ∷ "those" ∷ "we" ∷ "our" ∷ "us" ∷ "you" ∷ "your" ∷ "they" ∷ "their"
    ∷ [])

-- [a-z0-9]
unfoldable pub is_token_start : ℕ → Bool
unfolding is_digit
is_token_start c = in_range b'a' b'z' c || is_digit c

-- [a-z0-9\-_.]
unfoldable pub is_token_rest : ℕ → Bool
unfolding is_token_start
is_token_rest c = is_token_start c || c == b'-' || c == b'_' || c == b'.'

-- `_TOKEN_PATTERN.findall`; the first argument is the match under way.
unfoldable pub find_tokens : Option Text → Text → List Text
unfolding is_token_rest
find_tokens none [] = []
find_tokens (some t) [] = t ∷ []
find_tokens none (c ∷ cs) = elim (is_token_start c) [
  | true ↦ find_tokens (some (c ∷ [])) cs
  | false ↦ find_tokens none cs
]
find_tokens (some t) (c ∷ cs) = elim (is_token_rest c) [
  | true ↦ find_tokens (some (t ++ (c ∷ []))) cs
  | false ↦ t ∷ find_tokens none cs
]

unfoldable pub keeps_token : Text → Bool
keeps_token token = not (contains token stopwords) && ltb 1 (length token)

unfoldable pub tokenize : (Text → Text) → Text → List Text
unfolding find_tokens keeps_token
tokenize lower text = keep_if keeps_token (find_tokens none (lower text))

tokenize_sample :
    tokenize (λ s. s) (codes "the bert-base scores 10.5 on x, f1_score")
    ≡ map codes ("bert-base" ∷ "scores" ∷ "10.5" ∷ "f1_score" ∷ [])
unfolding tokenize
tokenize_sample = refl
