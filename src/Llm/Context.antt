-- ===== src/Llm/Context.antt =====
-- Context assembly under a token budget: `pack_context` of backend/app/llm/context.py.
pub mod Budget
pub mod Compress
use research_mind_ai.Prelude.{
  ℕ, ◌+◌, ◌-◌, ◌/◌, max, Text, join, Bool, Option, none, some, List, [], ◌∷◌, ◌++◌, length, ltb,
  leb, if◌then◌else◌, ◌≡◌,
}
use research_mind_ai.Retrieval.Sentences.{extract_supporting_sentences}

-- A passage: its text, and `copy.copy` with another text.
pub record Passages (C : Type 0) : Type 0 where
  pub content : C → Text
  pub with_content : Text → C → C
  pub content-with_content : (t : Text) (c : C) → content (with_content t c) ≡ t

pub record PackedContext (C : Type 0) : Type 0 where
  pub chunks : List C
  pub used_tokens : ℕ
  pub dropped_count : ℕ
  pub compressed_count : ℕ

unfoldable pub estimate_tokens : Text → ℕ
estimate_tokens text = max 1 (length text / 4)

-- The loop over the sentences, which breaks at the first that does not fit.
unfoldable pub fit_sentences : ℕ → ℕ → List Text → List Text
unfolding estimate_tokens
fit_sentences target used [] = []
fit_sentences target used (s ∷ ss) =
    let cost = estimate_tokens s in
    let rest = fit_sentences target (used + cost) ss in
    if ltb target (used + cost) then [] else s ∷ rest

module _ {C : Type 0} (passages : Passages C) (lower : Text → Text) (query : Text) where
  open passages use {content, with_content}

  abbrev pub chosen : C → ℕ → List Text
  chosen chunk target =
      fit_sentences target 0 (extract_supporting_sentences lower 6 query (content chunk))

  abbrev pub reduced_to : C → List Text → Option C
  reduced_to chunk [] = none
  reduced_to chunk (s ∷ ss) = some (with_content (join (32 ∷ []) (s ∷ ss)) chunk)

  -- No sentences, or none that fits, is None.
  unfoldable pub shrink_by_extraction : C → ℕ → Option C
  unfolding fit_sentences
  shrink_by_extraction chunk target = reduced_to chunk (chosen chunk target)

  -- What the loop does with one chunk, in a state of the four local variables.
  abbrev pub keep : C → PackedContext C → PackedContext C
  keep chunk p = record p {
    chunks = p.chunks ++ (chunk ∷ []);
    used_tokens = p.used_tokens + estimate_tokens (content chunk);
  }

  abbrev pub drop_chunk : PackedContext C → PackedContext C
  drop_chunk p = record p { dropped_count = p.dropped_count + 1 }

  abbrev pub keep_reduced : C → PackedContext C → PackedContext C
  keep_reduced chunk p = record p {
    chunks = p.chunks ++ (chunk ∷ []);
    used_tokens = p.used_tokens + estimate_tokens (content chunk);
    compressed_count = p.compressed_count + 1;
  }

  -- `budget - used` may be negative in the source, which is below 40 as 0 is.
  unfoldable pub pack_one : ℕ → C → PackedContext C → PackedContext C
  unfolding shrink_by_extraction
  pack_one budget chunk p =
      if leb (p.used_tokens + estimate_tokens (content chunk)) budget
      then keep chunk p
      else if ltb (budget - p.used_tokens) 40
      then drop_chunk p
      else elim (shrink_by_extraction chunk (budget - p.used_tokens)) [
        | none ↦ drop_chunk p
        | some reduced ↦ keep_reduced reduced p
      ]

  unfoldable pub pack_from : ℕ → List C → PackedContext C → PackedContext C
  pack_from budget [] p = p
  pack_from budget (c ∷ cs) p = pack_from budget cs (pack_one budget c p)

  -- budget = max(0, max_tokens - reserved_tokens)
  unfoldable pub pack_context : List C → ℕ → ℕ → PackedContext C
  unfolding pack_one pack_from
  pack_context chunks max_tokens reserved_tokens =
      pack_from (max_tokens - reserved_tokens) chunks
        (record { chunks = []; used_tokens = 0; dropped_count = 0; compressed_count = 0 })
