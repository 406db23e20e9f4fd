-- ===== src/Research/Claims.antt =====
-- Comparing the claims of papers: extract_claims and compare_claims of
-- backend/app/research/contradictions.py. The model behind the gateway is a parameter.
pub mod Pairs
pub mod Compare
pub mod Judged
use research_mind_ai.Prelude.{
  ℕ, zero, suc, ◌+◌, ◌*◌, Text, codes, strip, is_space, join, Bool, true, false, not, ◌&&◌, ◌||◌,
  Option, none, some, List, [], ◌∷◌, ◌++◌, map, length, take, keep_if, contains, leb, ltb, ◌==◌,
  nat_eq, list_eq, if◌then◌else◌,
}
use research_mind_ai.Prelude.Dict.{Dict, get, put}
use research_mind_ai.Prelude.Sort.{sort_by}
use research_mind_ai.Retrieval.Scores.{Floats, sort_by_score}
use research_mind_ai.Retrieval.Service.{is_empty}
use research_mind_ai.Retrieval.Sentences.{ends_sentence, distinct}
use research_mind_ai.Llm.Gateway.{Completion, Failure, Result, ok, raise, occurs_in}
use research_mind_ai.Llm.Json.{JsonReader, load_json_object}
use research_mind_ai.Graph.Schema.{words_from}
use research_mind_ai.Retrieval.Indexer.{DocumentChunk}

-- _split_sentences, with the sentence that is being read.
unfoldable pub cut_sentences : Text → Text → List Text
unfolding ends_sentence
cut_sentences [] [] = []
cut_sentences (c ∷ cs) [] = (c ∷ cs) ∷ []
cut_sentences current (c ∷ cs) =
    let ended = cut_sentences [] cs in
    let longer = cut_sentences (current ++ (c ∷ [])) cs in
    if ends_sentence c then (current ++ (c ∷ [])) ∷ ended else longer

abbrev pub claim_markers : List Text
claim_markers = map codes (
    "we find" ∷ "we show" ∷ "we observe" ∷ "results show" ∷ "our results" ∷ "outperforms"
    ∷ "improves" ∷ "degrades" ∷ "significantly" ∷ "demonstrates" ∷ "suggests that"
    ∷ "indicates that" ∷ "conclude" ∷ "however" ∷ "in contrast" ∷ [])

abbrev pub has_marker : List Text → Text → Bool
has_marker [] t = false
has_marker (m ∷ ms) t = occurs_in m t || has_marker ms t

module _ (lower : Text → Text) where
  abbrev pub fits_claim : Text → Bool
  fits_claim sentence = leb 60 (length sentence) && leb (length sentence) 600

  -- The loop over the sentences.
  unfoldable pub collect_claims : ℕ → List Text → List Text → List Text
  collect_claims limit claims [] = claims
  collect_claims limit claims (raw ∷ rest) =
      let sentence = strip is_space raw in
      let more =
        if has_marker claim_markers (lower sentence) then claims ++ (sentence ∷ []) else claims in
      let skipped = collect_claims limit claims rest in
      let onward = collect_claims limit more rest in
      if not (fits_claim sentence)
      then skipped
      else if leb limit (length more)
      then more
      else onward

  unfoldable pub extract_claims : Text → ℕ → List Text
  unfolding cut_sentences collect_claims
  extract_claims text limit = collect_claims limit [] (cut_sentences [] text)

  abbrev pub long_words : Text → List Text
  long_words t = distinct (keep_if (λ w. ltb 4 (length w)) (words_from [] (lower t)))

  -- _topical_overlap, as the sizes of the intersection and of the union.
  abbrev pub overlap_of : List Text → List Text → ℕ × ℕ
  overlap_of [] right = (0, 1)
  overlap_of (l ∷ ls) [] = (0, 1)
  overlap_of (l ∷ ls) (r ∷ rs) = (
    length (keep_if (λ w. contains w (r ∷ rs)) (l ∷ ls)),
    length (l ∷ ls) + length (keep_if (λ w. not (contains w (l ∷ ls))) (r ∷ rs)),
  )

  unfoldable pub topical_overlap : Text → Text → ℕ × ℕ
  unfolding distinct words_from
  topical_overlap left right = overlap_of (long_words left) (long_words right)

pub record Candidates : Type 0 where
  pub left_paper : Text
  pub left_claim : Text
  pub right_paper : Text
  pub right_claim : Text

module _ (lower : Text → Text) where
  abbrev pub Scored : Type 0
  Scored = (ℕ × ℕ) × Candidates

  -- overlap >= 0.25
  abbrev pub is_topical : Scored → Bool
  is_topical s = leb s.0.1 (4 * s.0.0)

  abbrev pub score_pair : Text → Text → Text → Text → Scored
  score_pair left left_claim right right_claim = (
    topical_overlap lower left_claim right_claim,
    record {
      left_paper = left;
      left_claim = left_claim;
      right_paper = right;
      right_claim = right_claim;
    },
  )

  unfoldable pub pairs_of_claims : Text → List Text → Text → List Text → List Scored
  unfolding topical_overlap
  pairs_of_claims left [] right right_claims = []
  pairs_of_claims left (c ∷ cs) right right_claims =
      keep_if is_topical (map (score_pair left c right) right_claims)
      ++ pairs_of_claims left cs right right_claims

  unfoldable pub pairs_with : Text → List Text → Dict Text (List Text) → List Scored
  unfolding pairs_of_claims
  pairs_with left claims [] = []
  pairs_with left claims ((right, right_claims) ∷ rest) =
      pairs_of_claims left claims right right_claims ++ pairs_with left claims rest

  unfoldable pub scored_pairs : Dict Text (List Text) → List Scored
  unfolding pairs_with
  scored_pairs [] = []
  scored_pairs ((left, claims) ∷ rest) = pairs_with left claims rest ++ scored_pairs rest

  abbrev pub more_topical : Scored → Scored → Bool
  more_topical a b = leb (b.0.0 * a.0.1) (a.0.0 * b.0.1)

  unfoldable pub candidate_pairs : Dict Text (List Text) → ℕ → List Candidates
  unfolding scored_pairs
  candidate_pairs claims_by_paper max_pairs =
      map (λ (s : Scored). s.1)
        (take max_pairs (sort_by more_topical (scored_pairs claims_by_paper)))
