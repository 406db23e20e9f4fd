-- ===== src/Eval/Metrics.antt =====
-- The lexical metrics of backend/app/eval/metrics.py. A score is the fraction that the source
-- divides; a set is a list without repetitions. A fraction is at least 0.3 if ten times its
-- numerator is at least three times its denominator.
pub mod Bounds
use research_mind_ai.Prelude.{
  ℕ, zero, suc, ◌+◌, ◌-◌, ◌*◌, Text, codes, strip, is_space, in_range, join, Bool, true, false, not,
  ◌&&◌, ◌||◌, Option, none, some, List, [], ◌∷◌, ◌++◌, map, length, keep_if, contains, leb, ◌==◌,
  EqOps, nat_eq, list_eq, if◌then◌else◌,
}
use research_mind_ai.Retrieval.Service.{is_empty}
use research_mind_ai.Retrieval.Sentences.{split_sentences}
use research_mind_ai.Llm.Citations.{extract_citations}

pub record Fraction : Type 0 where
  pub num : ℕ
  pub den : ℕ

abbrev pub nothing : Fraction
nothing = record { num = 0; den = 1 }

abbrev pub whole : Fraction
whole = record { num = 1; den = 1 }

pub record MetricScores : Type 0 where
  pub faithful_share : Fraction
  pub relevancy : Fraction
  pub precision : Fraction
  pub recall : Fraction
  pub citations : Fraction

abbrev pub ignored_words : List Text
ignored_words = map codes (
    "a" ∷ "an" ∷ "and" ∷ "are" ∷ "as" ∷ "at" ∷ "be" ∷ "by" ∷ "for" ∷ "from" ∷ "has" ∷ "have" ∷ "in"
    ∷ "is" ∷ "it" ∷ "its" ∷ "of" ∷ "on" ∷ "or" ∷ "that" ∷ "the" ∷ "to" ∷ "was" ∷ "were" ∷ "will"
    ∷ "with" ∷ "this" ∷ "these" ∷ "those" ∷ "we" ∷ "our" ∷ "they" ∷ "their" ∷ "he" ∷ "she" ∷ "them"
    ∷ "can" ∷ "could" ∷ "should" ∷ "would" ∷ "than" ∷ "then" ∷ "there" ∷ "here" ∷ "when" ∷ "where"
    ∷ "which" ∷ "who" ∷ "whom" ∷ "what" ∷ "how" ∷ "why" ∷ "do" ∷ "does" ∷ "did" ∷ "done" ∷ "been"
    ∷ "being" ∷ "also" ∷ "into" ∷ "over" ∷ "under" ∷ "between" ∷ "about" ∷ "such" ∷ "only" ∷ "very"
    ∷ "just" ∷ "now" ∷ "both" ∷ "each" ∷ "any" ∷ "all" ∷ "more" ∷ "most" ∷ "other" ∷ "some" ∷ [])

-- [a-z0-9] and [a-z0-9_\-.]
abbrev pub starts_word : ℕ → Bool
starts_word c = in_range b'a' b'z' c || in_range b'0' b'9' c

abbrev pub continues_word : ℕ → Bool
continues_word c = starts_word c || c == b'_' || c == b'-' || c == b'.'

-- re.findall, with the word that is being read.
unfoldable pub find_words : Text → Text → List Text
find_words [] [] = []
find_words (w ∷ ws) [] = (w ∷ ws) ∷ []
find_words [] (c ∷ cs) =
    let started = find_words (c ∷ []) cs in
    let skipped = find_words [] cs in if starts_word c then started else skipped
find_words (w ∷ ws) (c ∷ cs) =
    let longer = find_words (w ∷ (ws ++ (c ∷ []))) cs in
    let next = find_words [] cs in if continues_word c then longer else (w ∷ ws) ∷ next

-- The elements of a set.
module _ {A : Type 0} ⦃e : EqOps A⦄ where
  unfoldable pub set_of : List A → List A
  set_of [] = []
  set_of (x ∷ xs) = let rest = set_of xs in if contains x rest then rest else x ∷ rest

  -- len(a & b)
  abbrev pub shared : List A → List A → ℕ
  shared xs ys = length (keep_if (λ x. contains x ys) xs)

module _ (lower : Text → Text) where
  abbrev pub strip_marks : Text → Text
  strip_marks word = strip (λ c. c == b'.' || c == b'-' || c == b'_') word

  unfoldable pub content_words : Text → List Text
  unfolding find_words set_of
  content_words text = set_of (
      keep_if (λ t. leb 3 (length t) && not (contains t ignored_words))
        (map strip_marks (find_words [] (lower text))))

  abbrev pub clean_sentences : Text → List Text
  clean_sentences text =
      keep_if (λ s. not (is_empty s)) (map (strip is_space) (split_sentences text))

  -- The share of the terms that the evidence has; `empty` without terms.
  abbrev pub share_of : Fraction → List Text → List Text → Fraction
  share_of empty [] evidence = empty
  share_of empty (t ∷ ts) evidence = record {
    num = shared (t ∷ ts) evidence;
    den = length (t ∷ ts);
  }

  -- _overlap
  unfoldable pub overlap_share : Text → Text → Fraction
  unfolding content_words
  overlap_share claim evidence = share_of whole (content_words claim) (content_words evidence)

  -- … >= SUPPORT_THRESHOLD
  abbrev pub is_supported : Fraction → Bool
  is_supported f = leb (3 * f.den) (10 * f.num)

  abbrev pub count_of : {A : Type 0} → (A → Bool) → List A → ℕ
  count_of p xs = length (keep_if p xs)

  abbrev pub share_where : {A : Type 0} → (A → Bool) → List A → Fraction
  share_where p [] = nothing
  share_where p (x ∷ xs) = record { num = count_of p (x ∷ xs); den = length (x ∷ xs) }

  unfoldable pub faithfulness : Text → List Text → Fraction
  unfolding overlap_share
  faithfulness answer contexts =
      let evidence = join (32 ∷ []) contexts in
      if is_empty (strip is_space evidence)
      then nothing
      else share_where (λ s. is_supported (overlap_share s evidence)) (clean_sentences answer)

  unfoldable pub answer_relevancy : Text → Text → Fraction
  unfolding content_words
  answer_relevancy question answer =
      if is_empty (strip is_space answer)
      then nothing
      else share_of nothing (content_words question) (content_words answer)

  abbrev pub is_relevant : Text → Text → Text → Bool
  is_relevant question ground_truth context =
      is_supported (overlap_share question context)
      || (not (is_empty ground_truth) && is_supported (overlap_share ground_truth context))

  unfoldable pub context_precision : Text → List Text → Text → Fraction
  unfolding overlap_share
  context_precision question contexts ground_truth =
      share_where (is_relevant question ground_truth) contexts

  abbrev pub recall_of : List Text → List Text → Fraction
  recall_of [] contexts = whole
  recall_of (t ∷ ts) [] = nothing
  recall_of (t ∷ ts) (c ∷ cs) = share_of whole (t ∷ ts) (content_words (join (32 ∷ []) (c ∷ cs)))

  unfoldable pub context_recall : Text → List Text → Fraction
  unfolding content_words
  context_recall ground_truth contexts = recall_of (content_words ground_truth) contexts

-- `digit` is the value of a decimal digit of any script.
module _ (digit : ℕ → Option ℕ) where
  -- A match of \[(\d+)\]: the number, from what the digits so far make.
  unfoldable pub number_from : ℕ → Text → Option ℕ
  number_from number [] = none
  number_from number (c ∷ cs) = elim (digit c) [
    | none ↦ if c == b']' then some number else none
    | some d ↦
        let longer = number_from (number * 10 + d) cs in if c == b']' then some number else longer
  ]

  abbrev pub from_digit : Option ℕ → Text → Option ℕ
  from_digit none rest = none
  from_digit (some d) rest = number_from d rest

  unfoldable pub any_marker_at : Text → Option ℕ
  unfolding number_from
  any_marker_at (o ∷ a ∷ rest) = if o == b'[' then from_digit (digit a) rest else none
  any_marker_at _ = none

  unfoldable pub any_markers : Text → List ℕ
  unfolding any_marker_at
  any_markers [] = []
  any_markers (c ∷ cs) =
      let rest = any_markers cs in elim (any_marker_at (c ∷ cs)) [ none ↦ rest | some n ↦ n ∷ rest ]

  abbrev pub valid_share : Text → ℕ → List ℕ → Fraction
  valid_share answer source_count [] = nothing
  valid_share answer source_count (n ∷ ns) = record {
    num = length (extract_citations digit answer source_count);
    den = length (n ∷ ns);
  }

  unfoldable pub citation_validity : Text → ℕ → Fraction
  unfolding any_markers set_of
  citation_validity answer source_count =
      valid_share answer source_count (set_of (any_markers answer))

abbrev pub count_or : List Text → Option ℕ → ℕ
count_or contexts none = length contexts
count_or contexts (some n) = n

unfoldable pub score_case :
    (ℕ → Option ℕ) → (Text → Text) → Text → Text → List Text → Text → Option ℕ → MetricScores
unfolding faithfulness answer_relevancy context_precision context_recall citation_validity
score_case digit lower question answer contexts ground_truth source_count = record {
  faithful_share = faithfulness lower answer contexts;
  relevancy = answer_relevancy lower question answer;
  precision = context_precision lower question contexts ground_truth;
  recall = if is_empty ground_truth then whole else context_recall lower ground_truth contexts;
  citations = citation_validity digit answer (count_or contexts source_count);
}
