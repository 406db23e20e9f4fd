-- ===== src/Eval/Metrics/Bounds.antt =====
-- The metrics of backend/app/eval/metrics.py are between 0 and 1.
use research_mind_ai.Prelude.{
  ℕ, suc, ◌≤◌, Text, strip, is_space, join, ◌≡◌, ◌≢◌, refl, sym, inl, inr, Bool, true, false,
  Bool-cases, Option-cases, Option, ◌∙◌, ◌*◌, ◌+◌, none, some, List, [], ◌∷◌, length,
  length-keep_if-le, contains, ltb, ◌==◌, EqOps, nat_eq, list_eq, if◌then◌else◌, arith, All, All→In,
  In, NoRepeat, In-contains,
}
use mathlib.Core.Path.{subst}
use research_mind_ai.Prelude.Sort.{IsSorted}
use research_mind_ai.Retrieval.Service.{is_empty}
use research_mind_ai.Llm.Citations.{
  second_digit, first_digit, marker_at, markers, extract_citations,
}
use research_mind_ai.Llm.Citations.Laws.{cited_iff, citations_strict}
use research_mind_ai.Eval.Metrics.{
  Fraction, nothing, whole, set_of, content_words, clean_sentences, share_of, share_where,
  faithfulness, answer_relevancy, is_relevant, context_precision, recall_of, context_recall,
  number_from, from_digit, any_marker_at, any_markers, valid_share, citation_validity, count_or,
  score_case,
}

abbrev pub IsShare : Fraction → Type 0
IsShare f = (f.num ≤ f.den) × (1 ≤ f.den)

module _ (lower : Text → Text) where
  share_of-IsShare :
      (e : Fraction) (xs ys : List Text) → IsShare e → IsShare (share_of lower e xs ys)
  share_of-IsShare e [] ys h = h
  share_of-IsShare e (x ∷ xs) ys h = (length-keep_if-le (λ t. contains t ys) (x ∷ xs), omega arith)

  share_where-IsShare : {A : Type 0} (p : A → Bool) (xs : List A) → IsShare (share_where lower p xs)
  share_where-IsShare p [] = (omega arith, omega arith)
  share_where-IsShare p (x ∷ xs) = (length-keep_if-le p (x ∷ xs), omega arith)

  faithfulness-IsShare :
      (answer : Text) (contexts : List Text) → IsShare (faithfulness lower answer contexts)
  unfolding faithfulness
  faithfulness-IsShare answer contexts =
      elim (Bool-cases (is_empty (strip is_space (join (32 ∷ []) contexts)))) [
        | inl e ↦ rw (e, faithfulness) (omega arith, omega arith)
        | inr e ↦ rw (e, faithfulness) (share_where-IsShare _ (clean_sentences lower answer))
      ]

  answer_relevancy-IsShare :
      (question answer : Text) → IsShare (answer_relevancy lower question answer)
  unfolding answer_relevancy
  answer_relevancy-IsShare question answer = elim (Bool-cases (is_empty (strip is_space answer))) [
    | inl e ↦ rw (e, answer_relevancy) (omega arith, omega arith)
    | inr e ↦
        rw (e, answer_relevancy)
          (share_of-IsShare nothing (content_words lower question) (content_words lower answer)
            (omega arith, omega arith))
  ]

  recall_of-IsShare : (ts contexts : List Text) → IsShare (recall_of lower ts contexts)
  recall_of-IsShare [] contexts = (omega arith, omega arith)
  recall_of-IsShare (t ∷ ts) [] = (omega arith, omega arith)
  recall_of-IsShare (t ∷ ts) (c ∷ cs) = share_of-IsShare whole (t ∷ ts) _ (omega arith, omega arith)

-- A list without repetitions is at most as long as a list that has its elements.
module _ {A : Type 0} ⦃e : EqOps A⦄ where
  remove_one : A → List A → List A
  remove_one x [] = []
  remove_one x (y ∷ ys) = let rest = remove_one x ys in if y == x then ys else y ∷ rest

  length-remove_one : (x : A) (ys : List A) → In x ys → suc (length (remove_one x ys)) ≡ length ys
  unfolding remove_one
  length-remove_one x [] i = absurd i
  length-remove_one x (y ∷ ys) i = ground (arith, e.same_iff y x, length-remove_one x ys)

  In-remove_one : (x z : A) (ys : List A) → x ≢ z → In z ys → In z (remove_one x ys)
  unfolding remove_one
  In-remove_one x z [] d i = i
  In-remove_one x z (y ∷ ys) d i = ground (arith, e.same_iff y x, In-remove_one x z ys d)

  length-NoRepeat-le :
      (xs ys : List A) → NoRepeat xs → ((x : A) → In x xs → In x ys) → length xs ≤ length ys
  length-NoRepeat-le [] ys h f = omega arith
  length-NoRepeat-le (x ∷ xs) ys h f =
      let rest =
        length-NoRepeat-le xs (remove_one x ys) h.1
          (λ z i. In-remove_one x z ys (All→In (λ y. x ≢ y) xs h.0 z i) (f z (inr i))) in
      omega (arith, length-remove_one x ys (f x (inl refl)))

  In-set_of : (x : A) (xs : List A) → In x xs → In x (set_of xs)
  unfolding set_of
  In-set_of x (y ∷ ys) i = elim (Bool-cases (contains y (set_of ys))) [
    | inl old ↦ rw old (elim i [
      | inl p ↦ subst (λ z. In z (set_of ys)) (sym p) (In-contains y (set_of ys) old)
      | inr j ↦ In-set_of x ys j
    ])
    | inr new ↦ rw new (elim i [ inl p ↦ inl p | inr j ↦ inr (In-set_of x ys j) ])
  ]
  In-set_of x [] i = absurd i

ltb-NoRepeat : (xs : List ℕ) → IsSorted ltb xs → NoRepeat xs
ltb-NoRepeat [] s = tt
ltb-NoRepeat (x ∷ xs) s = (apart xs s.0, ltb-NoRepeat xs s.1)
  where
    apart : (ys : List ℕ) → All (λ y. ltb x y ≡ true) ys → All (λ y. x ≢ y) ys
    apart [] a = tt
    apart (y ∷ ys) a = (ground (arith, a.0), apart ys a.1)

module _ (digit : ℕ → Option ℕ) where
  closed : (n c : ℕ) (cs : Text) → (c == b']') ≡ true → number_from digit n (c ∷ cs) ≡ some n
  unfolding number_from
  closed n c cs e = elim (Option-cases (digit c)) [
    | inl q ↦ ground (arith, q, e)
    | inr (d, q) ↦ ground (arith, q, e)
  ]

  second_digit-any :
      (a c n : ℕ) (rest : Text)
      → (c == b']') ≡ false
      → second_digit digit a (digit c) rest ≡ some n
      → number_from digit a (c ∷ rest) ≡ some n
  unfolding number_from
  second_digit-any a c n rest e h = elim (Option-cases (digit c)) [
    | inl q ↦ absurd (cc (rw q at h))
    | inr (d, q) ↦ ground (arith, q, e, longer d rest (rw q at h))
  ]
    where
      longer :
          (d : ℕ) (cs : Text)
          → second_digit digit a (some d) cs ≡ some n
          → number_from digit (a * 10 + d) cs ≡ some n
      longer d [] q = absurd (cc q)
      longer d (x ∷ xs) q = elim (Bool-cases (x == b']')) [
        | inl p ↦ closed (a * 10 + d) x xs p ∙ (rw p at q)
        | inr p ↦ absurd (cc (rw p at q))
      ]

  first_digit-any :
      (o : Option ℕ) (rest : Text) (n : ℕ)
      → first_digit digit o rest ≡ some n
      → from_digit digit o rest ≡ some n
  first_digit-any none rest n h = absurd (cc h)
  first_digit-any (some a) [] n h = absurd (cc h)
  first_digit-any (some a) (b ∷ rest) n h = elim (Bool-cases (b == b']')) [
    | inl e ↦ closed a b rest e ∙ (rw e at h)
    | inr e ↦ second_digit-any a b n rest e (rw e at h)
  ]

  -- A marker of one or two digits is a marker.
  marker_at-any : (t : Text) (n : ℕ) → marker_at digit t ≡ some n → any_marker_at digit t ≡ some n
  unfolding marker_at any_marker_at
  marker_at-any [] n h = absurd (cc h)
  marker_at-any (o ∷ []) n h = absurd (cc h)
  marker_at-any (o ∷ a ∷ rest) n h = elim (Bool-cases (o == b'[')) [
    | inl e ↦ rw e (first_digit-any (digit a) rest n (rw e at h))
    | inr e ↦ absurd (cc (rw e at h))
  ]

  In-any_markers : (n : ℕ) (t : Text) → In n (markers digit t) → In n (any_markers digit t)
  unfolding markers any_markers
  In-any_markers n [] i = absurd i
  In-any_markers n (c ∷ cs) i = go (λ j. In-any_markers n cs j) (marker_at digit (c ∷ cs)) refl i
    where
      later :
          (o : Option ℕ)
          → In n (any_markers digit cs)
          → In n (elim o as (λ _. List ℕ) [
            | none ↦ any_markers digit cs
            | some m ↦ m ∷ any_markers digit cs
          ])
      later none j = j
      later (some m) j = inr j

      go :
          (In n (markers digit cs) → In n (any_markers digit cs))
          → (o : Option ℕ) → marker_at digit (c ∷ cs) ≡ o
          → In n
              (elim o as (λ _. List ℕ) [ none ↦ markers digit cs | some m ↦ m ∷ markers digit cs ])
          → In n (any_markers digit (c ∷ cs))
      go rest none e j = later (any_marker_at digit (c ∷ cs)) (rest j)
      go rest (some m) e (inl same) = rw (marker_at-any (c ∷ cs) m e, any_markers) (inl same)
      go rest (some m) e (inr j) = later (any_marker_at digit (c ∷ cs)) (rest j)

  valid_share-IsShare :
      (answer : Text) (count : ℕ) (ns : List ℕ)
      → ((n : ℕ) → In n (markers digit answer) → In n ns)
      → IsShare (valid_share digit answer count ns)
  valid_share-IsShare answer count [] f = (omega arith, omega arith)
  valid_share-IsShare answer count (n ∷ ns) f = (
    length-NoRepeat-le (extract_citations digit answer count) (n ∷ ns)
        (ltb-NoRepeat (extract_citations digit answer count) (citations_strict digit answer count))
        (λ m i. f m ((cited_iff digit answer count m).0 i).0),
    omega arith,
  )

  citation_validity-IsShare :
      (answer : Text) (count : ℕ) → IsShare (citation_validity digit answer count)
  unfolding citation_validity
  citation_validity-IsShare answer count =
      valid_share-IsShare answer count (set_of (any_markers digit answer))
        (λ n i. In-set_of n (any_markers digit answer) (In-any_markers n answer i))

-- Each of the five scores of a case is a fraction from 0 to 1 with a denominator of at least 1:
-- also for an answer, a question or contexts without words, and for markers that point nowhere,
-- which leave no more valid citations than distinct markers.
pub score_case-IsShare :
    (digit : ℕ → Option ℕ) (lower : Text → Text) (question answer : Text) (contexts : List Text)
    (ground_truth : Text) (source_count : Option ℕ)
    → let s = score_case digit lower question answer contexts ground_truth source_count in
      IsShare s.faithful_share
      × IsShare s.relevancy
      × IsShare s.precision
      × IsShare s.recall
      × IsShare s.citations
unfolding score_case context_precision context_recall
score_case-IsShare digit lower question answer contexts ground_truth source_count = (
  faithfulness-IsShare lower answer contexts,
  answer_relevancy-IsShare lower question answer,
  share_where-IsShare lower (is_relevant lower question ground_truth) contexts,
  recalled (is_empty ground_truth),
  citation_validity-IsShare digit answer (count_or contexts source_count),
)
  where
    recalled :
        (b : Bool) → IsShare (if b then whole else context_recall lower ground_truth contexts)
    recalled true = (omega arith, omega arith)
    recalled false = recall_of-IsShare lower (content_words lower ground_truth) contexts
