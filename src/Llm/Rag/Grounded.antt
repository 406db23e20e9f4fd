-- ===== src/Llm/Rag/Grounded.antt =====
-- What an answer of backend/app/llm/rag.py rests on.
use research_mind_ai.Prelude.{
  ℕ, ◌≤◌, Text, inl, inr, Bool, true, false, ◌||◌, Bool-cases, Option, none, some, List, [], ◌∷◌,
  length, ◌==◌, nat_eq, list_eq, All, All-append, All-keep_if, In,
}
use research_mind_ai.Retrieval.Scores.{Floats}
use research_mind_ai.Retrieval.Service.{
  Database, RetrievalFilters, RetrievedChunk, Backends, is_empty,
}
use research_mind_ai.Retrieval.Service.Access.{IsFaithful, IsVisible}
use research_mind_ai.Retrieval.Service.Answer.{retrieve_authorized}
use research_mind_ai.Llm.Gateway.{Usage, no_usage, Completion}
use research_mind_ai.Llm.Citations.{markers}
use research_mind_ai.Llm.Citations.Laws.{cited_iff}
use research_mind_ai.Llm.Rag.{
  Grade, Verification, RagAnswer, Outside, grade_retrieval, rewrite_query, verify_answer,
  retrieved_passages, Gathered,
}
use research_mind_ai.Llm.Rag.Answer.{
  search_library, retry_search, correct, gather, answered, finish_answer, packed_sources,
  answer_from, answer_question,
}
use research_mind_ai.Llm.Rag.Outcome.{
  pack_context-All, verify_answer-Outcome, Outcome, on_success-Outcome, Any, ask-Outcome,
}

module _ (fl : Floats) {V : Type 0} (out : Outside fl.F V) (b : Backends fl.F)
    (faithful : IsFaithful b) (db : Database) (user : ℕ) (limit : ℕ) (filters : RetrievalFilters)
    (use_reranker : Bool) (pos : 1 ≤ limit) where
  open fl use {F}

  abbrev pub Visible : RetrievedChunk F → Type 0
  Visible c = IsVisible db user c.paper_id

  abbrev pub AllVisible : List (RetrievedChunk F) → Type 0
  AllVisible cs = All Visible cs

  pub search_library-Outcome :
      (query : Text)
      → Outcome out AllVisible (search_library fl out b db user limit filters use_reranker query)
  unfolding search_library
  search_library-Outcome query =
      let (rs, e, _, good) =
        retrieve_authorized fl b faithful db user query limit filters use_reranker pos in
      rw e good

  pub retry_search-Outcome :
      (question rewritten : Text) (chunks : List (RetrievedChunk F))
      → AllVisible chunks
      → Outcome out AllVisible
          (retry_search fl out b db user limit filters use_reranker question rewritten chunks)
  retry_search-Outcome question rewritten chunks good =
      elim (Bool-cases (is_empty rewritten || rewritten == question)) [
        | inl e ↦ rw e good
        | inr e ↦ rw e (
            on_success-Outcome out AllVisible AllVisible _ _ (search_library-Outcome rewritten)
              (λ retry more. All-append Visible chunks _ good (All-keep_if Visible _ retry more)))
      ]

  abbrev Good : Gathered F → Type 0
  Good g = AllVisible g.chunks

  grade_retrieval-Outcome :
      (question : Text) (chunks : List (RetrievedChunk F))
      → Outcome out (Any out) (grade_retrieval fl out question chunks)
  unfolding grade_retrieval
  grade_retrieval-Outcome question [] = tt
  grade_retrieval-Outcome question (c ∷ cs) =
      on_success-Outcome out (Any out) (Any out) _ _ (ask-Outcome out (Any out) _ (λ r e. tt))
        (λ r h. tt)

  correct-Outcome :
      (question : Text) (chunks : List (RetrievedChunk F)) (grade : Grade) (usage : Usage)
      → AllVisible chunks
      → Outcome out Good
          (correct fl out b db user limit filters use_reranker question chunks grade usage)
  unfolding correct rewrite_query
  correct-Outcome question chunks grade usage good = elim (Bool-cases grade.sufficient) [
    | inl e ↦ rw (e, correct) good
    | inr e ↦
        rw (e, correct)
          (on_success-Outcome out (Any out) Good _ _
            (on_success-Outcome out (Any out) (Any out) _ _
              (ask-Outcome out (Any out) _ (λ r q. tt)) (λ r h. tt))
            (λ p h.
              on_success-Outcome out AllVisible Good _ _
                (retry_search-Outcome question p.0 chunks good) (λ merged more. more)))
  ]

  gather-Outcome :
      (use_corrective : Bool) (question : Text)
      → Outcome out Good
          (gather fl out b db user limit filters use_reranker use_corrective question)
  unfolding gather
  gather-Outcome true question =
      on_success-Outcome out AllVisible Good _ _ (search_library-Outcome question) (λ chunks good.
        on_success-Outcome out (Any out) Good _ _ (grade_retrieval-Outcome question chunks)
          (λ p h. correct-Outcome question chunks p.0 _ good))
  gather-Outcome false question =
      on_success-Outcome out AllVisible Good _ _ (search_library-Outcome question)
        (λ chunks good. good)

  -- Each source is of a paper that the user may see, and each cited number stands in a marker of
  -- the answer and counts one of the sources.
  abbrev pub IsGrounded : RagAnswer F V → Type 0
  IsGrounded r =
      AllVisible r.sources
      × ((n : ℕ)
          → In n r.cited_indices
          → In n (markers out.digit r.answer) × (1 ≤ n) × (n ≤ length r.sources))

  packed_sources-Visible :
      (question : Text) (max_tokens : ℕ) (chunks : List (RetrievedChunk F))
      → AllVisible chunks
      → AllVisible
          (packed_sources fl out b db user limit filters use_reranker question max_tokens chunks)
  unfolding packed_sources
  packed_sources-Visible question max_tokens chunks good =
      pack_context-All (retrieved_passages fl out) b.lower question Visible (λ t c h. h) chunks
        max_tokens 1200 good

  answered-IsGrounded :
      (question : Text) (g : Gathered F) (sources : List (RetrievedChunk F)) (r : Completion)
      (v : Option (Verification F V)) (usage : Usage)
      → AllVisible sources
      → IsGrounded
          (answered fl out b db user limit filters use_reranker question g sources r v usage)
  answered-IsGrounded question g sources r v usage good =
      (good, λ n i. (cited_iff out.digit r.text (length sources) n).0 i)

  finish_answer-Outcome :
      (use_verification : Bool) (question : Text) (g : Gathered F)
      (sources : List (RetrievedChunk F)) (r : Completion)
      → AllVisible sources
      → Outcome out IsGrounded (
          finish_answer fl out b db user limit filters use_reranker use_verification question g
            sources r)
  unfolding finish_answer
  finish_answer-Outcome true question g sources r good =
      on_success-Outcome out {A = Verification F V × Usage} {B = RagAnswer F V} (Any out) IsGrounded
        (verify_answer fl out question r.text sources) _
        (verify_answer-Outcome fl out question r.text sources)
        (λ p h. answered-IsGrounded question g sources r (some p.0) no_usage good)
  finish_answer-Outcome false question g sources r good =
      answered-IsGrounded question g sources r none no_usage good

  -- With backends that answer with labelled hits and a positive limit, an answer either raises what
  -- the model's call or a coercion of its reply raised, or it returns sources that are all of papers
  -- in workspaces that the user owns, and cites only numbers that stand in a marker of its text and
  -- count one of these sources, with or without corrective retrieval and verification.
  pub answer_question-IsGrounded :
      (use_corrective use_verification : Bool) (max_tokens : ℕ) (question : Text)
      → Outcome out IsGrounded (
          answer_question fl out b db user limit filters use_reranker use_corrective
            use_verification max_tokens question)
  unfolding answer_question answer_from
  answer_question-IsGrounded use_corrective use_verification max_tokens question =
      on_success-Outcome out Good IsGrounded _ _ (gather-Outcome use_corrective question) (λ g good.
        elim (Bool-cases (is_empty g.chunks)) [
          | inl e ↦ rw (e, answer_from) (tt, λ n i. absurd i)
          | inr e ↦
              rw (e, answer_from)
                (let sources =
                    packed_sources fl out b db user limit filters use_reranker question max_tokens
                      g.chunks in
                  on_success-Outcome out (Any out) IsGrounded _ _
                    (ask-Outcome out (Any out) _ (λ r q. tt))
                    (λ r h.
                      finish_answer-Outcome use_verification question g sources r
                        (packed_sources-Visible question max_tokens g.chunks good)))
        ])
