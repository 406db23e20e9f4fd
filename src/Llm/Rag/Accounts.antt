-- ===== src/Llm/Rag/Accounts.antt =====
-- What an answer of backend/app/llm/rag.py costs, and how sure of it the program is.
use research_mind_ai.Prelude.{
  ℕ, ◌+◌, ◌≤◌, Text, ◌≡◌, refl, inl, inr, Bool, true, false, Bool-cases, List, [], ◌∷◌, nat_eq,
  list_eq, arith,
}
use research_mind_ai.Retrieval.Scores.{Floats}
use research_mind_ai.Retrieval.Service.{
  Database, RetrievalFilters, RetrievedChunk, Backends, is_empty,
}
use research_mind_ai.Retrieval.Service.Access.{IsFaithful}
use research_mind_ai.Llm.Gateway.{Usage, no_usage, add_usage, Completion, ok}
use research_mind_ai.Llm.Rag.{
  Grade, Verification, RagAnswer, Request, Outside, grade_retrieval, rewrite_query, verify_answer,
  verification_of, parse_json_response, Gathered,
}
use research_mind_ai.Llm.Rag.Answer.{
  correct, gather, finish_answer, packed_sources, answer_from, answer_question,
}
use research_mind_ai.Llm.Gateway.{total_tokens}
use research_mind_ai.Llm.Rag.Outcome.{
  verification_of-Outcome, Outcome, on_success-Outcome, Any, ask-Outcome,
}
use research_mind_ai.Llm.Rag.Grounded.{AllVisible, search_library-Outcome, retry_search-Outcome}

abbrev pub times : Bool → ℕ → ℕ
times true n = n
times false n = 0

total_add_usage : (a b : Usage) → total_tokens (add_usage a b) ≡ total_tokens a + total_tokens b
unfolding total_tokens add_usage
total_add_usage a b = omega arith

total_no_usage : total_tokens no_usage ≡ 0
unfolding total_tokens
total_no_usage = refl

module _ (fl : Floats) {V : Type 0} (out : Outside fl.F V) (b : Backends fl.F)
    (faithful : IsFaithful b) (db : Database) (user : ℕ) (limit : ℕ) (filters : RetrievalFilters)
    (use_reranker : Bool) (pos : 1 ≤ limit) (lo hi : ℕ)
    (costs : (q : Request fl.F) (c : Completion)
      → out.ask q ≡ ok c
      → (lo ≤ total_tokens c.usage) × (total_tokens c.usage ≤ hi)) where
  open fl use {F}

  abbrev Paid : {A : Type 0} → A × Usage → Type 0
  Paid p = (lo ≤ total_tokens p.1) × (total_tokens p.1 ≤ hi)

  abbrev AtMost : {A : Type 0} → ℕ → A × Usage → Type 0
  AtMost n p = total_tokens p.1 ≤ n

  grade_retrieval-AtMost :
      (question : Text) (chunks : List (RetrievedChunk F))
      → Outcome out (AtMost hi) (grade_retrieval fl out question chunks)
  unfolding grade_retrieval
  grade_retrieval-AtMost question [] = omega (arith, total_no_usage)
  grade_retrieval-AtMost question (c ∷ cs) =
      on_success-Outcome out (λ (r : Completion). total_tokens r.usage ≤ hi) (AtMost hi) _ _
        (ask-Outcome out (λ (r : Completion). total_tokens r.usage ≤ hi) _ (λ r e. (costs _ r e).1))
        (λ r h. h)

  rewrite_query-AtMost :
      (question missing : Text) → Outcome out (AtMost hi) (rewrite_query fl out question missing)
  unfolding rewrite_query
  rewrite_query-AtMost question missing =
      on_success-Outcome out (λ (r : Completion). total_tokens r.usage ≤ hi) (AtMost hi) _ _
        (ask-Outcome out (λ (r : Completion). total_tokens r.usage ≤ hi) _ (λ r e. (costs _ r e).1))
        (λ r h. h)

  verify_answer-Paid :
      (question answer : Text) (sources : List (RetrievedChunk F))
      → Outcome out Paid (verify_answer fl out question answer sources)
  unfolding verify_answer
  verify_answer-Paid question answer sources =
      let Fair = λ (r : Completion). (lo ≤ total_tokens r.usage) × (total_tokens r.usage ≤ hi) in
      on_success-Outcome out {A = Completion} {B = Verification F V × Usage} Fair Paid _ _
        (ask-Outcome out Fair _ (λ r e. costs _ r e))
        (λ r h.
          on_success-Outcome out {A = Verification F V} {B = Verification F V × Usage} (Any out)
            Paid (verification_of fl out (parse_json_response fl out r.text)) _
            (verification_of-Outcome fl out (parse_json_response fl out r.text)) (λ v k. h))

  abbrev Within : Bool → Gathered F → Type 0
  Within corrective g =
      AllVisible fl out b faithful db user limit filters use_reranker pos g.chunks
      × (total_tokens g.usage ≤ times corrective (hi + hi))

  correct-Within :
      (question : Text) (chunks : List (RetrievedChunk F)) (grade : Grade) (usage : Usage)
      → AllVisible fl out b faithful db user limit filters use_reranker pos chunks
      → total_tokens usage ≤ hi
      → Outcome out
          (Within true)
          (correct fl out b db user limit filters use_reranker question chunks grade usage)
  unfolding correct
  correct-Within question chunks grade usage good few = elim (Bool-cases grade.sufficient) [
    | inl e ↦ rw (e, correct) (good, omega arith)
    | inr e ↦
        rw (e, correct)
          (on_success-Outcome out (AtMost hi) (Within true) _ _
            (rewrite_query-AtMost question grade.missing)
            (λ p h.
              on_success-Outcome out
                (AllVisible fl out b faithful db user limit filters use_reranker pos) (Within true)
                _ _
                (retry_search-Outcome fl out b faithful db user limit filters use_reranker pos
                  question p.0 chunks good)
                (λ merged more. (more, omega (arith, total_add_usage usage p.1)))))
  ]

  gather-Within :
      (corrective : Bool) (question : Text)
      → Outcome out
          (Within corrective)
          (gather fl out b db user limit filters use_reranker corrective question)
  unfolding gather
  gather-Within true question =
      on_success-Outcome out (AllVisible fl out b faithful db user limit filters use_reranker pos)
        (Within true) _ _
        (search_library-Outcome fl out b faithful db user limit filters use_reranker pos question)
        (λ chunks good.
          on_success-Outcome out (AtMost hi) (Within true) _ _
            (grade_retrieval-AtMost question chunks)
            (λ p h.
              correct-Within question chunks p.0 (add_usage no_usage p.1) good
                (omega (arith, total_add_usage no_usage p.1, total_no_usage))))
  gather-Within false question =
      on_success-Outcome out (AllVisible fl out b faithful db user limit filters use_reranker pos)
        (Within false) _ _
        (search_library-Outcome fl out b faithful db user limit filters use_reranker pos question)
        (λ chunks good. (good, omega (arith, total_no_usage)))

  -- What an answer costs: at most what its calls may, and at least the calls that an answer with
  -- sources has made.
  abbrev pub IsPriced : Bool → Bool → RagAnswer F V → Type 0
  IsPriced corrective verified r =
      (total_tokens r.usage ≤ times corrective (hi + hi) + (hi + times verified hi))
      × (is_empty r.sources ≡ false → lo + times verified lo ≤ total_tokens r.usage)

  finish_answer-IsPriced :
      (corrective verified : Bool) (question : Text) (g : Gathered F)
      (sources : List (RetrievedChunk F)) (r : Completion)
      → total_tokens g.usage ≤ times corrective (hi + hi)
      → lo ≤ total_tokens r.usage
      → total_tokens r.usage ≤ hi
      → Outcome out
          (IsPriced corrective verified)
          (finish_answer fl out b db user limit filters use_reranker verified question g sources r)
  unfolding finish_answer
  finish_answer-IsPriced corrective true question g sources r before least most =
      on_success-Outcome out {A = Verification F V × Usage} {B = RagAnswer F V} Paid
        (IsPriced corrective true) (verify_answer fl out question r.text sources) _
        (verify_answer-Paid question r.text sources)
        (λ p h. (
          omega (
            arith,
            total_add_usage g.usage r.usage,
            total_add_usage (add_usage g.usage r.usage) p.1,
          ),
          λ e. omega (
            arith,
            total_add_usage g.usage r.usage,
            total_add_usage (add_usage g.usage r.usage) p.1,
          ),
        ))
  finish_answer-IsPriced corrective false question g sources r before least most = (
    omega (arith, total_add_usage g.usage r.usage),
    λ e. omega (arith, total_add_usage g.usage r.usage),
  )

  -- With backends that answer with labelled hits, a positive limit and a model whose every call
  -- costs from lo to hi tokens, an answer either raises what the model's call or a coercion raised,
  -- or it reports at most hi tokens for the answer, hi more for the verification if it is asked
  -- for and twice hi for corrective retrieval; with sources, at least lo for the answer and for the
  -- verification.
  pub answer_question-IsPriced :
      (corrective verified : Bool) (max_tokens : ℕ) (question : Text)
      → Outcome out (IsPriced corrective verified) (
          answer_question fl out b db user limit filters use_reranker corrective verified max_tokens
            question)
  unfolding answer_question answer_from
  answer_question-IsPriced corrective verified max_tokens question =
      on_success-Outcome out (Within corrective) (IsPriced corrective verified) _ _
        (gather-Within corrective question)
        (λ g w. elim (Bool-cases (is_empty g.chunks)) [
          | inl e ↦ rw (e, answer_from) (omega (arith, w.1), λ q. absurd (cc q))
          | inr e ↦
              rw (e, answer_from)
                (let sources =
                    packed_sources fl out b db user limit filters use_reranker question max_tokens
                      g.chunks in
                  let Fair =
                    λ (r : Completion). (lo ≤ total_tokens r.usage) × (total_tokens r.usage ≤ hi) in
                  on_success-Outcome out Fair (IsPriced corrective verified) _ _
                    (ask-Outcome out Fair _ (λ r q. costs _ r q))
                    (λ r h.
                      finish_answer-IsPriced corrective verified question g sources r w.1 h.0 h.1))
        ])
