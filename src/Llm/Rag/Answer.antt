-- ===== src/Llm/Rag/Answer.antt =====
-- answer_question of backend/app/llm/rag.py, over the model of retrieval and of packing.
use research_mind_ai.Prelude.{
  ℕ, Text, codes, Bool, not, Option, none, some, List, [], ◌++◌, map, length, ◌||◌, keep_if,
  contains, ◌==◌, nat_eq, list_eq, if◌then◌else◌,
}
use research_mind_ai.Retrieval.Scores.{Floats}
use research_mind_ai.Retrieval.Service.{
  Database, RetrievalFilters, RetrievedChunk, Backends, retrieve, is_empty,
}
use research_mind_ai.Llm.Context.{pack_context}
use research_mind_ai.Llm.Gateway.{Usage, add_usage, no_usage, Completion, foreign, Result, ok}
use research_mind_ai.Llm.Citations.{extract_citations}
use research_mind_ai.Llm.Rag.{
  Grade, Verification, RagAnswer, Gathered, answer_request, Outside, on_success, or_raise,
  grade_retrieval, rewrite_query, verify_answer, retrieved_passages,
}

module _ (fl : Floats) {V : Type 0} (out : Outside fl.F V) where
  open fl use {F}

  module _ (b : Backends F) (db : Database) (user : ℕ) (limit : ℕ) (filters : RetrievalFilters)
      (use_reranker : Bool) where
    -- retrieve, whose exception goes through.
    unfoldable pub search_library : Text → Result (List (RetrievedChunk F))
    search_library query =
        or_raise (foreign []) (retrieve fl b db user query limit filters use_reranker)

    abbrev pub merge_retry :
        List (RetrievedChunk F) → List (RetrievedChunk F) → List (RetrievedChunk F)
    merge_retry chunks retry =
        let seen = map (λ (c : RetrievedChunk F). c.chunk_id) chunks in
        chunks ++ keep_if (λ (c : RetrievedChunk F). not (contains c.chunk_id seen)) retry

    -- `if rewritten and rewritten != question`
    abbrev pub retry_search :
        Text → Text → List (RetrievedChunk F) → Result (List (RetrievedChunk F))
    retry_search question rewritten chunks =
        if is_empty rewritten || rewritten == question
        then ok chunks
        else on_success (search_library rewritten) λ retry. ok (merge_retry chunks retry)

    unfoldable pub correct : Text → List (RetrievedChunk F) → Grade → Usage → Result (Gathered F)
    unfolding rewrite_query
    correct question chunks grade usage =
        if grade.sufficient
        then ok (record { chunks = chunks; grade = some grade; rewritten = none; usage = usage })
        else on_success (rewrite_query fl out question grade.missing) λ (rewritten, spent).
          on_success (retry_search question rewritten chunks) λ merged. ok (record {
            chunks = merged;
            grade = some grade;
            rewritten = some rewritten;
            usage = add_usage usage spent;
          })

    -- From the first retrieval to the chunks to answer from.
    unfoldable pub gather : Bool → Text → Result (Gathered F)
    unfolding grade_retrieval correct
    gather use_corrective question = on_success (search_library question) λ chunks.
        if use_corrective
        then on_success (grade_retrieval fl out question chunks)
            (λ (grade, spent). correct question chunks grade (add_usage no_usage spent))
        else ok (record { chunks = chunks; grade = none; rewritten = none; usage = no_usage })

    abbrev pub nothing_found : Text
    nothing_found =
        codes "I could not find anything in your library that addresses this question. "
        ++ codes "Try uploading relevant papers, or rephrasing with more specific terms."

    abbrev pub answered :
        Text
        → Gathered F
        → List (RetrievedChunk F)
        → Completion
        → Option (Verification F V)
        → Usage
        → RagAnswer F V
    answered question g sources r verification usage = record {
      question = question;
      answer = r.text;
      sources = sources;
      cited_indices = extract_citations out.digit r.text (length sources);
      grade = g.grade;
      verification = verification;
      rewritten_query = g.rewritten;
      usage = usage;
    }

    -- The verification, if it is asked for.
    unfoldable pub finish_answer :
        Bool → Text → Gathered F → List (RetrievedChunk F) → Completion → Result (RagAnswer F V)
    unfolding verify_answer
    finish_answer use_verification question g sources r =
        let usage = add_usage g.usage r.usage in
        if use_verification
        then on_success (verify_answer fl out question r.text sources)
            (λ (v, spent). ok (answered question g sources r (some v) (add_usage usage spent)))
        else ok (answered question g sources r none usage)

    -- The sources: the chunks packed into the budget, 1200 tokens of it reserved.
    unfoldable pub packed_sources : Text → ℕ → List (RetrievedChunk F) → List (RetrievedChunk F)
    packed_sources question max_tokens chunks =
        (pack_context (retrieved_passages fl out) b.lower question chunks max_tokens 1200).chunks

    unfoldable pub answer_from : Bool → ℕ → Text → Gathered F → Result (RagAnswer F V)
    unfolding finish_answer packed_sources
    answer_from use_verification max_tokens question g =
        let sources = packed_sources question max_tokens g.chunks in
        if is_empty g.chunks
        then ok (record {
          question = question;
          answer = nothing_found;
          sources = [];
          cited_indices = [];
          grade = g.grade;
          verification = none;
          rewritten_query = none;
          usage = g.usage;
        })
        else on_success (out.ask (answer_request question sources))
            λ r. finish_answer use_verification question g sources r

    unfoldable pub answer_question : Bool → Bool → ℕ → Text → Result (RagAnswer F V)
    unfolding gather answer_from
    answer_question use_corrective use_verification max_tokens question =
        on_success (gather use_corrective question)
          λ g. answer_from use_verification max_tokens question g
