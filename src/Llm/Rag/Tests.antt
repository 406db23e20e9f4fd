-- ===== src/Llm/Rag/Tests.antt =====
-- Question answering over a small library.
use research_mind_ai.Prelude.{
  ℕ, ◌≤◌, ◌+◌, Text, codes, ascii_digit, ◌≡◌, refl, sym, ap, strip, is_space, ltb, ◌-◌, true, false,
  none, some, List, [], ◌∷◌, length, arith, nat_eq, list_eq,
}
use research_mind_ai.Prelude.Dict.{put, get}
use research_mind_ai.Prelude.Sort.{sort_by}
use research_mind_ai.Retrieval.Fusion.{reciprocal_rank_fusion, merge}
use research_mind_ai.Retrieval.Sentences.{extract_supporting_sentences}
use research_mind_ai.Retrieval.Sparse.{tokenize}
use research_mind_ai.Llm.Citations.{extract_citations}
use research_mind_ai.Retrieval.Scores.{nat_floats}
use research_mind_ai.Retrieval.Service.{retrieve, Backends, RetrievedChunk, is_empty}
use research_mind_ai.Retrieval.Service.Sample.{library, backends, backends-IsFaithful, everything}
use research_mind_ai.Llm.Context.{Passages, pack_context}
use research_mind_ai.Llm.Context.Compress.{compress_context, compress_context_budget}
use research_mind_ai.Llm.Gateway.{
  Completion, Result, ok, raise, llm_error, no_usage, add_usage, total_tokens,
}
use research_mind_ai.Llm.Rag.{Request, Outside, Verification, RagAnswer, rag_confidence, hundredths}
use research_mind_ai.Llm.Rag.Answer.{search_library, answer_question}
use research_mind_ai.Llm.Rag.Outcome.{Outcome}
use research_mind_ai.Llm.Rag.Grounded.{IsGrounded, answer_question-IsGrounded}
use research_mind_ai.Llm.Rag.Accounts.{IsPriced, answer_question-IsPriced}
use research_mind_ai.Llm.Rag.Confidence.{rag_confidence_capped}
use research_mind_ai.Llm.Rag.Stream.{joined, stream_answer}
use research_mind_ai.Llm.Rag.Agreement.{Streams, stream_agrees}

abbrev reply : Completion
reply = record {
  text = codes "Graphs help [1].";
  model = codes "m";
  provider = codes "p";
  usage = record { prompt_tokens = 20; completion_tokens = 5 };
  finish_reason = none;
}

-- A model that always gives the same answer, which holds no JSON object.
abbrev out : Outside ℕ ℕ
out = record {
  ask = λ q. ok reply;
  stream = λ q. (codes "Graphs help" ∷ codes " [1]." ∷ [], none);
  loads = λ t. none;
  truthy = λ v. true;
  to_text = λ v. [];
  to_float = λ v. ok v;
  to_list = λ v. ok [];
  round = λ x. x;
  digit = ascii_digit;
}

answer_question-IsGrounded_example :
    Outcome out
      (IsGrounded nat_floats out backends backends-IsFaithful library 100 5 everything true
        (omega arith))
      (answer_question nat_floats out backends library 100 5 everything true true true 6000
        (codes "graph"))
answer_question-IsGrounded_example =
    answer_question-IsGrounded nat_floats out backends backends-IsFaithful library 100 5 everything
      true (omega arith) true true 6000 (codes "graph")

costs :
    (q : Request ℕ) (c : Completion)
    → out.ask q ≡ ok c
    → (25 ≤ total_tokens c.usage) × (total_tokens c.usage ≤ 25)
unfolding total_tokens
costs q c e = let same : reply ≡ c = cc e in rw (sym same) (omega arith, omega arith)

answer_question-IsPriced_example :
    Outcome out
      (IsPriced nat_floats out backends backends-IsFaithful library 100 5 everything true
        (omega arith)
        25
        25
        costs
        true
        true)
      (answer_question nat_floats out backends library 100 5 everything true true true 6000
        (codes "graph"))
answer_question-IsPriced_example =
    answer_question-IsPriced nat_floats out backends backends-IsFaithful library 100 5 everything
      true (omega arith) 25 25 costs true true 6000 (codes "graph")

abbrev source : RetrievedChunk ℕ
source = record {
  chunk_id = 1;
  paper_id = 7;
  paper_title = none;
  content = codes "graph search";
  section_path = none;
  page_number = none;
  kind = codes "text";
  score = 1;
  dense_rank = none;
  sparse_rank = some 1;
  rerank_score = none;
  supporting_sentences = [];
}

abbrev flagged : RagAnswer ℕ ℕ
flagged = record {
  question = codes "graph";
  answer = codes "Graphs help [1].";
  sources = source ∷ [];
  cited_indices = 1 ∷ [];
  grade = none;
  verification =
      some (record { supported = false; confidence = 1; unsupported_claims = []; reason = [] });
  rewritten_query = none;
  usage = no_usage;
}

rag_confidence_capped_example :
    (is_empty flagged.sources ≡ true → rag_confidence nat_floats out flagged ≡ 0)
    × (is_empty flagged.sources ≡ false
        → (x : ℕ) × (rag_confidence nat_floats out flagged ≡ x)
          × (ltb 1 x ≡ false)
          × ((v : Verification ℕ ℕ)
              → flagged.verification ≡ some v
              → v.supported ≡ false
              → ltb (hundredths nat_floats out 35) x ≡ false))
rag_confidence_capped_example = rag_confidence_capped nat_floats out flagged refl

streamed :
    (q : Request ℕ) (c : Completion)
    → out.ask q ≡ ok c
    → (pieces : List Text) × (out.stream q ≡ (pieces, none)) × (joined pieces ≡ c.text)
streamed q c e =
    let same : reply ≡ c = cc e in
    (codes "Graphs help" ∷ codes " [1]." ∷ [], refl, ap (λ (x : Completion). x.text) same)

-- Retrievers that find one chunk.
abbrev one_hit : Backends ℕ
one_hit = record backends {
  dense_search =
      λ q n f. some (record { chunk_id = 1; paper_id = 7; score = 1; metadata = [] } ∷ []);
  sparse_search = λ q n f. some [];
}

abbrev answer : RagAnswer ℕ ℕ
answer = record {
  question = codes "graph";
  answer = reply.text;
  sources = record source { score = 16; dense_rank = some 1; sparse_rank = none } ∷ [];
  cited_indices = 1 ∷ [];
  grade = none;
  verification = none;
  rewritten_query = none;
  usage = reply.usage;
}

answer_runs :
    answer_question nat_floats out one_hit library 100 5 everything false false false 6000
      (codes "graph")
    ≡ ok answer
unfolding answer_question search_library retrieve strip is_space reciprocal_rank_fusion sort_by
    merge put get pack_context extract_citations add_usage extract_supporting_sentences tokenize
answer_runs = refl

stream_agrees_example :
    Streams nat_floats out
      (λ n. n ∷ [])
      one_hit
      library
      100
      5
      everything
      false
      (codes "graph")
      answer
      (stream_answer nat_floats out
        (λ n. n ∷ [])
        one_hit
        library
        100
        5
        everything
        false
        6000
        (codes "graph"))
stream_agrees_example =
    stream_agrees nat_floats out (λ n. n ∷ []) one_hit library 100 5 everything false 6000
      (codes "graph") answer streamed answer_runs

abbrev plain : Passages Text
plain = record { content = λ t. t; with_content = λ t c. t; content-with_content = λ t c. refl }

abbrev ask : Text → Result Completion
ask [] = raise (llm_error [])
ask (c ∷ cs) = ok reply

abbrev passages : List Text
passages = codes "Attention is all you need." ∷ [] ∷ codes "Convolutions are local." ∷ []

compress_context_budget_example :
    ((compress_context plain (λ t. t) (codes "local") ask passages 28 20).used_tokens
      ≤ (28 - 20) + 5)
    × (length (compress_context plain (λ t. t) (codes "local") ask passages 28 20).chunks ≤ 3)
    × ((pack_context plain (λ t. t) (codes "local") passages 28 20).dropped_count ≡ 0
        → (compress_context plain (λ t. t) (codes "local") ask passages 28 20
            ≡ pack_context plain (λ t. t) (codes "local") passages 28 20)
          × (length (compress_context plain (λ t. t) (codes "local") ask passages 28 20).chunks
              ≡ 3))
compress_context_budget_example =
    compress_context_budget plain (λ t. t) (codes "local") ask passages 28 20
