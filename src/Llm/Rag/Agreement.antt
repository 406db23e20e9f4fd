-- ===== src/Llm/Rag/Agreement.antt =====
-- Streaming and answering a question (backend/app/llm/rag.py) agree.
use research_mind_ai.Prelude.{
  ℕ, Text, codes, ◌≡◌, refl, ◌∙◌, ap, ◌⊎◌, inl, inr, Bool, false, Option, none, List, [], ◌∷◌, ◌++◌,
  map, length,
}
use mathlib.Core.Path.{subst}
use research_mind_ai.Retrieval.Scores.{Floats}
use research_mind_ai.Retrieval.Service.{Database, RetrievalFilters, RetrievedChunk, Backends}
use research_mind_ai.Llm.Gateway.{Completion, Failure, Result, ok, raise, add_usage, no_usage}
use research_mind_ai.Llm.Citations.{extract_citations}
use research_mind_ai.Llm.Rag.{RagAnswer, Gathered, Request, answer_request, Outside, on_success}
use research_mind_ai.Llm.Rag.Answer.{
  answered, search_library, gather, packed_sources, answer_from, finish_answer, answer_question,
}
use research_mind_ai.Llm.Rag.Stream.{
  joined, label_sources, stream_tokens, first_event, stream_from, stream_found, stream_answer,
  StreamEvent, sources_event, token_event, done_event,
}

module _ (fl : Floats) {V : Type 0} (out : Outside fl.F V) (show : ℕ → Text) where
  open fl use {F}

  module _ (b : Backends F) (db : Database) (user : ℕ) (limit : ℕ) (filters : RetrievalFilters)
      (use_reranker : Bool) where
    -- The events are the sources of the answer, tokens, and the citations of the answer; the tokens
    -- make up its text, unless the search for the question found nothing.
    abbrev pub Streams : Text → RagAnswer F V → List StreamEvent × Option Failure → Type 0
    Streams question r events =
        (pieces : List Text) × (events ≡ (
          sources_event (label_sources fl out show 1 r.sources)
              ∷ (map token_event pieces ++ (done_event r.cited_indices ∷ [])),
          none,
        ))
        × ((joined pieces ≡ r.answer)
            ⊎ (search_library fl out b db user limit filters use_reranker question ≡ ok []))

    abbrev plain_chunks : List (RetrievedChunk F) → Gathered F
    plain_chunks chunks = record {
      chunks = chunks;
      grade = none;
      rewritten = none;
      usage = no_usage;
    }

    deliver :
        (question : Text) (chunks sources : List (RetrievedChunk F)) (c : Completion)
        (pieces : List Text)
        → out.stream (answer_request question sources) ≡ (pieces, none)
        → joined pieces ≡ c.text
        → Streams question
            (answered fl out b db user limit filters use_reranker question
              (plain_chunks chunks)
              sources
              c
              none
              (add_usage no_usage c.usage))
            (first_event fl out show (sources_event (label_sources fl out show 1 sources)) (
              stream_tokens fl out show
                (length sources)
                (out.stream (answer_request question sources))))
    deliver question chunks sources c pieces streamed whole = (
      pieces,
      ap
            (λ s.
              first_event fl out show (sources_event (label_sources fl out show 1 sources))
                (stream_tokens fl out show (length sources) s))
            streamed
          ∙ ap
              (λ t. (
                sources_event (label_sources fl out show 1 sources)
                    ∷ (map token_event pieces
                        ++ (done_event (extract_citations out.digit t (length sources)) ∷ [])),
                none,
              ))
              whole,
      inl whole,
    )

    -- Where the pieces of each stream make up the completion that the same request gets: an answer
    -- without corrective retrieval and verification, and the stream of the same question, have
    -- the same sources, text and citations, but for the text when the search found nothing.
    pub stream_agrees :
        (max_tokens : ℕ) (question : Text) (r : RagAnswer F V)
        → ((q : Request F) (c : Completion)
            → out.ask q ≡ ok c
            → (pieces : List Text) × (out.stream q ≡ (pieces, none)) × (joined pieces ≡ c.text))
        → answer_question fl out b db user limit filters use_reranker false false max_tokens
            question
          ≡ ok r
        → Streams question r
            (stream_answer fl out show b db user limit filters use_reranker max_tokens question)
    unfolding answer_question gather stream_answer stream_from answer_from finish_answer
        label_sources
    stream_agrees max_tokens question r pieces_of h =
        go (search_library fl out b db user limit filters use_reranker question) refl h
      where
        ok-inj : {x y : RagAnswer F V} → ok x ≡ ok y → x ≡ y
        ok-inj e = cc e

        from_model :
            (chunks sources : List (RetrievedChunk F)) (reply : Result Completion)
            → out.ask (answer_request question sources) ≡ reply
            → on_success reply (λ c. ok (
                answered fl out b db user limit filters use_reranker question
                  (plain_chunks chunks)
                  sources
                  c
                  none
                  (add_usage no_usage c.usage)))
              ≡ ok r
            → Streams question r (
                first_event fl out show (sources_event (label_sources fl out show 1 sources)) (
                  stream_tokens fl out show
                    (length sources)
                    (out.stream (answer_request question sources))))
        from_model chunks sources (raise e) asked h = absurd (cc h)
        from_model chunks sources (ok c) asked h =
            let (pieces, streamed, whole) = pieces_of (answer_request question sources) c asked in
            subst
              (λ x. Streams question x (
                first_event fl out show (sources_event (label_sources fl out show 1 sources)) (
                  stream_tokens fl out show (length sources)
                    (out.stream (answer_request question sources)))))
              (ok-inj h) (deliver question chunks sources c pieces streamed whole)

        from_chunks :
            (chunks : List (RetrievedChunk F))
            → search_library fl out b db user limit filters use_reranker question ≡ ok chunks
            → answer_from fl out b db user limit filters use_reranker false max_tokens question
                (plain_chunks chunks)
              ≡ ok r
            → Streams question r (
                stream_from fl out show b db user limit filters use_reranker max_tokens question
                  chunks)
        from_chunks [] found h =
            subst
              (λ x. Streams question x (
                stream_from fl out show b db user limit filters use_reranker max_tokens question
                  []))
              (ok-inj h)
              (
                codes "I could not find anything in your library that addresses this question."
                    ∷ [],
                refl,
                inr found,
              )
        from_chunks (c ∷ cs) found h =
            let sources =
              packed_sources fl out b db user limit filters use_reranker question max_tokens
                (c ∷ cs) in
            from_model (c ∷ cs) sources (out.ask (answer_request question sources)) refl h

        go :
            (found : Result (List (RetrievedChunk F)))
            → search_library fl out b db user limit filters use_reranker question ≡ found
            → on_success (on_success found (λ chunks. ok (plain_chunks chunks))) (λ g.
              answer_from fl out b db user limit filters use_reranker false max_tokens question g)
              ≡ ok r
            → Streams question r (
                stream_found fl out show b db user limit filters use_reranker max_tokens question
                  found)
        go (raise e) q h = absurd (cc h)
        go (ok chunks) q h = from_chunks chunks q h
