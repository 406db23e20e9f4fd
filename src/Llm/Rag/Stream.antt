-- ===== src/Llm/Rag/Stream.antt =====
-- The streamed answer of backend/app/llm/rag.py.
use research_mind_ai.Prelude.{
  ℕ, zero, suc, ◌+◌, Text, codes, join, Bool, Option, none, some, List, [], ◌∷◌, ◌++◌, map, length,
  if◌then◌else◌,
}
use research_mind_ai.Retrieval.Scores.{Floats}
use research_mind_ai.Retrieval.Service.{
  Database, RetrievalFilters, RetrievedChunk, Backends, is_empty,
}
use research_mind_ai.Llm.Gateway.{Failure, Result, ok, raise}
use research_mind_ai.Llm.Citations.{extract_citations}
use research_mind_ai.Llm.Rag.{answer_request, Outside}
use research_mind_ai.Llm.Rag.Answer.{search_library, packed_sources}

pub record SourceLabel : Type 0 where
  pub index : ℕ
  pub chunk_id : ℕ
  pub paper_id : ℕ
  pub citation : Text
  pub page_number : Option ℕ

pub data StreamEvent : Type 0 where
  sources_event : List SourceLabel → StreamEvent
  token_event : Text → StreamEvent
  done_event : List ℕ → StreamEvent

-- "".join(pieces)
abbrev pub joined : List Text → Text
joined [] = []
joined (t ∷ ts) = t ++ joined ts

abbrev pub title_part : Option Text → Text
title_part none = codes "Untitled paper"
title_part (some []) = codes "Untitled paper"
title_part (some (c ∷ cs)) = c ∷ cs

abbrev pub section_part : Option Text → List Text
section_part none = []
section_part (some []) = []
section_part (some (c ∷ cs)) = (c ∷ cs) ∷ []

-- A dash between spaces.
abbrev pub dash : Text
dash = 32 ∷ 8212 ∷ 32 ∷ []

module _ (fl : Floats) {V : Type 0} (out : Outside fl.F V) (show : ℕ → Text) where
  open fl use {F}

  abbrev pub page_part : Option ℕ → List Text
  page_part none = []
  page_part (some zero) = []
  page_part (some (suc n)) = (codes "p. " ++ show (suc n)) ∷ []

  -- RetrievedChunk.citation; `show` is str of a page number.
  unfoldable pub citation_label : RetrievedChunk F → Text
  citation_label c =
      join dash
        (title_part c.paper_title ∷ (section_part c.section_path ++ page_part c.page_number))

  unfoldable pub label_sources : ℕ → List (RetrievedChunk F) → List SourceLabel
  unfolding citation_label
  label_sources index [] = []
  label_sources index (c ∷ cs) =
      record {
        index = index;
        chunk_id = c.chunk_id;
        paper_id = c.paper_id;
        citation = citation_label c;
        page_number = c.page_number;
      }
      ∷ label_sources (index + 1) cs

  -- From the stream of the model on; an exception ends the events.
  abbrev pub stream_tokens : ℕ → List Text × Option Failure → List StreamEvent × Option Failure
  stream_tokens count (pieces, some e) = (map token_event pieces, some e)
  stream_tokens count (pieces, none) = (
    map token_event pieces ++ (done_event (extract_citations out.digit (joined pieces) count) ∷ []),
    none,
  )

  abbrev pub first_event :
      StreamEvent → List StreamEvent × Option Failure → List StreamEvent × Option Failure
  first_event e (es, f) = (e ∷ es, f)

  abbrev pub nothing_streamed : List StreamEvent
  nothing_streamed =
      sources_event []
      ∷ token_event
          (codes "I could not find anything in your library that addresses this question.")
      ∷ done_event []
      ∷ []

  module _ (b : Backends F) (db : Database) (user : ℕ) (limit : ℕ) (filters : RetrievalFilters)
      (use_reranker : Bool) where
    unfoldable pub stream_from :
        ℕ → Text → List (RetrievedChunk F) → List StreamEvent × Option Failure
    unfolding label_sources
    stream_from max_tokens question chunks =
        let sources =
          packed_sources fl out b db user limit filters use_reranker question max_tokens chunks in
        if is_empty chunks
        then (nothing_streamed, none)
        else first_event (sources_event (label_sources 1 sources))
            (stream_tokens (length sources) (out.stream (answer_request question sources)))

    abbrev pub stream_found :
        ℕ → Text → Result (List (RetrievedChunk F)) → List StreamEvent × Option Failure
    stream_found max_tokens question (raise e) = ([], some e)
    stream_found max_tokens question (ok chunks) = stream_from max_tokens question chunks

    -- The events of stream_answer in order, and the exception that ends them.
    unfoldable pub stream_answer : ℕ → Text → List StreamEvent × Option Failure
    unfolding stream_from
    stream_answer max_tokens question =
        stream_found max_tokens question
          (search_library fl out b db user limit filters use_reranker question)
