-- ===== src/Llm/Rag.antt =====
-- Question answering with corrective retrieval and verification: backend/app/llm/rag.py. The
-- model behind the gateway, json.loads, the coercions of parsed values, and round are parameters.
pub mod Answer
pub mod Outcome
pub mod Grounded
pub mod Accounts
pub mod Confidence
pub mod Stream
pub mod Agreement
mod Tests
use research_mind_ai.Prelude.{
  ℕ, ◌+◌, Text, codes, strip, is_space, Bool, true, false, not, ◌&&◌, Option, none, some, List, [],
  ◌∷◌, ◌++◌, map, length, refl, ◌||◌, keep_if, contains, ◌==◌, nat_eq, list_eq, if◌then◌else◌,
}
use research_mind_ai.Prelude.Dict.{Dict, get}
use research_mind_ai.Retrieval.Scores.{Floats}
use research_mind_ai.Retrieval.Service.{
  Database, RetrievalFilters, RetrievedChunk, Backends, retrieve, is_empty,
}
use research_mind_ai.Llm.Context.{Passages, PackedContext, pack_context}
use research_mind_ai.Llm.Gateway.{
  Usage, add_usage, no_usage, Completion, Failure, foreign, Result, ok, raise,
}
use research_mind_ai.Llm.Citations.{extract_citations}

pub record Grade : Type 0 where
  pub sufficient : Bool
  pub reason : Text
  pub missing : Text

pub record Verification (F V : Type 0) : Type 0 where
  pub supported : Bool
  pub confidence : F
  pub unsupported_claims : List V
  pub reason : Text

pub record RagAnswer (F V : Type 0) : Type 0 where
  pub question : Text
  pub answer : Text
  pub sources : List (RetrievedChunk F)
  pub cited_indices : List ℕ
  pub grade : Option Grade
  pub verification : Option (Verification F V)
  pub rewritten_query : Option Text
  pub usage : Usage

-- What an answer is made from: the chunks, and what was spent on them.
pub record Gathered (F : Type 0) : Type 0 where
  pub chunks : List (RetrievedChunk F)
  pub grade : Option Grade
  pub rewritten : Option Text
  pub usage : Usage

-- What is asked of the model: the prompt and what it is rendered with.
pub data Request (F : Type 0) : Type 0 where
  grade_request : Text → List (RetrievedChunk F) → Request F
  rewrite_request : Text → Text → Request F
  answer_request : Text → List (RetrievedChunk F) → Request F
  verify_request : Text → Text → List (RetrievedChunk F) → Request F

-- The model behind the gateway and the parts of Python's library. `V` is a parsed JSON value; the
-- coercions `float` and `list` may raise.
pub record Outside (F V : Type 0) : Type 0 where
  pub ask : Request F → Result Completion
  pub stream : Request F → List Text × Option Failure
  pub loads : Text → Option (Dict Text V)
  pub truthy : V → Bool
  pub to_text : V → Text
  pub to_float : V → Result F
  pub to_list : V → Result (List V)
  pub round : F → F
  pub digit : ℕ → Option ℕ

-- What follows a call that may raise.
abbrev pub on_success : {A B : Type 0} → Result A → (A → Result B) → Result B
on_success (ok a) f = f a
on_success (raise e) f = raise e

abbrev pub or_raise : {A : Type 0} → Failure → Option A → Result A
or_raise e none = raise e
or_raise e (some a) = ok a

-- A match of \{.*\} that begins here, after the brace: up to the last closing brace.
unfoldable pub up_to_last : Text → Option Text
up_to_last [] = none
up_to_last (c ∷ cs) =
    let rest = up_to_last cs in
    elim rest [ some r ↦ some (c ∷ r) | none ↦ if c == b'}' then some (c ∷ []) else none ]

unfoldable pub json_block : Text → Option Text
unfolding up_to_last
json_block [] = none
json_block (c ∷ cs) =
    let rest = json_block cs in
    if c == b'{' then elim (up_to_last cs) [ none ↦ rest | some r ↦ some (c ∷ r) ] else rest

module _ (fl : Floats) {V : Type 0} (out : Outside fl.F V) where
  open fl use {F}

  -- _parse_json_response; both failures give the empty object.
  unfoldable pub parse_json_response : Text → Dict Text V
  unfolding json_block
  parse_json_response t = elim (json_block t) [
    | none ↦ []
    | some block ↦ elim (out.loads block) [ none ↦ [] | some entries ↦ entries ]
  ]

  abbrev pub text_of : Option V → Text
  text_of none = []
  text_of (some v) = out.to_text v

  abbrev pub flag_of : Option V → Bool
  flag_of none = true
  flag_of (some v) = out.truthy v

  abbrev pub unparsed_grade : Grade
  unparsed_grade = record {
    sufficient = true;
    reason = codes "Grader response could not be parsed.";
    missing = [];
  }

  abbrev pub grade_of : Dict Text V → Grade
  grade_of [] = unparsed_grade
  grade_of (e ∷ entries) = record {
    sufficient = flag_of (get (codes "sufficient") (e ∷ entries));
    reason = text_of (get (codes "reason") (e ∷ entries));
    missing = text_of (get (codes "missing") (e ∷ entries));
  }

  unfoldable pub grade_retrieval : Text → List (RetrievedChunk F) → Result (Grade × Usage)
  unfolding parse_json_response
  grade_retrieval question [] = ok (
    record { sufficient = false; reason = codes "No sources were retrieved."; missing = question },
    no_usage,
  )
  grade_retrieval question (c ∷ cs) =
      on_success (out.ask (grade_request question (c ∷ cs)))
        λ (r : Completion). ok (grade_of (parse_json_response r.text), r.usage)

  abbrev pub or_question : Text → Text → Text
  or_question question [] = question
  or_question question (c ∷ cs) = c ∷ cs

  unfoldable pub rewrite_query : Text → Text → Result (Text × Usage)
  rewrite_query question missing =
      on_success (out.ask (rewrite_request question missing)) λ (r : Completion).
        ok (or_question question (strip (λ c. c == 34) (strip is_space r.text)), r.usage)

  -- float(entries.get("confidence", 0.5)) and list(entries.get("unsupported_claims") or [])
  abbrev pub float_of : Option V → Result F
  float_of none = ok fl.half
  float_of (some v) = out.to_float v

  abbrev pub list_of : Option V → Result (List V)
  list_of none = ok []
  list_of (some v) = if out.truthy v then out.to_list v else ok []

  abbrev pub verification_of : Dict Text V → Result (Verification F V)
  verification_of [] = ok (record {
    supported = true;
    confidence = fl.half;
    unsupported_claims = [];
    reason = codes "Verifier response could not be parsed.";
  })
  verification_of (e ∷ entries) =
      on_success (float_of (get (codes "confidence") (e ∷ entries))) λ confidence.
        on_success (list_of (get (codes "unsupported_claims") (e ∷ entries))) λ claims. ok (record {
          supported = flag_of (get (codes "supported") (e ∷ entries));
          confidence = confidence;
          unsupported_claims = claims;
          reason = text_of (get (codes "reason") (e ∷ entries));
        })

  unfoldable pub verify_answer :
      Text → Text → List (RetrievedChunk F) → Result (Verification F V × Usage)
  unfolding parse_json_response
  verify_answer question answer chunks =
      on_success (out.ask (verify_request question answer chunks)) λ (r : Completion).
        on_success (verification_of (parse_json_response r.text)) λ v. ok (v, r.usage)

  abbrev pub retrieved_passages : Passages (RetrievedChunk F)
  retrieved_passages = record {
    content = λ c. c.content;
    with_content = λ t c. record c { content = t };
    content-with_content = λ t c. refl;
  }

  -- Python's max, min and the literals of two decimals.
  abbrev pub larger : F → F → F
  larger a b = if fl.lt a b then b else a

  abbrev pub smaller : F → F → F
  smaller a b = if fl.lt b a then b else a

  abbrev pub hundredths : ℕ → F
  hundredths n = fl.div (fl.of_ℕ n) (fl.of_ℕ 100)

  abbrev pub is_sufficient : Option Grade → Bool
  is_sufficient none = false
  is_sufficient (some g) = g.sufficient

  abbrev pub judged : Option (Verification F V) → F → F
  judged none score = score
  judged (some v) score =
      if v.supported then larger score v.confidence else smaller score (hundredths 35)

  abbrev pub base_confidence : RagAnswer F V → F
  base_confidence r =
      let graded = if is_sufficient r.grade then fl.add fl.half (hundredths 20) else fl.half in
      if is_empty r.cited_indices then graded else fl.add graded (hundredths 10)

  -- RagAnswer.confidence
  unfoldable pub rag_confidence : RagAnswer F V → F
  rag_confidence r =
      if is_empty r.sources
      then fl.of_ℕ 0
      else out.round (smaller (judged r.verification (base_confidence r)) (fl.of_ℕ 1))
