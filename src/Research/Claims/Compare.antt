-- ===== src/Research/Claims/Compare.antt =====
-- compare_claims of backend/app/research/contradictions.py: the pairs and what the model says of them.
use research_mind_ai.Prelude.{
  ℕ, Text, codes, strip, is_space, join, Option, none, some, List, [], ◌∷◌, map, length, take,
  keep_if, contains, leb, ltb, ◌==◌, nat_eq, list_eq, if◌then◌else◌,
}
use research_mind_ai.Prelude.Dict.{Dict, get, put}
use research_mind_ai.Prelude.Sort.{sort_by}
use research_mind_ai.Retrieval.Scores.{Floats, sort_by_score}
use research_mind_ai.Retrieval.Service.{is_empty}
use research_mind_ai.Retrieval.Indexer.{DocumentChunk}
use research_mind_ai.Llm.Gateway.{Completion, Result, ok, raise}
use research_mind_ai.Llm.Json.{JsonReader, load_json_object}
use research_mind_ai.Research.Claims.{Candidates, extract_claims, candidate_pairs}

pub record ClaimPaper : Type 0 where
  pub id : ℕ
  pub title : Option Text
  pub original_filename : Text

pub record ClaimPair (F : Type 0) : Type 0 where
  pub relation : Text
  pub confidence : F
  pub reason : Text
  pub pair : Candidates

unfoldable pub find_claim_paper : ℕ → List ClaimPaper → Option ClaimPaper
find_claim_paper pid [] = none
find_claim_paper pid (p ∷ ps) = if p.id == pid then some p else find_claim_paper pid ps

abbrev pub paper_label : ClaimPaper → Text
paper_label p = elim p.title [
  | none ↦ p.original_filename
  | some t ↦ if is_empty t then p.original_filename else t
]

module _ (fl : Floats) {V : Type 0} (reader : JsonReader fl.F V) (lower : Text → Text) where
  open fl use {F}

  -- max(0.0, min(1.0, x))
  abbrev pub clamped : F → F
  clamped x =
      let top = if fl.lt x (fl.of_ℕ 1) then x else fl.of_ℕ 1 in
      if fl.lt (fl.of_ℕ 0) top then top else fl.of_ℕ 0

  abbrev pub clamp_float : F → Option F → F
  clamp_float default none = default
  clamp_float default (some x) = clamped x

  -- A missing value is None, which float refuses.
  unfoldable pub clamp_confidence : Option V → F → F
  clamp_confidence none default = default
  clamp_confidence (some v) default = clamp_float default (reader.to_float v)

  abbrev pub text_at : Text → Text → Dict Text V → Text
  text_at key default d = elim (get key d) [ none ↦ default | some v ↦ reader.to_text v ]

  abbrev pub known_relation : Text → Text
  known_relation relation =
      if contains relation (codes "agreement" ∷ codes "contradiction" ∷ codes "unrelated" ∷ [])
      then relation
      else codes "unrelated"

  abbrev pub judgement_of : Option (Dict Text V) → Text × (F × Text)
  judgement_of none = (codes "unrelated", (fl.of_ℕ 0, codes "Could not parse the comparison"))
  judgement_of (some d) = (
    known_relation (lower (strip is_space (text_at (codes "relation") (codes "unrelated") d))),
    (
      clamp_confidence (get (codes "confidence") d) (fl.of_ℕ 0),
      take 400 (text_at (codes "reason") [] d),
    ),
  )

  unfoldable pub parse_judgement : Text → Text × (F × Text)
  unfolding clamp_confidence
  parse_judgement raw = judgement_of (load_json_object reader raw)

  abbrev pub judged_pair : Candidates → Text × (F × Text) → Option (ClaimPair F)
  judged_pair c (relation, (confidence, reason)) =
      if relation == codes "unrelated"
      then none
      else some (record { relation = relation; confidence = confidence; reason = reason; pair = c })

  -- _judge; an exception of the model is no judgement.
  unfoldable pub judge : (Candidates → Result Completion) → Candidates → Option (ClaimPair F)
  unfolding parse_judgement
  judge ask c = elim (ask c) [ raise e ↦ none | ok r ↦ judged_pair c (parse_judgement r.text) ]

  unfoldable pub judge_all : (Candidates → Result Completion) → List Candidates → List (ClaimPair F)
  unfolding judge
  judge_all ask [] = []
  judge_all ask (c ∷ cs) =
      let rest = judge_all ask cs in elim (judge ask c) [ none ↦ rest | some p ↦ p ∷ rest ]

  abbrev pub first_chunks : ℕ → List DocumentChunk → List DocumentChunk
  first_chunks pid chunks = take 30 (
      sort_by (λ (a : DocumentChunk) (b : DocumentChunk). leb a.chunk_index b.chunk_index)
        (keep_if (λ (c : DocumentChunk). c.paper_id == pid) chunks))

  abbrev pub claims_of : ℕ → List DocumentChunk → List Text
  claims_of pid chunks =
      extract_claims lower
        (join (32 ∷ []) (map (λ (c : DocumentChunk). c.content) (first_chunks pid chunks))) 6

  abbrev pub add_claims :
      Option ClaimPaper → List Text → Dict Text (List Text) → Dict Text (List Text)
  add_claims none found d = d
  add_claims (some p) found d = if is_empty found then d else put (paper_label p) found d

  -- The claims under the papers' titles.
  unfoldable pub gather_claims :
      List ClaimPaper → List DocumentChunk → List ℕ → Dict Text (List Text) → Dict Text (List Text)
  unfolding find_claim_paper
  gather_claims papers chunks [] d = d
  gather_claims papers chunks (pid ∷ pids) d =
      gather_claims papers chunks pids
        (add_claims (find_claim_paper pid papers) (claims_of pid chunks) d)

  abbrev pub related_as : Text → List (ClaimPair F) → List (ClaimPair F)
  related_as relation pairs =
      sort_by_score fl (λ (p : ClaimPair F). p.confidence)
        (keep_if (λ (p : ClaimPair F). p.relation == relation) pairs)

  -- The contradictions and the agreements.
  unfoldable pub compare_claims :
      (Candidates → Result Completion)
      → List ClaimPaper
      → List DocumentChunk
      → List ℕ
      → ℕ
      → List (ClaimPair F) × List (ClaimPair F)
  unfolding gather_claims judge_all
  compare_claims ask papers chunks paper_ids max_pairs =
      let pairs = candidate_pairs lower (gather_claims papers chunks paper_ids []) max_pairs in
      let found = judge_all ask pairs in
      if ltb (length paper_ids) 2
      then ([], [])
      else (related_as (codes "contradiction") found, related_as (codes "agreement") found)
