-- ===== src/Research/Report.antt =====
-- analyze_consistency and its report: backend/app/research/contradictions.py. `threshold` is
-- NUMERIC_CONFLICT_THRESHOLD, and a request without a gateway has no `ask`.
use research_mind_ai.Prelude.{
  ℕ, Text, Bool, ◌&&◌, Option, none, some, List, [], length, if◌then◌else◌,
}
use research_mind_ai.Retrieval.Scores.{Floats}
use research_mind_ai.Retrieval.Service.{Paper, is_empty}
use research_mind_ai.Retrieval.Indexer.{DocumentChunk}
use research_mind_ai.Llm.Gateway.{Completion, Result}
use research_mind_ai.Llm.Json.{JsonReader}
use research_mind_ai.Research.Claims.{Candidates}
use research_mind_ai.Research.Claims.Compare.{ClaimPaper, ClaimPair, compare_claims}
use research_mind_ai.Research.Conflicts.{ExperimentResult, NumericConflict, find_numeric_conflicts}

pub record ConsistencyReport (F : Type 0) : Type 0 where
  pub numeric_conflicts : List (NumericConflict F)
  pub contradictions : List (ClaimPair F)
  pub agreements : List (ClaimPair F)
  pub papers_examined : ℕ

unfoldable pub is_consistent : {F : Type 0} → ConsistencyReport F → Bool
is_consistent report = is_empty report.numeric_conflicts && is_empty report.contradictions

module _ (fl : Floats) {V : Type 0} (reader : JsonReader fl.F V) (lower : Text → Text)
    (tiny threshold : fl.F) where
  open fl use {F}

  abbrev pub with_claims :
      ConsistencyReport F → List (ClaimPair F) × List (ClaimPair F) → ConsistencyReport F
  with_claims report (contradictions, agreements) = record report {
    contradictions = contradictions;
    agreements = agreements;
  }

  unfoldable pub analyze_consistency :
      Option (Candidates → Result Completion)
      → Bool
      → List Paper
      → List ClaimPaper
      → List DocumentChunk
      → List (ExperimentResult F)
      → List ℕ
      → ConsistencyReport F
  analyze_consistency gateway include_claims papers titles chunks results paper_ids =
      let report : ConsistencyReport F = record {
        numeric_conflicts = find_numeric_conflicts fl tiny threshold papers results paper_ids;
        contradictions = [];
        agreements = [];
        papers_examined = length paper_ids;
      } in
      elim gateway [
        | none ↦ report
        | some ask ↦
            if include_claims
            then with_claims report (compare_claims fl reader lower ask titles chunks paper_ids 24)
            else report
      ]
