-- ===== src/Research/Tests.antt =====
-- Two papers that report different numbers.
use research_mind_ai.Prelude.{
  ℕ, ◌+◌, ◌≤◌, Text, codes, join, strip, is_space, ◌≡◌, refl, true, false, none, some, List, [],
  ◌∷◌, length, contains, nat_eq, list_eq, pair_eq, All,
}
use research_mind_ai.Prelude.Dict.{get, put}
use research_mind_ai.Prelude.Sort.{IsSorted, sort_by}
use research_mind_ai.Retrieval.Scores.{nat_floats, by_score, sort_by_score}
use research_mind_ai.Retrieval.Service.{Paper, find_paper}
use research_mind_ai.Retrieval.Indexer.{DocumentChunk}
use research_mind_ai.Llm.Gateway.{Completion, Result, ok, occurs_in}
use research_mind_ai.Llm.Json.{JsonReader}
use research_mind_ai.Research.Claims.{Candidates, extract_claims}
use research_mind_ai.Research.Claims.Compare.{ClaimPaper, gather_claims, compare_claims}
use research_mind_ai.Research.Claims.Judged.{IsJudgement, compare_claims_judged}
use research_mind_ai.Research.Conflicts.{
  ExperimentResult, Entry, relative_gap, result_rows, find_numeric_conflicts,
}
use research_mind_ai.Research.Report.{is_consistent, analyze_consistency}
use research_mind_ai.Research.Conflicts.Sound.{IsConflict, find_numeric_conflicts_sound}

abbrev papers : List Paper
papers =
    record { id = 7; workspace_id = 1; title = none }
    ∷ record { id = 8; workspace_id = 1; title = some (codes "Trees") }
    ∷ []

abbrev reported : ℕ → ℕ → ExperimentResult ℕ
reported pid v = record {
  paper_id = pid;
  model_key = codes "bert";
  dataset_key = some (codes "squad");
  metric_key = codes "f1";
  model_name = codes "BERT";
  dataset_name = none;
  metric_name = codes "F1";
  value = v;
}

find_numeric_conflicts_sound_example :
    All
      (IsConflict nat_floats 1 1
        (result_rows nat_floats 1 papers (7 ∷ 8 ∷ []) (reported 7 90 ∷ reported 8 30 ∷ [])))
      (find_numeric_conflicts nat_floats 1 1 papers
        (reported 7 90 ∷ reported 8 30 ∷ [])
        (7 ∷ 8 ∷ []))
    × IsSorted (by_score nat_floats (relative_gap nat_floats 1)) (
        find_numeric_conflicts nat_floats 1 1 papers
          (reported 7 90 ∷ reported 8 30 ∷ [])
          (7 ∷ 8 ∷ []))
    × All
        (λ (e : Entry ℕ). contains e.0.paper_id (7 ∷ 8 ∷ []) ≡ true)
        (result_rows nat_floats 1 papers (7 ∷ 8 ∷ []) (reported 7 90 ∷ reported 8 30 ∷ []))
find_numeric_conflicts_sound_example =
    find_numeric_conflicts_sound nat_floats 1 1 papers (reported 7 90 ∷ reported 8 30 ∷ [])
      (7 ∷ 8 ∷ [])

-- A threshold of 0 lets any two numbers conflict; the first paper's first number is not looked at.
one_of_two :
    length (
      find_numeric_conflicts nat_floats 1 0 papers
        (reported 7 90 ∷ reported 7 30 ∷ reported 8 30 ∷ [])
        (7 ∷ 8 ∷ []))
    ≡ 1
unfolding find_numeric_conflicts sort_by_score sort_by find_paper put get
one_of_two = refl

abbrev same : Text → Text
same t = t

-- A model that says that the claims contradict each other, in an object that the reader gets from
-- any text.
abbrev reader : JsonReader ℕ Text
reader = record {
  parse = λ t. some t;
  as_object = λ t. some ((codes "relation", codes "contradiction") ∷ []);
  to_text = λ t. t;
  to_float = λ t. some 1;
}

abbrev ask : Candidates → Result Completion
ask c = ok (record {
  text = codes "{}";
  model = codes "m";
  provider = codes "p";
  usage = record { prompt_tokens = 1; completion_tokens = 1 };
  finish_reason = none;
})

abbrev passage : ℕ → DocumentChunk
passage pid = record {
  id = pid;
  paper_id = pid;
  chunk_index = 0;
  content = codes "We find that attention improves translation quality on every benchmark.";
  section_path = none;
  page_number = none;
  kind = codes "text";
  is_embedded = true;
}

abbrev titled : Text → Text → List ClaimPaper
titled a b =
    record { id = 7; title = some a; original_filename = codes "a.pdf" }
    ∷ record { id = 8; title = some b; original_filename = codes "b.pdf" }
    ∷ []

compare_claims_judged_example :
    All
      (IsJudgement nat_floats reader same refl
        (gather_claims nat_floats reader same
          (titled (codes "A") (codes "B"))
          (passage 7 ∷ passage 8 ∷ [])
          (7 ∷ 8 ∷ [])
          [])
        (codes "contradiction"))
      (compare_claims nat_floats reader same ask
        (titled (codes "A") (codes "B"))
        (passage 7 ∷ passage 8 ∷ [])
        (7 ∷ 8 ∷ [])
        24).0
    × All
        (IsJudgement nat_floats reader same refl
          (gather_claims nat_floats reader same
            (titled (codes "A") (codes "B"))
            (passage 7 ∷ passage 8 ∷ [])
            (7 ∷ 8 ∷ [])
            [])
          (codes "agreement"))
        (compare_claims nat_floats reader same ask
          (titled (codes "A") (codes "B"))
          (passage 7 ∷ passage 8 ∷ [])
          (7 ∷ 8 ∷ [])
          24).1
    × (length
            (compare_claims nat_floats reader same ask
              (titled (codes "A") (codes "B"))
              (passage 7 ∷ passage 8 ∷ [])
              (7 ∷ 8 ∷ [])
              24).0
          + length
              (compare_claims nat_floats reader same ask
                (titled (codes "A") (codes "B"))
                (passage 7 ∷ passage 8 ∷ [])
                (7 ∷ 8 ∷ [])
                24).1
        ≤ 24)
compare_claims_judged_example =
    compare_claims_judged nat_floats reader same refl ask (titled (codes "A") (codes "B"))
      (passage 7 ∷ passage 8 ∷ []) (7 ∷ 8 ∷ []) 24

-- Two papers of the same title: the claims of the first are lost, and nothing is compared.
lost_claims :
    length (
      gather_claims nat_floats reader same
        (titled (codes "A") (codes "A"))
        (passage 7 ∷ passage 8 ∷ [])
        (7 ∷ 8 ∷ [])
        [])
    ≡ 1
unfolding gather_claims extract_claims join sort_by strip is_space occurs_in put
lost_claims = refl

-- Without a gateway no claims are compared; two papers with different numbers are not consistent.
inconsistent :
    is_consistent (
      analyze_consistency nat_floats reader same 1 0 none true papers [] []
        (reported 7 90 ∷ reported 8 30 ∷ [])
        (7 ∷ 8 ∷ []))
    ≡ false
unfolding is_consistent analyze_consistency find_numeric_conflicts sort_by_score sort_by find_paper
    put get
inconsistent = refl
