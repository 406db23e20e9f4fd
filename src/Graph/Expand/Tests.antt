-- ===== src/Graph/Expand/Tests.antt =====
-- Expanding a query over two papers with a shared entity.
use research_mind_ai.Prelude.{
  ℕ, ◌≤◌, Text, codes, ◌≡◌, refl, none, some, List, [], ◌∷◌, map, length, All, NoRepeat, strip,
  join, is_space, nat_eq,
}
use research_mind_ai.Prelude.Dict.{get, put}
use research_mind_ai.Prelude.Sort.{sort_by}
use research_mind_ai.Retrieval.Scores.{nat_floats, sort_by_score}
use research_mind_ai.Retrieval.Service.{Database}
use research_mind_ai.Graph.Expand.{ExtractedEntity, GraphPath, expand}
use research_mind_ai.Graph.Expand.Related.{IsRelated, expand-IsRelated}

abbrev same : Text → Text
same t = t

abbrev library : Database
library = record {
  workspaces = record { id = 1; owner_id = 100 } ∷ record { id = 2; owner_id = 200 } ∷ [];
  papers =
      record { id = 7; workspace_id = 1; title = none }
      ∷ record { id = 8; workspace_id = 1; title = some (codes "Trees") }
      ∷ record { id = 9; workspace_id = 2; title = none }
      ∷ [];
  chunks = [];
}

abbrev mention : ℕ → ExtractedEntity ℕ
mention pid = record {
  paper_id = pid;
  label = codes "Model";
  key = codes "bert";
  name = codes "BERT";
  confidence = pid;
}

abbrev mentions : List (ExtractedEntity ℕ)
mentions = mention 7 ∷ mention 8 ∷ mention 9 ∷ []

expand-IsRelated_example :
    (length (expand nat_floats same (λ q. []) library mentions 100 (codes "bert") (7 ∷ []) 12).paths
      ≤ 12)
    × NoRepeat (
        map
          (λ (p : GraphPath). p.paper_id)
          (expand nat_floats same (λ q. []) library mentions 100 (codes "bert") (7 ∷ []) 12).paths)
    × All
        (IsRelated nat_floats same
          (λ q. [])
          library
          mentions
          100
          (7 ∷ [])
          (expand nat_floats same (λ q. []) library mentions 100 (codes "bert") (7 ∷ []) 12))
        (expand nat_floats same (λ q. []) library mentions 100 (codes "bert") (7 ∷ []) 12).paths
expand-IsRelated_example =
    expand-IsRelated nat_floats same (λ q. []) library mentions 100 (codes "bert") (7 ∷ []) 12

-- The limit on the papers of an entity counts the excluded one.
crowded_out :
    (expand nat_floats same (λ q. []) library mentions 100 (codes "bert") (7 ∷ []) 1).paths ≡ []
unfolding expand is_space strip join sort_by_score sort_by
crowded_out = refl

one_path :
    map
      (λ (p : GraphPath). p.paper_id)
      (expand nat_floats same (λ q. []) library mentions 100 (codes "bert") (7 ∷ []) 12).paths
    ≡ 8 ∷ []
unfolding expand is_space strip join sort_by_score sort_by get put
one_path = refl
