-- ===== src/Eval/Tests.antt =====
-- A case of the evaluation.
use research_mind_ai.Prelude.{
  Text, codes, ascii_digit, ◌≡◌, refl, none, List, [], ◌∷◌, nat_eq, list_eq,
}
use research_mind_ai.Prelude.Sort.{sort_by}
use research_mind_ai.Llm.Citations.{extract_citations}
use research_mind_ai.Eval.Metrics.{citation_validity, score_case}
use research_mind_ai.Eval.Metrics.Bounds.{IsShare, score_case-IsShare}

abbrev same : Text → Text
same t = t

abbrev contexts : List Text
contexts = codes "graph search finds related papers." ∷ []

score_case-IsShare_example :
    IsShare
      (score_case ascii_digit same
        (codes "graph search")
        (codes "graph search works [1] [9].")
        contexts
        (codes "papers")
        none).faithful_share
    × IsShare
        (score_case ascii_digit same
          (codes "graph search")
          (codes "graph search works [1] [9].")
          contexts
          (codes "papers")
          none).relevancy
    × IsShare
        (score_case ascii_digit same
          (codes "graph search")
          (codes "graph search works [1] [9].")
          contexts
          (codes "papers")
          none).precision
    × IsShare
        (score_case ascii_digit same
          (codes "graph search")
          (codes "graph search works [1] [9].")
          contexts
          (codes "papers")
          none).recall
    × IsShare
        (score_case ascii_digit same
          (codes "graph search")
          (codes "graph search works [1] [9].")
          contexts
          (codes "papers")
          none).citations
score_case-IsShare_example =
    score_case-IsShare ascii_digit same (codes "graph search") (codes "graph search works [1] [9].")
      contexts (codes "papers") none

half_valid :
    citation_validity ascii_digit (codes "graph search works [1] [9].") 1
    ≡ record { num = 1; den = 2 }
unfolding citation_validity extract_citations sort_by
half_valid = refl
