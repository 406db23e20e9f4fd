-- ===== src/Retrieval/Service/Tests.antt =====
-- The pipeline's theorems at a small library.
use research_mind_ai.Prelude.{
  ℕ, codes, ◌≡◌, refl, true, some, [], ◌∷◌, arith, sym, length-map, nat_eq, list_eq,
}
use research_mind_ai.Retrieval.Scores.{nat_floats}
use research_mind_ai.Retrieval.Filters.{text, lookup_value}
use research_mind_ai.Retrieval.Sparse.{empty_index}
use research_mind_ai.Retrieval.Sparse.Valid.{empty-IsValid, add-IsValid}
use research_mind_ai.Retrieval.Rerank.{Candidate}
use research_mind_ai.Retrieval.Service.{retrieve}
use research_mind_ai.Retrieval.Service.Access.{IsFaithful}
use research_mind_ai.Retrieval.Service.Answer.{
  retrieve_authorized, retrieve_years, IsAnswer, with_years,
}
use research_mind_ai.Retrieval.Service.Stores.{local_backends-IsFaithful}
use research_mind_ai.Retrieval.Service.Sample.{
  same, library, show, show_injective, bm25, bm25_names, vectors, scorer, backends,
  backends-IsFaithful, everything,
}

local_backends-IsFaithful_example : IsFaithful backends
unfolding lookup_value
local_backends-IsFaithful_example =
    local_backends-IsFaithful nat_floats 1 0 1000 show same (λ a b. true) (λ q. 1 ∷ 1 ∷ []) scorer
      vectors bm25 2 (λ q. refl) ((refl, refl), tt)
      (add-IsValid same 1 7 (codes "graph search") ((codes "paper_id", text (show 7)) ∷ [])
        empty_index empty-IsValid)
      bm25_names (λ q cs. sym (length-map (λ (c : Candidate ℕ). c.original_score) cs))
      show_injective

retrieve_authorized_example :
    IsAnswer nat_floats backends backends-IsFaithful library 100 5
      (retrieve nat_floats backends library 100 (codes "graph") 5 everything true)
retrieve_authorized_example =
    retrieve_authorized nat_floats backends backends-IsFaithful library 100 (codes "graph") 5
      everything true (omega arith)

retrieve_years_example :
    retrieve nat_floats backends library 100
      (codes "graph")
      5
      (with_years (some 2020) (some 2021) everything)
      true
    ≡ retrieve nat_floats backends library 100 (codes "graph") 5 everything true
retrieve_years_example =
    retrieve_years nat_floats backends library 100 (codes "graph") 5 everything true (some 2020)
      (some 2021)
