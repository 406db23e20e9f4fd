-- ===== src/Retrieval/Service/Sample.antt =====
-- A small library, to run the pipeline on.
use research_mind_ai.Prelude.{
  ℕ, Text, codes, ◌≡◌, refl, true, none, List, [], ◌∷◌, map, sym, length-map, nat_eq, list_eq,
}
use research_mind_ai.Prelude.Dict.{AllValues, put, get}
use research_mind_ai.Retrieval.Scores.{nat_floats}
use research_mind_ai.Retrieval.Filters.{text, lookup_value}
use research_mind_ai.Retrieval.Sparse.{Index, add, empty_index}
use research_mind_ai.Retrieval.Sparse.Valid.{empty-IsValid, add-IsValid}
use research_mind_ai.Retrieval.Rerank.{Candidate}
use research_mind_ai.Retrieval.Vectors.{Records}
use research_mind_ai.Retrieval.Service.{Database, RetrievalFilters, Backends}
use research_mind_ai.Retrieval.Service.Access.{IsFaithful}
use research_mind_ai.Retrieval.Service.Stores.{
  local_backends, local_backends-IsFaithful, NamesPaper,
}

abbrev pub same : Text → Text
same t = t

-- Two users, each with a workspace and a paper.
abbrev pub library : Database
library = record {
  workspaces = record { id = 1; owner_id = 100 } ∷ record { id = 2; owner_id = 200 } ∷ [];
  papers =
      record { id = 7; workspace_id = 1; title = none }
      ∷ record { id = 8; workspace_id = 2; title = none }
      ∷ [];
  chunks =
      record {
        id = 1;
        paper_id = 7;
        content = codes "graph search";
        section_path = none;
        page_number = none;
        kind = codes "text";
      }
      ∷ [];
}

abbrev pub show : ℕ → Text
show n = n ∷ []

pub show_injective : (x y : ℕ) → show x ≡ show y → x ≡ y
show_injective x y e = cc

abbrev pub bm25 : Index
bm25 = add same 1 7 (codes "graph search") ((codes "paper_id", text (show 7)) ∷ []) empty_index

pub bm25_names : AllValues (NamesPaper nat_floats show) bm25.documents
unfolding add put get lookup_value
bm25_names = (refl, tt)

abbrev pub vectors : Records ℕ
vectors =
    (
      1,
      record {
        chunk_id = 1;
        paper_id = 7;
        workspace_id = 1;
        vector = 1 ∷ 2 ∷ [];
        metadata = (codes "paper_id", text (show 7)) ∷ [];
      },
    )
    ∷ []

abbrev pub scorer : Text → List (Candidate ℕ) → List ℕ
scorer q cs = map (λ (c : Candidate ℕ). c.original_score) cs

abbrev pub backends : Backends ℕ
backends =
    local_backends nat_floats 1 0 1000 show same (λ a b. true) (λ q. 1 ∷ 1 ∷ []) scorer vectors bm25

pub backends-IsFaithful : IsFaithful backends
unfolding lookup_value
backends-IsFaithful =
    local_backends-IsFaithful nat_floats 1 0 1000 show same (λ a b. true) (λ q. 1 ∷ 1 ∷ []) scorer
      vectors bm25 2 (λ q. refl) ((refl, refl), tt)
      (add-IsValid same 1 7 (codes "graph search") ((codes "paper_id", text (show 7)) ∷ [])
        empty_index empty-IsValid)
      bm25_names (λ q cs. sym (length-map (λ (c : Candidate ℕ). c.original_score) cs))
      show_injective

abbrev pub everything : RetrievalFilters
everything = record { paper_ids = []; kinds = []; year_from = none; year_to = none; sections = [] }
