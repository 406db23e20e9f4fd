-- ===== src/Retrieval/Service/Access.antt =====
-- Retrieval (backend/app/retrieval/service.py) shows a user only what the user owns.
use research_mind_ai.Prelude.{
  ℕ, Text, ◌≡◌, Bool, true, false, ◌&&◌, ◌||◌, Option, some, List, [], ◌∷◌, map, length, keep_if,
  contains, All, In, In-map, In-keep_if, ◌==◌, nat_eq, list_eq, ==_iff, if◌then◌else◌, arith,
  In-contains, and_left,
}
use research_mind_ai.Prelude.Dict.{get, put, get-put}
use research_mind_ai.Retrieval.Filters.{
  Metadata, Filters, Expected, text, any_of, matches, meets, lookup_value, value_eq,
}
use research_mind_ai.Retrieval.Hits.{Hit}
use research_mind_ai.Retrieval.Rerank.{Candidate}
use research_mind_ai.Retrieval.Service.{
  RetrievalFilters, Workspace, Paper, Database, Backends, is_empty, paper_key,
  resolve_workspace_ids, allowed_paper_ids,
}

-- The paper stands in a workspace that the user owns.
abbrev pub IsVisible : Database → ℕ → ℕ → Type 0
IsVisible db user pid =
    (p : Paper) × In p db.papers
    × (pid ≡ p.id)
    × (w : Workspace) × In w db.workspaces
    × (p.workspace_id ≡ w.id)
    × (w.owner_id ≡ user)

pub In-else : (b : Bool) (a : ℕ) (xs : List ℕ) → In a (if b then [] else xs) → In a xs
In-else true a xs h = absurd h
In-else false a xs h = h

pub allowed-IsVisible :
    (db : Database) (user : ℕ) (filters : RetrievalFilters) (pid : ℕ)
    → In pid (allowed_paper_ids db user filters)
    → IsVisible db user pid
unfolding allowed_paper_ids resolve_workspace_ids
allowed-IsVisible db user filters pid i =
    let ids = resolve_workspace_ids db user in
    let wanted = λ (p : Paper).
      contains p.workspace_id ids
      && (is_empty filters.paper_ids || contains p.id filters.paper_ids) in
    let owns = λ (w : Workspace). w.owner_id == user in
    let (p, j, e) =
      In-map (λ (p : Paper). p.id) pid (keep_if wanted db.papers)
        (In-else (is_empty ids) pid _ i) in
    let (here, ok) = In-keep_if wanted p db.papers j in
    let (w, k, q) =
      In-map (λ (w : Workspace). w.id) p.workspace_id (keep_if owns db.workspaces)
        (In-contains p.workspace_id ids (and_left _ _ ok)) in
    let (there, own) = In-keep_if owns w db.workspaces k in
    (p, here, e, w, there, q, (==_iff w.owner_id user).0 own)

matches-get :
    (k : Text) (x : Expected) (m : Metadata) (f : Filters)
    → matches m f ≡ true
    → get k f ≡ some x
    → meets (lookup_value k m) x ≡ true
unfolding matches get
matches-get k x m [] h g = cc
matches-get k x m ((j, y) ∷ f) h g = ground (arith, ==_iff j k, matches-get k x m f)

In-labels :
    (show : ℕ → Text) (p : ℕ) (ps : List ℕ)
    → ((a b : ℕ) → show a ≡ show b → a ≡ b)
    → contains (text (show p)) (map (λ q. text (show q)) ps) ≡ true
    → In p ps
In-labels show p [] inj h = cc
In-labels show p (q ∷ ps) inj h =
    ground (arith, ==_iff (text (show q)) (text (show p)), inj p q, In-labels show p ps inj)

-- A hit passes the filters, and its metadata names its own paper.
abbrev pub IsLabelled : {F : Type 0} → (ℕ → Text) → Filters → Hit F → Type 0
IsLabelled show filters h =
    (matches h.metadata filters ≡ true)
    × (lookup_value paper_key h.metadata ≡ text (show h.paper_id))

abbrev pub Answers :
    {F : Type 0} → (ℕ → Text) → (Text → ℕ → Filters → Option (List (Hit F))) → Type 0
Answers {F} show search =
    (q : Text) (n : ℕ) (f : Filters)
    → (hits : List (Hit F)) × (search q n f ≡ some hits) × All (IsLabelled show f) hits

-- The retrievers answer with labelled hits, the scorer gives a score for each candidate, and
-- different ids are printed differently.
pub record IsFaithful {F : Type 0} (b : Backends F) : Type 0 where
  pub dense : Answers b.show b.dense_search
  pub sparse : Answers b.show b.sparse_search
  pub scores : (q : Text) (cs : List (Candidate F)) → length cs ≡ length (b.rerank_scores q cs)
  pub show_injective : (x y : ℕ) → b.show x ≡ b.show y → x ≡ y

pub labelled-In :
    {F : Type 0} (show : ℕ → Text) (ps : List ℕ) (f : Filters) (h : Hit F)
    → ((a b : ℕ) → show a ≡ show b → a ≡ b)
    → IsLabelled show (put paper_key (any_of (map (λ p. text (show p)) ps)) f) h
    → In h.paper_id ps
unfolding meets
labelled-In show ps f h inj (m, l) =
    let wanted = any_of (map (λ p. text (show p)) ps) in
    In-labels show h.paper_id ps inj (
      rw l at (
        matches-get paper_key wanted h.metadata (put paper_key wanted f) m
          (get-put paper_key paper_key wanted f)))
