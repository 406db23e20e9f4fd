-- ===== src/Graph/Expand/Related.antt =====
-- What the expansion of backend/app/graph/retrieval.py returns.
use research_mind_ai.Prelude.{
  ℕ, ◌≤◌, Text, ◌≡◌, ap, inl, inr, false, not, ◌&&◌, Bool-cases, Option-cases, Option, List, [],
  ◌∷◌, map, length, take, keep_if, length-take-le, contains, ◌==◌, ==_iff, nat_eq, list_eq, arith,
  and_right, All, All-append, All-take, All-map, In, In-keep_if, In-map, In-contains, In→All,
  All→In, NoRepeat,
}
use research_mind_ai.Retrieval.Scores.{Floats}
use research_mind_ai.Retrieval.Service.{
  Workspace, Paper, Database, resolve_workspace_ids, find_paper, is_empty,
}
use research_mind_ai.Retrieval.Service.Access.{IsVisible, In-else}
use research_mind_ai.Graph.Expand.{
  ExtractedEntity, GraphPath, GraphContext, accessible_paper_ids, rank_paths, find_seed_entities,
  join_papers, siblings, path_to, paths_from, expand,
}
use research_mind_ai.Graph.Expand.Ranks.{rank_paths-All, take-NoRepeat}

accessible-IsVisible :
    (db : Database) (user pid : ℕ) → In pid (accessible_paper_ids db user) → IsVisible db user pid
unfolding accessible_paper_ids resolve_workspace_ids
accessible-IsVisible db user pid i =
    let ids = resolve_workspace_ids db user in
    let wanted = λ (p : Paper). contains p.workspace_id ids in
    let owns = λ (w : Workspace). w.owner_id == user in
    let (p, j, e) =
      In-map (λ (p : Paper). p.id) pid (keep_if wanted db.papers)
        (In-else (is_empty ids) pid _ i) in
    let (here, ok) = In-keep_if wanted p db.papers j in
    let (w, k, q) =
      In-map (λ (w : Workspace). w.id) p.workspace_id (keep_if owns db.workspaces)
        (In-contains p.workspace_id ids ok) in
    let (there, own) = In-keep_if owns w db.workspaces k in
    (p, here, e, w, there, q, (==_iff w.owner_id user).0 own)

module _ (fl : Floats) (lower : Text → Text) (gazetteer : Text → List Text) (db : Database)
    (entities : List (ExtractedEntity fl.F)) where
  open fl use {F}

  join_papers-All :
      (Q : ℕ → Type 0) (es : List (ExtractedEntity F))
      → All (λ (e : ExtractedEntity F). Q e.paper_id) es
      → All (λ (row : ℕ × Option Text). Q row.0) (join_papers fl lower gazetteer db entities es)
  unfolding join_papers
  join_papers-All Q [] a = tt
  join_papers-All Q (e ∷ es) a = elim (Option-cases (find_paper e.paper_id db.papers)) [
    | inl out ↦ rw (out, join_papers) (join_papers-All Q es a.1)
    | inr (p, found) ↦ rw (found, join_papers) (a.0, join_papers-All Q es a.1)
  ]

  siblings-All :
      (accessible : List ℕ) (limit : ℕ) (seed : ExtractedEntity F)
      → All
          (λ (row : ℕ × Option Text). In row.0 accessible)
          (siblings fl lower gazetteer db entities accessible limit seed)
  siblings-All accessible limit seed =
      let wanted = λ (e : ExtractedEntity F).
        (e.key == seed.key && e.label == seed.label) && contains e.paper_id accessible in
      All-take (λ (row : ℕ × Option Text). In row.0 accessible) limit _
        (join_papers-All (λ pid. In pid accessible) (keep_if wanted entities)
          (In→All (λ (e : ExtractedEntity F). In e.paper_id accessible) (keep_if wanted entities)
            (λ e i.
              In-contains e.paper_id accessible
                (and_right _ _ (In-keep_if wanted e entities i).1))))

  module _ (accessible excluded : List ℕ) (limit : ℕ) (named : List (Text × Text)) where
    -- The paper is accessible and not excluded, and its entity is one of the seeds.
    abbrev IsPath : GraphPath → Type 0
    IsPath p =
        In p.paper_id accessible
        × (contains p.paper_id excluded ≡ false)
        × In (p.entity_label, p.entity_name) named

    paths_from-All :
        (seeds : List (ExtractedEntity F))
        → All (λ (s : ExtractedEntity F). In (s.label, s.name) named) seeds
        → All IsPath (paths_from fl lower gazetteer db entities accessible excluded limit seeds)
    unfolding paths_from
    paths_from-All [] known = tt
    paths_from-All (seed ∷ seeds) known =
        let rows = siblings fl lower gazetteer db entities accessible limit seed in
        let kept = λ (row : ℕ × Option Text). not (contains row.0 excluded) in
        let path = path_to fl lower gazetteer db entities seed in
        All-append IsPath (map path (keep_if kept rows)) _
          (All-map IsPath path (keep_if kept rows) (
            In→All (λ (row : ℕ × Option Text). IsPath (path row)) (keep_if kept rows)
              (λ row i.
                let (there, ok) = In-keep_if kept row rows i in
                (
                  All→In (λ (x : ℕ × Option Text). In x.0 accessible) rows
                      (siblings-All accessible limit seed) row there,
                  ground (arith, ok),
                  known.0,
                ))))
          (paths_from-All seeds known.1)

  In-map_of : {A B : Type 0} (f : A → B) (a : A) (xs : List A) → In a xs → In (f a) (map f xs)
  In-map_of f a [] i = absurd i
  In-map_of f a (x ∷ xs) (inl e) = inl (ap f e)
  In-map_of f a (x ∷ xs) (inr i) = inr (In-map_of f a xs i)

  -- The paper of the path is in a workspace that the user owns and is not excluded, and its entity
  -- is one of those that the context names as seeds.
  abbrev pub IsRelated : ℕ → List ℕ → GraphContext → GraphPath → Type 0
  IsRelated user excluded context p =
      IsVisible db user p.paper_id
      × (contains p.paper_id excluded ≡ false)
      × In (p.entity_label, p.entity_name) context.seed_entities

  -- The expansion of a query returns at most `limit` paths, no two to the same paper; each leads to
  -- a paper in a workspace that the user owns and that is not excluded, through an entity that the
  -- context names as a seed.
  pub expand-IsRelated :
      (user : ℕ) (query : Text) (excluded : List ℕ) (limit : ℕ)
      → let context = expand fl lower gazetteer db entities user query excluded limit in
        (length context.paths ≤ limit)
        × NoRepeat (map (λ (p : GraphPath). p.paper_id) context.paths)
        × All (IsRelated user excluded context) context.paths
  unfolding expand
  expand-IsRelated user query excluded limit =
      let accessible = accessible_paper_ids db user in
      let seeds = find_seed_entities fl lower gazetteer db entities query accessible in
      let named : List (Text × Text) = map (λ (s : ExtractedEntity F). (s.label, s.name)) seeds in
      let paths = paths_from fl lower gazetteer db entities accessible excluded limit seeds in
      let known =
        In→All (λ (s : ExtractedEntity F). In (s.label, s.name) named) seeds
          (λ s i. In-map_of (λ (x : ExtractedEntity F). (x.label, x.name)) s seeds i) in
      let (good, apart) =
        rank_paths-All lower (IsPath accessible excluded limit named) (λ p xs h. h) paths
          (paths_from-All accessible excluded limit named seeds known) in
      elim (Bool-cases (is_empty seeds)) [
        | inl e ↦ rw (e, expand) (omega arith, tt, tt)
        | inr e ↦
            rw (e, expand)
              (
                length-take-le limit (rank_paths lower paths),
                take-NoRepeat (λ (p : GraphPath). p.paper_id) limit (rank_paths lower paths) apart,
                In→All
                    (IsRelated user excluded (record {
                      seed_entities = named;
                      paths = take limit (rank_paths lower paths);
                    }))
                    (take limit (rank_paths lower paths))
                    (λ p i.
                      let (at, fresh, seed) =
                        All→In (IsPath accessible excluded limit named)
                          (take limit (rank_paths lower paths))
                          (All-take (IsPath accessible excluded limit named) limit
                            (rank_paths lower paths) good)
                          p i in
                      (accessible-IsVisible db user p.paper_id at, fresh, seed)),
              )
      ]
