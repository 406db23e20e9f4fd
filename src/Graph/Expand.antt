-- ===== src/Graph/Expand.antt =====
-- Papers related through shared entities: backend/app/graph/retrieval.py. The tables are lists of
-- rows; the names that the gazetteer of extraction.py finds in a query are a parameter.
pub mod Ranks
pub mod Related
mod Tests
use research_mind_ai.Prelude.{
  ℕ, ◌+◌, Text, codes, Bool, true, false, not, ◌&&◌, ◌||◌, Option, none, some, List, [], ◌∷◌, ◌++◌,
  map, length, take, keep_if, contains, leb, ◌==◌, nat_eq, list_eq, pair_eq, if◌then◌else◌,
}
use research_mind_ai.Prelude.Dict.{Dict, get, put, values}
use research_mind_ai.Prelude.Sort.{sort_by}
use research_mind_ai.Retrieval.Scores.{Floats, sort_by_score}
use research_mind_ai.Retrieval.Service.{
  Paper, Database, resolve_workspace_ids, find_paper, is_empty,
}
use research_mind_ai.Graph.Schema.{normalize_key, words_from}

pub record ExtractedEntity (F : Type 0) : Type 0 where
  pub paper_id : ℕ
  pub label : Text
  pub key : Text
  pub name : Text
  pub confidence : F

pub record GraphPath : Type 0 where
  pub paper_id : ℕ
  pub paper_title : Text
  pub entity_label : Text
  pub entity_name : Text
  pub shared_with : List Text

pub record GraphContext : Type 0 where
  pub seed_entities : List (Text × Text)
  pub paths : List GraphPath

abbrev pub max_seed_entities : ℕ
max_seed_entities = 8

abbrev pub min_term_length : ℕ
min_term_length = 3

-- _accessible_paper_ids
unfoldable pub accessible_paper_ids : Database → ℕ → List ℕ
unfolding resolve_workspace_ids
accessible_paper_ids db user =
    let ids = resolve_workspace_ids db user in
    if is_empty ids
    then []
    else map (λ (p : Paper). p.id) (keep_if (λ (p : Paper). contains p.workspace_id ids) db.papers)

-- title or "Untitled"
abbrev pub title_or : Option Text → Text
title_or none = codes "Untitled"
title_or (some []) = codes "Untitled"
title_or (some (c ∷ cs)) = c ∷ cs

-- _rank_paths: the grouped paths and how many entities each paper shares.
pub record Ranking : Type 0 where
  pub grouped : Dict ℕ GraphPath
  pub strength : Dict ℕ ℕ

abbrev pub or_zero_count : Option ℕ → ℕ
or_zero_count none = 0
or_zero_count (some n) = n

module _ (lower : Text → Text) where
  abbrev pub shared_label : GraphPath → Text
  shared_label p = p.entity_name ++ (codes " (" ++ (lower p.entity_label ++ codes ")"))

  abbrev pub add_path : GraphPath → Option GraphPath → Ranking → Ranking
  add_path p none r = record {
    grouped = put p.paper_id p r.grouped;
    strength = put p.paper_id 1 r.strength;
  }
  add_path p (some existing) r = record {
    grouped =
        put p.paper_id
          (record existing { shared_with = existing.shared_with ++ (shared_label p ∷ []) })
          r.grouped;
    strength = put p.paper_id (or_zero_count (get p.paper_id r.strength) + 1) r.strength;
  }

  unfoldable pub group_paths : List GraphPath → Ranking → Ranking
  group_paths [] r = r
  group_paths (p ∷ ps) r = group_paths ps (add_path p (get p.paper_id r.grouped) r)

  abbrev pub stronger : Ranking → GraphPath → GraphPath → Bool
  stronger r a b =
      leb (or_zero_count (get b.paper_id r.strength)) (or_zero_count (get a.paper_id r.strength))

  unfoldable pub rank_paths : List GraphPath → List GraphPath
  unfolding group_paths
  rank_paths paths =
      let r = group_paths paths (record { grouped = []; strength = [] }) in
      sort_by (stronger r) (values r.grouped)

module _ (fl : Floats) (lower : Text → Text) (gazetteer : Text → List Text) (db : Database)
    (entities : List (ExtractedEntity fl.F)) where
  open fl use {F}

  abbrev pub candidate_keys : Text → List Text
  candidate_keys query =
      keep_if (λ k. not (is_empty k))
        (map (normalize_key lower) (gazetteer query)
          ++ map (normalize_key lower)
              (keep_if (λ term. leb min_term_length (length term)) (words_from [] query)))

  -- The loop over the rows: the first of each label and key, at most eight.
  unfoldable pub pick_seeds :
      List (ExtractedEntity F)
      → List (Text × Text)
      → List (ExtractedEntity F)
      → List (ExtractedEntity F)
  pick_seeds [] seen seeds = seeds
  pick_seeds (row ∷ rows) seen seeds =
      let skipped = pick_seeds rows seen seeds in
      let picked = pick_seeds rows ((row.label, row.key) ∷ seen) (seeds ++ (row ∷ [])) in
      if contains (row.label, row.key) seen
      then skipped
      else if leb max_seed_entities (length seeds + 1)
      then seeds ++ (row ∷ [])
      else picked

  unfoldable pub find_seed_entities : Text → List ℕ → List (ExtractedEntity F)
  unfolding pick_seeds normalize_key words_from
  find_seed_entities query paper_ids =
      let keys = candidate_keys query in
      if is_empty paper_ids || is_empty keys
      then []
      else pick_seeds
          (sort_by_score fl (λ (e : ExtractedEntity F). e.confidence)
            (keep_if
              (λ (e : ExtractedEntity F). contains e.paper_id paper_ids && contains e.key keys)
              entities))
          [] []

  -- The rows of the query for the papers of a seed; the join drops a row without its paper.
  unfoldable pub join_papers : List (ExtractedEntity F) → List (ℕ × Option Text)
  unfolding find_paper
  join_papers [] = []
  join_papers (e ∷ es) =
      let rest = join_papers es in
      elim (find_paper e.paper_id db.papers) [ none ↦ rest | some p ↦ (e.paper_id, p.title) ∷ rest ]

  abbrev pub siblings : List ℕ → ℕ → ExtractedEntity F → List (ℕ × Option Text)
  siblings accessible limit seed = take limit (
      join_papers (
        keep_if
          (λ (e : ExtractedEntity F).
            (e.key == seed.key && e.label == seed.label) && contains e.paper_id accessible)
          entities))

  abbrev pub path_to : ExtractedEntity F → ℕ × Option Text → GraphPath
  path_to seed (paper_id, title) = record {
    paper_id = paper_id;
    paper_title = title_or title;
    entity_label = seed.label;
    entity_name = seed.name;
    shared_with = [];
  }

  unfoldable pub paths_from : List ℕ → List ℕ → ℕ → List (ExtractedEntity F) → List GraphPath
  unfolding join_papers
  paths_from accessible excluded limit [] = []
  paths_from accessible excluded limit (seed ∷ seeds) =
      map (path_to seed) (
        keep_if (λ (row : ℕ × Option Text). not (contains row.0 excluded))
          (siblings accessible limit seed))
      ++ paths_from accessible excluded limit seeds

  unfoldable pub expand : ℕ → Text → List ℕ → ℕ → GraphContext
  unfolding accessible_paper_ids find_seed_entities paths_from rank_paths
  expand user query excluded limit =
      let accessible = accessible_paper_ids db user in
      let seeds = find_seed_entities query accessible in
      if is_empty seeds then record { seed_entities = []; paths = [] } else record {
        seed_entities = map (λ (s : ExtractedEntity F). (s.label, s.name)) seeds;
        paths = take limit (rank_paths lower (paths_from accessible excluded limit seeds));
      }
