-- ===== src/Research/Conflicts.antt =====
-- Conflicting numbers of papers: find_numeric_conflicts of backend/app/research/contradictions.py.
-- The tables are lists of rows, and `tiny` is the literal 1e-9.
pub mod Sound
use research_mind_ai.Prelude.{
  ℕ, Text, codes, Bool, true, false, not, ◌&&◌, Option, none, some, List, [], ◌∷◌, ◌++◌, map,
  length, keep_if, contains, ltb, ◌==◌, nat_eq, list_eq, pair_eq, if◌then◌else◌,
}
use research_mind_ai.Prelude.Dict.{Dict, get, put, values}
use research_mind_ai.Retrieval.Scores.{Floats, sort_by_score}
use research_mind_ai.Retrieval.Service.{Paper, find_paper, is_empty}

pub record ExperimentResult (F : Type 0) : Type 0 where
  pub paper_id : ℕ
  pub model_key : Text
  pub dataset_key : Option Text
  pub metric_key : Text
  pub model_name : Text
  pub dataset_name : Option Text
  pub metric_name : Text
  pub value : F

pub record NumericConflict (F : Type 0) : Type 0 where
  pub model : Text
  pub dataset : Text
  pub metric : Text
  pub left_paper : Text
  pub left_value : F
  pub right_paper : Text
  pub right_value : F

-- A row of the query: a result and the title of its paper.
abbrev pub Entry : Type 0 → Type 0
Entry F = ExperimentResult F × Text

abbrev pub GroupKey : Type 0
GroupKey = Text × (Text × Text)

-- Python's `x or y` on texts.
abbrev pub text_or : Option Text → Text → Text
text_or none t = t
text_or (some []) t = t
text_or (some (c ∷ cs)) t = c ∷ cs

module _ (fl : Floats) (tiny : fl.F) where
  open fl use {F}

  abbrev pub magnitude : F → F
  magnitude x = if fl.lt x (fl.of_ℕ 0) then fl.sub (fl.of_ℕ 0) x else x

  abbrev pub larger_of : F → F → F
  larger_of a b = if fl.lt a b then b else a

  unfoldable pub relative_gap : NumericConflict F → F
  relative_gap c =
      fl.div (magnitude (fl.sub c.left_value c.right_value))
        (larger_of (larger_of (magnitude c.left_value) (magnitude c.right_value)) tiny)

  -- The join with the papers, for the papers of the request.
  unfoldable pub result_rows : List Paper → List ℕ → List (ExperimentResult F) → List (Entry F)
  result_rows papers paper_ids [] = []
  result_rows papers paper_ids (r ∷ rs) =
      let rest = result_rows papers paper_ids rs in
      if contains r.paper_id paper_ids
      then elim (find_paper r.paper_id papers) [
        | none ↦ rest
        | some p ↦ (r, text_or p.title (codes "Untitled")) ∷ rest
      ]
      else rest

  -- The key of a row, if it has a dataset.
  abbrev pub key_of : ExperimentResult F → Option GroupKey
  key_of r = elim r.dataset_key [
    | none ↦ none
    | some dataset ↦ if is_empty dataset then none else some (r.model_key, (dataset, r.metric_key))
  ]

  abbrev pub or_no_entries : Option (List (Entry F)) → List (Entry F)
  or_no_entries none = []
  or_no_entries (some es) = es

  -- grouped[key].append(entry)
  abbrev pub add_entry :
      Entry F → Option GroupKey → Dict GroupKey (List (Entry F)) → Dict GroupKey (List (Entry F))
  add_entry e none d = d
  add_entry e (some k) d = put k (or_no_entries (get k d) ++ (e ∷ [])) d

  unfoldable pub group_rows :
      List (Entry F) → Dict GroupKey (List (Entry F)) → Dict GroupKey (List (Entry F))
  group_rows [] d = d
  group_rows (e ∷ es) d = group_rows es (add_entry e (key_of e.0) d)

  -- {entry[0].paper_id: entry for entry in entries}
  unfoldable pub by_paper : List (Entry F) → Dict ℕ (Entry F) → Dict ℕ (Entry F)
  by_paper [] d = d
  by_paper (e ∷ es) d = by_paper es (put e.0.paper_id e d)

  abbrev pub conflict_of : Entry F → Entry F → NumericConflict F
  conflict_of left right = record {
    model = left.0.model_name;
    dataset = text_or left.0.dataset_name (text_or left.0.dataset_key (codes "unknown"));
    metric = left.0.metric_name;
    left_paper = left.1;
    left_value = left.0.value;
    right_paper = right.1;
    right_value = right.0.value;
  }

  module _ (threshold : F) where
    abbrev pub is_conflict : NumericConflict F → Bool
    is_conflict c = not (fl.lt (relative_gap c) threshold)

    unfoldable pub conflicts_among : List (Entry F) → List (NumericConflict F)
    unfolding relative_gap
    conflicts_among [] = []
    conflicts_among (left ∷ rest) =
        keep_if is_conflict (map (conflict_of left) rest) ++ conflicts_among rest

    abbrev pub group_conflicts : List (Entry F) → List (NumericConflict F)
    group_conflicts entries =
        let ordered = values (by_paper entries []) in
        if ltb (length ordered) 2 then [] else conflicts_among ordered

    unfoldable pub all_conflicts : List (List (Entry F)) → List (NumericConflict F)
    unfolding by_paper conflicts_among
    all_conflicts [] = []
    all_conflicts (entries ∷ groups) = group_conflicts entries ++ all_conflicts groups

    unfoldable pub find_numeric_conflicts :
        List Paper → List (ExperimentResult F) → List ℕ → List (NumericConflict F)
    unfolding result_rows group_rows all_conflicts
    find_numeric_conflicts papers results paper_ids =
        let rows = result_rows papers paper_ids results in
        if ltb (length paper_ids) 2
        then []
        else sort_by_score fl relative_gap (all_conflicts (values (group_rows rows [])))
