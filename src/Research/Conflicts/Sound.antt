-- ===== src/Research/Conflicts/Sound.antt =====
-- Each conflict of backend/app/research/contradictions.py is one.
use research_mind_ai.Prelude.{
  ℕ, ◌≡◌, ◌≢◌, refl, sym, ap, ◌∙◌, inl, inr, true, false, Bool-cases, Option-cases, Option, none,
  some, List, [], ◌∷◌, map, length, keep_if, contains, ltb, nat_eq, list_eq, pair_eq, arith, All,
  All-append, All→In, In→All, In, In-map, In-keep_if, NoRepeat,
}
use mathlib.Core.Path.{subst}
use research_mind_ai.Prelude.Dict.{
  Dict, get, put, keys, values, Distinct, put-Distinct, put-All, In-get, keys-NoRepeat,
}
use research_mind_ai.Prelude.Sort.{IsSorted, sort_by-All}
use research_mind_ai.Retrieval.Scores.{Floats, sort_by_score, by_score, sort_by_score-IsSorted}
use research_mind_ai.Retrieval.Service.{Paper, find_paper}
use research_mind_ai.Research.Conflicts.{
  ExperimentResult, NumericConflict, Entry, GroupKey, relative_gap, result_rows, key_of,
  or_no_entries, add_entry, group_rows, by_paper, conflict_of, is_conflict, conflicts_among,
  group_conflicts, all_conflicts, find_numeric_conflicts,
}

module _ (fl : Floats) (tiny threshold : fl.F) (rows : List (Entry fl.F)) where
  open fl use {F}

  -- Two rows of different papers, of the same model, dataset and metric, make up the conflict, and
  -- their gap is not below the threshold.
  abbrev pub IsConflict : NumericConflict F → Type 0
  IsConflict c =
      (a : Entry F) × (b : Entry F) × (k : GroupKey) × In a rows
      × In b rows
      × (key_of fl tiny a.0 ≡ some k)
      × (key_of fl tiny b.0 ≡ some k)
      × (a.0.paper_id ≢ b.0.paper_id)
      × (c ≡ conflict_of fl tiny a b)
      × (fl.lt (relative_gap fl tiny c) threshold ≡ false)

  abbrev Stands : GroupKey → Entry F → Type 0
  Stands k e = In e rows × (key_of fl tiny e.0 ≡ some k)

  abbrev IsGroup : GroupKey × List (Entry F) → Type 0
  IsGroup (k, es) = All (Stands k) es

  add_entry-Groups :
      (e : Entry F) (o : Option GroupKey) (d : Dict GroupKey (List (Entry F)))
      → key_of fl tiny e.0 ≡ o
      → In e rows
      → All IsGroup d
      → All IsGroup (add_entry fl tiny e o d)
  add_entry-Groups e none d key i a = a
  add_entry-Groups e (some k) d key i a =
      put-All IsGroup k _ d
        (All-append (Stands k) (or_no_entries fl tiny (get k d)) (e ∷ []) (before (get k d) refl)
          ((i, key), tt))
        a
    where
      before :
          (o : Option (List (Entry F))) → get k d ≡ o → All (Stands k) (or_no_entries fl tiny o)
      before none q = tt
      before (some es) q = All→In IsGroup d a (k, es) (In-get k es d q)

  group_rows-Groups :
      (es : List (Entry F)) (d : Dict GroupKey (List (Entry F)))
      → All (λ e. In e rows) es
      → All IsGroup d
      → All IsGroup (group_rows fl tiny es d)
  unfolding group_rows
  group_rows-Groups [] d i a = a
  group_rows-Groups (e ∷ es) d i a =
      group_rows-Groups es (add_entry fl tiny e (key_of fl tiny e.0) d) i.1
        (add_entry-Groups e (key_of fl tiny e.0) d refl i.0 a)

  abbrev IsOf : GroupKey → ℕ × Entry F → Type 0
  IsOf k (pid, e) = (pid ≡ e.0.paper_id) × Stands k e

  by_paper-Of :
      (k : GroupKey) (es : List (Entry F)) (d : Dict ℕ (Entry F))
      → All (Stands k) es
      → Distinct d
      → All (IsOf k) d
      → Distinct (by_paper fl tiny es d) × All (IsOf k) (by_paper fl tiny es d)
  unfolding by_paper
  by_paper-Of k [] d s dd a = (dd, a)
  by_paper-Of k (e ∷ es) d s dd a =
      by_paper-Of k es (put e.0.paper_id e d) s.1 (put-Distinct e.0.paper_id e d dd)
        (put-All (IsOf k) e.0.paper_id e d (refl, s.0) a)

  Entry-values :
      (k : GroupKey) (d : Dict ℕ (Entry F))
      → All (IsOf k) d
      → All (Stands k) (values d) × (keys d ≡ map (λ (e : Entry F). e.0.paper_id) (values d))
  Entry-values k [] a = (tt, refl)
  Entry-values k ((pid, e) ∷ d) a =
      let (good, same) = Entry-values k d a.1 in
      ((a.0.1, good), ap (λ j. j ∷ keys d) a.0.0 ∙ ap (◌∷◌ e.0.paper_id) same)

  conflicts_among-All :
      (k : GroupKey) (es : List (Entry F))
      → All (Stands k) es
      → NoRepeat (map (λ (e : Entry F). e.0.paper_id) es)
      → All IsConflict (conflicts_among fl tiny threshold es)
  unfolding conflicts_among
  conflicts_among-All k [] s n = tt
  conflicts_among-All k (a ∷ es) s n =
      let made = map (conflict_of fl tiny a) es in
      All-append IsConflict (keep_if (is_conflict fl tiny threshold) made) _
        (In→All IsConflict (keep_if (is_conflict fl tiny threshold) made) (λ c i.
          let (j, gap) = In-keep_if (is_conflict fl tiny threshold) c made i in
          let (b, l, e) = In-map (conflict_of fl tiny a) c es j in
          let other = All→In (Stands k) es s.1 b l in
          (a, b, k, s.0.0, other.0, s.0.1, other.1, apart es n.0 b l, e, ground (arith, gap))))
        (conflicts_among-All k es s.1 n.1)
    where
      apart :
          (xs : List (Entry F))
          → All (λ p. a.0.paper_id ≢ p) (map (λ (e : Entry F). e.0.paper_id) xs)
          → (b : Entry F) → In b xs
          → a.0.paper_id ≢ b.0.paper_id
      apart [] h b i = absurd i
      apart (x ∷ xs) h b (inl same) =
          subst (λ (y : Entry F). a.0.paper_id ≢ y.0.paper_id) (sym same) h.0
      apart (x ∷ xs) h b (inr i) = apart xs h.1 b i

  all_conflicts-All :
      (d : Dict GroupKey (List (Entry F)))
      → All IsGroup d
      → All IsConflict (all_conflicts fl tiny threshold (values d))
  unfolding all_conflicts
  all_conflicts-All [] a = tt
  all_conflicts-All ((k, es) ∷ d) a =
      let (dd, of) = by_paper-Of k es [] a.0 tt tt in
      let (good, same) = Entry-values k (by_paper fl tiny es []) of in
      let ordered = values (by_paper fl tiny es []) in
      All-append IsConflict (group_conflicts fl tiny threshold es) _
        (elim (Bool-cases (ltb (length ordered) 2)) [
          | inl e ↦ rw e tt
          | inr e ↦ rw e (
              conflicts_among-All k ordered good
                (subst NoRepeat same (keys-NoRepeat (by_paper fl tiny es []) dd)))
        ])
        (all_conflicts-All d a.1)

module _ (fl : Floats) (tiny threshold : fl.F) where
  open fl use {F}

  -- Every row of the query is of a paper of the request.
  result_rows-requested :
      (papers : List Paper) (paper_ids : List ℕ) (results : List (ExperimentResult F))
      → All
          (λ (e : Entry F). contains e.0.paper_id paper_ids ≡ true)
          (result_rows fl tiny papers paper_ids results)
  unfolding result_rows
  result_rows-requested papers paper_ids [] = tt
  result_rows-requested papers paper_ids (r ∷ rs) =
      elim (Bool-cases (contains r.paper_id paper_ids)) [
        | inr e ↦ rw (e, result_rows) (result_rows-requested papers paper_ids rs)
        | inl e ↦ elim (Option-cases (find_paper r.paper_id papers)) [
          | inl out ↦ rw (e, out, result_rows) (result_rows-requested papers paper_ids rs)
          | inr (p, found) ↦
              rw (e, found, result_rows) (e, result_rows-requested papers paper_ids rs)
        ]
      ]

  -- The conflicts are in falling order of their gap. Each is made up by two results of different
  -- papers of the request that have the same model, the same metric and the same, named, dataset,
  -- and its gap is not below the threshold.
  pub find_numeric_conflicts_sound :
      (papers : List Paper) (results : List (ExperimentResult F)) (paper_ids : List ℕ)
      → let rows = result_rows fl tiny papers paper_ids results in
        let found = find_numeric_conflicts fl tiny threshold papers results paper_ids in
        All (IsConflict fl tiny threshold rows) found
        × IsSorted (by_score fl (relative_gap fl tiny)) found
        × All (λ (e : Entry F). contains e.0.paper_id paper_ids ≡ true) rows
  unfolding find_numeric_conflicts
  find_numeric_conflicts_sound papers results paper_ids =
      let rows = result_rows fl tiny papers paper_ids results in
      let groups = group_rows fl tiny rows [] in
      let all = all_conflicts fl tiny threshold (values groups) in
      let sound = all_conflicts-All fl tiny threshold rows groups (
        group_rows-Groups fl tiny threshold rows rows [] (In→All (λ e. In e rows) rows (λ e i. i))
          tt) in
      elim (Bool-cases (ltb (length paper_ids) 2)) [
        | inl e ↦
            rw (e, find_numeric_conflicts) (tt, tt, result_rows-requested papers paper_ids results)
        | inr e ↦
            rw (e, find_numeric_conflicts)
              (
                unfold sort_by_score in
                    sort_by-All (by_score fl (relative_gap fl tiny))
                      (IsConflict fl tiny threshold rows) all sound,
                sort_by_score-IsSorted fl (relative_gap fl tiny) all,
                result_rows-requested papers paper_ids results,
              )
      ]
