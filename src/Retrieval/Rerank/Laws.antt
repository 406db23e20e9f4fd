-- ===== src/Retrieval/Rerank/Laws.antt =====
-- What reranking (backend/app/retrieval/reranker.py) returns.
use research_mind_ai.Prelude.{
  ℕ, zero, suc, ◌+◌, ◌-◌, ◌≤◌, Text, ◌≡◌, refl, sym, ap, ◌∙◌, not, true, inl, inr, Option-cases,
  none, count_up, map, some, List, [], ◌∷◌, arith, All, length, get_elem?, take, nat_eq,
}
use mathlib.Core.Path.{subst}
use mathlib.Core.List.{Perm}
use research_mind_ai.Prelude.Sort.{IsSorted, sort_by, sort_by-All, sort_by-map-perm}
use research_mind_ai.Retrieval.Scores.{Floats, sort_by_score, by_score, sort_by_score-IsSorted}
use research_mind_ai.Retrieval.Rerank.{
  Candidate, Scored, RerankResult, zip_scores, number_results, apply_limit, rerank, ordered_results,
}

-- The candidate and the score at a place of the two lists.
module _ {F : Type 0} (cs : List (Candidate F)) (ss : List F) where
  abbrev IsPaired : ℕ → Scored F → Type 0
  IsPaired i x =
      (i ≤ x.place)
      × (get_elem? cs (x.place - i) ≡ some x.candidate)
      × (get_elem? ss (x.place - i) ≡ some x.score)

module _ {F : Type 0} where
  IsPaired-next :
      (c : Candidate F) (s : F) (cs : List (Candidate F)) (ss : List F) (i : ℕ)
      (xs : List (Scored F))
      → All (IsPaired cs ss (i + 1)) xs
      → All (IsPaired (c ∷ cs) (s ∷ ss) i) xs
  IsPaired-next c s cs ss i [] a = tt
  IsPaired-next c s cs ss i (x ∷ xs) a =
      let e : x.place - i ≡ suc (x.place - (i + 1)) = omega arith in
      (
        (omega arith, ap (get_elem? (c ∷ cs)) e ∙ a.0.1, ap (get_elem? (s ∷ ss)) e ∙ a.0.2),
        IsPaired-next c s cs ss i xs a.1,
      )

  zip_scores-IsPaired :
      (i : ℕ) (cs : List (Candidate F)) (ss : List F)
      → length cs ≡ length ss
      → (xs : List (Scored F)) × (zip_scores i cs ss ≡ some xs)
        × (length xs ≡ length cs)
        × All (IsPaired cs ss i) xs
  unfolding zip_scores
  zip_scores-IsPaired i [] [] h = ([], refl, refl, tt)
  zip_scores-IsPaired i [] (s ∷ ss) h = absurd (omega arith)
  zip_scores-IsPaired i (c ∷ cs) [] h = absurd (omega arith)
  zip_scores-IsPaired i (c ∷ cs) (s ∷ ss) h =
      let (xs, e, n, a) = zip_scores-IsPaired (i + 1) cs ss (omega arith) in
      let z : i - i ≡ 0 = omega arith in
      (
        record { place = i; candidate = c; score = s } ∷ xs,
        rw (e, zip_scores),
        omega arith,
        (
          (omega arith, ap (get_elem? (c ∷ cs)) z, ap (get_elem? (s ∷ ss)) z),
          IsPaired-next c s cs ss i xs a,
        ),
      )

take-nil : {A : Type 0} (n : ℕ) → take {A = A} n [] ≡ []
take-nil zero = refl
take-nil (suc n) = refl

rerank-eq :
    (fl : Floats) (scorer : Text → List (Candidate fl.F) → List fl.F) (query : Text)
    (cs : List (Candidate fl.F)) (limit : ℕ) (xs : List (Scored fl.F))
    → 1 ≤ limit
    → length xs ≡ length cs
    → zip_scores 0 cs (scorer query cs) ≡ some xs
    → (rerank fl scorer query cs none ≡ some (ordered_results fl xs))
      × (rerank fl scorer query cs (some limit) ≡ some (take limit (ordered_results fl xs)))
unfolding rerank number_results sort_by_score sort_by apply_limit
rerank-eq fl scorer query [] limit [] pos n e = (refl, ap some (sym (take-nil limit)))
rerank-eq fl scorer query [] limit (x ∷ xs) pos n e = absurd (omega arith)
rerank-eq fl scorer query (c ∷ cs) limit xs pos n e =
    (rw (e, rerank) refl, rw (e, rerank) (ground arith))

module _ {F : Type 0} where
  -- The places of the scored candidates count up.
  zip_scores-ranks :
      (i : ℕ) (cs : List (Candidate F)) (ss : List F) (xs : List (Scored F))
      → zip_scores i cs ss ≡ some xs
      → map (λ (x : Scored F). x.place + 1) xs ≡ count_up (i + 1) (length cs)
  unfolding zip_scores
  zip_scores-ranks i [] [] xs e = ap (map (λ (x : Scored F). x.place + 1)) (sym (some-inj e))
    where
      some-inj : {x y : List (Scored F)} → some x ≡ some y → x ≡ y
      some-inj q = cc q
  zip_scores-ranks i [] (s ∷ ss) xs e = absurd (cc e)
  zip_scores-ranks i (c ∷ cs) [] xs e = absurd (cc e)
  zip_scores-ranks i (c ∷ cs) (s ∷ ss) xs e = elim (Option-cases (zip_scores (i + 1) cs ss)) [
    | inl q ↦ absurd (ground (arith, q, e))
    | inr (rest, q) ↦
        let first : Scored F = record { place = i; candidate = c; score = s } in
        let same : first ∷ rest ≡ xs = ground (arith, q, e) in
        ap (map (λ (x : Scored F). x.place + 1)) (sym same)
        ∙ ap (◌∷◌ (i + 1)) (zip_scores-ranks (i + 1) cs ss rest q)
  ]

module _ (fl : Floats) (scorer : Text → List (Candidate fl.F) → List fl.F) (query : Text)
    (cs : List (Candidate fl.F)) where
  open fl use {F}

  -- A result names a candidate by its place, with the scorer's score at that place.
  abbrev pub IsScored : RerankResult F → Type 0
  IsScored r =
      (c : Candidate F) × (get_elem? cs (r.original_rank - 1) ≡ some c)
      × (r.chunk_id ≡ c.chunk_id)
      × (get_elem? (scorer query cs) (r.original_rank - 1) ≡ some r.score)

  number_results-IsScored :
      (i : ℕ) (xs : List (Scored F))
      → All (IsPaired cs (scorer query cs) 0) xs
      → All IsScored (number_results i xs)
  unfolding number_results
  number_results-IsScored i [] a = tt
  number_results-IsScored i (x ∷ xs) a =
      let e : x.place + 1 - 1 ≡ x.place - 0 = omega arith in
      (
        (
          x.candidate,
          ap (get_elem? cs) e ∙ a.0.1,
          refl,
          ap (get_elem? (scorer query cs)) e ∙ a.0.2,
        ),
        number_results-IsScored (i + 1) xs a.1,
      )

  -- The new ranks count up from a number.
  abbrev pub Numbered : ℕ → List (RerankResult F) → Type 0
  Numbered i [] = Unit
  Numbered i (r ∷ rs) = (r.new_rank ≡ i + 1) × Numbered (i + 1) rs

  number_results-Numbered : (i : ℕ) (xs : List (Scored F)) → Numbered i (number_results i xs)
  unfolding number_results
  number_results-Numbered i [] = tt
  number_results-Numbered i (x ∷ xs) = (refl, number_results-Numbered (i + 1) xs)

  number_results-ranks :
      (i : ℕ) (xs : List (Scored F))
      → map (λ (r : RerankResult F). r.original_rank) (number_results i xs)
        ≡ map (λ (x : Scored F). x.place + 1) xs
  unfolding number_results
  number_results-ranks i [] = refl
  number_results-ranks i (x ∷ xs) = ap (◌∷◌ (x.place + 1)) (number_results-ranks (i + 1) xs)

  number_results-below :
      (s : F) (i : ℕ) (xs : List (Scored F))
      → All (λ (x : Scored F). not (fl.lt s x.score) ≡ true) xs
      → All (λ (r : RerankResult F). not (fl.lt s r.score) ≡ true) (number_results i xs)
  unfolding number_results
  number_results-below s i [] h = tt
  number_results-below s i (x ∷ xs) h = (h.0, number_results-below s (i + 1) xs h.1)

  number_results-IsSorted :
      (i : ℕ) (xs : List (Scored F))
      → IsSorted (by_score fl (λ (x : Scored F). x.score)) xs
      → IsSorted (by_score fl (λ (r : RerankResult F). r.score)) (number_results i xs)
  unfolding number_results
  number_results-IsSorted i [] h = tt
  number_results-IsSorted i (x ∷ xs) h =
      (number_results-below x.score (i + 1) xs h.0, number_results-IsSorted (i + 1) xs h.1)

  -- With as many scores as candidates, reranking does not raise. Without a limit it returns every
  -- candidate once, in falling order of score, with new ranks from 1 on and the candidate's place
  -- and score; with a positive limit it returns the first of these, as many as the limit.
  pub rerank_sound :
      (limit : ℕ)
      → 1 ≤ limit
      → length cs ≡ length (scorer query cs)
      → (rs : List (RerankResult F)) × (rerank fl scorer query cs none ≡ some rs)
        × (rerank fl scorer query cs (some limit) ≡ some (take limit rs))
        × Perm (map (λ (r : RerankResult F). r.original_rank) rs) (count_up 1 (length cs))
        × IsSorted (by_score fl (λ (r : RerankResult F). r.score)) rs
        × Numbered 0 rs
        × All IsScored rs
  unfolding sort_by_score
  rerank_sound limit pos h =
      let (xs, e, n, a) = zip_scores-IsPaired 0 cs (scorer query cs) h in
      let order = by_score fl (λ (x : Scored F). x.score) in
      let sorted = sort_by order xs in
      let (all, first) = rerank-eq fl scorer query cs limit xs pos n e in
      (
        number_results 0 sorted,
        all,
        first,
        subst (λ ranks. Perm ranks (count_up 1 (length cs))) (sym (number_results-ranks 0 sorted))
            (subst (Perm (map (λ (x : Scored F). x.place + 1) sorted))
              (zip_scores-ranks 0 cs (scorer query cs) xs e)
              (sort_by-map-perm order (λ (x : Scored F). x.place + 1) xs)),
        number_results-IsSorted 0 sorted (sort_by_score-IsSorted fl (λ (x : Scored F). x.score) xs),
        number_results-Numbered 0 sorted,
        number_results-IsScored 0 sorted (sort_by-All order (IsPaired cs (scorer query cs) 0) xs a),
      )
