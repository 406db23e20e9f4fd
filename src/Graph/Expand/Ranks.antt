-- ===== src/Graph/Expand/Ranks.antt =====
-- Ranking the paths (backend/app/graph/retrieval.py) keeps one for each paper.
use research_mind_ai.Prelude.{
  ℕ, zero, suc, Text, ◌≡◌, ◌≢◌, refl, sym, ap, ◌∙◌, inl, inr, Bool, Bool-cases, Option, none, some,
  List, [], ◌∷◌, map, take, nat_eq, list_eq, All, All→In, NoRepeat,
}
use mathlib.Core.Path.{subst}
use research_mind_ai.Prelude.Dict.{
  Dict, get, keys, values, Distinct, put-Distinct, In-get, keys-NoRepeat, put-All,
}
use research_mind_ai.Prelude.Sort.{insert_sorted, sort_by, sort_by-All}
use research_mind_ai.Graph.Expand.{GraphPath, Ranking, add_path, group_paths, stronger, rank_paths}

-- Sorting and cutting keep the labels of the elements apart.
module _ {A : Type 0} (f : A → ℕ) where
  insert-All :
      (before : A → A → Bool) (Q : ℕ → Type 0) (x : A) (ys : List A)
      → Q (f x)
      → All Q (map f ys)
      → All Q (map f (insert_sorted before x ys))
  unfolding insert_sorted
  insert-All before Q x [] q h = (q, tt)
  insert-All before Q x (y ∷ ys) q h = elim (Bool-cases (before x y)) [
    | inl e ↦ rw e (q, h)
    | inr e ↦ rw e (h.0, insert-All before Q x ys q h.1)
  ]

  insert-NoRepeat :
      (before : A → A → Bool) (x : A) (ys : List A)
      → All (λ k. f x ≢ k) (map f ys)
      → NoRepeat (map f ys)
      → NoRepeat (map f (insert_sorted before x ys))
  unfolding insert_sorted
  insert-NoRepeat before x [] a h = (tt, tt)
  insert-NoRepeat before x (y ∷ ys) a h = elim (Bool-cases (before x y)) [
    | inl e ↦ rw e (a, h)
    | inr e ↦ rw e (
      insert-All before (λ k. f y ≢ k) x ys (λ p. a.0 (sym p)) h.0,
      insert-NoRepeat before x ys a.1 h.1,
    )
  ]

  sort-NoRepeat :
      (before : A → A → Bool) (xs : List A)
      → NoRepeat (map f xs)
      → NoRepeat (map f (sort_by before xs))
  unfolding sort_by
  sort-NoRepeat before [] h = tt
  sort-NoRepeat before (x ∷ xs) h =
      insert-NoRepeat before x (sort_by before xs) (sorted-All (λ k. f x ≢ k) xs h.0)
        (sort-NoRepeat before xs h.1)
    where
      sorted-All :
          (Q : ℕ → Type 0) (ys : List A) → All Q (map f ys) → All Q (map f (sort_by before ys))
      sorted-All Q [] a = tt
      sorted-All Q (y ∷ ys) a = insert-All before Q y (sort_by before ys) a.0 (sorted-All Q ys a.1)

  take-All : (Q : ℕ → Type 0) (n : ℕ) (xs : List A) → All Q (map f xs) → All Q (map f (take n xs))
  take-All Q zero xs h = tt
  take-All Q (suc n) [] h = tt
  take-All Q (suc n) (x ∷ xs) h = (h.0, take-All Q n xs h.1)

  pub take-NoRepeat : (n : ℕ) (xs : List A) → NoRepeat (map f xs) → NoRepeat (map f (take n xs))
  take-NoRepeat zero xs h = tt
  take-NoRepeat (suc n) [] h = tt
  take-NoRepeat (suc n) (x ∷ xs) h = (take-All (λ k. f x ≢ k) n xs h.0, take-NoRepeat n xs h.1)

-- A property of paths that does not look at what else is shared.
module _ (lower : Text → Text) (P : GraphPath → Type 0)
    (stable : (p : GraphPath) (xs : List Text) → P p → P (record p { shared_with = xs })) where
  abbrev Entry : ℕ × GraphPath → Type 0
  Entry (k, p) = (k ≡ p.paper_id) × P p

  add_path-Entries :
      (p : GraphPath) (o : Option GraphPath) (r : Ranking)
      → get p.paper_id r.grouped ≡ o
      → P p
      → Distinct r.grouped
      → All Entry r.grouped
      → Distinct (add_path lower p o r).grouped × All Entry (add_path lower p o r).grouped
  add_path-Entries p none r e good d a =
      (put-Distinct p.paper_id p r.grouped d, put-All Entry p.paper_id p r.grouped (refl, good) a)
  add_path-Entries p (some q) r e good d a =
      let (at, old) = All→In Entry r.grouped a (p.paper_id, q) (In-get p.paper_id q r.grouped e) in
      (
        put-Distinct p.paper_id _ r.grouped d,
        put-All Entry p.paper_id _ r.grouped (at, stable q _ old) a,
      )

  group_paths-Entries :
      (ps : List GraphPath) (r : Ranking)
      → All P ps
      → Distinct r.grouped
      → All Entry r.grouped
      → Distinct (group_paths lower ps r).grouped × All Entry (group_paths lower ps r).grouped
  unfolding group_paths
  group_paths-Entries [] r good d a = (d, a)
  group_paths-Entries (p ∷ ps) r good d a =
      let (d1, a1) = add_path-Entries p (get p.paper_id r.grouped) r refl good.0 d a in
      group_paths-Entries ps (add_path lower p (get p.paper_id r.grouped) r) good.1 d1 a1

  Entry-values :
      (d : Dict ℕ GraphPath)
      → All Entry d
      → All P (values d) × (keys d ≡ map (λ (p : GraphPath). p.paper_id) (values d))
  Entry-values [] a = (tt, refl)
  Entry-values ((k, p) ∷ d) a =
      let (good, same) = Entry-values d a.1 in
      ((a.0.1, good), ap (λ j. j ∷ keys d) a.0.0 ∙ ap (◌∷◌ p.paper_id) same)

  pub rank_paths-All :
      (ps : List GraphPath)
      → All P ps
      → All P (rank_paths lower ps)
        × NoRepeat (map (λ (p : GraphPath). p.paper_id) (rank_paths lower ps))
  unfolding rank_paths
  rank_paths-All ps good =
      let r = group_paths lower ps (record { grouped = []; strength = [] }) in
      let (d, a) = group_paths-Entries ps (record { grouped = []; strength = [] }) good tt tt in
      let (fine, same) = Entry-values r.grouped a in
      (
        sort_by-All (stronger lower r) P (values r.grouped) fine,
        sort-NoRepeat (λ (p : GraphPath). p.paper_id) (stronger lower r) (values r.grouped)
            (subst NoRepeat same (keys-NoRepeat r.grouped d)),
      )
