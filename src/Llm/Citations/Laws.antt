-- ===== src/Llm/Citations/Laws.antt =====
-- What `extract_citations` of backend/app/llm/rag.py returns.
use research_mind_ai.Prelude.{
  ℕ, ◌≤◌, ◌<◌, Text, ◌≡◌, ◌≢◌, ◌↔◌, ◌⊎◌, inl, inr, true, not, Option, ◌&&◌, List, [], ◌∷◌, ◌++◌,
  arith, nat_eq, contains, leb, ltb, if◌then◌else◌, In, In-append_cases, In-append_left,
  In-append_right, All, In-contains, Bool-cases, All→In, In→All, NoRepeat, NoRepeat-snoc,
}
use research_mind_ai.Prelude.Sort.{
  insert_sorted, insert_sorted-All, sort_by, sort_by-In, sort_by-All, IsSorted,
}
use research_mind_ai.Llm.Citations.{markers, collect_cited, extract_citations}

-- The two sides of the loop's invariant.
collect-In :
    (k n : ℕ) (cited ns : List ℕ)
    → In n (collect_cited k cited ns)
    → In n cited ⊎ (In n ns × (1 ≤ n) × (n ≤ k))
unfolding collect_cited
collect-In k n cited [] h = inl h
collect-In k n cited (m ∷ ns) h =
    elim (Bool-cases ((leb 1 m && leb m k) && not (contains m cited))) [
      | inl fresh ↦ elim (collect-In k n (cited ++ (m ∷ [])) ns (rw fresh at h)) [
        | inl i ↦ elim (In-append_cases n cited (m ∷ []) i) [
          | inl old ↦ inl old
          | inr new ↦ ground arith
        ]
        | inr i ↦ inr (inr i.0, i.1, i.2)
      ]
      | inr stale ↦ elim (collect-In k n cited ns (rw stale at h)) [
        | inl i ↦ inl i
        | inr i ↦ inr (inr i.0, i.1, i.2)
      ]
    ]

collect-keeps : (k n : ℕ) (cited ns : List ℕ) → In n cited → In n (collect_cited k cited ns)
unfolding collect_cited
collect-keeps k n cited [] h = h
collect-keeps k n cited (m ∷ ns) h =
    collect-keeps k n
      (if (leb 1 m && leb m k) && not (contains m cited) then cited ++ (m ∷ []) else cited) ns
      (ground (arith, In-append_left n cited (m ∷ []) h))

In-collect :
    (k n : ℕ) (cited ns : List ℕ) → In n ns → 1 ≤ n → n ≤ k → In n (collect_cited k cited ns)
unfolding collect_cited
In-collect k n cited [] i lo hi = absurd i
In-collect k n cited (m ∷ ns) (inl e) lo hi =
    collect-keeps k n
      (if (leb 1 m && leb m k) && not (contains m cited) then cited ++ (m ∷ []) else cited) ns
      (ground (arith, In-contains n cited, In-append_right n cited (m ∷ []) (inl e)))
In-collect k n cited (m ∷ ns) (inr i) lo hi =
    In-collect k n
      (if (leb 1 m && leb m k) && not (contains m cited) then cited ++ (m ∷ []) else cited) ns i lo
      hi

collect-NoRepeat :
    (k : ℕ) (cited ns : List ℕ) → NoRepeat cited → NoRepeat (collect_cited k cited ns)
unfolding collect_cited
collect-NoRepeat k cited [] h = h
collect-NoRepeat k cited (m ∷ ns) h =
    collect-NoRepeat k
      (if (leb 1 m && leb m k) && not (contains m cited) then cited ++ (m ∷ []) else cited) ns
      (ground (arith, NoRepeat-snoc m cited h))

ltb-All :
    (x y : ℕ) (zs : List ℕ) → x < y → All (λ z. ltb y z ≡ true) zs → All (λ z. ltb x z ≡ true) zs
ltb-All x y [] h d = tt
ltb-All x y (z ∷ zs) h d = (ground arith, ltb-All x y zs h d.1)

insert-strict :
    (x : ℕ) (ys : List ℕ)
    → IsSorted ltb ys
    → All (λ y. x ≢ y) ys
    → IsSorted ltb (insert_sorted leb x ys)
unfolding insert_sorted
insert-strict x [] s d = (tt, tt)
insert-strict x (y ∷ ys) s d = elim (Bool-cases (leb x y)) [
  | inl le ↦ rw le ((ground arith, ltb-All x y ys (ground arith) s.0), s)
  | inr gt ↦ rw gt (
    insert_sorted-All leb (λ z. ltb y z ≡ true) x ys (ground arith) s.0,
    insert-strict x ys s.1 d.1,
  )
]

sort-strict : (xs : List ℕ) → NoRepeat xs → IsSorted ltb (sort_by leb xs)
unfolding sort_by
sort-strict [] h = tt
sort-strict (x ∷ xs) h =
    insert-strict x (sort_by leb xs) (sort-strict xs h.1) (sort_by-All leb (λ y. x ≢ y) xs h.0)

-- A number is among the citations of an answer exactly if the answer has a marker with it and it
-- counts one of the sources.
pub cited_iff :
    (digit : ℕ → Option ℕ) (answer : Text) (k n : ℕ)
    → In n (extract_citations digit answer k) ↔ In n (markers digit answer) × (1 ≤ n) × (n ≤ k)
unfolding extract_citations
cited_iff digit answer k n =
    let cited = collect_cited k [] (markers digit answer) in
    (
      λ i.
          elim (collect-In k n [] (markers digit answer) (
            All→In (λ m. In m cited) (sort_by leb cited)
              (sort_by-All leb (λ m. In m cited) cited (In→All (λ m. In m cited) cited (λ m j. j)))
              n i)) [ inl e ↦ absurd e | inr h ↦ h ],
      λ h. sort_by-In leb n cited (In-collect k n [] (markers digit answer) h.0 h.1 h.2),
    )

-- The citations of an answer are strictly increasing, so none is there twice.
pub citations_strict :
    (digit : ℕ → Option ℕ) (answer : Text) (k : ℕ) → IsSorted ltb (extract_citations digit answer k)
unfolding extract_citations
citations_strict digit answer k =
    sort-strict (collect_cited k [] (markers digit answer))
      (collect-NoRepeat k [] (markers digit answer) tt)
