-- ===== src/Retrieval/Sparse/Results.antt =====
-- What a BM25 search returns (backend/app/retrieval/sparse.py).
use research_mind_ai.Prelude.{
  ℕ, ◌≤◌, Text, ◌≡◌, ◌≢◌, refl, ap, ◌∙◌, length-pos_of_In, true, false, some, List, [], ◌∷◌, arith,
  ◌==◌, nat_eq, list_eq, length, length-take-le, take, take_of_length-le, All, In, In→All, All→In,
  All-take, ◌⊎◌, inl, inr, Bool-cases,
}
use research_mind_ai.Prelude.Sort.{
  sort_by, IsSorted, IsSorted-take, sort_by-All, sort_by-In, length-sort_by,
}
use research_mind_ai.Prelude.Dict.{Dict, get, get_of_In, In-get}
use research_mind_ai.Retrieval.Scores.{Floats, sort_by_score, by_score, sort_by_score-IsSorted}
use research_mind_ai.Retrieval.Filters.{Filters, matches}
use research_mind_ai.Retrieval.Hits.{Hit}
use research_mind_ai.Retrieval.Sparse.{Document, Index, tokenize, count_of}
use research_mind_ai.Retrieval.Sparse.Valid.{IsValid, IsOwn}
use research_mind_ai.Retrieval.Sparse.Search.{
  add_term, score_from, score_of, make_hit, collect, search,
}

-- Some query term occurs in the document.
abbrev pub SharesTerm : List Text → Document → Type 0
SharesTerm terms doc = (t : Text) × In t terms × (count_of t doc.term_frequencies ≢ 0)

module _ (fl : Floats) (k1 b : fl.F) (idx : Index) where
  open fl use {F, of_ℕ, lt, lt_asym}

  -- A score that has moved from its start has met a shared term.
  score_from_cases :
      (avg : F) (doc : Document) (s : F) (ts : List Text)
      → (score_from fl k1 b idx avg doc s ts ≡ s) ⊎ SharesTerm ts doc
  unfolding score_from add_term
  score_from_cases avg doc s [] = inl refl
  score_from_cases avg doc s (t ∷ ts) = elim (Bool-cases (count_of t doc.term_frequencies == 0)) [
    | inl e ↦ elim (score_from_cases avg doc s ts) [
      | inl p ↦ inl (rw e p)
      | inr (u, i, h) ↦ inr (u, inr i, h)
    ]
    | inr e ↦ inr (t, inl refl, ground arith)
  ]

  score_of-SharesTerm :
      (ts : List Text) (doc : Document)
      → lt (of_ℕ 0) (score_of fl k1 b idx ts doc) ≡ true
      → SharesTerm ts doc
  unfolding score_of
  score_of-SharesTerm ts doc pos =
      elim (score_from_cases (fl.div (of_ℕ idx.total_length) (of_ℕ (length idx.documents))) doc
        (of_ℕ 0) ts) [
          | inl same ↦ absurd (ground (arith, lt_asym (of_ℕ 0) (of_ℕ 0)))
          | inr shared ↦ shared
        ]

  module _ (terms : List Text) (filters : Filters) where
    -- A hit is a stored document that passes the filters and shares a term with the query, with
    -- its own paper, metadata and score.
    abbrev pub IsResult : Hit F → Type 0
    IsResult h =
        (doc : Document) × (get h.chunk_id idx.documents ≡ some doc)
        × (h ≡ make_hit fl k1 b doc (score_of fl k1 b idx terms doc))
        × (matches doc.metadata filters ≡ true)
        × SharesTerm terms doc

    abbrev IsStored : ℕ × Document → Type 0
    IsStored e = get e.1.chunk_id idx.documents ≡ some e.1

    stored-IsResult :
        (doc : Document)
        → get doc.chunk_id idx.documents ≡ some doc
        → matches doc.metadata filters ≡ true
        → lt (of_ℕ 0) (score_of fl k1 b idx terms doc) ≡ true
        → IsResult (make_hit fl k1 b doc (score_of fl k1 b idx terms doc))
    stored-IsResult doc here ok pos = (doc, here, refl, ok, score_of-SharesTerm terms doc pos)

    collect-IsResult :
        (docs : Dict ℕ Document)
        → All IsStored docs
        → All IsResult (collect fl k1 b idx terms filters docs)
    unfolding collect
    collect-IsResult [] a = tt
    collect-IsResult ((k, doc) ∷ docs) a = elim (Bool-cases (matches doc.metadata filters)) [
      | inr e ↦ rw e (collect-IsResult docs a.1)
      | inl e ↦ elim (Bool-cases (lt (of_ℕ 0) (score_of fl k1 b idx terms doc))) [
        | inr f ↦ rw (e, f) (collect-IsResult docs a.1)
        | inl f ↦ rw (e, f) (stored-IsResult doc a.0 e f, collect-IsResult docs a.1)
      ]
    ]

    In-collect :
        (k : ℕ) (doc : Document) (docs : Dict ℕ Document)
        → In (k, doc) docs
        → matches doc.metadata filters ≡ true
        → lt (of_ℕ 0) (score_of fl k1 b idx terms doc) ≡ true
        → In
            (make_hit fl k1 b doc (score_of fl k1 b idx terms doc))
            (collect fl k1 b idx terms filters docs)
    unfolding collect
    In-collect k doc [] i m p = absurd i
    In-collect k doc ((j, d) ∷ docs) (inl e) m p = ground arith
    In-collect k doc ((j, d) ∷ docs) (inr i) m p = ground (arith, In-collect k doc docs i m p)

    length-collect-le :
        (docs : Dict ℕ Document) → length (collect fl k1 b idx terms filters docs) ≤ length docs
    unfolding collect
    length-collect-le [] = omega arith
    length-collect-le ((k, doc) ∷ docs) = ground (arith, length-collect-le docs)

stored :
    (idx : Index)
    → IsValid idx
    → All (λ (e : ℕ × Document). get e.1.chunk_id idx.documents ≡ some e.1) idx.documents
stored idx v =
    In→All (λ (e : ℕ × Document). get e.1.chunk_id idx.documents ≡ some e.1) idx.documents
      λ e i.
        let own = All→In IsOwn idx.documents v.own e i in
        ap (λ k. get k idx.documents) own.0 ∙ get_of_In e.0 e.1 idx.documents v.distinct i

module _ (fl : Floats) (k1 b : fl.F) (lower : Text → Text) (query : Text) (limit : ℕ)
    (filters : Filters) (idx : Index) where
  abbrev results : List (Hit fl.F)
  results = search fl k1 b lower query limit filters idx

  abbrev IsRanking : List (Hit fl.F) → Type 0
  IsRanking hits =
      (length hits ≤ limit)
      × IsSorted (by_score fl (λ (h : Hit fl.F). h.score)) hits
      × All (IsResult fl k1 b idx (tokenize lower query) filters) hits

  ranking :
      IsValid idx
      → IsRanking (
          take limit (
            sort_by_score fl
              (λ (h : Hit fl.F). h.score)
              (collect fl k1 b idx (tokenize lower query) filters idx.documents)))
  unfolding sort_by_score
  ranking v =
      let hits = collect fl k1 b idx (tokenize lower query) filters idx.documents in
      let order = by_score fl (λ (h : Hit fl.F). h.score) in
      let P = IsResult fl k1 b idx (tokenize lower query) filters in
      (
        length-take-le limit _,
        IsSorted-take order limit _ (sort_by_score-IsSorted fl (λ (h : Hit fl.F). h.score) hits),
        All-take P limit _ (
            sort_by-All order P hits (
              collect-IsResult fl k1 b idx (tokenize lower query) filters idx.documents
                (stored idx v))),
      )

  -- The results of a search on a valid index are at most `limit`, in falling order of score, and
  -- each is a stored document that passes the filters and shares a term with the query, with its
  -- own paper, metadata and score.
  pub search_sound :
      IsValid idx
      → (length results ≤ limit)
        × IsSorted (by_score fl (λ (h : Hit fl.F). h.score)) results
        × All (IsResult fl k1 b idx (tokenize lower query) filters) results
  unfolding search
  search_sound v = elim (Bool-cases (length (tokenize lower query) == 0)) [
    | inl e ↦ rw e (omega arith, tt, tt)
    | inr e ↦ elim (Bool-cases (length idx.documents == 0)) [
      | inl f ↦ rw (e, f) (omega arith, tt, tt)
      | inr f ↦ rw (e, f) (ranking v)
    ]
  ]

  -- Where the limit admits every document, a stored document that passes the filters and has a
  -- positive score is among the results.
  pub search_complete :
      (k : ℕ) (doc : Document)
      → get k idx.documents ≡ some doc
      → matches doc.metadata filters ≡ true
      → fl.lt (fl.of_ℕ 0) (score_of fl k1 b idx (tokenize lower query) doc) ≡ true
      → length idx.documents ≤ limit
      → In (make_hit fl k1 b doc (score_of fl k1 b idx (tokenize lower query) doc)) results
  unfolding search sort_by_score
  search_complete k doc g m p fits =
      let terms = tokenize lower query in
      let hit = make_hit fl k1 b doc (score_of fl k1 b idx terms doc) in
      let entry = In-get k doc idx.documents g in
      let hits = collect fl k1 b idx terms filters idx.documents in
      let order = by_score fl (λ (h : Hit fl.F). h.score) in
      let (t, shared, _) = score_of-SharesTerm fl k1 b idx terms doc p in
      let e : (length terms == 0) ≡ false = ground (arith, length-pos_of_In t terms shared) in
      let f : (length idx.documents == 0) ≡ false =
        ground (arith, length-pos_of_In (k, doc) idx.documents entry) in
      let all : length (sort_by order hits) ≤ limit = omega (
        arith,
        length-sort_by order hits,
        length-collect-le fl k1 b idx terms filters idx.documents,
      ) in
      rw (e, f, take_of_length-le limit (sort_by order hits) all)
        (sort_by-In order hit hits
          (In-collect fl k1 b idx terms filters k doc idx.documents entry m p))
