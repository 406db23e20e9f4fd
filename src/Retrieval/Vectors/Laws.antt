-- ===== src/Retrieval/Vectors/Laws.antt =====
-- What the in-memory vector store (backend/app/retrieval/vector_store.py) holds and returns.
use research_mind_ai.Prelude.{
  ℕ, ◌≤◌, ◌≡◌, refl, Bool, true, false, Option, none, some, List, [], ◌∷◌, arith, ◌==◌, nat_eq,
  ==_iff, contains, if◌then◌else◌, length, length-take-le, take, All, All-take, keep_if, map,
  Bool-cases, inl, inr, or_else,
}
use mathlib.Core.List.{Perm}
use research_mind_ai.Prelude.Dict.{get, put, remove, Distinct, get-put, get-remove, remove-Distinct}
use research_mind_ai.Prelude.Sort.{IsSorted, IsSorted-take, sort_by, sort_by-All, sort_by-perm}
use research_mind_ai.Retrieval.Scores.{Floats, sort_by_score, by_score, sort_by_score-IsSorted}
use research_mind_ai.Retrieval.Filters.{Filters, matches}
use research_mind_ai.Retrieval.Hits.{Hit}
use research_mind_ai.Retrieval.Vectors.{
  VectorRecord, Records, upsert, doomed_vectors, delete_all, delete_by_paper, dot_from, vector_hit,
  score_records, vector_search,
}

module _ {F : Type 0} where
  -- The last record of a batch for a chunk.
  unfoldable pub last_record : ℕ → List (VectorRecord F) → Option (VectorRecord F)
  last_record c [] = none
  last_record c (r ∷ rs) = or_else (last_record c rs) (if r.chunk_id == c then some r else none)

  -- After an upsert a chunk has its last record in the batch, or else what it had.
  pub get-upsert :
      (c : ℕ) (rs : List (VectorRecord F)) (records : Records F)
      → get c (upsert rs records) ≡ or_else (last_record c rs) (get c records)
  unfolding upsert last_record
  get-upsert c [] records = refl
  get-upsert c (r ∷ rs) records =
      ground (arith, get-put r.chunk_id c r records, get-upsert c rs (put r.chunk_id r records))

  get-delete_all :
      (ks : List ℕ) (c : ℕ) (records : Records F)
      → Distinct records
      → get c (delete_all ks records) ≡ (if contains c ks then none else get c records)
  unfolding delete_all
  get-delete_all [] c records h = refl
  get-delete_all (k ∷ ks) c records h = ground (
    arith,
    get-remove k c records h,
    remove-Distinct k records h,
    get-delete_all ks c (remove k records),
  )

  abbrev pub vector_of_paper : ℕ → Option (VectorRecord F) → Bool
  vector_of_paper p none = false
  vector_of_paper p (some r) = r.paper_id == p

  contains-doomed_vectors :
      (p c : ℕ) (records : Records F)
      → Distinct records
      → contains c (doomed_vectors p records) ≡ vector_of_paper p (get c records)
  unfolding doomed_vectors get
  contains-doomed_vectors p c [] h = refl
  contains-doomed_vectors p c ((k, r) ∷ records) h =
      ground (arith, ==_iff k c, contains-doomed_vectors p c records h.1)

  -- In a store with distinct keys, deleting a paper drops exactly its records.
  pub get-delete_by_paper :
      (p c : ℕ) (records : Records F)
      → Distinct records
      → get c (delete_by_paper p records).0
        ≡ (if vector_of_paper p (get c records) then none else get c records)
  unfolding delete_by_paper
  get-delete_by_paper p c records h = ground (
    arith,
    get-delete_all (doomed_vectors p records) c records h,
    contains-doomed_vectors p c records h,
  )

  delete_all-Distinct :
      (ks : List ℕ) (records : Records F) → Distinct records → Distinct (delete_all ks records)
  unfolding delete_all
  delete_all-Distinct [] records h = h
  delete_all-Distinct (k ∷ ks) records h =
      delete_all-Distinct ks (remove k records) (remove-Distinct k records h)

  pub delete_by_paper-Distinct :
      (p : ℕ) (records : Records F) → Distinct records → Distinct (delete_by_paper p records).0
  unfolding delete_by_paper
  delete_by_paper-Distinct p records h = delete_all-Distinct (doomed_vectors p records) records h

module _ (fl : Floats) where
  open fl use {F, of_ℕ, add, mul}

  dot_from_total :
      (s : F) (xs ys : List F) → length xs ≡ length ys → (t : F) × (dot_from fl s xs ys ≡ some t)
  unfolding dot_from
  dot_from_total s [] [] h = (s, refl)
  dot_from_total s [] (y ∷ ys) h = absurd (omega arith)
  dot_from_total s (x ∷ xs) [] h = absurd (omega arith)
  dot_from_total s (x ∷ xs) (y ∷ ys) h = dot_from_total (add s (mul x y)) xs ys (omega arith)

  -- The products of two vectors, and their sum from left to right.
  abbrev pub products : List F → List F → List F
  products [] ys = []
  products (x ∷ xs) [] = []
  products (x ∷ xs) (y ∷ ys) = mul x y ∷ products xs ys

  abbrev pub sum_from : F → List F → F
  sum_from s [] = s
  sum_from s (x ∷ xs) = sum_from (add s x) xs

  abbrev pub dot : List F → List F → F
  dot xs ys = sum_from (of_ℕ 0) (products xs ys)

  dot_from-dot :
      (s : F) (xs ys : List F)
      → length xs ≡ length ys
      → dot_from fl s xs ys ≡ some (sum_from s (products xs ys))
  unfolding dot_from
  dot_from-dot s [] [] h = refl
  dot_from-dot s [] (y ∷ ys) h = absurd (omega arith)
  dot_from-dot s (x ∷ xs) [] h = absurd (omega arith)
  dot_from-dot s (x ∷ xs) (y ∷ ys) h = dot_from-dot (add s (mul x y)) xs ys (omega arith)

  module _ (vector : List F) (filters : Filters) where
    abbrev pub Fits : ℕ × VectorRecord F → Type 0
    Fits e = length vector ≡ length e.1.vector

    abbrev pub IsMatch : Hit F → Type 0
    IsMatch h = matches h.metadata filters ≡ true

    module _ (P : Hit F → Type 0) where
      abbrev pub Carries : ℕ × VectorRecord F → Type 0
      Carries e = Fits e × ((t : F) → P (vector_hit fl e.1 t))

      abbrev IsGood : Hit F → Type 0
      IsGood h = IsMatch h × P h

      score_records_total :
          (records : Records F)
          → All Carries records
          → (hits : List (Hit F)) × (score_records fl vector filters records ≡ some hits)
            × All IsGood hits
      unfolding score_records
      score_records_total [] a = ([], refl, tt)
      score_records_total ((k, r) ∷ records) a =
          let (hits, e, good) = score_records_total records a.1 in
          elim (Bool-cases (matches r.metadata filters)) [
            | inr out ↦ (hits, rw out e, good)
            | inl here ↦
                let (t, d) = dot_from_total (of_ℕ 0) vector r.vector a.0.0 in
                (vector_hit fl r t ∷ hits, rw (here, d, e), ((here, a.0.1 t), good))
          ]

      -- Where every record has the query's dimension, a search does not raise; it returns at most
      -- `limit` hits, in falling order of score, and each passes the filters and has what every
      -- hit of a record has.
      pub vector_search_holds :
          (limit : ℕ) (records : Records F)
          → All Carries records
          → (hits : List (Hit F)) × (vector_search fl vector limit filters records ≡ some hits)
            × (length hits ≤ limit)
            × IsSorted (by_score fl (λ (h : Hit F). h.score)) hits
            × All IsGood hits
      unfolding vector_search sort_by_score
      vector_search_holds limit records a =
          let (hits, e, good) = score_records_total records a in
          let order = by_score fl (λ (h : Hit F). h.score) in
          (
            take limit (sort_by_score fl (λ (h : Hit F). h.score) hits),
            rw (e, vector_search),
            length-take-le limit _,
            IsSorted-take order limit _ (sort_by_score-IsSorted fl (λ (h : Hit F). h.score) hits),
            All-take IsGood limit _ (sort_by-All order IsGood hits good),
          )

    abbrev pub passes : ℕ × VectorRecord F → Bool
    passes e = matches e.1.metadata filters

    -- The hit of a record, with the dot product of its vector and the query.
    abbrev pub hit_of : ℕ × VectorRecord F → Hit F
    hit_of e = vector_hit fl e.1 (dot vector e.1.vector)

    score_records-hits :
        (records : Records F)
        → All Fits records
        → score_records fl vector filters records ≡ some (map hit_of (keep_if passes records))
    unfolding score_records
    score_records-hits [] a = refl
    score_records-hits ((k, r) ∷ records) a =
        ground (arith, dot_from-dot (of_ℕ 0) vector r.vector a.0, score_records-hits records a.1)

    -- Where every record has the query's dimension, a search does not raise. It returns the first
    -- hits, as many as the limit, of a list in falling order of score that has one hit for each
    -- record that passes the filters, with the dot product of the query and the record's vector as
    -- its score, and no other.
    pub vector_search_sound :
        (limit : ℕ) (records : Records F)
        → All Fits records
        → (hits : List (Hit F)) × (vector_search fl vector limit filters records
            ≡ some (take limit hits))
          × IsSorted (by_score fl (λ (h : Hit F). h.score)) hits
          × Perm hits (map hit_of (keep_if passes records))
    unfolding vector_search sort_by_score
    vector_search_sound limit records a =
        let found = map hit_of (keep_if passes records) in
        let order = by_score fl (λ (h : Hit F). h.score) in
        (
          sort_by order found,
          rw (score_records-hits records a, vector_search) refl,
          sort_by_score-IsSorted fl (λ (h : Hit F). h.score) found,
          sort_by-perm order found,
        )
