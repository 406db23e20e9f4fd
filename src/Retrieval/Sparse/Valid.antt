-- ===== src/Retrieval/Sparse/Valid.antt =====
-- The statistics of the BM25 index (backend/app/retrieval/sparse.py) against its documents.
use research_mind_ai.Prelude.{
  ℕ, zero, suc, ◌+◌, Text, ◌≡◌, refl, Option, none, some, List, [], ◌∷◌, arith, ◌==◌, nat_eq,
  list_eq, ==_iff, ==_refl, All, Option-cases, inl, inr, ◌∙◌, if◌then◌else◌,
}
use research_mind_ai.Prelude.Dict.{
  Dict, get, put, remove, Distinct, get-remove, put-Distinct, remove-Distinct,
}
use research_mind_ai.Retrieval.Filters.{Metadata}
use research_mind_ai.Retrieval.Sparse.Terms.{
  counter-Distinct, add_terms-Distinct, drop_terms-Distinct, get-add_terms, get-drop_terms,
}
use research_mind_ai.Retrieval.Sparse.Tokens.{tokenize}
use research_mind_ai.Retrieval.Sparse.{
  Document, Index, empty_index, forget, remove_unlocked, store, make_document, add, remove_all,
}

-- 1 if the document holds the term, else 0
abbrev pub holds : Text → Document → ℕ
holds t doc = elim (get t doc.term_frequencies) [ none ↦ 0 | some n ↦ 1 ]

-- The number of documents that hold the term.
unfoldable pub holders : Text → Dict ℕ Document → ℕ
holders t [] = 0
holders t ((k, doc) ∷ docs) = holds t doc + holders t docs

unfoldable pub total_size : Dict ℕ Document → ℕ
total_size [] = 0
total_size ((k, doc) ∷ docs) = doc.size + total_size docs

-- Terms that no document holds have no entry.
abbrev pub entry_of : ℕ → Option ℕ
entry_of zero = none
entry_of (suc n) = some (suc n)

abbrev pub IsOwn : ℕ × Document → Type 0
IsOwn e = (e.1.chunk_id ≡ e.0) × Distinct e.1.term_frequencies

-- The statistics are those of a rebuild from the documents.
pub record IsValid (idx : Index) : Type 0 where
  pub distinct : Distinct idx.documents
  pub own : All IsOwn idx.documents
  pub df_distinct : Distinct idx.document_frequency
  pub total : idx.total_length ≡ total_size idx.documents
  pub frequency : (t : Text) → get t idx.document_frequency ≡ entry_of (holders t idx.documents)

module _ (k : ℕ) (doc : Document) where
  holders-put :
      (t : Text) (docs : Dict ℕ Document)
      → get k docs ≡ none
      → holders t (put k doc docs) ≡ holders t docs + holds t doc
  unfolding holders put get
  holders-put t [] h = omega arith
  holders-put t ((j, d) ∷ docs) h = ground (arith, holders-put t docs)

  holders-remove :
      (t : Text) (docs : Dict ℕ Document)
      → get k docs ≡ some doc
      → holders t docs ≡ holders t (remove k docs) + holds t doc
  unfolding holders remove get
  holders-remove t [] h = cc
  holders-remove t ((j, d) ∷ docs) h = ground (arith, holders-remove t docs)

  total_size-put :
      (docs : Dict ℕ Document)
      → get k docs ≡ none
      → total_size (put k doc docs) ≡ total_size docs + doc.size
  unfolding total_size put get
  total_size-put [] h = omega arith
  total_size-put ((j, d) ∷ docs) h = ground (arith, total_size-put docs)

  total_size-remove :
      (docs : Dict ℕ Document)
      → get k docs ≡ some doc
      → total_size docs ≡ total_size (remove k docs) + doc.size
  unfolding total_size remove get
  total_size-remove [] h = cc
  total_size-remove ((j, d) ∷ docs) h = ground (arith, total_size-remove docs)

  get-IsOwn : (docs : Dict ℕ Document) → All IsOwn docs → get k docs ≡ some doc → IsOwn (k, doc)
  unfolding get
  get-IsOwn [] a h = cc
  get-IsOwn ((j, d) ∷ docs) a h = ground (arith, ==_iff j k, get-IsOwn docs a.1)

  put-IsOwn :
      (docs : Dict ℕ Document) → All IsOwn docs → IsOwn (k, doc) → All IsOwn (put k doc docs)
  unfolding put
  put-IsOwn [] a h = (h, tt)
  put-IsOwn ((j, d) ∷ docs) a h = ground (arith, ==_iff j k, put-IsOwn docs a.1 h)

remove-IsOwn : (k : ℕ) (docs : Dict ℕ Document) → All IsOwn docs → All IsOwn (remove k docs)
unfolding remove
remove-IsOwn k [] a = tt
remove-IsOwn k ((j, d) ∷ docs) a = ground (arith, remove-IsOwn k docs a.1)

-- `_remove_unlocked` keeps the statistics those of a rebuild.
forget-IsValid :
    (k : ℕ) (doc : Document) (idx : Index)
    → get k idx.documents ≡ some doc
    → IsValid idx
    → IsValid (forget k doc idx)
unfolding forget
forget-IsValid k doc idx found v =
    let own = get-IsOwn k doc idx.documents v.own found in
    record {
      distinct = remove-Distinct k idx.documents v.distinct;
      own = remove-IsOwn k idx.documents v.own;
      df_distinct = drop_terms-Distinct doc.term_frequencies idx.document_frequency v.df_distinct;
      total = omega (arith, v.total, total_size-remove k doc idx.documents found);
      frequency = λ t. ground (
        arith,
        v.frequency t,
        holders-remove k doc t idx.documents found,
        get-drop_terms t doc.term_frequencies idx.document_frequency own.1 v.df_distinct,
      );
    }

pub remove_unlocked-IsValid :
    (k : ℕ) (idx : Index) → IsValid idx → IsValid (remove_unlocked k idx).0
unfolding remove_unlocked
remove_unlocked-IsValid k idx v = elim (Option-cases (get k idx.documents)) [
  | inl e ↦ rw (e, remove_unlocked) v
  | inr (doc, e) ↦ rw (e, remove_unlocked) (forget-IsValid k doc idx e v)
]

-- What `_remove_unlocked` leaves of the documents.
pub get-remove_unlocked :
    (k j : ℕ) (idx : Index)
    → IsValid idx
    → get j (remove_unlocked k idx).0.documents ≡ (if k == j then none else get j idx.documents)
unfolding remove_unlocked forget
get-remove_unlocked k j idx v = ground (arith, ==_iff k j, get-remove k j idx.documents v.distinct)

store-IsValid :
    (doc : Document) (idx : Index)
    → get doc.chunk_id idx.documents ≡ none
    → Distinct doc.term_frequencies
    → IsValid idx
    → IsValid (store doc idx)
unfolding store
store-IsValid doc idx absent terms v = record {
  distinct = put-Distinct doc.chunk_id doc idx.documents v.distinct;
  own = put-IsOwn doc.chunk_id doc idx.documents v.own (refl, terms);
  df_distinct = add_terms-Distinct doc.term_frequencies idx.document_frequency v.df_distinct;
  total = omega (arith, v.total, total_size-put doc.chunk_id doc idx.documents absent);
  frequency = λ t. ground (
    arith,
    v.frequency t,
    holders-put doc.chunk_id doc t idx.documents absent,
    get-add_terms t doc.term_frequencies idx.document_frequency terms,
  );
}

pub add-IsValid :
    (lower : Text → Text) (cid pid : ℕ) (text : Text) (m : Metadata) (idx : Index)
    → IsValid idx
    → IsValid (add lower cid pid text m idx)
unfolding add make_document
add-IsValid lower cid pid text m idx v =
    let tokens = tokenize lower text in
    store-IsValid (make_document cid pid tokens m) (remove_unlocked cid idx).0
      (get-remove_unlocked cid cid idx v ∙ rw (==_refl cid)) (counter-Distinct tokens)
      (remove_unlocked-IsValid cid idx v)

pub remove_all-IsValid : (cids : List ℕ) (idx : Index) → IsValid idx → IsValid (remove_all cids idx)
unfolding remove_all
remove_all-IsValid [] idx v = v
remove_all-IsValid (c ∷ cids) idx v =
    remove_all-IsValid cids (remove_unlocked c idx).0 (remove_unlocked-IsValid c idx v)

pub empty-IsValid : IsValid empty_index
unfolding get holders total_size
empty-IsValid = record {
  distinct = tt;
  own = tt;
  df_distinct = tt;
  total = refl;
  frequency = λ t. refl;
}
