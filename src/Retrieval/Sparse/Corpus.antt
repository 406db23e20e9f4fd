-- ===== src/Retrieval/Sparse/Corpus.antt =====
-- What the methods of the BM25 index do to its documents, and runs of several calls.
use research_mind_ai.Prelude.{
  ℕ, Text, ◌≡◌, refl, Bool, false, Option, none, some, List, [], ◌∷◌, arith, ◌==◌, nat_eq, list_eq,
  ==_iff, contains, if◌then◌else◌,
}
use research_mind_ai.Prelude.Dict.{Dict, get, Distinct, get-put}
use research_mind_ai.Retrieval.Filters.{Metadata}
use research_mind_ai.Retrieval.Sparse.Tokens.{tokenize}
use research_mind_ai.Retrieval.Sparse.{
  Document, Index, empty_index, remove_unlocked, store, make_document, add, doomed, remove_all,
  remove_paper, clear,
}
use research_mind_ai.Retrieval.Sparse.Valid.{
  IsValid, holders, total_size, entry_of, remove_unlocked-IsValid, get-remove_unlocked, add-IsValid,
  remove_all-IsValid, empty-IsValid,
}

-- On a valid index, after `add` the chunk has the document made of the new text, whatever it had before, and every
-- other chunk has what it had.
pub get-add :
    (lower : Text → Text) (cid pid : ℕ) (text : Text) (m : Metadata) (idx : Index) (j : ℕ)
    → IsValid idx
    → get j (add lower cid pid text m idx).documents ≡ (
        if cid == j
        then some (make_document cid pid (tokenize lower text) m)
        else get j idx.documents)
unfolding add store make_document
get-add lower cid pid text m idx j v =
    let doc = make_document cid pid (tokenize lower text) m in
    ground (
      arith,
      get-put cid j doc (remove_unlocked cid idx).0.documents,
      get-remove_unlocked cid j idx v,
    )

get-remove_all :
    (cids : List ℕ) (j : ℕ) (idx : Index)
    → IsValid idx
    → get j (remove_all cids idx).documents
      ≡ (if contains j cids then none else get j idx.documents)
unfolding remove_all
get-remove_all [] j idx v = refl
get-remove_all (c ∷ cids) j idx v = ground (
  arith,
  get-remove_unlocked c j idx v,
  get-remove_all cids j (remove_unlocked c idx).0 (remove_unlocked-IsValid c idx v),
)

abbrev of_paper : ℕ → Option Document → Bool
of_paper p none = false
of_paper p (some doc) = doc.paper_id == p

contains-doomed :
    (p j : ℕ) (docs : Dict ℕ Document)
    → Distinct docs
    → contains j (doomed p docs) ≡ of_paper p (get j docs)
unfolding doomed get
contains-doomed p j [] h = refl
contains-doomed p j ((k, doc) ∷ docs) h = ground (arith, ==_iff k j, contains-doomed p j docs h.1)

-- What is left of an entry when a paper is removed.
abbrev pub without_paper : ℕ → Option Document → Option Document
without_paper p none = none
without_paper p (some doc) = if doc.paper_id == p then none else some doc

-- On a valid index, `remove_paper` drops exactly the documents of the paper, and the index stays
-- valid.
pub get-remove_paper :
    (p j : ℕ) (idx : Index)
    → IsValid idx
    → (get j (remove_paper p idx).0.documents ≡ without_paper p (get j idx.documents))
      × IsValid (remove_paper p idx).0
unfolding remove_paper
get-remove_paper p j idx v =
    let cids = doomed p idx.documents in
    (
      ground (arith, get-remove_all cids j idx v, contains-doomed p j idx.documents v.distinct),
      remove_all-IsValid cids idx v,
    )

-- One call of a method that writes.
pub data Call : Type 0 where
  add_chunk : ℕ → ℕ → Text → Metadata → Call
  drop_paper : ℕ → Call
  drop_all : Call

unfoldable pub run : (Text → Text) → List Call → Index → Index
run lower [] idx = idx
run lower (add_chunk cid pid text m ∷ calls) idx = run lower calls (add lower cid pid text m idx)
run lower (drop_paper p ∷ calls) idx = run lower calls (remove_paper p idx).0
run lower (drop_all ∷ calls) idx = run lower calls (clear idx)

clear-IsValid : (idx : Index) → IsValid (clear idx)
unfolding clear
clear-IsValid idx = empty-IsValid

pub run-IsValid :
    (lower : Text → Text) (calls : List Call) (idx : Index)
    → IsValid idx
    → IsValid (run lower calls idx)
unfolding run remove_paper
run-IsValid lower [] idx v = v
run-IsValid lower (add_chunk cid pid text m ∷ calls) idx v =
    run-IsValid lower calls (add lower cid pid text m idx) (add-IsValid lower cid pid text m idx v)
run-IsValid lower (drop_paper p ∷ calls) idx v =
    run-IsValid lower calls (remove_paper p idx).0
      (remove_all-IsValid (doomed p idx.documents) idx v)
run-IsValid lower (drop_all ∷ calls) idx v = run-IsValid lower calls (clear idx) (clear-IsValid idx)

-- After any calls on a new index, the document frequency of every term is the number of documents
-- that hold it (with no entry for 0), and the total length is the sum of the documents' lengths.
pub run_statistics :
    (lower : Text → Text) (calls : List Call) (t : Text)
    → (get t (run lower calls empty_index).document_frequency
        ≡ entry_of (holders t (run lower calls empty_index).documents))
      × ((run lower calls empty_index).total_length
          ≡ total_size (run lower calls empty_index).documents)
run_statistics lower calls t =
    let v = run-IsValid lower calls empty_index empty-IsValid in (v.frequency t, v.total)
