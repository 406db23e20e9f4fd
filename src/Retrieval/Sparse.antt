-- ===== src/Retrieval/Sparse.antt =====
-- The BM25 index: backend/app/retrieval/sparse.py. The lock makes each method one step.
mod Tokens
mod Terms
pub mod Valid
pub mod Corpus
pub mod Search
pub mod Results
unfoldable pub use Tokens.{tokenize}
unfoldable pub use Terms.{counter, count_of, add_terms, drop_terms}
use research_mind_ai.Prelude.{
  ℕ, ◌+◌, ◌-◌, Text, Bool, true, false, Option, none, some, List, [], ◌∷◌, ◌==◌, nat_eq, list_eq,
  length, if◌then◌else◌,
}
use research_mind_ai.Prelude.Dict.{Dict, get, put, remove}
use research_mind_ai.Retrieval.Filters.{Metadata}

pub record Document : Type 0 where
  pub chunk_id : ℕ
  pub paper_id : ℕ
  pub size : ℕ
  pub term_frequencies : Dict Text ℕ
  pub metadata : Metadata

pub record Index : Type 0 where
  pub documents : Dict ℕ Document
  pub document_frequency : Dict Text ℕ
  pub total_length : ℕ

-- BM25Index()
abbrev pub empty_index : Index
empty_index = record { documents = []; document_frequency = []; total_length = 0 }

-- The state after `_remove_unlocked` found `existing`.
unfoldable pub forget : ℕ → Document → Index → Index
forget chunk_id existing idx = record {
  documents = remove chunk_id idx.documents;
  document_frequency = drop_terms existing.term_frequencies idx.document_frequency;
  total_length = idx.total_length - existing.size;
}

-- _remove_unlocked
unfoldable pub remove_unlocked : ℕ → Index → Index × Bool
unfolding forget
remove_unlocked chunk_id idx = elim (get chunk_id idx.documents) [
  | none ↦ (idx, false)
  | some existing ↦ (forget chunk_id existing idx, true)
]

-- The part of `add` after `_remove_unlocked`.
unfoldable pub store : Document → Index → Index
store doc idx = record {
  documents = put doc.chunk_id doc idx.documents;
  document_frequency = add_terms doc.term_frequencies idx.document_frequency;
  total_length = idx.total_length + doc.size;
}

-- `tokens` is `tokenize(text)`.
unfoldable pub make_document : ℕ → ℕ → List Text → Metadata → Document
make_document chunk_id paper_id tokens metadata = record {
  chunk_id = chunk_id;
  paper_id = paper_id;
  size = length tokens;
  term_frequencies = counter tokens;
  metadata = metadata;
}

-- `lower` is str.lower.
unfoldable pub add : (Text → Text) → ℕ → ℕ → Text → Metadata → Index → Index
unfolding remove_unlocked store make_document
add lower chunk_id paper_id text metadata idx =
    store (make_document chunk_id paper_id (tokenize lower text) metadata)
      (remove_unlocked chunk_id idx).0

-- [cid for cid, doc in documents.items() if doc.paper_id == paper_id]
unfoldable pub doomed : ℕ → Dict ℕ Document → List ℕ
doomed paper_id [] = []
doomed paper_id ((cid, doc) ∷ docs) =
    let rest = doomed paper_id docs in if doc.paper_id == paper_id then cid ∷ rest else rest

unfoldable pub remove_all : List ℕ → Index → Index
remove_all [] idx = idx
remove_all (cid ∷ cids) idx = remove_all cids (remove_unlocked cid idx).0

unfoldable pub remove_paper : ℕ → Index → Index × ℕ
remove_paper paper_id idx =
    let cids = doomed paper_id idx.documents in (remove_all cids idx, length cids)

unfoldable pub clear : Index → Index
clear idx = record { documents = []; document_frequency = []; total_length = 0 }
