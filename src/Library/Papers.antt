-- ===== src/Library/Papers.antt =====
-- Uploading and deleting papers: backend/app/services/paper_service.py, with assert_pdf of
-- backend/app/core/validation.py and build_storage_key of backend/app/core/storage.py. The digest,
-- NFKC, str.lower and pathlib's suffix are parameters, and a new paper's id is an argument.
-- The lengths of the columns are not modelled.
pub mod Kept
use research_mind_ai.Prelude.{
  ℕ, Text, codes, Bool, true, false, not, ◌&&◌, ◌||◌, Option, none, some, List, [], ◌∷◌, ◌++◌, map,
  length, take, drop, keep_if, contains, ltb, ◌==◌, nat_eq, list_eq, if◌then◌else◌,
}
use research_mind_ai.Prelude.Dict.{Dict, get, put, remove}
use research_mind_ai.Retrieval.Service.{Workspace, is_empty}
use research_mind_ai.Llm.Gateway.{is_prefix}
use research_mind_ai.Library.Filename.{sanitize_filename}

pub record StoredPaper : Type 0 where
  pub id : ℕ
  pub workspace_id : ℕ
  pub uploaded_by_id : ℕ
  pub original_filename : Text
  pub content_type : Text
  pub checksum : Text
  pub size_bytes : ℕ
  pub storage_key : Text

-- The table of papers, and the bytes that are stored under each key.
pub record Shelf : Type 0 where
  pub papers : List StoredPaper
  pub blobs : Dict Text (List ℕ)

pub data ServiceError : Type 0 where
  validation_error : ServiceError
  conflict_error : ServiceError
  not_found_error : ServiceError

pub data Reply : Type 0 where
  uploaded : StoredPaper → Reply
  deleted : Reply
  failed : ServiceError → Reply

pub record Upload : Type 0 where
  pub new_id : ℕ
  pub file : List ℕ
  pub filename : Text
  pub content_type : Text
  pub workspace : Option Workspace

-- get_default_workspace; the workspaces are in the order of their creation.
unfoldable pub default_workspace : ℕ → List Workspace → Option Workspace
default_workspace user [] = none
default_workspace user (w ∷ ws) = if w.owner_id == user then some w else default_workspace user ws

unfoldable pub owns : ℕ → ℕ → List Workspace → Bool
owns user wid [] = false
owns user wid (w ∷ ws) = (w.id == wid && w.owner_id == user) || owns user wid ws

abbrev pub assert_pdf : List ℕ → Bool
assert_pdf file = is_prefix (codes "%PDF-") (take 8 file)

-- The unique index on workspaces and checksums, and the primary key.
unfoldable pub violates : StoredPaper → List StoredPaper → Bool
violates p [] = false
violates p (q ∷ qs) =
    (q.workspace_id == p.workspace_id && q.checksum == p.checksum)
    || (q.id == p.id || violates p qs)

-- get_paper
unfoldable pub owned_paper : ℕ → ℕ → List Workspace → List StoredPaper → Option StoredPaper
unfolding owns
owned_paper user pid ws [] = none
owned_paper user pid ws (p ∷ ps) =
    let later = owned_paper user pid ws ps in
    if p.id == pid && owns user p.workspace_id ws then some p else later

unfoldable pub is_referenced : Text → List StoredPaper → Bool
is_referenced sum [] = false
is_referenced sum (p ∷ ps) = p.checksum == sum || is_referenced sum ps

-- The storage's save, after its exists.
abbrev pub save_new : Text → List ℕ → Dict Text (List ℕ) → Dict Text (List ℕ)
save_new key file blobs = elim (get key blobs) [ none ↦ put key file blobs | some b ↦ blobs ]

abbrev pub commit : StoredPaper → Shelf → Reply × Shelf
commit p s =
    if violates p s.papers
    then (failed conflict_error, s)
    else (uploaded p, record s { papers = s.papers ++ (p ∷ []) })

module _ (nfkc lower suffix_of : Text → Text) (digest : List ℕ → Text) (max_bytes : ℕ) where
  abbrev pub or_bin : Text → Text
  or_bin t = if is_empty t then codes ".bin" else t

  unfoldable pub build_storage_key : Text → Text → Text
  build_storage_key sum filename =
      codes "papers/"
      ++ (take 2 sum
          ++ (codes "/"
              ++ (take 2 (drop 2 sum)
                  ++ (codes "/" ++ (sum ++ or_bin (lower (suffix_of filename)))))))

  abbrev pub paper_of : ℕ → Workspace → Upload → StoredPaper
  paper_of user w u =
      let filename = sanitize_filename nfkc lower u.filename in
      record {
        id = u.new_id;
        workspace_id = w.id;
        uploaded_by_id = user;
        original_filename = filename;
        content_type = u.content_type;
        checksum = digest u.file;
        size_bytes = length u.file;
        storage_key = build_storage_key (digest u.file) filename;
      }

  abbrev pub upload_to : ℕ → Option Workspace → Upload → Shelf → Reply × Shelf
  upload_to user none u s = (failed not_found_error, s)
  upload_to user (some w) u s =
      let p = paper_of user w u in
      commit p (record s { blobs = save_new p.storage_key u.file s.blobs })

  abbrev pub target : ℕ → Upload → List Workspace → Option Workspace
  target user u ws = elim u.workspace [ none ↦ default_workspace user ws | some w ↦ some w ]

  unfoldable pub upload_paper : ℕ → Upload → List Workspace → Shelf → Reply × Shelf
  unfolding default_workspace violates build_storage_key
  upload_paper user u ws s =
      if not (u.content_type == codes "application/pdf")
      then (failed validation_error, s)
      else if not (assert_pdf u.file)
      then (failed validation_error, s)
      else if length u.file == 0
      then (failed validation_error, s)
      else if ltb max_bytes (length u.file)
      then (failed validation_error, s)
      else upload_to user (target user u ws) u s

abbrev pub drop_paper : StoredPaper → Shelf → Shelf
drop_paper p s =
    let rest = keep_if (λ (q : StoredPaper). not (q.id == p.id)) s.papers in
    record {
      papers = rest;
      blobs = if is_referenced p.checksum rest then s.blobs else remove p.storage_key s.blobs;
    }

abbrev pub delete_found : Option StoredPaper → Shelf → Reply × Shelf
delete_found none s = (failed not_found_error, s)
delete_found (some p) s = (deleted, drop_paper p s)

unfoldable pub delete_paper : ℕ → ℕ → List Workspace → Shelf → Reply × Shelf
unfolding owned_paper is_referenced
delete_paper user pid ws s = delete_found (owned_paper user pid ws s.papers) s

pub data Request : Type 0 where
  asks_upload : ℕ → List Workspace → Upload → Request
  asks_delete : ℕ → List Workspace → ℕ → Request

module _ (nfkc lower suffix_of : Text → Text) (digest : List ℕ → Text) (max_bytes : ℕ) where
  abbrev pub serve : Request → Shelf → Reply × Shelf
  serve (asks_upload user ws u) s = upload_paper nfkc lower suffix_of digest max_bytes user u ws s
  serve (asks_delete user ws pid) s = delete_paper user pid ws s

  unfoldable pub requests : List Request → Shelf → Shelf
  requests [] s = s
  requests (r ∷ rs) s = requests rs (serve r s).1
