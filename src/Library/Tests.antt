-- ===== src/Library/Tests.antt =====
-- Two users who upload the same file, and file names.
use research_mind_ai.Prelude.{
  ℕ, zero, suc, ◌-◌, Text, codes, strip, is_space, ◌≡◌, refl, ap, none, List, [], ◌∷◌, drop, length,
  All, nat_eq, list_eq,
}
use research_mind_ai.Prelude.Dict.{get, put, remove}
use research_mind_ai.Retrieval.Service.{Workspace}
use research_mind_ai.Llm.Gateway.{is_prefix}
use research_mind_ai.Library.Filename.{sanitize_filename}
use research_mind_ai.Library.Papers.{
  Shelf, Upload, Request, asks_upload, asks_delete, owns, owned_paper, violates, is_referenced,
  upload_paper, delete_paper, requests,
}
use research_mind_ai.Library.Papers.Kept.{IsBacked, requests-IsBacked}

abbrev same : Text → Text
same t = t

-- In place of the digest, the first 64 bytes.
abbrev padded : ℕ → List ℕ → Text
padded zero b = []
padded (suc n) [] = b'0' ∷ padded n []
padded (suc n) (x ∷ b) = x ∷ padded n b

length-padded : (n : ℕ) (b : List ℕ) → length (padded n b) ≡ n
length-padded zero b = refl
length-padded (suc n) [] = ap suc (length-padded n [])
length-padded (suc n) (x ∷ b) = ap suc (length-padded n b)

abbrev suffix : Text → Text
suffix t = drop (length t - 4) t

abbrev workspaces : List Workspace
workspaces = record { id = 1; owner_id = 5 } ∷ record { id = 2; owner_id = 6 } ∷ []

abbrev file_of : ℕ → Text → Upload
file_of i name = record {
  new_id = i;
  file = codes "%PDF-1.7 trees";
  filename = name;
  content_type = codes "application/pdf";
  workspace = none;
}

-- Both users upload the file, and the first deletes it.
abbrev shared_file : List Request
shared_file =
    asks_upload 5 workspaces (file_of 7 (codes "../a.pdf"))
    ∷ asks_upload 6 workspaces (file_of 8 (codes "b.pdf"))
    ∷ asks_delete 5 workspaces 8
    ∷ asks_delete 5 workspaces 7
    ∷ []

abbrev served : List Request → Shelf
served rs = requests same same suffix (padded 64) 1000 rs (record { papers = []; blobs = [] })

requests-IsBacked_example :
    All (IsBacked (padded 64) (served shared_file).blobs) (served shared_file).papers
requests-IsBacked_example =
    requests-IsBacked same same suffix (padded 64) 1000 (length-padded 64) shared_file

one_paper_left :
    length (served shared_file).papers ∷ length (served shared_file).blobs ∷ [] ≡ 1 ∷ 1 ∷ []
unfolding requests upload_paper delete_paper sanitize_filename get put remove is_prefix strip
    is_space owns owned_paper violates is_referenced
one_paper_left = refl

-- The same file under another suffix is refused, but its copy stays in the storage.
orphan :
    let s = served (
      asks_upload 5 workspaces (file_of 7 (codes "a.pdf"))
      ∷ asks_upload 5 workspaces (file_of 8 (codes "a.bin"))
      ∷ []) in
    length s.papers ∷ length s.blobs ∷ [] ≡ 1 ∷ 2 ∷ []
unfolding requests upload_paper sanitize_filename get put is_prefix strip is_space
orphan = refl

cleaned_name : sanitize_filename same same (codes "../x/com1.v..pdf ") ≡ codes "com1.v.pdf"
unfolding sanitize_filename strip is_space
cleaned_name = refl

-- A reserved name is renamed only if it has an extension.
reserved_names :
    sanitize_filename same same (codes "con.pdf") ∷ sanitize_filename same same (codes "con") ∷ []
    ≡ codes "file_con.pdf" ∷ codes "con" ∷ []
unfolding sanitize_filename strip is_space
reserved_names = refl

abbrev letters : ℕ → Text
letters zero = []
letters (suc n) = b'a' ∷ letters n

-- A long name without a dot grows.
grown : length (sanitize_filename same same (letters 300)) ≡ 555
unfolding sanitize_filename strip is_space
grown = refl
