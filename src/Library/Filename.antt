-- ===== src/Library/Filename.antt =====
-- The name of an uploaded file: sanitize_filename of backend/app/core/validation.py. NFKC and
-- str.lower are parameters.
use research_mind_ai.Prelude.{
  ℕ, ◌+◌, ◌-◌, Text, codes, strip, is_space, Bool, not, ◌&&◌, ◌||◌, List, [], ◌∷◌, ◌++◌, map,
  length, take, contains, leb, ltb, ◌==◌, nat_eq, list_eq, if◌then◌else◌,
}
use research_mind_ai.Retrieval.Service.{is_empty}

-- UNSAFE_FILENAME_CHARS
abbrev pub is_unsafe : ℕ → Bool
is_unsafe c = ltb c 32 || (c == 127 || contains c (codes "<>:\"/\\|?*"))

-- rsplit("/", 1)[-1]
unfoldable pub after_slash : Text → Text → Text
after_slash last [] = last
after_slash last (c ∷ cs) =
    let restart = after_slash cs cs in
    let onward = after_slash last cs in if c == b'/' then restart else onward

-- COLLAPSE_DOTS.sub(".", ...)
unfoldable pub collapse_dots : Text → Text
collapse_dots [] = []
collapse_dots (c ∷ []) = c ∷ []
collapse_dots (c ∷ d ∷ cs) =
    let rest = collapse_dots (d ∷ cs) in if c == b'.' && d == b'.' then rest else c ∷ rest

-- rpartition("."), without its separator; a text without a dot is all extension.
unfoldable pub rpartition_dot : Text → Text × Text
rpartition_dot [] = ([], [])
rpartition_dot (c ∷ cs) =
    let rest = rpartition_dot cs in
    if contains b'.' cs then (c ∷ rest.0, rest.1) else if c == b'.' then ([], cs) else ([], c ∷ cs)

abbrev pub windows_reserved : List Text
windows_reserved = map codes (
    "con" ∷ "prn" ∷ "aux" ∷ "nul" ∷ "com1" ∷ "com2" ∷ "com3" ∷ "com4" ∷ "com5" ∷ "com6" ∷ "com7"
    ∷ "com8" ∷ "com9" ∷ "lpt1" ∷ "lpt2" ∷ "lpt3" ∷ "lpt4" ∷ "lpt5" ∷ "lpt6" ∷ "lpt7" ∷ "lpt8"
    ∷ "lpt9" ∷ [])

-- cleaned[:keep], where keep is 255 - used, and counts from the end if it is negative.
abbrev pub shortened : ℕ → Text → Text
shortened used t = if leb used 255 then take (255 - used) t else take (length t - (used - 255)) t

abbrev pub truncated : Text → Text → Text
truncated extension t =
    if leb (length t) 255
    then t
    else if is_empty extension
    then take 255 t
    else shortened (length extension + 1) t ++ (b'.' ∷ extension)

module _ (nfkc lower : Text → Text) where
  abbrev pub is_reserved : Text → Bool
  is_reserved stem = contains (lower stem) windows_reserved

  abbrev pub renamed : Text × Text → Text → Text
  renamed (stem, extension) t =
      truncated extension
        (if not (is_empty stem) && is_reserved stem then codes "file_" ++ t else t)

  abbrev pub or_fallback : Text → Text
  or_fallback t = if is_empty t then codes "upload.pdf" else renamed (rpartition_dot t) t

  unfoldable pub sanitize_filename : Text → Text
  unfolding after_slash collapse_dots rpartition_dot
  sanitize_filename name =
      let normalized = map (λ c. if c == 92 then b'/' else c) (nfkc name) in
      let basename = after_slash normalized normalized in
      let cleaned = map (λ c. if is_unsafe c then b'_' else c) basename in
      if is_empty (strip is_space name)
      then codes "upload.pdf"
      else or_fallback (strip (λ c. c == 32 || c == b'.') (collapse_dots cleaned))
