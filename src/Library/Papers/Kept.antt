-- ===== src/Library/Papers/Kept.antt =====
-- The blobs of backend/app/services/paper_service.py: no deletion takes another paper's file away.
use research_mind_ai.Prelude.{
  ℕ, zero, suc, Text, codes, ◌≡◌, refl, sym, ap, ◌∙◌, inl, inr, false, not, ◌&&◌, Bool-cases,
  Option-cases, Option, none, some, List, [], ◌∷◌, ◌++◌, length, take, drop, keep_if, ltb, ◌==◌,
  ==_iff, nat_eq, list_eq, arith, All, All-append, All-keep_if, All→In, In,
}
use research_mind_ai.Prelude.Dict.{
  Dict, get, remove, Distinct, get-put, get-remove, put-Distinct, remove-Distinct, In-get, put-All,
}
use research_mind_ai.Retrieval.Service.{Workspace}
use research_mind_ai.Library.Filename.{sanitize_filename}
use research_mind_ai.Library.Papers.{
  StoredPaper, Shelf, Upload, Request, asks_upload, asks_delete, owned_paper, owns, is_referenced,
  save_new, violates, commit, build_storage_key, or_bin, paper_of, upload_to, target, assert_pdf,
  upload_paper, drop_paper, delete_paper, serve, requests,
}

take-append : (xs ys : Text) (n : ℕ) → length xs ≡ n → take n (xs ++ ys) ≡ xs
take-append [] ys zero h = refl
take-append [] ys (suc n) h = absurd (omega (arith, h))
take-append (x ∷ xs) ys zero h = absurd (omega (arith, h))
take-append (x ∷ xs) ys (suc n) h = ap (◌∷◌ x) (take-append xs ys n (omega (arith, h)))

-- The checksum in a key: the shards take 13 characters.
abbrev pub checksum_in : Text → Text
checksum_in key = take 64 (drop 13 key)

sharded :
    (sum rest : Text)
    → length sum ≡ 64
    → checksum_in (
        codes "papers/"
        ++ (take 2 sum ++ (codes "/" ++ (take 2 (drop 2 sum) ++ (codes "/" ++ (sum ++ rest))))))
      ≡ sum
sharded [] rest h = absurd (omega (arith, h))
sharded (a ∷ []) rest h = absurd (omega (arith, h))
sharded (a ∷ b ∷ []) rest h = absurd (omega (arith, h))
sharded (a ∷ b ∷ c ∷ []) rest h = absurd (omega (arith, h))
sharded (a ∷ b ∷ c ∷ d ∷ sum) rest h = take-append (a ∷ b ∷ c ∷ d ∷ sum) rest 64 h

remove-All :
    (Q : Text × List ℕ → Type 0) (k : Text) (d : Dict Text (List ℕ)) → All Q d → All Q (remove k d)
unfolding remove
remove-All Q k [] h = tt
remove-All Q k ((j, w) ∷ d) h = elim (Bool-cases (j == k)) [
  | inl e ↦ rw e h.1
  | inr e ↦ rw e (h.0, remove-All Q k d h.1)
]

owned-In :
    (user pid : ℕ) (ws : List Workspace) (ps : List StoredPaper) (p : StoredPaper)
    → owned_paper user pid ws ps ≡ some p
    → In p ps
unfolding owned_paper
owned-In user pid ws [] p h = cc
owned-In user pid ws (q ∷ qs) p h = elim (Bool-cases (q.id == pid && owns user q.workspace_id ws)) [
  | inl e ↦ ground (arith, h, e)
  | inr e ↦ inr (owned-In user pid ws qs p (ground (arith, h, e)))
]

unreferenced :
    (sum : Text) (ps : List StoredPaper)
    → is_referenced sum ps ≡ false
    → All (λ (p : StoredPaper). p.checksum == sum ≡ false) ps
unfolding is_referenced
unreferenced sum [] h = tt
unreferenced sum (p ∷ ps) h = elim (Bool-cases (p.checksum == sum)) [
  | inl e ↦ absurd (ground (arith, h, e))
  | inr e ↦ (e, unreferenced sum ps (ground (arith, h, e)))
]

module _ (digest : List ℕ → Text) where
  -- The paper's blob is stored, its bytes have the paper's checksum, and the key tells it.
  abbrev pub IsBacked : Dict Text (List ℕ) → StoredPaper → Type 0
  IsBacked blobs p =
      (b : List ℕ) × (get p.storage_key blobs ≡ some b)
      × (digest b ≡ p.checksum)
      × (checksum_in p.storage_key ≡ p.checksum)

  abbrev IsBlob : Text × List ℕ → Type 0
  IsBlob (key, b) = digest b ≡ checksum_in key

  abbrev pub IsKept : Shelf → Type 0
  IsKept s = All (IsBacked s.blobs) s.papers × All IsBlob s.blobs × Distinct s.blobs

  still_there :
      (key k : Text) (file b : List ℕ) (blobs : Dict Text (List ℕ))
      → get k blobs ≡ some b
      → get k (save_new key file blobs) ≡ some b
  still_there key k file b blobs h = elim (Option-cases (get key blobs)) [
    | inr (c, e) ↦ rw (e, save_new) h
    | inl e ↦ rw (e, save_new) (ground (arith, get-put key k file blobs, ==_iff key k, h, e))
  ]

  save-Backed :
      (ps : List StoredPaper) (key : Text) (file : List ℕ) (blobs : Dict Text (List ℕ))
      → All (IsBacked blobs) ps
      → All (IsBacked (save_new key file blobs)) ps
  save-Backed [] key file blobs h = tt
  save-Backed (p ∷ ps) key file blobs ((b, there, same, told), h) = (
    (b, still_there key p.storage_key file b blobs there, same, told),
    save-Backed ps key file blobs h,
  )

  saved-Backed :
      (p : StoredPaper) (file : List ℕ) (blobs : Dict Text (List ℕ))
      → digest file ≡ p.checksum
      → checksum_in p.storage_key ≡ p.checksum
      → All IsBlob blobs
      → IsBacked (save_new p.storage_key file blobs) p
  saved-Backed p file blobs same told h = elim (Option-cases (get p.storage_key blobs)) [
    | inr (c, e) ↦
        rw (e, save_new)
          (
            c,
            e,
            All→In IsBlob blobs h (p.storage_key, c) (In-get p.storage_key c blobs e) ∙ told,
            told,
          )
    | inl e ↦
        rw (e, save_new)
          (
            file,
            ground (
              arith,
              get-put p.storage_key p.storage_key file blobs,
              ==_iff p.storage_key p.storage_key,
            ),
            same,
            told,
          )
  ]

  save-Blobs :
      (key : Text) (file : List ℕ) (blobs : Dict Text (List ℕ))
      → digest file ≡ checksum_in key
      → All IsBlob blobs
      → Distinct blobs
      → All IsBlob (save_new key file blobs) × Distinct (save_new key file blobs)
  save-Blobs key file blobs same h d = elim (Option-cases (get key blobs)) [
    | inr (c, e) ↦ rw (e, save_new) (h, d)
    | inl e ↦ rw (e, save_new) (put-All IsBlob key file blobs same h, put-Distinct key file blobs d)
  ]

  commit-IsKept :
      (p : StoredPaper) (file : List ℕ) (s : Shelf)
      → digest file ≡ p.checksum
      → checksum_in p.storage_key ≡ p.checksum
      → IsKept s
      → IsKept (commit p (record s { blobs = save_new p.storage_key file s.blobs })).1
  commit-IsKept p file s same told (backed, blobs, d) =
      let after = save-Blobs p.storage_key file s.blobs (same ∙ sym told) blobs d in
      let others = save-Backed s.papers p.storage_key file s.blobs backed in
      elim (Bool-cases (violates p s.papers)) [
        | inl e ↦ rw e (others, after.0, after.1)
        | inr e ↦ rw e (
          All-append (IsBacked (save_new p.storage_key file s.blobs)) s.papers (p ∷ []) others
              (saved-Backed p file s.blobs same told blobs, tt),
          after.0,
          after.1,
        )
      ]

  -- What is left keeps its blob when no paper has the checksum of the deleted one.
  rest-Backed :
      (p : StoredPaper) (ps : List StoredPaper) (blobs : Dict Text (List ℕ))
      → checksum_in p.storage_key ≡ p.checksum
      → Distinct blobs
      → All (λ (q : StoredPaper). q.checksum == p.checksum ≡ false) ps
      → All (IsBacked blobs) ps
      → All (IsBacked (remove p.storage_key blobs)) ps
  rest-Backed p [] blobs told d u h = tt
  rest-Backed p (q ∷ qs) blobs told d (apart, u) ((b, there, same, tells), h) = (
    (
      b,
      elim (Bool-cases (p.storage_key == q.storage_key)) [
        | inl e ↦
            let sums : q.checksum ≡ p.checksum =
              sym tells ∙ ap checksum_in (sym ((==_iff p.storage_key q.storage_key).0 e)) ∙ told in
            absurd (cc (apart, (==_iff q.checksum p.checksum).1 sums))
        | inr e ↦ get-remove p.storage_key q.storage_key blobs d ∙ rw e there
      ],
      same,
      tells,
    ),
    rest-Backed p qs blobs told d u h,
  )

  drop-IsKept :
      (p : StoredPaper) (s : Shelf)
      → checksum_in p.storage_key ≡ p.checksum
      → IsKept s
      → IsKept (drop_paper p s)
  drop-IsKept p s told (backed, blobs, d) =
      let rest = keep_if (λ (q : StoredPaper). not (q.id == p.id)) s.papers in
      let others =
        All-keep_if (IsBacked s.blobs) (λ (q : StoredPaper). not (q.id == p.id)) s.papers backed in
      elim (Bool-cases (is_referenced p.checksum rest)) [
        | inl e ↦ rw e (others, blobs, d)
        | inr e ↦ rw e (
          rest-Backed p rest s.blobs told d (unreferenced p.checksum rest e) others,
          remove-All IsBlob p.storage_key s.blobs blobs,
          remove-Distinct p.storage_key s.blobs d,
        )
      ]

  delete-IsKept :
      (user pid : ℕ) (ws : List Workspace) (s : Shelf)
      → IsKept s
      → IsKept (delete_paper user pid ws s).1
  unfolding delete_paper
  delete-IsKept user pid ws s h = elim (Option-cases (owned_paper user pid ws s.papers)) [
    | inl e ↦ rw e h
    | inr (p, e) ↦
        let (b, there, same, told) =
          All→In (IsBacked s.blobs) s.papers h.0 p (owned-In user pid ws s.papers p e) in
        rw e (drop-IsKept p s told h)
  ]

module _ (nfkc lower suffix_of : Text → Text) (digest : List ℕ → Text) (max_bytes : ℕ)
    (sized : (b : List ℕ) → length (digest b) ≡ 64) where
  upload-IsKept :
      (user : ℕ) (u : Upload) (ws : List Workspace) (s : Shelf)
      → IsKept digest s
      → IsKept digest (upload_paper nfkc lower suffix_of digest max_bytes user u ws s).1
  unfolding upload_paper
  upload-IsKept user u ws s h =
      elim (Bool-cases (not (u.content_type == codes "application/pdf"))) [
        | inl e ↦ rw e h
        | inr e ↦ rw e (elim (Bool-cases (not (assert_pdf u.file))) [
          | inl e ↦ rw e h
          | inr e ↦ rw e (elim (Bool-cases (length u.file == 0)) [
            | inl e ↦ rw e h
            | inr e ↦ rw e (elim (Bool-cases (ltb max_bytes (length u.file))) [
              | inl e ↦ rw e h
              | inr e ↦ rw e (go (target nfkc lower suffix_of digest max_bytes user u ws))
            ])
          ])
        ])
      ]
    where
      go :
          (o : Option Workspace)
          → IsKept digest (upload_to nfkc lower suffix_of digest max_bytes user o u s).1
      go none = h
      go (some w) =
          commit-IsKept digest (paper_of nfkc lower suffix_of digest max_bytes user w u) u.file s
            refl
            (unfold build_storage_key in
              sharded (digest u.file)
                (or_bin nfkc lower suffix_of digest max_bytes
                  (lower (suffix_of (sanitize_filename nfkc lower u.filename))))
                (sized u.file))
            h

  serve-IsKept :
      (r : Request) (s : Shelf)
      → IsKept digest s
      → IsKept digest (serve nfkc lower suffix_of digest max_bytes r s).1
  serve-IsKept (asks_upload user ws u) s h = upload-IsKept user u ws s h
  serve-IsKept (asks_delete user ws pid) s h = delete-IsKept digest user pid ws s h

  requests-go :
      (rs : List Request) (s : Shelf)
      → IsKept digest s
      → IsKept digest (requests nfkc lower suffix_of digest max_bytes rs s)
  unfolding requests
  requests-go [] s h = h
  requests-go (r ∷ rs) s h =
      requests-go rs (serve nfkc lower suffix_of digest max_bytes r s).1 (serve-IsKept r s h)

  -- Where a checksum has 64 characters: after any uploads and deletions by any users, from no papers
  -- and no blobs, the storage has the blob of each paper, and its bytes have the paper's checksum.
  pub requests-IsBacked :
      (rs : List Request)
      → let s =
          requests nfkc lower suffix_of digest max_bytes rs (record { papers = []; blobs = [] }) in
        All (IsBacked digest s.blobs) s.papers
  requests-IsBacked rs = (requests-go rs (record { papers = []; blobs = [] }) (tt, tt, tt)).0
