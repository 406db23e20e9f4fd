-- ===== src/Llm/Context/Budget.antt =====
-- What packing (backend/app/llm/context.py) keeps of the budget.
use research_mind_ai.Prelude.{
  ℕ, ◌+◌, ◌-◌, ◌≤◌, Text, join, ◌≡◌, refl, ap, sym, ◌∙◌, ◌⊎◌, inl, inr, some, List, [], ◌∷◌, ◌++◌,
  length, length-append, arith, Bool-cases, Option-cases, ltb, leb,
}
use research_mind_ai.Retrieval.Sentences.{extract_supporting_sentences, length-extract-le}
use research_mind_ai.Llm.Context.{
  Passages, PackedContext, estimate_tokens, fit_sentences, chosen, shrink_by_extraction, keep,
  drop_chunk, keep_reduced, reduced_to, pack_one, pack_from, pack_context,
}

sum_tokens : List Text → ℕ
sum_tokens [] = 0
sum_tokens (s ∷ ss) = estimate_tokens s + sum_tokens ss

length-join :
    (s t : Text) (ss : List Text)
    → length (join (32 ∷ []) (s ∷ t ∷ ss)) ≡ length s + 1 + length (join (32 ∷ []) (t ∷ ss))
unfolding join
length-join s t ss = omega (
  arith,
  length-append s ((32 ∷ []) ++ join (32 ∷ []) (t ∷ ss)),
  length-append (32 ∷ []) (join (32 ∷ []) (t ∷ ss)),
)

-- Joining rounds down once where the parts round down one by one.
join_tokens :
    (s : Text) (ss : List Text)
    → estimate_tokens (join (32 ∷ []) (s ∷ ss)) ≤ sum_tokens (s ∷ ss) + length ss
unfolding estimate_tokens sum_tokens join
join_tokens s [] = omega arith
join_tokens s (t ∷ ss) = omega (arith, length-join s t ss, join_tokens t ss)

fit_tokens :
    (target used : ℕ) (ss : List Text)
    → used ≤ target
    → used + sum_tokens (fit_sentences target used ss) ≤ target
unfolding fit_sentences sum_tokens
fit_tokens target used [] h = omega arith
fit_tokens target used (s ∷ ss) h = ground (arith, fit_tokens target (used + estimate_tokens s) ss)

length-fit-le :
    (target used : ℕ) (ss : List Text) → length (fit_sentences target used ss) ≤ length ss
unfolding fit_sentences
length-fit-le target used [] = omega arith
length-fit-le target used (s ∷ ss) =
    ground (arith, length-fit-le target (used + estimate_tokens s) ss)

module _ {C : Type 0} (passages : Passages C) (lower : Text → Text) (query : Text) where
  open passages use {content, with_content, content-with_content}

  shrink_tokens :
      (chunk reduced : C) (target : ℕ)
      → shrink_by_extraction passages lower query chunk target ≡ some reduced
      → estimate_tokens (content reduced) ≤ target + 5
  unfolding shrink_by_extraction
  shrink_tokens chunk reduced target h =
      go (chosen passages lower query chunk target)
        (fit_tokens target 0 (extract_supporting_sentences lower 6 query (content chunk))
          (omega arith))
        (omega (
          arith,
          length-fit-le target 0 (extract_supporting_sentences lower 6 query (content chunk)),
          length-extract-le lower 6 query (content chunk),
        ))
        h
    where
      go :
          (kept : List Text)
          → 0 + sum_tokens kept ≤ target
          → length kept ≤ 6
          → reduced_to passages lower query chunk kept ≡ some reduced
          → estimate_tokens (content reduced) ≤ target + 5
      go [] t n e = absurd (cc e)
      go (s ∷ ss) t n e =
          let q : reduced ≡ with_content (join (32 ∷ []) (s ∷ ss)) chunk = ground arith in
          rw (q, content-with_content) (omega (arith, join_tokens s ss))

  pub sum_chunks : List C → ℕ
  sum_chunks [] = 0
  sum_chunks (c ∷ cs) = estimate_tokens (content c) + sum_chunks cs

  sum_chunks-append :
      (cs : List C) (c : C)
      → sum_chunks (cs ++ (c ∷ [])) ≡ sum_chunks cs + estimate_tokens (content c)
  unfolding sum_chunks
  sum_chunks-append [] c = omega arith
  sum_chunks-append (d ∷ cs) c = omega (arith, sum_chunks-append cs c)

  -- After `seen` chunks.
  record IsPacked (budget seen : ℕ) (p : PackedContext C) : Type 0 where
    used : p.used_tokens ≡ sum_chunks p.chunks
    counted : length p.chunks + p.dropped_count ≡ seen
    some_reduced : p.compressed_count ≤ length p.chunks
    bound : p.used_tokens ≤ budget + 5
    exact : (p.used_tokens ≤ budget) ⊎ (1 ≤ p.compressed_count)

  added-IsPacked :
      (budget seen : ℕ) (c : C) (p q : PackedContext C)
      → IsPacked budget seen p
      → q.chunks ≡ p.chunks ++ (c ∷ [])
      → q.used_tokens ≡ p.used_tokens + estimate_tokens (content c)
      → q.dropped_count ≡ p.dropped_count
      → q.compressed_count ≤ length q.chunks
      → q.used_tokens ≤ budget + 5
      → (q.used_tokens ≤ budget) ⊎ (1 ≤ q.compressed_count)
      → IsPacked budget (seen + 1) q
  added-IsPacked budget seen c p q v e u d k b x = record {
    used = u ∙ omega (arith, v.used, sum_chunks-append p.chunks c) ∙ ap sum_chunks (sym e);
    counted = omega (arith, v.counted, ap length e, length-append p.chunks (c ∷ []));
    some_reduced = k;
    bound = b;
    exact = x;
  }

  dropped-IsPacked :
      (budget seen : ℕ) (p : PackedContext C)
      → IsPacked budget seen p
      → IsPacked budget (seen + 1) (drop_chunk passages lower query p)
  dropped-IsPacked budget seen p v = record {
    used = v.used;
    counted = omega (arith, v.counted);
    some_reduced = v.some_reduced;
    bound = v.bound;
    exact = v.exact;
  }

  pack_one-IsPacked :
      (budget seen : ℕ) (c : C) (p : PackedContext C)
      → IsPacked budget seen p
      → IsPacked budget (seen + 1) (pack_one passages lower query budget c p)
  unfolding pack_one
  pack_one-IsPacked budget seen c p v =
      elim (Bool-cases (leb (p.used_tokens + estimate_tokens (content c)) budget)) [
        | inl fits ↦ rw fits (
            added-IsPacked budget seen c p (keep passages lower query c p) v refl refl refl
              (omega (arith, v.some_reduced, length-append p.chunks (c ∷ []))) (ground arith)
              (inl (ground arith)))
        | inr over ↦ elim (Bool-cases (ltb (budget - p.used_tokens) 40)) [
          | inl small ↦ rw (over, small) (dropped-IsPacked budget seen p v)
          | inr room ↦
              elim (Option-cases
                (shrink_by_extraction passages lower query c (budget - p.used_tokens))) [
                  | inl e ↦ rw (over, room, e) (dropped-IsPacked budget seen p v)
                  | inr (r, e) ↦
                      rw (over, room, e)
                        (added-IsPacked budget seen r p (keep_reduced passages lower query r p) v
                          refl refl refl
                          (omega (arith, v.some_reduced, length-append p.chunks (r ∷ [])))
                          (ground (arith, shrink_tokens c r (budget - p.used_tokens) e))
                          (inr (omega arith)))
                ]
        ]
      ]

  pack_from-IsPacked :
      (budget seen : ℕ) (cs : List C) (p : PackedContext C)
      → IsPacked budget seen p
      → IsPacked budget (seen + length cs) (pack_from passages lower query budget cs p)
  unfolding pack_from
  pack_from-IsPacked budget seen [] p v = record {
    used = v.used;
    counted = omega (arith, v.counted);
    some_reduced = v.some_reduced;
    bound = v.bound;
    exact = v.exact;
  }
  pack_from-IsPacked budget seen (c ∷ cs) p v =
      let w =
        pack_from-IsPacked budget (seen + 1) cs (pack_one passages lower query budget c p)
          (pack_one-IsPacked budget seen c p v) in
      record {
        used = w.used;
        counted = omega (arith, w.counted);
        some_reduced = w.some_reduced;
        bound = w.bound;
        exact = w.exact;
      }

  module _ (chunks : List C) (max_tokens reserved : ℕ) where
    abbrev packed : PackedContext C
    packed = pack_context passages lower query chunks max_tokens reserved

    -- Packing accounts for every chunk, reports the tokens of what it keeps, and keeps within the
    -- budget and 5 tokens; within the budget itself where no chunk was reduced.
    pub pack_context_budget :
        (length packed.chunks + packed.dropped_count ≡ length chunks)
        × (packed.used_tokens ≡ sum_chunks packed.chunks)
        × (packed.compressed_count ≤ length packed.chunks)
        × (packed.used_tokens ≤ (max_tokens - reserved) + 5)
        × ((packed.used_tokens ≤ max_tokens - reserved) ⊎ (1 ≤ packed.compressed_count))
    unfolding pack_context sum_chunks
    pack_context_budget =
        let start : PackedContext C = record {
          chunks = [];
          used_tokens = 0;
          dropped_count = 0;
          compressed_count = 0;
        } in
        let v = pack_from-IsPacked (max_tokens - reserved) 0 chunks start (record {
          used = refl;
          counted = refl;
          some_reduced = omega arith;
          bound = omega arith;
          exact = inl (omega arith);
        }) in
        (omega (arith, v.counted), v.used, v.some_reduced, v.bound, v.exact)
