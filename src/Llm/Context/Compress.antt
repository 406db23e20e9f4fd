-- ===== src/Llm/Context/Compress.antt =====
-- Compression of passages by the model: compress_chunk and compress_context of
-- backend/app/llm/context.py. `ask` is the gateway's answer for a passage.
use research_mind_ai.Prelude.{
  ℕ, ◌+◌, ◌-◌, ◌≤◌, Text, strip, is_space, ◌≡◌, refl, inl, inr, Bool-cases, List, [], ◌∷◌, map,
  length, length-map, ◌==◌, nat_eq, ==_iff, arith, if◌then◌else◌,
}
use research_mind_ai.Llm.Context.{Passages, PackedContext, pack_context}
use research_mind_ai.Llm.Context.Budget.{pack_context_budget}
use research_mind_ai.Llm.Gateway.{Completion, Result, ok, raise}

module _ {C : Type 0} (passages : Passages C) (lower : Text → Text) (query : Text)
    (ask : C → Result Completion) where
  open passages use {content, with_content}

  abbrev pub or_content : C → Text → Text
  or_content chunk [] = content chunk
  or_content chunk (c ∷ cs) = c ∷ cs

  abbrev pub compressed_by : C → Result Completion → Result C
  compressed_by chunk (raise e) = raise e
  compressed_by chunk (ok r) = ok (with_content (or_content chunk (strip is_space r.text)) chunk)

  unfoldable pub compress_chunk : C → Result C
  compress_chunk chunk = compressed_by chunk (ask chunk)

  -- [c for c in compressed_chunks if not isinstance(c, Exception)]
  unfoldable pub usable : List (Result C) → List C
  usable [] = []
  usable (ok c ∷ rs) = c ∷ usable rs
  usable (raise e ∷ rs) = usable rs

  unfoldable pub compress_context : List C → ℕ → ℕ → PackedContext C
  unfolding compress_chunk usable
  compress_context chunks max_tokens reserved_tokens =
      let packed = pack_context passages lower query chunks max_tokens reserved_tokens in
      let budget = max_tokens - reserved_tokens in
      if packed.dropped_count == 0
      then packed
      else pack_context passages lower query (usable (map compress_chunk chunks))
          (budget + reserved_tokens) reserved_tokens

  length-usable-le : (rs : List (Result C)) → length (usable rs) ≤ length rs
  unfolding usable
  length-usable-le [] = omega arith
  length-usable-le (ok c ∷ rs) = omega (arith, length-usable-le rs)
  length-usable-le (raise e ∷ rs) = omega (arith, length-usable-le rs)

  -- Whatever the model answers or raises for each passage, compression returns a context within the
  -- budget and 5 tokens that holds no more passages than were given; where packing alone drops
  -- nothing, it is the packed context, with every passage.
  pub compress_context_budget :
      (chunks : List C) (max_tokens reserved : ℕ)
      → ((compress_context chunks max_tokens reserved).used_tokens ≤ (max_tokens - reserved) + 5)
        × (length (compress_context chunks max_tokens reserved).chunks ≤ length chunks)
        × ((pack_context passages lower query chunks max_tokens reserved).dropped_count ≡ 0
            → (compress_context chunks max_tokens reserved
                ≡ pack_context passages lower query chunks max_tokens reserved)
              × (length (compress_context chunks max_tokens reserved).chunks ≡ length chunks))
  unfolding compress_context
  compress_context_budget chunks max_tokens reserved =
      let packed = pack_context passages lower query chunks max_tokens reserved in
      let all = pack_context_budget passages lower query chunks max_tokens reserved in
      let cs = usable (map compress_chunk chunks) in
      let again =
        pack_context_budget passages lower query cs ((max_tokens - reserved) + reserved) reserved in
      elim (Bool-cases (packed.dropped_count == 0)) [
        | inl e ↦
            rw (e, compress_context)
              (
                omega (arith, all.3),
                omega (arith, all.0),
                λ none_dropped. (refl, omega (arith, all.0, none_dropped)),
              )
        | inr e ↦
            rw (e, compress_context)
              (
                omega (arith, again.3),
                omega (
                  arith,
                  again.0,
                  length-usable-le (map compress_chunk chunks),
                  length-map compress_chunk chunks,
                ),
                λ none_dropped. absurd (cc (e, (==_iff packed.dropped_count 0).1 none_dropped)),
              )
      ]
