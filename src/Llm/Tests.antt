-- ===== src/Llm/Tests.antt =====
-- The theorems on packing, provider calls and citations at concrete inputs.
use research_mind_ai.Prelude.{
  ℕ, zero, suc, ◌+◌, ◌-◌, ◌^◌, ◌≤◌, ◌<◌, Text, codes, ascii_digit, ◌≡◌, refl, ◌⊎◌, ◌↔◌, true, false,
  none, List, [], ◌∷◌, arith, In, length,
}
use research_mind_ai.Llm.Context.{Passages, pack_context}
use research_mind_ai.Llm.Context.Budget.{pack_context_budget, sum_chunks}
use research_mind_ai.Llm.Gateway.{
  Completion, ok, raise, transport, Response, no_response, response, Gateway, no_usage,
  provider_complete, add_usage, attempt, exhausted, total_tokens, gateway_complete, is_retried,
  occurs_in,
}
use research_mind_ai.Llm.Gateway.Retries.{
  provider_settles, provider_gives_up, rejection_retried, goes_on,
}
use research_mind_ai.Llm.Gateway.Accounting.{serve, serve_accounts, tokens_of}
use research_mind_ai.Llm.Citations.{markers, extract_citations}
use research_mind_ai.Llm.Citations.Laws.{cited_iff}

abbrev plain : Passages Text
plain = record { content = λ t. t; with_content = λ t c. t; content-with_content = λ t c. refl }

abbrev same : Text → Text
same t = t

abbrev passages : List Text
passages = codes "Attention is all you need." ∷ codes "Convolutions are local." ∷ []

pack_context_budget_example :
    (length (pack_context plain same [] passages 30 20).chunks
        + (pack_context plain same [] passages 30 20).dropped_count
      ≡ 2)
    × ((pack_context plain same [] passages 30 20).used_tokens
        ≡ sum_chunks plain same [] (pack_context plain same [] passages 30 20).chunks)
    × ((pack_context plain same [] passages 30 20).compressed_count
        ≤ length (pack_context plain same [] passages 30 20).chunks)
    × ((pack_context plain same [] passages 30 20).used_tokens ≤ (30 - 20) + 5)
    × (((pack_context plain same [] passages 30 20).used_tokens ≤ 30 - 20)
        ⊎ (1 ≤ (pack_context plain same [] passages 30 20).compressed_count))
pack_context_budget_example = pack_context_budget plain same [] passages 30 20

abbrev show : ℕ → Text
show n = (48 + n) ∷ []

abbrev groq : Text
groq = codes "groq"

abbrev hello : Completion
hello = record {
  text = codes "Hello";
  model = codes "m";
  provider = groq;
  usage = record { prompt_tokens = 3; completion_tokens = 4 };
  finish_reason = none;
}

-- A timeout, then a completion.
abbrev flaky : ℕ → Response
flaky zero = no_response (codes "timed out")
flaky (suc n) = response 200 [] (ok hello)

flaky_before : (j : ℕ) → j < 1 → goes_on groq show (attempt groq show (flaky j)) ≡ true
unfolding attempt is_retried
flaky_before zero h = refl
flaky_before (suc j) h = absurd (omega arith)

flaky_final : goes_on groq show (attempt groq show (flaky 1)) ≡ false
unfolding attempt
flaky_final = refl

provider_settles_example :
    ((provider_complete groq show flaky).result ≡ attempt groq show (flaky 1))
    × ((provider_complete groq show flaky).posts ≡ 1 + 1)
    × ((provider_complete groq show flaky).slept + 1 ≡ 2 ^ 1)
provider_settles_example = provider_settles groq show flaky 1 (omega arith) flaky_before flaky_final

abbrev dead : ℕ → Response
dead n = response 503 [] (ok hello)

dead_retries : (j : ℕ) → j < 3 → goes_on groq show (attempt groq show (dead j)) ≡ true
unfolding attempt is_retried occurs_in
dead_retries j h = refl

provider_gives_up_example :
    (m : Text) × ((provider_complete groq show dead).result ≡ raise (exhausted groq show m))
    × ((provider_complete groq show dead).posts ≡ 3)
    × ((provider_complete groq show dead).slept ≡ 3)
provider_gives_up_example = provider_gives_up groq show dead dead_retries

says_server_error : occurs_in (codes "server error") (codes "no server error here") ≡ true
unfolding occurs_in
says_server_error = refl

rejection_retried_example :
    (provider_complete groq show
      (λ _. response 400 (codes "no server error here") (ok hello))).posts
    ≡ 3
rejection_retried_example =
    rejection_retried groq show 400 (codes "no server error here") (ok hello) (omega arith)
      (omega arith) (omega arith) says_server_error

abbrev gateway : Gateway
gateway = record { has_fallback = true; total_usage = no_usage }

serve_accounts_example :
    total_tokens
      (serve gateway ((ok hello, ok hello) ∷ (raise (transport []), ok hello) ∷ [])).0.total_usage
    ≡ total_tokens gateway.total_usage
      + tokens_of (serve gateway ((ok hello, ok hello) ∷ (raise (transport []), ok hello) ∷ [])).1
serve_accounts_example =
    serve_accounts gateway ((ok hello, ok hello) ∷ (raise (transport []), ok hello) ∷ [])

-- The primary provider rejects the request with status 404, once, and the fallback is asked.
rejection_falls_back :
    gateway_complete gateway
      (provider_complete groq show (λ _. response 404 [] (ok hello))).result
      (ok hello)
    ≡ record {
      gateway = record gateway { total_usage = add_usage no_usage hello.usage };
      result = ok hello;
      asked_fallback = true;
    }
unfolding provider_complete gateway_complete attempt is_retried occurs_in
rejection_falls_back = refl

cited_iff_example :
    In 2 (extract_citations ascii_digit (codes "As in [2] and [12].") 5)
    ↔ In 2 (markers ascii_digit (codes "As in [2] and [12].")) × (1 ≤ 2) × (2 ≤ 5)
cited_iff_example = cited_iff ascii_digit (codes "As in [2] and [12].") 5 2
