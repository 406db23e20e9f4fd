-- ===== src/Llm/Gateway/Accounting.antt =====
-- Fallback and token accounting of `LLMGateway` (backend/app/llm/gateway.py).
use research_mind_ai.Prelude.{ℕ, ◌+◌, ◌≡◌, refl, List, [], ◌∷◌, arith}
use research_mind_ai.Llm.Gateway.{
  total_tokens, Completion, Result, ok, raise, Gateway, gateway_complete,
}

-- The requests of a session: what the primary and the fallback would answer to each.
abbrev pub Session : Type 0
Session = List (Result Completion × Result Completion)

unfoldable pub serve : Gateway → Session → Gateway × List (Result Completion)
serve g [] = (g, [])
serve g ((primary, fallback) ∷ requests) =
    let s = gateway_complete g primary fallback in
    let (g', results) = serve s.gateway requests in (g', s.result ∷ results)

unfoldable pub tokens_of : List (Result Completion) → ℕ
tokens_of [] = 0
tokens_of (ok c ∷ rs) = total_tokens c.usage + tokens_of rs
tokens_of (raise f ∷ rs) = tokens_of rs

result_tokens : Result Completion → ℕ
result_tokens (ok c) = total_tokens c.usage
result_tokens (raise f) = 0

serve_one :
    (g : Gateway) (primary fallback : Result Completion)
    → total_tokens (gateway_complete g primary fallback).gateway.total_usage
      ≡ total_tokens g.total_usage + result_tokens (gateway_complete g primary fallback).result
unfolding gateway_complete result_tokens total_tokens
serve_one g primary fallback = ground arith

tokens_of-cons :
    (r : Result Completion) (rs : List (Result Completion))
    → tokens_of (r ∷ rs) ≡ result_tokens r + tokens_of rs
unfolding tokens_of result_tokens
tokens_of-cons (ok c) rs = refl
tokens_of-cons (raise f) rs = omega arith

-- Over a session the gateway's total grows by the tokens of the completions that it returned, and
-- by nothing for requests that raised.
pub serve_accounts :
    (g : Gateway) (requests : Session)
    → total_tokens (serve g requests).0.total_usage
      ≡ total_tokens g.total_usage + tokens_of (serve g requests).1
unfolding serve
serve_accounts g [] = unfold tokens_of in omega arith
serve_accounts g ((primary, fallback) ∷ requests) =
    let s = gateway_complete g primary fallback in
    omega (
      arith,
      serve_accounts s.gateway requests,
      serve_one g primary fallback,
      tokens_of-cons s.result (serve s.gateway requests).1,
    )
