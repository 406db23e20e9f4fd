-- ===== src/Llm/Gateway.antt =====
-- Provider calls with retries, and the gateway with fallback and token accounting:
-- backend/app/llm/gateway.py. What the network does is a parameter.
pub mod Retries
pub mod Accounting
use research_mind_ai.Prelude.{
  ℕ, zero, suc, ◌+◌, ◌^◌, ◌<◌, Text, codes, Bool, true, false, Option, none, some, List, [], ◌∷◌,
  ◌++◌, take, ◌==◌, nat_eq, list_eq, leb, ltb, ◌||◌, ◌&&◌, if◌then◌else◌,
}

pub record Usage : Type 0 where
  pub prompt_tokens : ℕ
  pub completion_tokens : ℕ

-- Usage.__add__ and total_tokens
unfoldable pub add_usage : Usage → Usage → Usage
add_usage a b = record {
  prompt_tokens = a.prompt_tokens + b.prompt_tokens;
  completion_tokens = a.completion_tokens + b.completion_tokens;
}

unfoldable pub total_tokens : Usage → ℕ
total_tokens u = u.prompt_tokens + u.completion_tokens

abbrev pub no_usage : Usage
no_usage = record { prompt_tokens = 0; completion_tokens = 0 }

pub record Completion : Type 0 where
  pub text : Text
  pub model : Text
  pub provider : Text
  pub usage : Usage
  pub finish_reason : Option Text

-- Exceptions: LLMError, its subclass RateLimitError, httpx's transport errors and timeouts, and any
-- other.
pub data Failure : Type 0 where
  llm_error rate_limit transport foreign : Text → Failure

pub data Result (A : Type 0) : Type 0 where
  ok : A → Result A
  raise : Failure → Result A

-- str(exc)
abbrev pub message : Failure → Text
message (llm_error m) = m
message (rate_limit m) = m
message (transport m) = m
message (foreign m) = m

abbrev pub is_llm_error : Failure → Bool
is_llm_error (llm_error m) = true
is_llm_error (rate_limit m) = true
is_llm_error _ = false

-- needle in text
unfoldable pub is_prefix : Text → Text → Bool
is_prefix [] ys = true
is_prefix (x ∷ xs) [] = false
is_prefix (x ∷ xs) (y ∷ ys) = x == y && is_prefix xs ys

unfoldable pub occurs_in : Text → Text → Bool
unfolding is_prefix
occurs_in needle [] = is_prefix needle []
occurs_in needle (c ∷ cs) = is_prefix needle (c ∷ cs) || occurs_in needle cs

abbrev pub max_retries : ℕ
max_retries = 3

-- One POST: no response, or a status and a body, and what `_parse` makes of it.
pub data Response : Type 0 where
  no_response : Text → Response
  response : ℕ → Text → Result Completion → Response

module _ (name : Text) (show : ℕ → Text) where
  -- The `try` block of one attempt.
  unfoldable pub attempt : Response → Result Completion
  attempt (no_response m) = raise (transport m)
  attempt (response status body parsed) =
      if status == 429
      then raise (rate_limit (name ++ codes " rate limited"))
      else if leb 500 status
      then raise (llm_error (name ++ (codes " server error " ++ show status)))
      else if leb 400 status
      then raise (
          llm_error (
            name
            ++ (codes " rejected the request ("
                ++ (show status ++ (codes "): " ++ take 300 body)))))
      else parsed

  -- The `except` clauses: is the exception kept as `last_error`, to go on, or raised again?
  unfoldable pub is_retried : Failure → Bool
  unfolding occurs_in
  is_retried (rate_limit m) = true
  is_retried (transport m) = true
  is_retried (llm_error m) = occurs_in (codes "server error") m
  is_retried (foreign m) = false

  unfoldable pub exhausted : Text → Failure
  exhausted last =
      llm_error
        (name ++ (codes " failed after " ++ (show max_retries ++ (codes " attempts: " ++ last))))

  pub record Call : Type 0 where
    pub result : Result Completion
    pub posts : ℕ
    pub slept : ℕ

  -- `for attempt in range(3)`: the rounds left, the number of this one, the seconds slept so far
  -- (RETRY_BASE_DELAY is 1.0), and `last_error`. `world` gives the response to each attempt.
  abbrev pub settle : (Text → Call) → ℕ → ℕ → Result Completion → Call
  settle next number slept (ok c) = record { result = ok c; posts = number + 1; slept = slept }
  settle next number slept (raise f) =
      if is_retried f
      then next (message f)
      else record { result = raise f; posts = number + 1; slept = slept }

  abbrev pub pause : ℕ → ℕ
  pause number = if ltb number 2 then 2 ^ number else 0

  unfoldable pub attempts : (ℕ → Response) → ℕ → ℕ → ℕ → Text → Call
  unfolding attempt is_retried exhausted
  attempts world zero number slept last = record {
    result = raise (exhausted last);
    posts = number;
    slept = slept;
  }
  attempts world (suc left) number slept last =
      settle (λ m. attempts world left (number + 1) (slept + pause number) m) number slept
        (attempt (world number))

  -- _HttpProvider.complete
  unfoldable pub provider_complete : (ℕ → Response) → Call
  unfolding attempts
  provider_complete world = attempts world max_retries 0 0 []

pub record Gateway : Type 0 where
  pub has_fallback : Bool
  pub total_usage : Usage

-- What the gateway does with a request: the state, the result, and whether the fallback was asked.
pub record Served : Type 0 where
  pub gateway : Gateway
  pub result : Result Completion
  pub asked_fallback : Bool

abbrev pub account : Gateway → Bool → Result Completion → Served
account g asked (ok c) = record {
  gateway = record g { total_usage = add_usage g.total_usage c.usage };
  result = ok c;
  asked_fallback = asked;
}
account g asked (raise f) = record { gateway = g; result = raise f; asked_fallback = asked }

abbrev pub after_primary : Gateway → Result Completion → Result Completion → Served
after_primary g (ok c) fallback = account g false (ok c)
after_primary g (raise f) fallback =
    if is_llm_error f && g.has_fallback then account g true fallback else account g false (raise f)

-- LLMGateway.complete, on what the primary and the fallback provider would answer.
unfoldable pub gateway_complete : Gateway → Result Completion → Result Completion → Served
unfolding add_usage
gateway_complete g primary fallback = after_primary g primary fallback
