-- ===== src/Llm/Gateway/Retries.antt =====
-- The retry loop of `_HttpProvider.complete` (backend/app/llm/gateway.py).
use research_mind_ai.Prelude.{
  ℕ, zero, suc, ◌+◌, ◌^◌, ◌≤◌, ◌<◌, Text, codes, ◌≡◌, ◌≢◌, Bool, true, false, [], ◌∷◌, ◌++◌, take,
  arith, nat_eq, list_eq,
}
use research_mind_ai.Llm.Gateway.{
  Completion, llm_error, Result, ok, raise, message, occurs_in, Response, response, attempt,
  is_retried, exhausted, Call, attempts, provider_complete,
}

-- Neither a result nor an exception that is raised again.
abbrev pub goes_on : (name : Text) (show : ℕ → Text) → Result Completion → Bool
goes_on name show (ok c) = false
goes_on name show (raise f) = is_retried name show f

abbrev message_of : Result Completion → Text
message_of (ok c) = []
message_of (raise f) = message f

occurs_in-append :
    (needle a b : Text) → occurs_in needle b ≡ true → occurs_in needle (a ++ b) ≡ true
unfolding occurs_in
occurs_in-append needle [] b h = h
occurs_in-append needle (c ∷ a) b h = ground (arith, occurs_in-append needle a b h)

module _ (name : Text) (show : ℕ → Text) (world : ℕ → Response) where
  abbrev answer : ℕ → Result Completion
  answer i = attempt name show (world i)

  abbrev outcome : Call name show
  outcome = provider_complete name show world

  -- The first attempt that returns, or raises what is not retried, decides: its result is the
  -- call's, after one POST for each attempt so far and pauses of 1 and 2 seconds in between.
  pub provider_settles :
      (i : ℕ)
      → i < 3
      → ((j : ℕ) → j < i → goes_on name show (answer j) ≡ true)
      → goes_on name show (answer i) ≡ false
      → (outcome.result ≡ answer i) × (outcome.posts ≡ i + 1) × (outcome.slept + 1 ≡ 2 ^ i)
  unfolding provider_complete attempts
  provider_settles zero lt before final = ground arith
  provider_settles (suc zero) lt before final = ground (arith, before 0 (omega arith))
  provider_settles (suc (suc zero)) lt before final =
      ground (arith, before 0 (omega arith), before 1 (omega arith))
  provider_settles (suc (suc (suc i))) lt before final = absurd (omega arith)

  -- When all three attempts fail in a way that is retried, the call raises an LLMError, after 3
  -- POSTs and pauses of 3 seconds.
  pub provider_gives_up :
      ((j : ℕ) → j < 3 → goes_on name show (answer j) ≡ true)
      → (m : Text) × (outcome.result ≡ raise (exhausted name show m))
        × (outcome.posts ≡ 3)
        × (outcome.slept ≡ 3)
  unfolding provider_complete attempts
  provider_gives_up all = (
    message_of (answer 2),
    ground (arith, all 0 (omega arith), all 1 (omega arith), all 2 (omega arith)),
    ground (arith, all 0 (omega arith), all 1 (omega arith), all 2 (omega arith)),
    ground (arith, all 0 (omega arith), all 1 (omega arith), all 2 (omega arith)),
  )

module _ (name : Text) (show : ℕ → Text) where
  abbrev rejection : ℕ → Text → Text
  rejection status body =
      name ++ (codes " rejected the request (" ++ (show status ++ (codes "): " ++ take 300 body)))

  attempt_rejected :
      (status : ℕ) (body : Text) (parsed : Result Completion)
      → 400 ≤ status
      → status < 500
      → status ≢ 429
      → attempt name show (response status body parsed) ≡ raise (llm_error (rejection status body))
  unfolding attempt
  attempt_rejected status body parsed low high not_429 = ground arith

  rejection_goes_on :
      (status : ℕ) (body : Text)
      → occurs_in (codes "server error") (take 300 body) ≡ true
      → is_retried name show (llm_error (rejection status body)) ≡ true
  unfolding is_retried
  rejection_goes_on status body h =
      let needle = codes "server error" in
      let tail = codes "): " ++ take 300 body in
      let lead = codes " rejected the request (" in
      occurs_in-append needle name (lead ++ (show status ++ tail)) (
        occurs_in-append needle lead (show status ++ tail) (
          occurs_in-append needle (show status) tail
            (occurs_in-append needle (codes "): ") (take 300 body) h)))

  -- A provider that rejects the request with a 4xx status other than 429, and says "server error"
  -- within the first 300 characters of the body, is asked three times.
  pub rejection_retried :
      (status : ℕ) (body : Text) (parsed : Result Completion)
      → 400 ≤ status
      → status < 500
      → status ≢ 429
      → occurs_in (codes "server error") (take 300 body) ≡ true
      → (provider_complete name show (λ _. response status body parsed)).posts ≡ 3
  rejection_retried status body parsed low high not_429 h =
      (provider_gives_up name show (λ _. response status body parsed)
        (λ j lt.
          rw (attempt_rejected status body parsed low high not_429)
            (rejection_goes_on status body h))).2
