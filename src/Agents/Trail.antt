-- ===== src/Agents/Trail.antt =====
-- The audit trail of a research run: the steps and errors that `resilient` and the agents of
-- backend/app/agents/agents.py leave, and the citations of the answer.
use research_mind_ai.Prelude.{
  ℕ, zero, suc, ◌≤◌, Text, ◌≡◌, refl, ap, sym, ◌∙◌, ◌⊎◌, inl, inr, true, false, none, some,
  Option-cases, List, [], ◌∷◌, ◌++◌, arith, In, length, if◌then◌else◌,
}
use research_mind_ai.Retrieval.Scores.{Floats}
use research_mind_ai.Llm.Citations.{markers, extract_citations}
use research_mind_ai.Llm.Citations.Laws.{cited_iff}
use research_mind_ai.Agents.State.{
  AgentName, planner, retriever, graph_retriever, web_search, ranker, reasoner, verifier, critic,
  reflector, summarizer, citation, Step, ResearchState,
}
use research_mind_ai.Agents.Nodes.{
  World, record_failure, planner_agent, retriever_agent, graph_retriever_agent, web_search_agent,
  ranker_agent, reasoner_agent, critic_agent, reflector_agent, verifier_agent, citation_agent,
  summarizer_agent,
}
use research_mind_ai.Agents.Graph.{initial_state, next_node, visit, run, run_research}
use mathlib.Core.Path.{subst}

-- The agents of the failed steps.
unfoldable pub failures : List Step → List AgentName
failures [] = []
failures (s ∷ ss) = let rest = failures ss in if s.failed then s.agent ∷ rest else rest

failures-success :
    (a : AgentName) (ss : List Step)
    → failures (ss ++ (record { agent = a; failed = false } ∷ [])) ≡ failures ss
unfolding failures
failures-success a [] = refl
failures-success a (s ∷ ss) = ground (arith, failures-success a ss)

failures-failure :
    (a : AgentName) (ss : List Step)
    → failures (ss ++ (record { agent = a; failed = true } ∷ [])) ≡ failures ss ++ (a ∷ [])
unfolding failures
failures-failure a [] = refl
failures-failure a (s ∷ ss) = ground (arith, failures-failure a ss)

module _ (fl : Floats) (world : World fl.F) where
  open fl use {F}

  abbrev State : Type 0
  State = ResearchState F

  -- What a visit of `a` leaves of the trail: an agent that succeeds adds a step and no error, an
  -- agent that raises changes nothing else.
  abbrev pub Succeeded : AgentName → State → State → Type 0
  Succeeded a s t =
      (t.steps ≡ s.steps ++ (record { agent = a; failed = false } ∷ [])) × (t.errors ≡ s.errors)

  -- A visit of a node adds one step, of that node: it succeeded and adds no error, or the agent
  -- raised and the visit changes the steps and the errors only.
  pub visit_trail :
      (a : AgentName) (s : State)
      → Succeeded a s (visit fl world a s) ⊎ (visit fl world a s ≡ record_failure fl a s)
  unfolding visit planner_agent retriever_agent graph_retriever_agent web_search_agent ranker_agent
      reasoner_agent critic_agent reflector_agent verifier_agent citation_agent summarizer_agent
  visit_trail planner s = ground arith
  visit_trail retriever s = ground arith
  visit_trail graph_retriever s = ground arith
  visit_trail web_search s = ground arith
  visit_trail ranker s = ground arith
  visit_trail reasoner s = ground arith
  visit_trail critic s = ground arith
  visit_trail verifier s = ground arith
  visit_trail reflector s = ground arith
  visit_trail citation s = ground arith
  visit_trail summarizer s = ground arith

  -- Induction on a run.
  module _ (P : AgentName → State → Type 0) (Q : State → Type 0)
      (ends : (a : AgentName) (s : State)
        → P a s
        → next_node fl a (visit fl world a s) ≡ none
        → Q (visit fl world a s))
      (moves : (a b : AgentName) (s : State)
        → P a s
        → next_node fl a (visit fl world a s) ≡ some b
        → P b (visit fl world a s)) where
    run_induction :
        (n : ℕ) (a : AgentName) (s t : State) → P a s → run fl world n a s ≡ some t → Q t
    unfolding run
    run_induction zero a s t p e = absurd (ground arith)
    run_induction (suc n) a s t p e =
        let u = visit fl world a s in
        elim (Option-cases (next_node fl a u)) [
          | inl stop ↦ subst Q (ground (arith, stop)) (ends a s p stop)
          | inr (b, go) ↦ run_induction n b u t (moves a b s p go) (rw go at e)
        ]

  abbrev Honest : State → Type 0
  Honest s = failures s.steps ≡ s.errors

  visit-Honest : (a : AgentName) (s : State) → Honest s → Honest (visit fl world a s)
  visit-Honest a s h = elim (visit_trail a s) [
    | inl (grown, kept) ↦ ap failures grown ∙ (failures-success a s.steps ∙ (h ∙ sym kept))
    | inr e ↦ rw e (failures-failure a s.steps ∙ ap (λ es. es ++ (a ∷ [])) h)
  ]

  -- If a research run ends, the errors that it reports are the agents of its failed steps, in
  -- their order.
  pub errors_of_steps :
      (asked : Text) (passages fuel : ℕ) (t : State)
      → run_research fl world fuel asked passages ≡ some t
      → failures t.steps ≡ t.errors
  unfolding run_research failures
  errors_of_steps asked passages fuel t e =
      run_induction (λ a s. Honest s) Honest (λ a s h x. visit-Honest a s h)
        (λ a b s h x. visit-Honest a s h) fuel planner (initial_state fl asked passages) t refl e

  abbrev Cited : State → Type 0
  Cited s = s.citations ≡ extract_citations world.digit s.draft_answer (length s.chunks)

  citation-Cited : (s : State) → Cited (visit fl world citation s)
  unfolding visit citation_agent
  citation-Cited s = refl

  summarizer-Cited : (s : State) → Cited s → Cited (visit fl world summarizer s)
  unfolding visit summarizer_agent
  summarizer-Cited s h = ground arith

  ends-Cited :
      (a : AgentName) (s : State)
      → (a ≡ summarizer → Cited s)
      → next_node fl a (visit fl world a s) ≡ none
      → Cited (visit fl world a s)
  unfolding next_node
  ends-Cited summarizer s h e = summarizer-Cited s (h refl)
  ends-Cited _ s h e = absurd (ground (arith, e))

  moves-Cited :
      (a b : AgentName) (s : State)
      → (a ≡ summarizer → Cited s)
      → next_node fl a (visit fl world a s) ≡ some b
      → b ≡ summarizer
      → Cited (visit fl world a s)
  unfolding next_node
  moves-Cited citation b s h e last = citation-Cited s
  moves-Cited _ b s h e last = absurd (ground (arith, e))

  -- If a research run ends, each source that it cites has a marker in the draft that the citation
  -- agent read and is one of the passages of the answer.
  pub cited_sources :
      (asked : Text) (passages fuel : ℕ) (t : State) (n : ℕ)
      → run_research fl world fuel asked passages ≡ some t
      → In n t.citations
      → In n (markers world.digit t.draft_answer) × (1 ≤ n) × (n ≤ length t.chunks)
  unfolding run_research
  cited_sources asked passages fuel t n e i =
      (cited_iff world.digit t.draft_answer (length t.chunks) n).0 (
        subst (In n)
          (run_induction (λ a s. a ≡ summarizer → Cited s) Cited ends-Cited moves-Cited fuel planner
            (initial_state fl asked passages) t (λ x. absurd (ground (arith, x))) e)
          i)
