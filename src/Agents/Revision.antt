-- ===== src/Agents/Revision.antt =====
-- The critic and reflector cycle of backend/app/agents/graph.py and agents.py.
use research_mind_ai.Prelude.{
  ℕ, zero, suc, ◌+◌, ◌-◌, ◌≤◌, ◌<◌, Text, ◌≡◌, ◌≢◌, refl, ap, ◌∙◌, inl, inr, true, false, some,
  arith, Bool-cases,
}
use research_mind_ai.Retrieval.Scores.{Floats}
use research_mind_ai.Agents.State.{
  AgentName, planner, retriever, graph_retriever, web_search, ranker, reasoner, verifier, critic,
  reflector, summarizer, citation, ResearchState,
}
use research_mind_ai.Agents.Nodes.{
  World, Reply, CritiqueData, planner_agent, retriever_agent, graph_retriever_agent,
  web_search_agent, ranker_agent, reasoner_agent, critic_agent, reflector_agent, verifier_agent,
  citation_agent, summarizer_agent,
}
use research_mind_ai.Agents.Graph.{initial_state, next_node, visit, run, run_research}

module _ (fl : Floats) (world : World fl.F) where
  open fl use {F}

  abbrev State : Type 0
  State = ResearchState F

  -- No agent but the reflector changes the count.
  count-visit :
      (a : AgentName) (s : State)
      → a ≢ reflector
      → (visit fl world a s).revision_count ≡ s.revision_count
  unfolding visit planner_agent retriever_agent graph_retriever_agent web_search_agent ranker_agent
      reasoner_agent critic_agent verifier_agent citation_agent summarizer_agent
  count-visit reflector s h = absurd (h refl)
  count-visit planner s h = ground arith
  count-visit retriever s h = ground arith
  count-visit graph_retriever s h = ground arith
  count-visit web_search s h = ground arith
  count-visit ranker s h = ground arith
  count-visit reasoner s h = ground arith
  count-visit critic s h = ground arith
  count-visit verifier s h = ground arith
  count-visit citation s h = ground arith
  count-visit summarizer s h = ground arith

  -- The critic's reply comes, and can be read.
  abbrev pub IsRead : (s : State) → Type 0
  IsRead s =
      (r : Reply) × (d : CritiqueData) × (world.complete critic s ≡ some r)
      × (world.parse_critique r.text ≡ some d)

  module _ (critic_answers : (s : State) → IsRead s)
      (reflector_answers : (s : State) → (r : Reply) × (world.complete reflector s ≡ some r)) where
    critic_bound :
        (s : State) → (visit fl world critic s).needs_revision ≡ true → s.revision_count < 2
    unfolding visit critic_agent
    critic_bound s h = let (r, d, e, q) = critic_answers s in ground (arith, e, q)

    count-reflector :
        (s : State) → (visit fl world reflector s).revision_count ≡ s.revision_count + 1
    unfolding visit reflector_agent
    count-reflector s = let (r, e) = reflector_answers s in ground (arith, e)

    -- The steps of the graph from the critic on.
    run-final :
        (n : ℕ) (s : State)
        → run fl world (suc (suc (suc n))) verifier s
          ≡ some (visit fl world summarizer (visit fl world citation (visit fl world verifier s)))
    unfolding run next_node
    run-final n s = refl

    run-revise :
        (n : ℕ) (s : State)
        → (visit fl world critic s).needs_revision ≡ true
        → run fl world (suc (suc n)) critic s
          ≡ run fl world n critic (visit fl world reflector (visit fl world critic s))
    unfolding run next_node
    run-revise n s h = ground (arith, h)

    run-accept :
        (n : ℕ) (s : State)
        → (visit fl world critic s).needs_revision ≡ false
        → run fl world (suc n) critic s ≡ run fl world n verifier (visit fl world critic s)
    unfolding run next_node
    run-accept n s h = ground (arith, h)

    count-final :
        (s : State)
        → (visit fl world summarizer
            (visit fl world citation (visit fl world verifier s))).revision_count
          ≡ s.revision_count
    count-final s =
        count-visit summarizer (visit fl world citation (visit fl world verifier s)) (λ e. cc)
        ∙ (count-visit citation (visit fl world verifier s) (λ e. cc)
            ∙ count-visit verifier s (λ e. cc))

    abbrev Finishes : ℕ → State → Type 0
    Finishes fuel s = (t : State) × (run fl world fuel critic s ≡ some t) × (t.revision_count ≤ 2)

    accepts :
        (n : ℕ) (s : State)
        → s.revision_count ≤ 2
        → (visit fl world critic s).needs_revision ≡ false
        → Finishes (suc (suc (suc (suc n)))) s
    accepts n s bound h =
        let u = visit fl world critic s in
        (
          visit fl world summarizer (visit fl world citation (visit fl world verifier u)),
          run-accept (suc (suc (suc n))) s h ∙ run-final n u,
          omega (arith, count-final u, count-visit critic s (λ e. cc)),
        )

    twice : ℕ → ℕ → ℕ
    twice zero n = n
    twice (suc k) n = suc (suc (twice k n))

    -- `k` revisions are left.
    cycle :
        (k n : ℕ) (s : State)
        → s.revision_count + k ≡ 2
        → Finishes (suc (suc (suc (suc (twice k n))))) s
    unfolding twice
    cycle zero n s e = elim (Bool-cases (visit fl world critic s).needs_revision) [
      | inl flagged ↦ absurd (omega (arith, critic_bound s flagged))
      | inr fine ↦ accepts n s (omega arith) fine
    ]
    cycle (suc k) n s e =
        let u = visit fl world critic s in
        elim (Bool-cases u.needs_revision) [
          | inl flagged ↦
              let (t, ran, le) =
                cycle k n (visit fl world reflector u)
                  (omega (arith, count-reflector u, count-visit critic s (λ e. cc))) in
              (t, run-revise (suc (suc (suc (suc (twice k n))))) s flagged ∙ ran, le)
          | inr fine ↦ accepts (suc (suc (twice k n))) s (omega arith) fine
        ]

    abbrev before_critic : State → State
    before_critic s = visit fl world reasoner (
        visit fl world ranker (
          visit fl world web_search
            (visit fl world graph_retriever (visit fl world retriever (visit fl world planner s)))))

    count-before_critic : (s : State) → (before_critic s).revision_count ≡ s.revision_count
    count-before_critic s =
        let s1 = visit fl world planner s in
        let s2 = visit fl world retriever s1 in
        let s3 = visit fl world graph_retriever s2 in
        let s4 = visit fl world web_search s3 in
        let s5 = visit fl world ranker s4 in
        count-visit reasoner s5 (λ e. cc)
        ∙ (count-visit ranker s4 (λ e. cc)
            ∙ (count-visit web_search s3 (λ e. cc)
                ∙ (count-visit graph_retriever s2 (λ e. cc)
                    ∙ (count-visit retriever s1 (λ e. cc) ∙ count-visit planner s (λ e. cc)))))

    run-before_critic :
        (n : ℕ) (s : State)
        → run fl world (suc (suc (suc (suc (suc (suc n)))))) planner s
          ≡ run fl world n critic (before_critic s)
    unfolding run next_node
    run-before_critic n s = refl

    -- If no call of the model for the critic or the reflector raises, and each reply to the critic
    -- can be read without an exception, a research run ends within 14 visits of nodes, whatever is
    -- left of the fuel, and its answer was revised at most twice. The other agents may fail.
    pub research_ends :
        (asked : Text) (passages fuel : ℕ)
        → 14 ≤ fuel
        → (t : State) × (run_research fl world fuel asked passages ≡ some t)
          × (t.revision_count ≤ 2)
    unfolding run_research twice
    research_ends asked passages fuel enough =
        let s = initial_state fl asked passages in
        let n = fuel - 14 in
        let (t, ran, le) = cycle 2 n (before_critic s) (omega (arith, count-before_critic s)) in
        let split : fuel
            ≡ suc (suc (suc (suc (suc (suc (suc (suc (suc (suc (suc (suc (suc (suc n))))))))))))) =
          omega arith in
        (
          t,
          ap (λ m. run fl world m planner s) split
              ∙ (run-before_critic (suc (suc (suc (suc (suc (suc (suc (suc n)))))))) s ∙ ran),
          le,
        )
