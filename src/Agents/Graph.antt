-- ===== src/Agents/Graph.antt =====
-- The research graph: `build_graph` and `_route_after_critic` of backend/app/agents/graph.py. LangGraph
-- runs node after node up to its recursion limit, which is the fuel of `run`.
use research_mind_ai.Prelude.{ℕ, zero, suc, false, Option, none, some, [], if◌then◌else◌, Text}
use research_mind_ai.Retrieval.Scores.{Floats}
use research_mind_ai.Agents.State.{
  AgentName, planner, retriever, graph_retriever, web_search, ranker, reasoner, verifier, critic,
  reflector, summarizer, citation, ResearchState,
}
use research_mind_ai.Agents.Nodes.{
  World, resilient, planner_agent, retriever_agent, graph_retriever_agent, web_search_agent,
  ranker_agent, reasoner_agent, critic_agent, reflector_agent, verifier_agent, citation_agent,
  summarizer_agent,
}

module _ (fl : Floats) where
  open fl use {F, of_ℕ}

  -- initial_state
  abbrev pub initial_state : Text → ℕ → ResearchState F
  initial_state asked limit = record {
    asked = asked;
    limit = limit;
    plan = none;
    chunks = [];
    web_results = [];
    graph_paths = [];
    draft_answer = [];
    final_answer = [];
    citations = [];
    critique = [];
    needs_revision = false;
    revision_count = 0;
    verification = none;
    confidence = of_ℕ 0;
    steps = [];
    usage_tokens = 0;
    errors = [];
  }

  -- _route_after_critic
  abbrev pub route_after_critic : ResearchState F → AgentName
  route_after_critic s = if s.needs_revision then reflector else verifier

  -- The edges; `none` is END.
  unfoldable pub next_node : AgentName → ResearchState F → Option AgentName
  next_node planner s = some retriever
  next_node retriever s = some graph_retriever
  next_node graph_retriever s = some web_search
  next_node web_search s = some ranker
  next_node ranker s = some reasoner
  next_node reasoner s = some critic
  next_node critic s = some (route_after_critic s)
  next_node reflector s = some critic
  next_node verifier s = some citation
  next_node citation s = some summarizer
  next_node summarizer s = none

  module _ (world : World F) where
    abbrev pub agent_of : AgentName → ResearchState F → Option (ResearchState F)
    agent_of planner = planner_agent fl world
    agent_of retriever = retriever_agent fl world
    agent_of graph_retriever = graph_retriever_agent fl world
    agent_of web_search = web_search_agent fl world
    agent_of ranker = ranker_agent fl world
    agent_of reasoner = reasoner_agent fl world
    agent_of critic = critic_agent fl world
    agent_of reflector = reflector_agent fl world
    agent_of verifier = verifier_agent fl world
    agent_of citation = citation_agent fl world
    agent_of summarizer = summarizer_agent fl world

    unfoldable pub visit : AgentName → ResearchState F → ResearchState F
    visit a s = resilient fl a (agent_of a) s

    abbrev continue :
        (AgentName → Option (ResearchState F))
        → ResearchState F
        → Option AgentName
        → Option (ResearchState F)
    continue go s none = some s
    continue go s (some a) = go a

    unfoldable pub run : ℕ → AgentName → ResearchState F → Option (ResearchState F)
    unfolding visit next_node
    run zero a s = none
    run (suc fuel) a s = let t = visit a s in continue (λ b. run fuel b t) t (next_node a t)

    -- graph.ainvoke, from the entry point
    unfoldable pub run_research : ℕ → Text → ℕ → Option (ResearchState F)
    unfolding run
    run_research fuel asked limit = run fuel planner (initial_state asked limit)
