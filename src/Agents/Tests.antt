-- ===== src/Agents/Tests.antt =====
-- The theorems on the research graph at concrete worlds.
use research_mind_ai.Prelude.{
  ℕ, ◌≤◌, codes, ascii_digit, ◌≡◌, refl, ◌⊎◌, inl, true, Option, none, some, [], ◌∷◌, arith, In,
  length, strip, is_space, nat_eq, list_eq,
}
use research_mind_ai.Retrieval.Scores.{nat_floats, sort_by_score}
use research_mind_ai.Retrieval.Service.{RetrievedChunk}
use research_mind_ai.Llm.Citations.{markers, extract_citations}
use research_mind_ai.Agents.State.{AgentName, critic, reflector, ResearchState}
use research_mind_ai.Agents.Nodes.{
  Reply, CritiqueData, World, record_failure, critic_agent, reasoner_agent, ranker_agent,
  web_search_agent, graph_retriever_agent, retriever_agent, planner_agent, reflector_agent,
  summarizer_agent, citation_agent, verifier_agent,
}
use research_mind_ai.Llm.Context.{pack_context}
use research_mind_ai.Prelude.Sort.{sort_by}
use research_mind_ai.Agents.Graph.{initial_state, run_research, run, visit, next_node}
use research_mind_ai.Agents.Revision.{research_ends}
use research_mind_ai.Agents.Stuck.{never_ends}
use research_mind_ai.Agents.Trail.{Succeeded, visit_trail, errors_of_steps, cited_sources, failures}

abbrev passage : RetrievedChunk ℕ
passage = record {
  chunk_id = 1;
  paper_id = 7;
  paper_title = none;
  content = codes "Attention is all you need.";
  section_path = none;
  page_number = none;
  kind = codes "text";
  score = 5;
  dense_rank = some 1;
  sparse_rank = none;
  rerank_score = none;
  supporting_sentences = [];
}

abbrev answer : Reply
answer = record { text = codes "Attention suffices [1], they say [2]."; tokens = 10 }

abbrev vague : CritiqueData
vague = record { issues = codes "vague" ∷ []; needs_revision = true }

-- A world whose model answers every agent as given; the web search raises.
abbrev world_of : (AgentName → Option Reply) → World ℕ
world_of model = record {
  complete = λ a s. model a;
  retrieve = λ q papers n s. some (passage ∷ []);
  expand = λ papers s. some (record { paths = []; paper_ids = [] });
  search = λ s. none;
  parse_plan = λ t.
      some (record { intent = none; sub_questions = []; reasoning = []; needs_web_search = true });
  parse_critique = λ t. some vague;
  parse_verification = λ t. some (record { supported = true; confidence = 80 });
  lower = λ t. t;
  digit = ascii_digit;
  low_cap = λ c. c;
  round_2 = λ c. c;
}

abbrev talkative : World ℕ
talkative = world_of (λ a. some answer)

research_ends_example :
    (t : ResearchState ℕ) × (run_research nat_floats talkative 25 (codes "What is attention?") 8
      ≡ some t)
    × (t.revision_count ≤ 2)
research_ends_example =
    research_ends nat_floats talkative (λ s. (answer, vague, refl, refl)) (λ s. (answer, refl))
      (codes "What is attention?") 8 25 (omega arith)

abbrev failing_reflector : AgentName → Option Reply
failing_reflector reflector = none
failing_reflector _ = some answer

abbrev drafted : ResearchState ℕ
drafted = record (initial_state nat_floats (codes "What is attention?") 8) {
  chunks = passage ∷ [];
  draft_answer = codes "Attention suffices [1].";
}

never_ends_example : run nat_floats (world_of failing_reflector) 25 critic drafted ≡ none
never_ends_example =
    never_ends nat_floats (world_of failing_reflector)
      (λ s. (answer, refl, (vague, refl, refl, refl))) (λ s. refl) 25 drafted
      (refl, refl, omega arith)

visit_trail_example :
    Succeeded nat_floats
      (world_of failing_reflector)
      reflector
      drafted
      (visit nat_floats (world_of failing_reflector) reflector drafted)
    ⊎ (visit nat_floats (world_of failing_reflector) reflector drafted
        ≡ record_failure nat_floats reflector drafted)
visit_trail_example = visit_trail nat_floats (world_of failing_reflector) reflector drafted

abbrev outcome : ResearchState ℕ
outcome = research_ends_example.0

errors_of_steps_example : failures outcome.steps ≡ outcome.errors
errors_of_steps_example =
    errors_of_steps nat_floats talkative (codes "What is attention?") 8 25 outcome
      research_ends_example.1

abbrev or_start : Option (ResearchState ℕ) → ResearchState ℕ
or_start none = drafted
or_start (some t) = t

abbrev final : ResearchState ℕ
final = or_start (run_research nat_floats talkative 25 (codes "What is attention?") 8)

final_ends : run_research nat_floats talkative 25 (codes "What is attention?") 8 ≡ some final
unfolding run_research run next_node visit critic_agent reasoner_agent ranker_agent web_search_agent
    graph_retriever_agent retriever_agent planner_agent pack_context sort_by_score sort_by
    reflector_agent strip is_space
final_ends = refl

cites_first : In 1 final.citations
unfolding run_research run next_node visit extract_citations critic_agent reasoner_agent
    ranker_agent web_search_agent graph_retriever_agent retriever_agent planner_agent pack_context
    sort_by_score sort_by reflector_agent strip is_space summarizer_agent citation_agent
    verifier_agent
cites_first = inl refl

cited_sources_example :
    In 1 (markers ascii_digit final.draft_answer) × (1 ≤ 1) × (1 ≤ length final.chunks)
cited_sources_example =
    cited_sources nat_floats talkative (codes "What is attention?") 8 25 final 1 final_ends
      cites_first
