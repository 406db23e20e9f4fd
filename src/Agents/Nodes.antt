-- ===== src/Agents/Nodes.antt =====
-- The agents of backend/app/agents/agents.py. The model, the search tool, the graph and the
-- retriever are a parameter: `none` is an exception, which `resilient` turns into a failed step.
use research_mind_ai.Prelude.{
  ℕ, ◌+◌, ◌/◌, max, Text, codes, is_space, strip, Bool, true, false, not, ◌&&◌, ◌||◌, Option, none,
  some, List, [], ◌∷◌, ◌++◌, map, take, length, nat_eq, list_eq, contains, keep_if, leb, ltb,
  and_then, if◌then◌else◌, refl,
}
use research_mind_ai.Retrieval.Scores.{Floats, sort_by_score}
use research_mind_ai.Retrieval.Service.{RetrievedChunk, is_empty}
use research_mind_ai.Llm.Context.{Passages, pack_context}
use research_mind_ai.Llm.Citations.{extract_citations}
use research_mind_ai.Agents.State.{
  AgentName, planner, retriever, graph_retriever, web_search, ranker, reasoner, verifier, critic,
  reflector, summarizer, citation, Intent, question, Plan, WebResult, Verification, ResearchState,
}

abbrev pub max_revisions : ℕ
max_revisions = 2

abbrev pub max_context_tokens : ℕ
max_context_tokens = 6000

-- The text of a completion and the tokens that it used.
pub record Reply : Type 0 where
  pub text : Text
  pub tokens : ℕ

-- What an agent makes of a reply: `_parse_json_response`, the defaults of `data.get`, and the
-- coercions of the values.
pub record PlanData : Type 0 where
  pub intent : Option Intent
  pub sub_questions : List Text
  pub reasoning : Text
  pub needs_web_search : Bool

pub record CritiqueData : Type 0 where
  pub issues : List Text
  pub needs_revision : Bool

pub record GraphView : Type 0 where
  pub paths : List Text
  pub paper_ids : List ℕ

-- The outside world, as a function of the state that an agent reads; the second argument of
-- `retrieve` restricts to papers, and of both it is the limit that comes next. A reply that is read
-- may still raise, in a coercion: iterating over `issues` or `sub_questions` that are `true`, list
-- or float of an odd value.
pub record World (F : Type 0) : Type 0 where
  pub complete : AgentName → ResearchState F → Option Reply
  pub retrieve : Text → Option (List ℕ) → ℕ → ResearchState F → Option (List (RetrievedChunk F))
  pub expand : List ℕ → ResearchState F → Option GraphView
  pub search : ResearchState F → Option (List WebResult)
  pub parse_plan : Text → Option PlanData
  pub parse_critique : Text → Option CritiqueData
  pub parse_verification : Text → Option (Verification F)
  pub lower : Text → Text
  pub digit : ℕ → Option ℕ
  pub low_cap : F → F
  pub round_2 : F → F

module _ (fl : Floats) where
  open fl use {F, of_ℕ, lt}

  abbrev State : Type 0
  State = ResearchState F

  -- The reducers of `steps` and `usage_tokens` add.
  abbrev pub log_step : AgentName → State → State
  log_step a s = record s { steps = s.steps ++ (record { agent = a; failed = false } ∷ []) }

  abbrev pub charge : ℕ → State → State
  charge n s = record s { usage_tokens = s.usage_tokens + n }

  -- The update of a failed agent has steps and errors only.
  abbrev pub record_failure : AgentName → State → State
  record_failure a s = record s {
    steps = s.steps ++ (record { agent = a; failed = true } ∷ []);
    errors = s.errors ++ (a ∷ []);
  }

  -- @resilient
  abbrev pub resilient : AgentName → (State → Option State) → State → State
  resilient a agent s = elim (agent s) [ none ↦ record_failure a s | some t ↦ t ]

  abbrev pub chunk_passages : Passages (RetrievedChunk F)
  chunk_passages = record {
    content = λ c. c.content;
    with_content = λ t c. record c { content = t };
    content-with_content = λ t c. refl;
  }

  -- c.rerank_score or c.score
  abbrev pub rank_key : RetrievedChunk F → F
  rank_key c = elim c.rerank_score [
    | none ↦ c.score
    | some r ↦ if lt r (of_ℕ 0) || lt (of_ℕ 0) r then r else c.score
  ]

  -- Appends what has a new chunk id: `seen` holds the ids so far.
  unfoldable pub merge_new :
      List ℕ → List (RetrievedChunk F) → List (RetrievedChunk F) → List (RetrievedChunk F)
  merge_new seen merged [] = merged
  merge_new seen merged (c ∷ cs) =
      merge_new (if contains c.chunk_id seen then seen else c.chunk_id ∷ seen)
        (if contains c.chunk_id seen then merged else merged ++ (c ∷ [])) cs

  abbrev pub ids_of : List (RetrievedChunk F) → List ℕ
  ids_of cs = map (λ (c : RetrievedChunk F). c.chunk_id) cs

  module _ (world : World F) where
    unfoldable pub planner_agent : State → Option State
    planner_agent s = and_then (world.complete planner s) λ reply.
        and_then (world.parse_plan reply.text) λ d.
          let subs = take 4 (keep_if (λ q. not (is_empty (strip is_space q))) d.sub_questions) in
          some (
            log_step planner (
              charge reply.tokens (record s {
                plan = some (record {
                  intent = elim d.intent [ none ↦ question | some i ↦ i ];
                  sub_questions = if is_empty subs then s.asked ∷ [] else subs;
                  reasoning = d.reasoning;
                  needs_web_search = d.needs_web_search;
                });
              })))

    -- The loop over the queries.
    unfoldable pub retrieve_all :
        State → List Text → List (RetrievedChunk F) → Option (List (RetrievedChunk F))
    unfolding merge_new
    retrieve_all s [] merged = some merged
    retrieve_all s (q ∷ qs) merged = elim (world.retrieve q none s.limit s) [
      | none ↦ none
      | some found ↦ retrieve_all s qs (merge_new (ids_of merged) merged found)
    ]

    unfoldable pub retriever_agent : State → Option State
    unfolding retrieve_all
    retriever_agent s =
        let queries : List Text = elim s.plan [ none ↦ s.asked ∷ [] | some p ↦ p.sub_questions ] in
        and_then (retrieve_all s queries [])
          λ merged. some (log_step retriever (record s { chunks = merged }))

    unfoldable pub graph_retriever_agent : State → Option State
    graph_retriever_agent s =
        and_then (world.expand (map (λ (c : RetrievedChunk F). c.paper_id) s.chunks) s) λ view.
          if is_empty view.paths
          then some (log_step graph_retriever (record s { graph_paths = [] }))
          else and_then (world.retrieve s.asked (some view.paper_ids) (max 2 (s.limit / 2)) s)
              λ related. some (
                log_step graph_retriever (record s {
                  chunks =
                      s.chunks
                      ++ keep_if
                          (λ (c : RetrievedChunk F). not (contains c.chunk_id (ids_of s.chunks)))
                          related;
                  graph_paths = view.paths;
                }))

    abbrev pub wants_web : Option Plan → Bool
    wants_web none = false
    wants_web (some p) = p.needs_web_search

    unfoldable pub web_search_agent : State → Option State
    web_search_agent s =
        if not (wants_web s.plan)
        then some (log_step web_search s)
        else and_then (world.search s) λ results. some (
            log_step web_search
              (record s { web_results = keep_if (λ (r : WebResult). not r.flagged) results }))

    unfoldable pub ranker_agent : State → Option State
    ranker_agent s =
        if is_empty s.chunks
        then some (log_step ranker s)
        else let packed =
            pack_context chunk_passages world.lower s.asked (sort_by_score fl rank_key s.chunks)
              max_context_tokens 1200 in
          some (log_step ranker (record s { chunks = packed.chunks }))

    abbrev pub nothing_found : Text
    nothing_found = codes "I could not find anything in your library that addresses this question."

    unfoldable pub reasoner_agent : State → Option State
    reasoner_agent s =
        if is_empty s.chunks
        then some (log_step reasoner (record s { draft_answer = nothing_found }))
        else and_then (world.complete reasoner s) λ reply.
          some (log_step reasoner (charge reply.tokens (record s { draft_answer = reply.text })))

    unfoldable pub critic_agent : State → Option State
    critic_agent s =
        if is_empty s.draft_answer || is_empty s.chunks
        then some (log_step critic (record s { needs_revision = false }))
        else and_then (world.complete critic s) λ reply.
          and_then (world.parse_critique reply.text) λ d. some (
            log_step critic (
              charge reply.tokens (record s {
                critique = d.issues;
                needs_revision =
                    if leb max_revisions s.revision_count
                    then false
                    else d.needs_revision && not (is_empty d.issues);
              })))

    unfoldable pub reflector_agent : State → Option State
    reflector_agent s = and_then (world.complete reflector s) λ reply.
        let revised = strip is_space reply.text in
        some (
          log_step reflector (
            charge reply.tokens (record s {
              draft_answer = if is_empty revised then s.draft_answer else revised;
              revision_count = s.revision_count + 1;
            })))

    unfoldable pub verifier_agent : State → Option State
    verifier_agent s =
        if is_empty s.draft_answer || is_empty s.chunks
        then some (log_step verifier (record s { confidence = of_ℕ 0 }))
        else and_then (world.complete verifier s) λ reply.
          and_then (world.parse_verification reply.text) λ v. some (
            log_step verifier (
              charge reply.tokens (record s {
                verification = some v;
                confidence =
                    world.round_2
                      (if v.supported then v.confidence else world.low_cap v.confidence);
              })))

    unfoldable pub citation_agent : State → Option State
    citation_agent s = some (
        log_step citation (record s {
          final_answer = s.draft_answer;
          citations = extract_citations world.digit s.draft_answer (length s.chunks);
        }))

    abbrev pub answer_of : State → Text
    answer_of s = if is_empty s.final_answer then s.draft_answer else s.final_answer

    unfoldable pub summarizer_agent : State → Option State
    summarizer_agent s =
        if ltb (length (answer_of s)) 1200
        then some (log_step summarizer s)
        else and_then (world.complete summarizer s) λ reply.
          let summary = strip is_space reply.text in
          if is_empty summary
          then some (log_step summarizer s)
          else some (
              log_step summarizer (
                charge reply.tokens (record s {
                  final_answer = codes "**Summary.** " ++ (summary ++ (10 ∷ 10 ∷ answer_of s));
                })))
