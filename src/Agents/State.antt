-- ===== src/Agents/State.antt =====
-- The state that the agents share: backend/app/agents/state.py. The texts and durations of the
-- steps are for display: a step here is the agent and whether it failed.
use research_mind_ai.Prelude.{ℕ, Text, Bool, Option, List}
use research_mind_ai.Retrieval.Service.{RetrievedChunk}

pub data AgentName : Type 0 where
  planner retriever graph_retriever web_search ranker reasoner : AgentName
  verifier critic reflector summarizer citation : AgentName

pub data Intent : Type 0 where
  question compare literature_review gap_analysis summarize : Intent

pub record Step : Type 0 where
  pub agent : AgentName
  pub failed : Bool

pub record Plan : Type 0 where
  pub intent : Intent
  pub sub_questions : List Text
  pub reasoning : Text
  pub needs_web_search : Bool

pub record WebResult : Type 0 where
  pub snippet : Text
  pub flagged : Bool

-- `F` is the type of scores and confidences.
pub record Verification (F : Type 0) : Type 0 where
  pub supported : Bool
  pub confidence : F

pub record ResearchState (F : Type 0) : Type 0 where
  pub asked : Text
  pub limit : ℕ
  pub plan : Option Plan
  pub chunks : List (RetrievedChunk F)
  pub web_results : List WebResult
  pub graph_paths : List Text
  pub draft_answer : Text
  pub final_answer : Text
  pub citations : List ℕ
  pub critique : List Text
  pub needs_revision : Bool
  pub revision_count : ℕ
  pub verification : Option (Verification F)
  pub confidence : F
  pub steps : List Step
  pub usage_tokens : ℕ
  pub errors : List AgentName
