-- ===== src/Agents.antt =====
-- The research agents (backend/app/agents): the shared state, the agents and their graph.
pub mod State
pub mod Nodes
pub mod Graph
pub mod Revision
mod Stuck
mod Trail
mod Tests
