-- ===== src/Agents.antt =====
-- The agents of src/dealership_agent/agents: the tool loop of a sub-agent and what it is built
-- from, and the supervisor's graph.
pub mod Prompts
pub mod Compaction
pub mod Tokens
pub mod ToolBinding
pub mod ToolLoop
pub mod State
pub mod Pricing
pub mod Degradation
pub mod ActionClaims
pub mod Routing
pub mod Nodes
pub mod Synthesis
pub mod Graph
