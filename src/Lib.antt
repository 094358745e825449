-- ===== src/Lib.antt =====
-- The dealership agent: a chat service in which a supervisor graph routes a customer's message to
-- two sub-agents that call tools over MCP, writes a reply, and checks the reply before it is sent.
--
-- How the parts interact. `run_turn` (src/dealership_agent/agents/runner.py) binds the two
-- sub-agents to disjoint sets of tools and runs the graph. The router reads the model's decision;
-- each sub-agent runs the bounded tool loop; a loop that ends without an answer leads to an
-- escalation; synthesis writes a draft, and the check of action claims keeps it, corrects it once,
-- or replaces it by a fixed text. A provider of completions cleans up what the model wrote. The
-- limiter stands before all of this, at the edge of the service, where a request is authenticated,
-- its conversation is read, and the exchange is written to it under the row policies of the database.
-- The scripts fill the tables that the searches read: listings are cleaned, loaded and embedded, and
-- policy documents are cut into chunks and embedded.
--
-- Files and code (paths below src/dealership_agent/, those of Data and Scripts below the root):
--   Base, Python: lists, numbers and text; Python values, exceptions, and code that asks the world.
--   Db: what the columns of db/models.py can hold.
--   Config, Tools/Identity: config.py, and the identity record of tools/identity.py.
--   Tools/Session: the environment in which agents/mcp_session.py starts the tool server, and what
--     tools/server.py reads from it.
--   Tools/Server: the three customer-scoped tools of tools/server.py, and tools/scope.py, over
--     tables with the row policies of their migration.
--   Tools/Public: the public search of listings of tools/server.py, and the log line of a call.
--   Agents/Tokens, Agents/Compaction: agents/tokens.py and agents/compaction.py.
--   Agents/ToolBinding: agents/tool_binding.py, `SubAgent`, `call_tool`, `build_sub_agent`.
--   Agents/ToolLoop: agents/tool_loop.py; a round of the `for` loop is `step`, and `rounds` makes
--     as many as are left.
--   Agents/State: agents/state.py. Agents/Pricing: agents/pricing.py. Agents/Prompts: the texts.
--   Agents/Degradation: agents/degradation.py. Agents/ActionClaims: agents/action_claims.py.
--   Agents/Routing, Agents/Nodes, Agents/Synthesis: the nodes of agents/nodes.py in the order of a
--     turn. Agents/Graph: agents/graph.py and agents/runner.py.
--   Llm/Spans, Llm/Normalize: llm/base.py. Llm/Groq: llm/groq_provider.py.
--     Llm/Bedrock: llm/bedrock_provider.py. Llm/Factory: llm/factory.py.
--   Retrieval/PolicySearch, Retrieval/Search: retrieval/policy_search.py and retrieval/search.py.
--     Retrieval/Sorting: a stable sort. The rows that the scan of the HNSW index yields are a
--     parameter of the policy search; the vehicle search orders the rows exactly.
--   Api/RateLimit: api/rate_limit.py.
--   Api/Auth: api/auth.py. Api/Conversations: api/conversations.py with the row policies of its
--     migration. Api/Chat: `POST /chat` of api/app.py, and api/schemas.py. Api/Health: the
--     other endpoints of api/app.py.
--   Data (the scripts of data/scripts/): Policies and PolicyStore: embed_policies.py. Listings:
--     `load_vehicles` of load_listings.py. Frames: the rest of load_listings.py, from a cleaned frame
--     to the vehicles that the search reads. Embeddings: embed_listings.py. Batches: the batches of both loaders.
--     Pattern: what the scripts use of `re`. Redaction, Boilerplate, Duplicates, Cleaning:
--     clean_listings.py.
--   Scripts/MintToken: scripts/mint_dev_token.py.
--   Tests: concrete inputs.
--
-- How it is modelled. Values that JSON gives are `Value`; a call that can raise gives an `Outcome`.
-- Completions and tool calls are asked of a `World`, which answers by functions of everything asked
-- before, so no reply is assumed; an `Action` carries the trace of what was asked. What the code
-- takes from Python's library and is not the program's own (JSON, letter case, the printing of
-- numbers) is the record `Library`, a parameter. Functions are named as in the code, without the
-- leading underscore. Log lines are left out.
--
-- Bounds. `rounds` recurses on the iterations that are left. The graph runs with LangGraph's default
-- recursion limit of 25 supersteps, and a turn is shown to need at most seven. The retry loop
-- recurses on the retries that are left. Clocks and delays are whole ticks. The batches of a list are
-- as many as its rows at most, which is the fuel of `batches`. A pattern is matched by recursion on
-- the pattern and on the text.
--
-- Not modelled: the interleaving of the two sub-agents at their tool calls (they run one after the
-- other, on the same state), threads and locks, the widths of the columns other than those of
-- `vehicles` and `escalations`, the scan of the HNSW indexes, the model that embeds a text, the
-- command lines, profiles and audits of the data, the demo and seed scripts, the deployment, and the
-- evaluations.
pub mod Base
pub mod Python
pub mod Config
pub mod Db
pub mod Llm
pub mod Tools
pub mod Retrieval
pub mod Data
pub mod Scripts
pub mod Agents
pub mod Api
mod Tests
