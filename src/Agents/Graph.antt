-- ===== src/Agents/Graph.antt =====
-- agents/graph.py and agents/runner.py: the supervisor graph of a turn. LangGraph runs the graph in
-- supersteps: every active node reads the same state, their updates are put in it, and the nodes at
-- the ends of their edges are active next. The two sub-agents of a superstep are run here one after
-- the other.
pub mod Finishes
pub mod Stages
pub mod Replies
pub mod Requests
pub mod Scope
use dealership_agent.Agents.Nodes.{
  account_agent_node, any_result_needs_escalation, clarify_node, escalate_node, merge_node,
  sales_agent_node,
}
use dealership_agent.Agents.Routing.{Update, intake_node, is_clarify, router_node, unchanged}
use dealership_agent.Agents.State.{GraphState, initial_state}
use dealership_agent.Agents.Synthesis.{synthesis_node, verify_claims_node}
use dealership_agent.Agents.ToolBinding.{
  RegisteredTool, SubAgent, build_account_agent, build_sales_agent,
}
use dealership_agent.Base.{
  Bool, List, Option, String, [], false, if◌then◌else◌, map, member, none, some, suc, true, zero, ℕ,
  ◌++◌, ◌∷◌,
}
use dealership_agent.Config.{Settings}
use dealership_agent.Python.{Action, Library, Message, Outcome, World, bind, lift, pure, ◌>>=◌}
use dealership_agent.Tools.Identity.{RequestIdentity}

pub data Node : Type 0 where
  intake router sales_agent account_agent merge escalate clarify synthesis verify_claims : Node

abbrev pub node_name : Node → String
node_name intake = "intake"
node_name router = "router"
node_name sales_agent = "sales_agent"
node_name account_agent = "account_agent"
node_name merge = "merge"
node_name escalate = "escalate"
node_name clarify = "clarify"
node_name synthesis = "synthesis"
node_name verify_claims = "verify_claims"

-- _route_after_intake
unfoldable pub route_after_intake : GraphState → Node
unfolding is_clarify
route_after_intake state = if is_clarify state.routes then clarify else router

-- destinations or ["clarify"]
abbrev pub or_clarify : List Node → List Node
or_clarify [] = clarify ∷ []
or_clarify (n ∷ ns) = n ∷ ns

abbrev pub node_if : Bool → Node → List Node
node_if true n = n ∷ []
node_if false n = []

-- _routes_after_router
unfoldable pub routes_after_router : GraphState → List Node
routes_after_router state =
    if member "clarify" state.routes
    then clarify ∷ []
    else if member "escalate" state.routes
    then escalate ∷ []
    else or_clarify (
        node_if (member "sales" state.routes) sales_agent
        ++ node_if (member "account" state.routes) account_agent)

-- _route_after_merge
unfoldable pub route_after_merge : GraphState → Node
unfolding any_result_needs_escalation
route_after_merge state = if any_result_needs_escalation state then escalate else synthesis

-- The edges of the graph; a node without one leads to the end.
unfoldable pub next_nodes : Node → GraphState → List Node
unfolding route_after_intake routes_after_router route_after_merge
next_nodes intake state = route_after_intake state ∷ []
next_nodes router state = routes_after_router state
next_nodes sales_agent state = merge ∷ []
next_nodes account_agent state = merge ∷ []
next_nodes merge state = route_after_merge state ∷ []
next_nodes escalate state = synthesis ∷ []
next_nodes clarify state = []
next_nodes synthesis state = verify_claims ∷ []
next_nodes verify_claims state = []

-- A node that two edges lead to is active once.
abbrev pub add_node : Node → List Node → List Node
add_node n ns = if member (node_name n) (map node_name ns) then ns else n ∷ ns

abbrev pub add_nodes : List Node → List Node → List Node
add_nodes [] ns = ns
add_nodes (m ∷ ms) ns = add_node m (add_nodes ms ns)

unfoldable pub frontier : List Node → GraphState → List Node
unfolding next_nodes
frontier [] state = []
frontier (n ∷ ns) state = add_nodes (next_nodes n state) (frontier ns state)

module _ (lib : Library) (w : World) (settings : Settings) (sales account : SubAgent) where
  unfoldable pub run_node : Node → GraphState → Action Update
  unfolding intake_node router_node sales_agent_node account_agent_node merge_node escalate_node
      clarify_node synthesis_node verify_claims_node
  run_node intake = intake_node
  run_node router = router_node lib w settings
  run_node sales_agent = sales_agent_node lib w settings sales
  run_node account_agent = account_agent_node lib w settings account
  run_node merge = merge_node
  run_node escalate = escalate_node w account
  run_node clarify = clarify_node
  run_node synthesis = synthesis_node lib w settings
  run_node verify_claims = verify_claims_node lib w settings

  -- All active nodes on one state; the result is the state with all their updates.
  unfoldable pub superstep : List Node → GraphState → Action Update
  unfolding run_node
  superstep [] state = pure unchanged
  superstep (n ∷ ns) state =
      bind (run_node n state) λ u. (bind (superstep ns state) λ us. (pure (λ s. us (u s))))

  -- graph.ainvoke with a recursion limit, where `none` is LangGraph's GraphRecursionError.
  unfoldable pub run_graph : ℕ → List Node → GraphState → Action (Option GraphState)
  unfolding superstep frontier
  run_graph limit [] state = pure (some state)
  run_graph zero (n ∷ ns) state = pure none
  run_graph (suc limit) (n ∷ ns) state =
      bind (superstep (n ∷ ns) state) λ u. (run_graph limit (frontier (n ∷ ns) (u state)) (u state))

-- LangGraph's default.
abbrev pub recursion_limit : ℕ
recursion_limit = 25

-- run_turn, from what the session lists when each sub-agent is built
unfoldable pub run_turn :
    Library
    → World
    → Settings
    → Outcome (List RegisteredTool)
    → Outcome (List RegisteredTool)
    → RequestIdentity
    → List Message
    → Action (Option GraphState)
unfolding run_graph build_sales_agent build_account_agent
run_turn lib w settings listed_first listed_second identity messages =
    bind (lift (listed_first >>= build_sales_agent)) λ sales.
      (bind (lift (listed_second >>= build_account_agent)) λ account.
        (run_graph lib w settings sales account recursion_limit (intake ∷ [])
          (initial_state messages identity)))
