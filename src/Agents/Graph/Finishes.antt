-- ===== src/Agents/Graph/Finishes.antt =====
-- The graph has no cycle: a turn ends within eight supersteps, well below the recursion limit.
use dealership_agent.Agents.Graph.{
  Node, account_agent, add_nodes, clarify, escalate, frontier, intake, merge, next_nodes, node_if,
  node_name, or_clarify, recursion_limit, route_after_intake, route_after_merge, router,
  routes_after_router, run_graph, run_turn, sales_agent, synthesis, verify_claims,
}
use dealership_agent.Agents.Nodes.{any_result_needs_escalation}
use dealership_agent.Agents.Routing.{Update, is_clarify}
use dealership_agent.Agents.State.{GraphState, initial_state}
use dealership_agent.Agents.ToolBinding.{
  RegisteredTool, SubAgent, build_account_agent, build_sales_agent,
}
use dealership_agent.Base.{
  All, Bool, Bool-cases, List, Option, [], arith, false, inl, inr, map, member, none, some, suc,
  true, zero, ℕ, ◌++◌, ◌∷◌, ◌≤◌,
}
use dealership_agent.Config.{Settings}
use dealership_agent.Python.{
  Action, Library, Message, Outcome, Trace, World, continue, ok, raise, ◌>>=◌,
}
use dealership_agent.Tools.Identity.{RequestIdentity}

-- How many supersteps are left when a node is active.
abbrev pub steps_left : Node → ℕ
steps_left intake = 7
steps_left router = 6
steps_left sales_agent = 5
steps_left account_agent = 5
steps_left merge = 4
steps_left escalate = 3
steps_left synthesis = 2
steps_left verify_claims = 1
steps_left clarify = 1

-- Every active node can end its way within `k` supersteps.
abbrev pub StepsWithin : ℕ → List Node → Type 0
StepsWithin k ns = All (λ n. steps_left n ≤ k) ns

route_within : (s : GraphState) → StepsWithin 5 (routes_after_router s)
unfolding routes_after_router
route_within s = elim (Bool-cases (member "clarify" s.routes)) [
  | inl h ↦ rw h (omega arith, tt)
  | inr h ↦ rw h (elim (Bool-cases (member "escalate" s.routes)) [
    | inl k ↦ rw k (omega arith, tt)
    | inr k ↦ rw k (agents (member "sales" s.routes) (member "account" s.routes))
  ])
]
  where
    agents :
        (a b : Bool) → StepsWithin 5 (or_clarify (node_if a sales_agent ++ node_if b account_agent))
    agents true true = (omega arith, (omega arith, tt))
    agents true false = (omega arith, tt)
    agents false true = (omega arith, tt)
    agents false false = (omega arith, tt)

within_mono : (j k : ℕ) (ns : List Node) → j ≤ k → StepsWithin j ns → StepsWithin k ns
within_mono j k [] le h = tt
within_mono j k (n ∷ ns) le h = (omega arith, within_mono j k ns le h.1)

intake_within : (k : ℕ) (s : GraphState) → 7 ≤ suc k → steps_left (route_after_intake s) ≤ k
unfolding route_after_intake
intake_within k s h = elim (Bool-cases (is_clarify s.routes)) [
  | inl e ↦ rw e (omega arith)
  | inr e ↦ rw e (omega arith)
]

merge_within : (k : ℕ) (s : GraphState) → 4 ≤ suc k → steps_left (route_after_merge s) ≤ k
unfolding route_after_merge
merge_within k s h = elim (Bool-cases (any_result_needs_escalation s)) [
  | inl e ↦ rw e (omega arith)
  | inr e ↦ rw e (omega arith)
]

next_within :
    (k : ℕ) (n : Node) (s : GraphState) → steps_left n ≤ suc k → StepsWithin k (next_nodes n s)
unfolding next_nodes
next_within k intake s h = (intake_within k s h, tt)
next_within k router s h = within_mono 5 k (routes_after_router s) (omega arith) (route_within s)
next_within k sales_agent s h = (omega arith, tt)
next_within k account_agent s h = (omega arith, tt)
next_within k merge s h = (merge_within k s h, tt)
next_within k escalate s h = (omega arith, tt)
next_within k clarify s h = tt
next_within k synthesis s h = (omega arith, tt)
next_within k verify_claims s h = tt

add_nodes_within :
    (k : ℕ) (ms ns : List Node)
    → StepsWithin k ms
    → StepsWithin k ns
    → StepsWithin k (add_nodes ms ns)
add_nodes_within k [] ns h l = l
add_nodes_within k (m ∷ ms) ns h l =
    let rest = add_nodes_within k ms ns h.1 l in
    elim (Bool-cases (member (node_name m) (map node_name (add_nodes ms ns)))) [
      | inl e ↦ rw e rest
      | inr e ↦ rw e (h.0, rest)
    ]

frontier_within :
    (k : ℕ) (ns : List Node) (s : GraphState)
    → StepsWithin (suc k) ns
    → StepsWithin k (frontier ns s)
unfolding frontier
frontier_within k [] s h = tt
frontier_within k (n ∷ ns) s h =
    add_nodes_within k (next_nodes n s) (frontier ns s) (next_within k n s h.0)
      (frontier_within k ns s h.1)

-- A run that raised or reached the end.
abbrev pub Finished : Outcome (Option GraphState) → Type 0
Finished (ok none) = ⊥
Finished (ok (some s)) = Unit
Finished (raise e) = Unit

module _ (lib : Library) (w : World) (settings : Settings) (sales account : SubAgent) where
  after_superstep :
      (k : ℕ) (n : Node) (ns : List Node) (s : GraphState) (r : Outcome Update) (t : Trace)
      → ((u : Update) (t' : Trace)
          → Finished
              (run_graph lib w settings sales account k (frontier (n ∷ ns) (u s)) (u s) t').0)
      → Finished
          (continue r
            (λ u. run_graph lib w settings sales account k (frontier (n ∷ ns) (u s)) (u s))
            t).0
  after_superstep k n ns s (raise e) t h = tt
  after_superstep k n ns s (ok u) t h = h u t

  -- A graph whose active nodes are within the limit of the end does not run into the limit.
  run_graph_finishes :
      (k : ℕ) (ns : List Node) (s : GraphState) (t : Trace)
      → StepsWithin k ns
      → Finished (run_graph lib w settings sales account k ns s t).0
  unfolding run_graph
  run_graph_finishes k [] s t h = tt
  run_graph_finishes zero (n ∷ ns) s t h = absurd (none_left n h.0)
    where
      none_left : (n : Node) → steps_left n ≤ 0 → ⊥
      none_left intake h = omega arith
      none_left router h = omega arith
      none_left sales_agent h = omega arith
      none_left account_agent h = omega arith
      none_left merge h = omega arith
      none_left escalate h = omega arith
      none_left clarify h = omega arith
      none_left synthesis h = omega arith
      none_left verify_claims h = omega arith
  run_graph_finishes (suc k) (n ∷ ns) s t h = after_superstep k n ns s _ _ (λ u t'.
      run_graph_finishes k (frontier (n ∷ ns) (u s)) (u s) t' (frontier_within k (n ∷ ns) (u s) h))

after_building :
    {A : Type 0} (r : Outcome A) (f : A → Action (Option GraphState)) (t : Trace)
    → ((a : A) → Finished (f a t).0)
    → Finished (continue r f t).0
after_building (ok a) f t h = h a
after_building (raise e) f t h = tt

-- A turn never reaches the recursion limit of the graph: it raises or it ends in a state, whatever
-- the model and the tool server answer.
pub run_turn_finishes :
    (lib : Library) (w : World) (settings : Settings)
    (listed_first listed_second : Outcome (List RegisteredTool)) (identity : RequestIdentity)
    (messages : List Message) (t : Trace)
    → Finished (run_turn lib w settings listed_first listed_second identity messages t).0
unfolding run_turn
run_turn_finishes lib w settings listed_first listed_second identity messages t =
    after_building (listed_first >>= build_sales_agent) _ t λ sales.
      (after_building (listed_second >>= build_account_agent) _ t λ account.
        (run_graph_finishes lib w settings sales account recursion_limit (intake ∷ [])
          (initial_state messages identity) t (omega arith, tt)))
