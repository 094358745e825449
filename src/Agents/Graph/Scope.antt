-- ===== src/Agents/Graph/Scope.antt =====
-- Every node of the graph, and so a whole turn, keeps to the tools of the two sub-agents.
use dealership_agent.Agents.ActionClaims.{
  Label, VerificationOutcome, build_evidence_summary, clean, violation,
}
use dealership_agent.Agents.Graph.{
  Node, account_agent, clarify, escalate, frontier, intake, merge, recursion_limit, router,
  run_graph, run_node, run_turn, sales_agent, superstep, synthesis, verify_claims,
}
use dealership_agent.Agents.Graph.Requests.{
  AllInScope, InScope, check_in_scope, complete_in_scope, loop_in_scope, one_call_in_scope,
}
use dealership_agent.Agents.Nodes.{
  account_agent_node, account_query, clarify_node, escalate_for, escalate_node,
  escalation_arguments, limits_of, loop_of, merge_node, sales_agent_node, sales_query,
}
use dealership_agent.Agents.Prompts.{router_system_prompt}
use dealership_agent.Agents.Routing.{
  Update, intake_node, is_clarify, last_content, read_decision, router_node, stripped,
}
use dealership_agent.Agents.State.{GraphState, initial_state}
use dealership_agent.Agents.Synthesis.{
  after_check, after_label, check_of, correct_draft, correction_messages, draft_of,
  synthesis_messages, synthesis_node, verify_claims_node, violation_text,
}
use dealership_agent.Agents.ToolBinding.{
  RegisteredTool, SubAgent, account_agent_tools, build_account_agent, build_sales_agent, call_tool,
  sales_agent_tools,
}
use dealership_agent.Agents.ToolBinding.Build.{built_tools}
use dealership_agent.Agents.ToolLoop.{ToolLoopResult, say}
use dealership_agent.Agents.ToolLoop.Requests.{call_tool_trace}
use dealership_agent.Base.{
  All, Bool-cases, List, Option, String, [], arith, inl, inr, member, none, refl, some, suc, true,
  zero, ℕ, ℤ, ◌++◌, ◌=ₛ◌, ◌∷◌, ◌≡◌,
}
use dealership_agent.Config.{Settings, model_classifier, model_synthesis}
use dealership_agent.Python.{
  Keeps, Library, Message, Outcome, Value, World, bind, bind-Keeps, complete, continue, lift, ok,
  pure, raise, str, system, then_ok, ◌>>=◌,
}
use dealership_agent.Tools.Identity.{RequestIdentity}

-- The tools of an agent are among the allowed ones.
abbrev pub Covers : List String → SubAgent → Type 0
Covers allowed agent =
    (name : String) → member name agent.allowed_tools ≡ true → member name allowed ≡ true

module _ (lib : Library) (w : World) (settings : Settings) (allowed : List String) where
  router_in_scope : (s : GraphState) → Keeps (AllInScope allowed) (router_node lib w settings s)
  unfolding router_node
  router_in_scope s t h = elim (Bool-cases (is_clarify s.routes)) [
    | inl e ↦ rw e h
    | inr e ↦
        let messages : List Message = say system router_system_prompt ∷ s.messages in
        rw e (
          bind-Keeps (AllInScope allowed) (complete w messages (model_classifier settings))
            (λ raw. lift (read_decision lib s.messages (lib.loads raw)))
            (complete_in_scope lib w settings allowed messages (model_classifier settings))
            (λ raw u k. k) t h)
  ]

  -- A node that runs a loop on the last message.
  loop_node_in_scope :
      (agent : SubAgent) (prompt : String) (query : String → String) (put : ToolLoopResult → Update)
      (s : GraphState)
      → Covers allowed agent
      → Keeps (AllInScope allowed) (
          bind (lift (last_content s.messages)) (λ content.
            (bind (loop_of lib w settings agent prompt (query content)) (λ r. (pure (put r))))))
  loop_node_in_scope agent prompt query put s sub =
      bind-Keeps (AllInScope allowed) (lift (last_content s.messages)) _ (λ u k. k)
        λ content.
          (bind-Keeps (AllInScope allowed) (loop_of lib w settings agent prompt (query content)) _
            (λ u k. loop_in_scope lib w settings allowed agent prompt (query content) u sub k)
            (λ r u k. k))

  escalate_in_scope :
      (agent : SubAgent) (s : GraphState)
      → Covers allowed agent
      → Keeps (AllInScope allowed) (escalate_node w agent s)
  unfolding escalate_node
  escalate_in_scope agent s sub = go s.identity.customer_id
    where
      called :
          Keeps
            (AllInScope allowed)
            (call_tool w agent (str "escalate_to_human") (escalation_arguments s))
      called t h =
          one_call_in_scope agent lib w (limits_of lib w settings) (model_classifier settings)
            allowed t (call_tool w agent (str "escalate_to_human") (escalation_arguments s) t).1 sub
            h
            (call_tool_trace lib w agent (limits_of lib w settings) (model_classifier settings)
              (str "escalate_to_human") (escalation_arguments s) t)

      go : (customer : Option ℤ) → Keeps (AllInScope allowed) (escalate_for w agent s customer)
      go none = λ t h. h
      go (some customer) = bind-Keeps (AllInScope allowed) _ _ called (λ r u k. k)

  synthesis_in_scope :
      (s : GraphState) → Keeps (AllInScope allowed) (synthesis_node lib w settings s)
  unfolding synthesis_node
  synthesis_in_scope s =
      bind-Keeps (AllInScope allowed)
        (complete w (synthesis_messages lib s) (model_synthesis settings)) _
        (complete_in_scope lib w settings allowed (synthesis_messages lib s)
          (model_synthesis settings))
        (λ r u k. k)

  correct_in_scope :
      (s : GraphState) (draft : String) (evidence : Value) (o : VerificationOutcome)
      → Keeps (AllInScope allowed) (correct_draft lib w settings s draft evidence o)
  unfolding correct_draft
  correct_in_scope s draft evidence o =
      bind-Keeps (AllInScope allowed) (lift (violation_text lib o)) _ (λ u k. k)
        λ violations.
          (bind-Keeps (AllInScope allowed)
            (complete w (correction_messages lib s draft violations) (model_synthesis settings)) _
            (complete_in_scope lib w settings allowed (correction_messages lib s draft violations)
              (model_synthesis settings))
            λ reply.
              (bind-Keeps (AllInScope allowed) (check_of lib w settings reply evidence) _
                (check_in_scope lib w settings allowed (model_classifier settings) reply evidence)
                (λ recheck u k. k)))

  after_check_in_scope :
      (s : GraphState) (draft : String) (evidence : Value) (o : VerificationOutcome)
      → Keeps (AllInScope allowed) (after_check lib w settings s draft evidence o)
  unfolding after_check
  after_check_in_scope s draft evidence o = go o.label
    where
      go :
          (l : Label) → Keeps (AllInScope allowed) (after_label lib w settings l s draft evidence o)
      go clean = λ t h. h
      go violation = correct_in_scope s draft evidence o

  verify_in_scope :
      (s : GraphState) → Keeps (AllInScope allowed) (verify_claims_node lib w settings s)
  unfolding verify_claims_node
  verify_in_scope s =
      bind-Keeps (AllInScope allowed) (lift (build_evidence_summary s)) _ (λ u k. k)
        λ evidence.
          (bind-Keeps (AllInScope allowed) (lift (draft_of s.final_response)) _ (λ u k. k)
            λ draft.
              (bind-Keeps (AllInScope allowed) (check_of lib w settings draft evidence) _
                (check_in_scope lib w settings allowed (model_classifier settings) draft evidence)
                (λ o. after_check_in_scope s draft evidence o)))

  intake_in_scope : (s : GraphState) → Keeps (AllInScope allowed) (intake_node s)
  unfolding intake_node
  intake_in_scope s t h = elim (Bool-cases (stripped (last_content s.messages) =ₛ "")) [
    | inl e ↦ rw e h
    | inr e ↦ rw e h
  ]

  node_in_scope :
      (sales account : SubAgent) (n : Node) (s : GraphState)
      → Covers allowed sales
      → Covers allowed account
      → Keeps (AllInScope allowed) (run_node lib w settings sales account n s)
  unfolding run_node sales_agent_node account_agent_node clarify_node merge_node
  node_in_scope sales account intake s a b = intake_in_scope s
  node_in_scope sales account router s a b = router_in_scope s
  node_in_scope sales account sales_agent s a b =
      loop_node_in_scope sales _ (λ query. sales_query lib w settings query s.price_filters) _ s a
  node_in_scope sales account account_agent s a b =
      loop_node_in_scope account _ (λ query. account_query lib w settings query s.order_ref) _ s b
  node_in_scope sales account merge s a b = λ t h. h
  node_in_scope sales account escalate s a b = escalate_in_scope account s b
  node_in_scope sales account clarify s a b = λ t h. h
  node_in_scope sales account synthesis s a b = synthesis_in_scope s
  node_in_scope sales account verify_claims s a b = verify_in_scope s

  superstep_in_scope :
      (sales account : SubAgent) (ns : List Node) (s : GraphState)
      → Covers allowed sales
      → Covers allowed account
      → Keeps (AllInScope allowed) (superstep lib w settings sales account ns s)
  unfolding superstep
  superstep_in_scope sales account [] s a b = λ t h. h
  superstep_in_scope sales account (n ∷ ns) s a b =
      bind-Keeps (AllInScope allowed) (run_node lib w settings sales account n s) _
        (node_in_scope sales account n s a b)
        λ u.
          (bind-Keeps (AllInScope allowed) (superstep lib w settings sales account ns s) _
            (superstep_in_scope sales account ns s a b) (λ us v k. k))

  graph_in_scope :
      (sales account : SubAgent) (limit : ℕ) (ns : List Node) (s : GraphState)
      → Covers allowed sales
      → Covers allowed account
      → Keeps (AllInScope allowed) (run_graph lib w settings sales account limit ns s)
  unfolding run_graph
  graph_in_scope sales account limit [] s a b = λ t h. h
  graph_in_scope sales account zero (n ∷ ns) s a b = λ t h. h
  graph_in_scope sales account (suc limit) (n ∷ ns) s a b =
      bind-Keeps (AllInScope allowed) (superstep lib w settings sales account (n ∷ ns) s) _
        (superstep_in_scope sales account (n ∷ ns) s a b)
        (λ u. graph_in_scope sales account limit (frontier (n ∷ ns) (u s)) (u s) a b)

abbrev pub all_tools : List String
all_tools = sales_agent_tools ++ account_agent_tools

sales-Covers :
    (listed : List RegisteredTool) (agent : SubAgent)
    → build_sales_agent listed ≡ ok agent
    → Covers all_tools agent
unfolding build_sales_agent
sales-Covers listed agent h name m =
    let e = built_tools listed "sales_agent" sales_agent_tools agent h in
    let k : member name sales_agent_tools ≡ true = rw e at m in ground arith

account-Covers :
    (listed : List RegisteredTool) (agent : SubAgent)
    → build_account_agent listed ≡ ok agent
    → Covers all_tools agent
unfolding build_account_agent
account-Covers listed agent h name m =
    let e = built_tools listed "account_agent" account_agent_tools agent h in
    let k : member name account_agent_tools ≡ true = rw e at m in ground arith

-- In a whole turn, whatever the model writes, the tool server is asked for the five tools of the
-- two sub-agents and for no other.
pub run_turn-InScope :
    (lib : Library) (w : World) (settings : Settings)
    (listed_first listed_second : Outcome (List RegisteredTool)) (identity : RequestIdentity)
    (messages : List Message)
    → All
        (InScope all_tools)
        (run_turn lib w settings listed_first listed_second identity messages []).1
unfolding run_turn
run_turn-InScope lib w settings first second identity messages =
    built (first >>= build_sales_agent) refl (second >>= build_account_agent) refl
  where
    start : GraphState
    start = initial_state messages identity

    built :
        (a : Outcome SubAgent)
        → (first >>= build_sales_agent) ≡ a
        → (b : Outcome SubAgent) → (second >>= build_account_agent) ≡ b
        → AllInScope all_tools
            (continue a
              (λ sales. bind (lift b) (λ account.
                run_graph lib w settings sales account recursion_limit (intake ∷ []) start))
              []).1
    built (raise e) ha b hb = tt
    built (ok sales) ha (raise e) hb = tt
    built (ok sales) ha (ok account) hb =
        let (x, hx, ax) = then_ok first build_sales_agent sales ha in
        let (y, hy, ay) = then_ok second build_account_agent account hb in
        graph_in_scope lib w settings all_tools sales account recursion_limit (intake ∷ []) start
          (sales-Covers x sales ax) (account-Covers y account ay) [] tt
