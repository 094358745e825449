-- ===== src/Agents/Nodes.antt =====
-- agents/nodes.py, the nodes between the router and the reply: the two sub-agents, the escalation
-- and the question.
pub mod Causes
use dealership_agent.Agents.Degradation.{reason_if}
use dealership_agent.Agents.Prompts.{account_agent_system_prompt, sales_agent_system_prompt}
use dealership_agent.Agents.Routing.{Update, default_clarify_question, last_content, unchanged}
use dealership_agent.Agents.State.{GraphState}
use dealership_agent.Agents.ToolBinding.{SubAgent, call_tool}
use dealership_agent.Agents.ToolLoop.{Limits, ToolLoopResult, max_iterations, run_tool_loop}
use dealership_agent.Base.{
  Bool, List, Option, String, [], false, if◌then◌else◌, join, none, some, ℤ, ◌++◌, ◌<>◌, ◌||◌, ◌∷◌,
}
use dealership_agent.Config.{Settings, model_classifier}
use dealership_agent.Python.{
  Action, Fields, Library, Value, World, bind, end, field, lift, obj, or_else, pure, str, truthy,
}

module _ (lib : Library) (w : World) (settings : Settings) where
  abbrev pub limits_of : Limits
  limits_of = record {
    max_observation_chars = settings.loop_observation_max_chars;
    token_budget = settings.loop_token_budget;
  }

  -- A sub-agent's loop with the cheap model and the default number of rounds.
  abbrev pub loop_of : SubAgent → String → String → Action ToolLoopResult
  loop_of agent = run_tool_loop lib w agent limits_of (model_classifier settings) max_iterations

  unfoldable pub sales_query : String → Option Fields → String
  sales_query query none = "Customer asked: " <> query
  sales_query query (some filters) =
      if truthy (obj filters)
      then "Customer asked: "
        <> (query
            <> ("\nThe customer used vague price language. Use exactly this price filter if you call search_listings: "
                <> lib.dumps (obj filters)))
      else "Customer asked: " <> query

  unfoldable pub sales_agent_node : SubAgent → GraphState → Action Update
  unfolding sales_query
  sales_agent_node agent state = bind (lift (last_content state.messages)) λ query.
      (bind (loop_of agent sales_agent_system_prompt (sales_query query state.price_filters))
        λ r. (pure (λ s. record s { sales_result = some r })))

  unfoldable pub account_query : String → Value → String
  account_query query order_ref =
      "Customer asked: "
      <> (query
          <> ("\nExtracted order reference (may be empty): "
              <> lib.format (or_else order_ref (str ""))))

  unfoldable pub account_agent_node : SubAgent → GraphState → Action Update
  unfolding account_query
  account_agent_node agent state = bind (lift (last_content state.messages)) λ query.
      (bind (loop_of agent account_agent_system_prompt (account_query query state.order_ref))
        λ r. (pure (λ s. record s { account_result = some r })))

-- result is not None and (hit_cap or llm_call_failed or hit_budget_guard)
abbrev pub has_flag : Option ToolLoopResult → Bool
has_flag none = false
has_flag (some r) = r.hit_cap || r.llm_call_failed || r.hit_budget_guard

unfoldable pub any_result_needs_escalation : GraphState → Bool
any_result_needs_escalation state = has_flag state.sales_result || has_flag state.account_result

unfoldable pub result_causes : String → Option ToolLoopResult → List String
result_causes label none = []
result_causes label (some r) =
    reason_if r.hit_cap (label <> " reached its tool-call limit without finding an answer")
    ++ (reason_if r.llm_call_failed (label <> " hit a technical issue reaching the language model")
        ++ reason_if r.hit_budget_guard
            (label <> "'s conversation grew too large to continue safely"))

abbrev pub cause_text : List String → String
cause_text causes =
    "The assistant could not fully resolve the customer's request: "
    <> (join "; " causes <> ". Escalating rather than failing silently.")

abbrev pub cause_of : List String → Option (String × String)
cause_of [] = none
cause_of (c ∷ cs) = some (cause_text (c ∷ cs), "tool_loop_could_not_complete")

-- _escalation_cause: the summary and the reason
unfoldable pub escalation_cause : GraphState → Option (String × String)
unfolding result_causes
escalation_cause state = cause_of (
    result_causes "the sales lookup" state.sales_result
    ++ result_causes "the account lookup" state.account_result)

-- The arguments of the tool call, from the cause or from what the router extracted.
unfoldable pub escalation_arguments : GraphState → Value
unfolding escalation_cause
escalation_arguments state = elim (escalation_cause state) [
  | some (summary, reason) ↦ obj (field "summary" (str summary) (field "reason" (str reason) end))
  | none ↦ obj (
      field "summary" (or_else state.escalate_summary (str "Customer requested human assistance."))
        (field "reason" (or_else state.escalate_reason (str "customer_requested")) end))
]

abbrev pub not_created_result : Value
not_created_result =
    obj (field "status" (str "not_created") (field "reason" (str "no_authenticated_customer") end))

module _ (w : World) where
  -- With a customer or without one.
  unfoldable pub escalate_for : SubAgent → GraphState → Option ℤ → Action Update
  unfolding escalation_arguments
  escalate_for agent state none = pure (λ s. record s { escalate_result = not_created_result })
  escalate_for agent state (some customer) =
      bind (call_tool w agent (str "escalate_to_human") (escalation_arguments state))
        (λ r. pure (λ s. record s { escalate_result = r }))

  unfoldable pub escalate_node : SubAgent → GraphState → Action Update
  unfolding escalate_for
  escalate_node agent state = escalate_for agent state state.identity.customer_id

unfoldable pub clarify_node : GraphState → Action Update
clarify_node state = pure (λ s. record s {
  final_response = or_else state.clarify_question (str default_clarify_question);
})

unfoldable pub merge_node : GraphState → Action Update
merge_node state = pure unchanged
