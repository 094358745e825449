-- ===== src/Agents/Degradation.antt =====
-- agents/degradation.py: what went wrong in a turn, from what happened in it.
pub mod Honest
use dealership_agent.Agents.State.{GraphState, has_error, tool_of}
use dealership_agent.Agents.ToolLoop.{ToolCall, ToolLoopResult}
use dealership_agent.Base.{
  Bool, List, Option, String, [], false, none, not, prefix, some, true, ◌++◌, ◌<>◌, ◌∷◌,
}
use dealership_agent.Python.{Library, Value, get, is_str, obj}

abbrev pub reason_if : Bool → String → List String
reason_if true reason = reason ∷ []
reason_if false reason = []

unfoldable pub call_reasons : Library → String → List ToolCall → List String
call_reasons lib prefix [] = []
call_reasons lib prefix (call ∷ calls) =
    reason_if (has_error call) (prefix <> ("_tool_error:" <> lib.format (tool_of call)))
    ++ call_reasons lib prefix calls

unfoldable pub result_degradation_reasons : Library → String → Option ToolLoopResult → List String
unfolding call_reasons
result_degradation_reasons lib prefix none = []
result_degradation_reasons lib prefix (some r) =
    reason_if r.hit_cap (prefix <> "_hit_iteration_cap")
    ++ (reason_if r.llm_call_failed (prefix <> "_llm_call_failed")
        ++ (reason_if r.hit_budget_guard (prefix <> "_budget_guard_fired")
            ++ call_reasons lib prefix r.tool_calls))

-- escalate_result.get("status") == "not_created", of a dict or `None`
unfoldable pub not_created : Value → Bool
not_created (obj r) = is_str "not_created" (get "status" r)
not_created _ = false

unfoldable pub degradation_reasons_of : Library → GraphState → List String
unfolding result_degradation_reasons not_created
degradation_reasons_of lib state =
    result_degradation_reasons lib "sales" state.sales_result
    ++ (result_degradation_reasons lib "account" state.account_result
        ++ reason_if (not_created state.escalate_result) "escalation_not_created")

abbrev pub is_empty : List String → Bool
is_empty [] = true
is_empty (x ∷ xs) = false

unfoldable pub compute_degradation : Library → GraphState → Bool × List String
unfolding degradation_reasons_of
compute_degradation lib state =
    let reasons = degradation_reasons_of lib state in (not (is_empty reasons), reasons)
