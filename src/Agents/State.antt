-- ===== src/Agents/State.antt =====
-- agents/state.py: the state of a turn. A key that is missing and a key that holds `None` are read
-- alike, by `state.get`, so both are `none`, `null` or the empty list.
use dealership_agent.Agents.ToolLoop.{ToolCall, ToolLoopResult, failed, returned}
use dealership_agent.Base.{Bool, List, Option, String, [], false, map, none, some, true}
use dealership_agent.Python.{Fields, Message, Value, arr, array, bool, end, field, null, obj, str}
use dealership_agent.Tools.Identity.{RequestIdentity}

pub record GraphState : Type 0 where
  pub messages : List Message
  pub identity : RequestIdentity
  pub routes : List String
  pub order_ref : Value
  pub price_filters : Option Fields
  pub clarify_question : Value
  pub escalate_summary : Value
  pub escalate_reason : Value
  pub sales_result : Option ToolLoopResult
  pub account_result : Option ToolLoopResult
  pub escalate_result : Value
  pub final_response : Value
  pub degraded : Bool
  pub degradation_reasons : List String

-- The state that `run_turn` starts from.
abbrev pub initial_state : List Message → RequestIdentity → GraphState
initial_state messages identity = record {
  messages = messages;
  identity = identity;
  routes = [];
  order_ref = null;
  price_filters = none;
  clarify_question = null;
  escalate_summary = null;
  escalate_reason = null;
  sales_result = none;
  account_result = none;
  escalate_result = null;
  final_response = null;
  degraded = false;
  degradation_reasons = [];
}

-- call.get("tool")
abbrev pub tool_of : ToolCall → Value
tool_of (returned tool arguments result cached) = tool
tool_of (failed tool arguments error) = tool

-- "error" in call
abbrev pub has_error : ToolCall → Bool
has_error (returned tool arguments result cached) = false
has_error (failed tool arguments error) = true

-- call.get("result")
abbrev pub result_of : ToolCall → Value
result_of (returned tool arguments result cached) = result
result_of (failed tool arguments error) = null

-- An entry of `tool_calls` as the dict that it is.
abbrev pub call_value : ToolCall → Value
call_value (returned tool arguments result false) =
    obj (field "tool" tool (field "arguments" arguments (field "result" result end)))
call_value (returned tool arguments result true) = obj (
    field "tool" tool
      (field "arguments" arguments (field "result" result (field "cached" (bool true) end))))
call_value (failed tool arguments error) =
    obj (field "tool" tool (field "arguments" arguments (field "error" (str error) end)))

unfoldable pub result_value : Option ToolLoopResult → Value
result_value none = null
result_value (some r) = obj (
    field "final_answer" r.final_answer (
      field "tool_calls" (arr (array (map call_value r.tool_calls))) (
        field "hit_cap" (bool r.hit_cap) (
          field "llm_call_failed" (bool r.llm_call_failed)
            (field "hit_budget_guard" (bool r.hit_budget_guard) end)))))
