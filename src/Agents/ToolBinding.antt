-- ===== src/Agents/ToolBinding.antt =====
-- agents/tool_binding.py: a sub-agent and the tools that it may call.
pub mod Gate
pub mod Build
use dealership_agent.Base.{
  Bool, List, Option, String, [], all, false, filter, if◌then◌else◌, map, member, none, not, some,
  true, ◌&&◌, ◌<>◌, ◌=ₛ◌, ◌∷◌,
}
use dealership_agent.Python.{
  Action, CallToolResult, Outcome, Value, World, arr, bind, get?, key_error, lift, obj, ok,
  permission_error, raise, runtime_error, session_call, specs_mismatch, str, traverse, type_error,
  unregistered_tools, ◌>>=◌,
}

abbrev pub sales_agent_tools : List String
sales_agent_tools = "search_listings" ∷ "search_policy_docs" ∷ []

abbrev pub account_agent_tools : List String
account_agent_tools = "get_order_status" ∷ "list_my_orders" ∷ "escalate_to_human" ∷ []

pub record ToolSpec : Type 0 where
  pub name : String
  pub description : String
  pub input_schema : Value

pub record SubAgent : Type 0 where
  pub name : String
  pub allowed_tools : List String
  pub tool_specs : List (String × ToolSpec)

abbrev pub spec_names : List (String × ToolSpec) → List String
spec_names = map (λ s. s.0)

-- set(xs) <= set(ys)
abbrev pub is_subset : List String → List String → Bool
is_subset xs ys = all (λ x. member x ys) xs

-- The dataclass with its `__post_init__`: the bound tools are exactly the allow-list.
unfoldable pub make_sub_agent : String → List String → List (String × ToolSpec) → Outcome SubAgent
make_sub_agent name allowed specs =
    if is_subset (spec_names specs) allowed && is_subset allowed (spec_names specs)
    then ok (record { name = name; allowed_tools = allowed; tool_specs = specs })
    else raise (specs_mismatch name allowed)

-- What `list_tools` returns for one tool.
pub record RegisteredTool : Type 0 where
  pub name : String
  pub description : Option String
  pub input_schema : Value

-- registered_by_name[name]: a later tool of the same name replaces an earlier one
unfoldable pub registered_by_name : String → List RegisteredTool → Option RegisteredTool
registered_by_name name [] = none
registered_by_name name (t ∷ ts) = elim (registered_by_name name ts) [
  | some u ↦ some u
  | none ↦ if t.name =ₛ name then some t else none
]

-- description or ""
unfoldable pub described : Option String → String
described none = ""
described (some d) = d

abbrev pub spec_of : String → RegisteredTool → ToolSpec
spec_of name t = record {
  name = name;
  description = described t.description;
  input_schema = t.input_schema;
}

-- One entry of the dict comprehension.
unfoldable pub bind_spec : List RegisteredTool → String → Outcome (String × ToolSpec)
bind_spec registered name = elim (registered_by_name name registered) [
  | none ↦ raise (key_error name)
  | some t ↦ ok (name, spec_of name t)
]

-- The dict comprehension over `allowed_tools`.
unfoldable pub bind_specs : List RegisteredTool → List String → Outcome (List (String × ToolSpec))
bind_specs registered = traverse (bind_spec registered)

-- allowed_tools - set(registered_by_name)
unfoldable pub missing_tools : List RegisteredTool → List String → List String
missing_tools registered = filter λ name. not (member name (map (λ t. t.name) registered))

unfoldable pub build_sub_agent : List RegisteredTool → String → List String → Outcome SubAgent
build_sub_agent registered name allowed = elim (missing_tools registered allowed) [
  | [] ↦ (bind_specs registered allowed >>= λ specs. make_sub_agent name allowed specs)
  | m ∷ ms ↦ raise (unregistered_tools name (m ∷ ms))
]

unfoldable pub build_sales_agent : List RegisteredTool → Outcome SubAgent
build_sales_agent registered = build_sub_agent registered "sales_agent" sales_agent_tools

unfoldable pub build_account_agent : List RegisteredTool → Outcome SubAgent
build_account_agent registered = build_sub_agent registered "account_agent" account_agent_tools

-- tool_name in allowed_tools, where a list or a dict cannot be hashed
unfoldable pub is_allowed : Value → List String → Outcome Bool
is_allowed (str name) allowed = ok (member name allowed)
is_allowed (arr _) allowed = raise type_error
is_allowed (obj _) allowed = raise type_error
is_allowed _ allowed = ok false

-- What `call_tool` makes of the session's result.
unfoldable pub tool_result : String → CallToolResult → Outcome Value
tool_result name r =
    if r.is_error
    then raise (
        runtime_error
          (name <> (" failed: " <> elim r.first_text [ none ↦ "tool call failed" | some s ↦ s ])))
    else elim r.structured [
      | obj fs ↦ elim (get? "result" fs) [ none ↦ ok (obj fs) | some v ↦ ok v ]
      | v ↦ ok v
    ]

module _ (w : World) where
  -- `session.call_tool(tool_name, arguments)` is reached with a name that is a text only.
  call_session : Value → Value → Action Value
  unfolding session_call tool_result
  call_session (str name) arguments =
      bind (session_call w name arguments) (λ r. lift (tool_result name r))
  call_session _ arguments = lift (raise type_error)

  -- After the membership test.
  call_if : SubAgent → Value → Value → Bool → Action Value
  unfolding call_session
  call_if agent tool arguments true = call_session tool arguments
  call_if agent tool arguments false =
      lift (raise (permission_error agent.name tool agent.allowed_tools))

  -- SubAgent.call_tool
  unfoldable pub call_tool : SubAgent → Value → Value → Action Value
  unfolding is_allowed call_if
  call_tool agent tool arguments =
      bind (lift (is_allowed tool agent.allowed_tools)) (call_if agent tool arguments)
