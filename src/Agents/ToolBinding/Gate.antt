-- ===== src/Agents/ToolBinding/Gate.antt =====
-- A sub-agent reaches the tool server only through its allow-list.
use dealership_agent.Agents.ToolBinding.{SubAgent, call_tool}
use dealership_agent.Base.{Bool-cases, String, arith, inl, inr, member, refl, true, ◌∷◌, ◌≡◌, ◌⊎◌}
use dealership_agent.Python.{
  Exn, Trace, Value, World, arr, bool, null, num, obj, permission_error, raise, str, tool_call,
  type_error,
}

-- Whatever tool name and arguments the model writes, a call sends the tool server one request for
-- a tool of the allow-list, or it sends nothing and raises.
pub call_tool_gate :
    (w : World) (agent : SubAgent) (tool arguments : Value) (t : Trace)
    → ((call_tool w agent tool arguments t).1 ≡ t
        × ((e : Exn) × ((call_tool w agent tool arguments t).0 ≡ raise e)))
      ⊎ ((name : String) × (tool ≡ str name)
          × (member name agent.allowed_tools ≡ true)
          × ((call_tool w agent tool arguments t).1 ≡ tool_call name arguments ∷ t))
unfolding call_tool
call_tool_gate w agent (str name) arguments t =
    elim (Bool-cases (member name agent.allowed_tools)) [
      | inl h ↦ inr (name, refl, h, ground arith)
      | inr h ↦
          inl (
            ground arith,
            (permission_error agent.name (str name) agent.allowed_tools, ground arith),
          )
    ]
call_tool_gate w agent (arr vs) arguments t = inl (refl, (type_error, refl))
call_tool_gate w agent (obj fs) arguments t = inl (refl, (type_error, refl))
call_tool_gate w agent null arguments t =
    inl (refl, (permission_error agent.name null agent.allowed_tools, refl))
call_tool_gate w agent (bool b) arguments t =
    inl (refl, (permission_error agent.name (bool b) agent.allowed_tools, refl))
call_tool_gate w agent (num n) arguments t =
    inl (refl, (permission_error agent.name (num n) agent.allowed_tools, refl))
