-- ===== src/Agents/ToolLoop/Memo/Served.antt =====
-- Where the entries of the loop come from: the calls of the tool server in the trace.
use dealership_agent.Agents.ToolBinding.{SubAgent, call_tool}
use dealership_agent.Agents.ToolLoop.{
  Limits, Loop, Step, ToolCall, ToolLoopResult, failed, returned,
}
use dealership_agent.Agents.ToolLoop.Rule.{After}
use dealership_agent.Base.{All, String, false, true, ℕ, ◌++◌, ◌≡◌}
use dealership_agent.Python.{Library, Outcome, Trace, World, ok, raise}

module _ (lib : Library) (w : World) (agent : SubAgent) (limits : Limits) (model : String) where
  -- An entry that is not from the cache: the tool was called with its arguments, and the call
  -- returned the result of the entry, before the rest of the trace.
  abbrev pub Served : Trace → ToolCall → Type 0
  Served u (returned tool arguments result false) =
      (before later : Trace) × (u ≡ later ++ (call_tool w agent tool arguments before).1)
      × ((call_tool w agent tool arguments before).0 ≡ ok result)
  Served u (returned tool arguments result true) = Unit
  Served u (failed tool arguments error) = Unit

  abbrev ServedOutcome : Outcome ToolLoopResult → Trace → Type 0
  ServedOutcome (ok r) u = All (Served u) r.tool_calls
  ServedOutcome (raise e) u = Unit

  abbrev AllServed : Trace → Loop → Type 0
  AllServed u s = All (Served u) s.tool_calls

  abbrev Kept : ℕ → Outcome Step → Trace → Type 0
  Kept = After lib w agent limits model (λ n s u. AllServed u s) ServedOutcome
