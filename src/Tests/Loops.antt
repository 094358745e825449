-- ===== src/Tests/Loops.antt =====
-- Runs of the tool loop, and what a sub-agent may call.
use mathlib.Core.Path.{subst}
use dealership_agent.Agents.ToolBinding.{
  SubAgent, bind_spec, bind_specs, build_sales_agent, build_sub_agent, call_tool, described,
  make_sub_agent, missing_tools, registered_by_name, sales_agent_tools, spec_of,
}
use dealership_agent.Agents.ToolLoop.{Limits, ToolLoopResult, final_result, returned, run_tool_loop}
use dealership_agent.Agents.ToolLoop.Failures.{Cooperates, IsOneWay, IsReply, run_returns}
use dealership_agent.Agents.ToolLoop.Memo.Served.{Served}
use dealership_agent.Agents.ToolLoop.Requests.{IsPermitted, run-IsPermitted}
use dealership_agent.Base.{
  All, Bool-cases, String, [], arith, false, inl, inr, member, refl, true, ◌∷◌, ◌≡◌,
}
use dealership_agent.Python.{Trace, Value, World, end, external_error, obj, ok, raise, str}
use dealership_agent.Tests.{listed, registered, scripted, toy, toy_loads}

abbrev searching : World
searching = scripted ("call" ∷ "" ∷ "call" ∷ "answer" ∷ [])

abbrev agent : SubAgent
agent = record { name = "sales_agent"; allowed_tools = sales_agent_tools; tool_specs = [] }

abbrev wide : Limits
wide = record { max_observation_chars = 800; token_budget = 100000 }

abbrev found : ToolLoopResult
found = final_result (str "One red car.") (
    returned (str "search_listings") (obj end) (str "one red car") false
    ∷ returned (str "search_listings") (obj end) (str "one red car") true
    ∷ [])

run-IsPermitted_example :
    All
      (IsPermitted toy searching agent wide "m")
      (run_tool_loop toy searching agent wide "m" 3 "p" "q" []).1
run-IsPermitted_example = run-IsPermitted toy searching agent wide "m" 3 "p" "q" [] tt

-- A model that answers at once, and a tool server that is down.
abbrev answering : World
answering = record {
  complete = λ t messages model. ok "answer";
  call_tool = λ t name arguments. raise (external_error "down");
}

answers : (raw : String) → ok "answer" ≡ ok raw → IsReply (toy_loads raw)
answers raw h = let e : "answer" ≡ raw = ground arith in subst (λ s. IsReply (toy_loads s)) e refl

nothing_called :
    (tool arguments v : Value) (t : Trace)
    → (call_tool answering agent tool arguments t).0 ≡ ok v
    → ⊥
unfolding call_tool
nothing_called (str name) arguments v t h = elim (Bool-cases (member name sales_agent_tools)) [
  | inl e ↦ ground arith
  | inr e ↦ ground arith
]
nothing_called tool arguments v t h = ground arith

cooperating : Cooperates toy answering agent wide "m"
cooperating = record {
  replies = λ t messages m raw h. answers raw h;
  results = λ tool arguments v t h. absurd (nothing_called tool arguments v t h);
}

run_returns_example :
    (r : ToolLoopResult) × ((run_tool_loop toy answering agent wide "m" 5 "p" "q" []).0 ≡ ok r)
    × IsOneWay r
run_returns_example = run_returns toy answering agent wide "m" cooperating 5 "p" "q" []

abbrev built : SubAgent
built = record {
  name = "sales_agent";
  allowed_tools = sales_agent_tools;
  tool_specs =
      ("search_listings", spec_of "search_listings" (registered "search_listings"))
      ∷ ("search_policy_docs", spec_of "search_policy_docs" (registered "search_policy_docs"))
      ∷ [];
}

sales_built : build_sales_agent listed ≡ ok built
unfolding build_sales_agent build_sub_agent missing_tools bind_specs bind_spec registered_by_name
    make_sub_agent described
sales_built = refl
