-- ===== src/Agents/ToolLoop/Requests.antt =====
-- What the loop asks of the model and of the tool server.
use dealership_agent.Agents.Tokens.{estimate_messages_tokens}
use dealership_agent.Agents.ToolBinding.{SubAgent, call_tool}
use dealership_agent.Agents.ToolBinding.Gate.{call_tool_gate}
use dealership_agent.Agents.ToolLoop.{
  Limits, Loop, after_completion, cache_key, lookup, read_reply, run_tool_loop, start, step,
  use_tool,
}
use dealership_agent.Agents.ToolLoop.Rule.{rounds_trace_rule}
use dealership_agent.Base.{
  All, Bool-cases, Option, Option-cases, String, [], arith, inl, inr, leb, member, none, refl, some,
  suc, true, ℕ, ◌+◌, ◌<◌, ◌∷◌, ◌≡◌, ◌≤◌, ◌⊎◌,
}
use dealership_agent.Python.{
  Event, Library, Outcome, Trace, Value, World, arr, bool, completion, get, is_str, null, num, obj,
  ok, raise, str, tool_call,
}

abbrev pub completions : Trace → ℕ
completions [] = 0
completions (completion messages m ∷ t) = suc (completions t)
completions (tool_call name arguments ∷ t) = completions t

abbrev pub tool_requests : Trace → ℕ
tool_requests [] = 0
tool_requests (completion messages m ∷ t) = tool_requests t
tool_requests (tool_call name arguments ∷ t) = suc (tool_requests t)

module _ (lib : Library) (w : World) (agent : SubAgent) (limits : Limits) (model : String) where
  -- One request for an allowed tool, or none.
  abbrev pub AtMostOneCall : Trace → Trace → Type 0
  AtMostOneCall t t' =
      (t' ≡ t)
      ⊎ ((name : String) × (arguments : Value) × (member name agent.allowed_tools ≡ true)
          × (t' ≡ tool_call name arguments ∷ t))

  pub call_tool_trace :
      (tool arguments : Value) (t : Trace) → AtMostOneCall t (call_tool w agent tool arguments t).1
  call_tool_trace tool arguments t = elim (call_tool_gate w agent tool arguments t) [
    | inl (e, raised) ↦ inl e
    | inr (name, e, m, f) ↦ inr (name, arguments, m, f)
  ]

  use_tool_trace :
      (s : Loop) (tool arguments : Value) (t : Trace)
      → AtMostOneCall t (use_tool lib w agent limits model s tool arguments t).1
  unfolding use_tool
  use_tool_trace s tool arguments t =
      elim (Option-cases (lookup (cache_key lib tool arguments) s.call_cache)) [
        | inl e ↦ rw (e, use_tool) (call_tool_trace tool arguments t)
        | inr (v, e) ↦ rw (e, use_tool) (inl refl)
      ]

  read_reply_trace :
      (s : Loop) (raw : String) (v : Option Value) (t : Trace)
      → AtMostOneCall t (read_reply lib w agent limits model s raw v t).1
  unfolding read_reply
  read_reply_trace s raw none t = inl refl
  read_reply_trace s raw (some null) t = inl refl
  read_reply_trace s raw (some (bool b)) t = inl refl
  read_reply_trace s raw (some (num n)) t = inl refl
  read_reply_trace s raw (some (str x)) t = inl refl
  read_reply_trace s raw (some (arr vs)) t = inl refl
  read_reply_trace s raw (some (obj decision)) t =
      elim (Bool-cases (is_str "final" (get "action" decision))) [
        | inl h ↦ rw h (inl refl)
        | inr h ↦ rw h (elim (Bool-cases (is_str "call_tool" (get "action" decision))) [
          | inl k ↦ rw k (use_tool_trace _ _ _ t)
          | inr k ↦ rw k (inl refl)
        ])
      ]

  after_completion_trace :
      (s : Loop) (r : Outcome String) (t : Trace)
      → AtMostOneCall t (after_completion lib w agent limits model s r t).1
  unfolding after_completion
  after_completion_trace s (raise e) t = inl refl
  after_completion_trace s (ok raw) t = read_reply_trace s raw (lib.loads raw) t

  -- A round asks for nothing, or for one completion within the budget and at most one tool after it.
  pub step_trace :
      (s : Loop) (t : Trace)
      → ((step lib w agent limits model s t).1 ≡ t)
        ⊎ ((estimate_messages_tokens s.messages < limits.token_budget)
            × AtMostOneCall (completion s.messages model ∷ t) (step lib w agent limits model s t).1)
  unfolding step
  step_trace s t =
      elim (Bool-cases (leb limits.token_budget (estimate_messages_tokens s.messages))) [
        | inl h ↦ rw h (inl refl)
        | inr h ↦ rw h (
            inr (
              ground arith,
              after_completion_trace s (w.complete t s.messages model)
                  (completion s.messages model ∷ t),
            ))
      ]

  -- What the loop may ask: a completion by its model, of a history within the budget; a tool of
  -- the allow-list.
  abbrev pub IsPermitted : Event → Type 0
  IsPermitted (completion messages m) =
      (m ≡ model) × (estimate_messages_tokens messages < limits.token_budget)
  IsPermitted (tool_call name arguments) = member name agent.allowed_tools ≡ true

  step-IsPermitted :
      (s : Loop) (t : Trace)
      → All IsPermitted t
      → All IsPermitted (step lib w agent limits model s t).1
  step-IsPermitted s t h = elim (step_trace s t) [
    | inl e ↦ rw e h
    | inr (b, inl e) ↦ rw e ((refl, b), h)
    | inr (b, inr (name, arguments, m, e)) ↦ rw e (m, ((refl, b), h))
  ]

  -- All that a run of the loop asks, in any of its rounds and whatever it is answered, is permitted:
  -- completions by its own model of histories that the estimate puts below the token budget, and
  -- tools of the sub-agent's allow-list.
  pub run-IsPermitted :
      (iterations : ℕ) (system_prompt user_query : String) (t : Trace)
      → All IsPermitted t
      → All IsPermitted
          (run_tool_loop lib w agent limits model iterations system_prompt user_query t).1
  unfolding run_tool_loop
  run-IsPermitted iterations system_prompt user_query t =
      rounds_trace_rule lib w agent limits model (λ n u. All IsPermitted u) (λ n u h. h)
        (λ n s u h. step-IsPermitted s u h) iterations _ t

  step_counts :
      (n k c : ℕ) (s : Loop) (t : Trace)
      → (completions t + suc n ≤ k) × (tool_requests t + suc n ≤ c)
      → (completions (step lib w agent limits model s t).1 + n ≤ k)
        × (tool_requests (step lib w agent limits model s t).1 + n ≤ c)
  step_counts n k c s t h = elim (step_trace s t) [
    | inl e ↦ rw e (omega arith)
    | inr (b, inl e) ↦ rw e (omega arith)
    | inr (b, inr (name, arguments, m, e)) ↦ rw e (omega arith)
  ]

  -- A run of the loop ends after at most its number of rounds: it makes at most that many
  -- completions and at most that many calls of the tool server.
  pub run_counts :
      (iterations : ℕ) (system_prompt user_query : String) (t : Trace)
      → let t' = (run_tool_loop lib w agent limits model iterations system_prompt user_query t).1 in
        (completions t' ≤ completions t + iterations)
        × (tool_requests t' ≤ tool_requests t + iterations)
  unfolding run_tool_loop
  run_counts iterations system_prompt user_query t =
      let k : ℕ = completions t + iterations in
      let c : ℕ = tool_requests t + iterations in
      let counted =
        rounds_trace_rule lib w agent limits model
          (λ n u. (completions u + n ≤ k) × (tool_requests u + n ≤ c)) (λ n u h. omega arith)
          (λ n s u h. step_counts n k c s u h) iterations
          (start lib w agent limits model system_prompt user_query) t (omega arith) in
      omega arith
