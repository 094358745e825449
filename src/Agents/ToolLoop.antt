-- ===== src/Agents/ToolLoop.antt =====
-- agents/tool_loop.py: the bounded tool-calling loop of a sub-agent. A round of the `for` loop is
-- `step`; `rounds` makes as many as are left, and `run_tool_loop` starts it.
pub mod Rule
pub mod Requests
pub mod Memo
pub mod Failures
use dealership_agent.Agents.Compaction.{compact_error, compact_tool_result}
use dealership_agent.Agents.Tokens.{estimate_messages_tokens}
use dealership_agent.Agents.ToolBinding.{SubAgent, ToolSpec, call_tool}
use dealership_agent.Base.{
  Bool, List, Option, String, [], false, if◌then◌else◌, join, leb, map, none, some, suc, true, zero,
  ℕ, ◌++◌, ◌<>◌, ◌=ₛ◌, ◌∷◌,
}
use dealership_agent.Python.{
  Action, Exn, Fields, Library, Message, Outcome, Role, Value, World, assistant, attempt,
  attribute_error, bind, complete, end, field, get, get?, is_str, lift, null, obj, ok, or_else,
  pure, raise, str, system, user, ◌>>=◌,
}

abbrev pub max_iterations : ℕ
max_iterations = 5

abbrev pub loop_instructions : String
loop_instructions =
    "\n\nFor each turn, reply with ONLY a single JSON object (no other text), in one of these two shapes:\n\n  {\"action\": \"call_tool\", \"tool\": \"<tool name>\", \"arguments\": {...}}\n  {\"action\": \"final\", \"answer\": \"<your answer to the customer>\"}\n\nCall a tool when you need information you don't already have. If a tool call returns zero results, try again with broader or different arguments (e.g. drop a filter) before giving up - do not immediately answer \"no results\" after a single narrow search. If a tool call fails, explain the limitation to the customer plainly rather than repeating the same failing call. Only reply with \"final\" once you can give the customer a real answer grounded in a tool result, or once you've made a genuine effort and should be honest that you couldn't find a match.\n"

-- An entry of `tool_calls`: with a result (and `"cached": True`), or with an error.
pub data ToolCall : Type 0 where
  returned : Value → Value → Value → Bool → ToolCall
  failed : Value → Value → String → ToolCall

pub record ToolLoopResult : Type 0 where
  pub final_answer : Value
  pub tool_calls : List ToolCall
  pub hit_cap : Bool
  pub llm_call_failed : Bool
  pub hit_budget_guard : Bool

-- _loop_result, with `None` and false where the caller gives nothing
abbrev pub final_result : Value → List ToolCall → ToolLoopResult
final_result answer calls = record {
  final_answer = answer;
  tool_calls = calls;
  hit_cap = false;
  llm_call_failed = false;
  hit_budget_guard = false;
}

abbrev pub cap_result : List ToolCall → ToolLoopResult
cap_result calls = record (final_result null calls) { hit_cap = true }

abbrev pub guard_result : List ToolCall → ToolLoopResult
guard_result calls = record (final_result null calls) { hit_budget_guard = true }

abbrev pub failed_result : List ToolCall → ToolLoopResult
failed_result calls = record (final_result null calls) { llm_call_failed = true }

-- The variables of the loop.
pub record Loop : Type 0 where
  pub messages : List Message
  pub tool_calls : List ToolCall
  pub call_cache : List (String × Value)

-- A round ends the loop or goes on.
pub data Step : Type 0 where
  done : ToolLoopResult → Step
  more : Loop → Step

pub record Limits : Type 0 where
  pub max_observation_chars : ℕ
  pub token_budget : ℕ

unfoldable pub lookup : String → List (String × Value) → Option Value
lookup k [] = none
lookup k ((j, v) ∷ m) = if j =ₛ k then some v else lookup k m

abbrev pub say : Role → String → Message
say role content = record { role = role; content = content }

abbrev pub already_called : String
already_called =
    "You already called this exact tool with these exact arguments earlier in this conversation - this is the same result, not a new search. Try different arguments or answer with what you have."

-- f"- {name}: {spec.description}\n  schema: {json.dumps(spec.input_schema)}"
abbrev describe_tool : Library → String × ToolSpec → String
describe_tool lib (name, spec) =
    "- "
    <> (name <> (": " <> (spec.description <> ("\n  schema: " <> lib.dumps spec.input_schema))))

unfoldable pub tool_descriptions : Library → SubAgent → String
tool_descriptions lib agent = join "\n" (map (describe_tool lib) agent.tool_specs)

-- decision.get("answer", "")
abbrev pub answer_or_text : Fields → Value
answer_or_text decision = elim (get? "answer" decision) [ none ↦ str "" | some v ↦ v ]

-- json.dumps({"tool": …, "arguments": …}, sort_keys=True)
abbrev pub cache_key : Library → Value → Value → String
cache_key lib tool arguments =
    lib.dumps_sorted (obj (field "tool" tool (field "arguments" arguments end)))

module _ (lib : Library) (w : World) (agent : SubAgent) (limits : Limits) (model : String) where
  -- The next state: the observation closes the round.
  unfoldable pub observe : Loop → List ToolCall → List (String × Value) → Fields → Loop
  observe s calls cache observation = record {
    messages = s.messages ++ say user ("Tool observation: " <> lib.dumps (obj observation)) ∷ [];
    tool_calls = calls;
    call_cache = cache;
  }

  abbrev pub compact : Value → Outcome String
  compact = compact_tool_result lib limits.max_observation_chars

  -- The key was called before. Here an error of the compaction is not caught.
  unfoldable pub use_cached : Loop → Value → Value → Value → Outcome Step
  unfolding observe
  use_cached s tool arguments result = compact result >>= λ compacted. ok (
      more (
        observe s (s.tool_calls ++ returned tool arguments result true ∷ []) s.call_cache (
          field "tool" tool
            (field "result" (str compacted) (field "note" (str already_called) end)))))

  -- The `except` branch: after the entries that were made before the error.
  unfoldable pub use_failed :
      Loop → Value → Value → List ToolCall → List (String × Value) → Exn → Step
  unfolding observe
  use_failed s tool arguments calls cache e =
      let error_text = compact_error limits.max_observation_chars (lib.message e) in
      more (
        observe s (calls ++ failed tool arguments error_text ∷ []) cache
          (field "tool" tool (field "error" (str error_text) end)))

  -- The `try` block. The entry and the cache are written before the compaction, which may raise.
  unfoldable pub use_fresh : Loop → String → Value → Value → Outcome Value → Step
  unfolding use_failed
  use_fresh s key tool arguments (raise e) = use_failed s tool arguments s.tool_calls s.call_cache e
  use_fresh s key tool arguments (ok result) =
      let calls = s.tool_calls ++ returned tool arguments result false ∷ [] in
      let cache = (key, result) ∷ s.call_cache in
      elim (compact result) [
        | raise e ↦ use_failed s tool arguments calls cache e
        | ok compacted ↦
            more (observe s calls cache (field "tool" tool (field "result" (str compacted) end)))
      ]

  -- From the cache lookup to the end of the round.
  unfoldable pub use_tool : Loop → Value → Value → Action Step
  unfolding use_cached use_fresh
  use_tool s tool arguments = elim (lookup (cache_key lib tool arguments) s.call_cache) [
    | some result ↦ lift (use_cached s tool arguments result)
    | none ↦
        bind (attempt (call_tool w agent tool arguments))
          (λ r. pure (use_fresh s (cache_key lib tool arguments) tool arguments r))
  ]

  -- What the reply asks for, once it is known to be a JSON object.
  unfoldable pub decide : Loop → String → Fields → Action Step
  unfolding use_tool
  decide s raw decision =
      if is_str "final" (get "action" decision)
      then pure (done (final_result (answer_or_text decision) s.tool_calls))
      else if is_str "call_tool" (get "action" decision)
      then use_tool (record s { messages = s.messages ++ say assistant raw ∷ [] })
          (get "tool" decision) (or_else (get "arguments" decision) (obj end))
      else pure (done (final_result (str raw) s.tool_calls))

  -- `decision.get` of a reply that is JSON and no object is an AttributeError, caught nowhere.
  unfoldable pub read_reply : Loop → String → Option Value → Action Step
  unfolding decide
  read_reply s raw none = pure (done (final_result (str raw) s.tool_calls))
  read_reply s raw (some (obj decision)) = decide s raw decision
  read_reply s raw (some _) = lift (raise attribute_error)

  unfoldable pub after_completion : Loop → Outcome String → Action Step
  unfolding read_reply
  after_completion s (raise e) = pure (done (failed_result s.tool_calls))
  after_completion s (ok raw) = read_reply s raw (lib.loads raw)

  unfoldable pub step : Loop → Action Step
  unfolding after_completion complete
  step s =
      if leb limits.token_budget (estimate_messages_tokens s.messages)
      then pure (done (guard_result s.tool_calls))
      else bind (attempt (complete w s.messages model)) (after_completion s)

  -- `for iteration in range(max_iterations)`
  unfoldable pub rounds : ℕ → Loop → Action ToolLoopResult
  rounds zero s = pure (cap_result s.tool_calls)
  rounds (suc left) s =
      bind (step s) (λ next. elim next [ done r ↦ pure r | more s' ↦ rounds left s' ])

  unfoldable pub start : String → String → Loop
  start system_prompt user_query = record {
    messages =
        say system (
          system_prompt
          <> ("\n\nYou have the following tools available:\n\n"
              <> (tool_descriptions lib agent <> loop_instructions)))
        ∷ say user user_query
        ∷ [];
    tool_calls = [];
    call_cache = [];
  }

  unfoldable pub run_tool_loop : ℕ → String → String → Action ToolLoopResult
  run_tool_loop iterations system_prompt user_query =
      rounds iterations (start system_prompt user_query)
