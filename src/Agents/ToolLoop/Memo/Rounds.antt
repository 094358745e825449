-- ===== src/Agents/ToolLoop/Memo/Rounds.antt =====
-- The cache and the entries of the loop, over its rounds.
use mathlib.Core.List.{append-nil}
use mathlib.Core.Path.{subst}
use dealership_agent.Agents.Tokens.{estimate_messages_tokens}
use dealership_agent.Agents.ToolBinding.{SubAgent, call_tool}
use dealership_agent.Agents.ToolLoop.{
  Limits, Loop, Step, ToolCall, ToolLoopResult, after_completion, already_called, cache_key,
  compact, decide, failed, lookup, more, observe, read_reply, returned, run_tool_loop, start, step,
  use_cached, use_failed, use_fresh, use_tool,
}
use dealership_agent.Agents.ToolLoop.Memo.{
  Agrees, IsMemo, IsMemo-cached, IsMemo-failed, IsMemo-fresh, fresh_entries, fresh_entries-append,
  lookup-append, lookup-append_none,
}
use dealership_agent.Agents.ToolLoop.Rule.{After, rounds_rule}
use dealership_agent.Base.{
  Bool-cases, List, Option, Option-cases, String, [], arith, eq_iff, false, inl, inr, leb, none,
  refl, some, sym, true, ℕ, ◌++◌, ◌∙◌, ◌∷◌, ◌≡◌,
}
use dealership_agent.Python.{
  Exn, Fields, Library, Outcome, Trace, Value, World, arr, bool, end, field, get, is_str, null, num,
  obj, ok, raise, str, ◌>>=◌,
}

-- What an outcome of the loop says: nothing if it raised.
abbrev MemoOutcome : Library → Outcome ToolLoopResult → Trace → Type 0
MemoOutcome lib (ok r) t = IsMemo lib r.tool_calls
MemoOutcome lib (raise e) t = Unit

module _ (lib : Library) (w : World) (agent : SubAgent) (limits : Limits) (model : String) where
  abbrev Kept : ℕ → Outcome Step → Trace → Type 0
  Kept = After lib w agent limits model (λ n s u. Agrees lib s) (MemoOutcome lib)

  use_cached-Kept :
      (n : ℕ) (t : Trace) (s : Loop) (tool arguments result : Value)
      → Agrees lib s
      → lookup (cache_key lib tool arguments) s.call_cache ≡ some result
      → Kept n (use_cached lib w agent limits model s tool arguments result) t
  unfolding use_cached observe
  use_cached-Kept n t s tool arguments result a h = go (compact lib w agent limits model result)
    where
      entry : ToolCall
      entry = returned tool arguments result true

      kept : IsMemo lib (s.tool_calls ++ entry ∷ [])
      kept = IsMemo-cached lib s.tool_calls tool arguments a.memo result (sym (a.same _) ∙ h)

      same :
          (k : String)
          → lookup k s.call_cache ≡ lookup k (fresh_entries lib (s.tool_calls ++ entry ∷ []))
      same k = rw (fresh_entries-append lib s.tool_calls (entry ∷ []), append-nil) (a.same k)

      go :
          (r : Outcome String)
          → Kept n
              (r >>= λ compacted. ok (
                more (
                  observe lib w agent limits model s (s.tool_calls ++ entry ∷ []) s.call_cache (
                    field "tool" tool
                      (field "result" (str compacted) (field "note" (str already_called) end))))))
              t
      go (raise e) = tt
      go (ok c) = record { memo = kept; same = same }

  use_failed_agrees :
      (s : Loop) (tool arguments : Value) (calls : List ToolCall) (cache : List (String × Value))
      (e : Exn)
      → IsMemo lib calls
      → ((k : String) → lookup k cache ≡ lookup k (fresh_entries lib calls))
      → (n : ℕ) (t : Trace)
      → Kept n (ok (use_failed lib w agent limits model s tool arguments calls cache e)) t
  unfolding use_failed observe
  use_failed_agrees s tool arguments calls cache e m same n t = record {
    memo = IsMemo-failed lib calls tool arguments m _;
    same = λ k.
        rw (fresh_entries-append lib calls (failed tool arguments _ ∷ []), append-nil) (same k);
  }

  -- A new key in front of the cache and at the end of the served entries.
  same_fresh :
      (key k : String) (result : Value) (cache served : List (String × Value))
      → ((j : String) → lookup j cache ≡ lookup j served)
      → lookup key served ≡ none
      → lookup k ((key, result) ∷ cache) ≡ lookup k (served ++ (key, result) ∷ [])
  unfolding lookup
  same_fresh key k result cache served same h = elim (Option-cases (lookup k served)) [
    | inl e ↦ rw (lookup-append_none k served ((key, result) ∷ []) e) (ground (arith, same k))
    | inr (v, e) ↦
        rw (lookup-append k served ((key, result) ∷ []) v e) (ground (arith, same k, eq_iff key k))
  ]

  use_fresh-Kept :
      (n : ℕ) (t : Trace) (s : Loop) (tool arguments : Value) (r : Outcome Value)
      → Agrees lib s
      → lookup (cache_key lib tool arguments) s.call_cache ≡ none
      → Kept n
          (ok
            (use_fresh lib w agent limits model s (cache_key lib tool arguments) tool arguments r))
          t
  unfolding use_fresh observe
  use_fresh-Kept n t s tool arguments (raise e) a h =
      use_failed_agrees s tool arguments s.tool_calls s.call_cache e a.memo a.same n t
  use_fresh-Kept n t s tool arguments (ok result) a h = go (compact lib w agent limits model result)
    where
      key : String
      key = cache_key lib tool arguments

      unserved : lookup key (fresh_entries lib s.tool_calls) ≡ none
      unserved = sym (a.same key) ∙ h

      calls : List ToolCall
      calls = s.tool_calls ++ returned tool arguments result false ∷ []

      kept : IsMemo lib calls
      kept = IsMemo-fresh lib s.tool_calls tool arguments a.memo result unserved

      same :
          (k : String)
          → lookup k ((key, result) ∷ s.call_cache) ≡ lookup k (fresh_entries lib calls)
      same k =
          rw (fresh_entries-append lib s.tool_calls (returned tool arguments result false ∷ []))
            (same_fresh key k result s.call_cache (fresh_entries lib s.tool_calls) a.same unserved)

      go :
          (c : Outcome String)
          → Kept n
              (ok (elim c [
                | raise e ↦
                    use_failed lib w agent limits model s tool arguments calls
                      ((key, result) ∷ s.call_cache)
                      e
                | ok compacted ↦ more (
                    observe lib w agent limits model s calls
                      ((key, result) ∷ s.call_cache)
                      (field "tool" tool (field "result" (str compacted) end)))
              ]))
              t
      go (raise e) =
          use_failed_agrees s tool arguments calls ((key, result) ∷ s.call_cache) e kept same n t
      go (ok c) = record { memo = kept; same = same }

  use_tool-Kept :
      (n : ℕ) (s : Loop) (tool arguments : Value) (t : Trace)
      → Agrees lib s
      → let out = use_tool lib w agent limits model s tool arguments t in Kept n out.0 out.1
  unfolding use_tool
  use_tool-Kept n s tool arguments t a =
      elim (Option-cases (lookup (cache_key lib tool arguments) s.call_cache)) [
        | inl e ↦
            rw (e, use_tool)
              (use_fresh-Kept n _ s tool arguments (call_tool w agent tool arguments t).0 a e)
        | inr (v, e) ↦ rw (e, use_tool) (use_cached-Kept n t s tool arguments v a e)
      ]

  decide-Kept :
      (n : ℕ) (s : Loop) (raw : String) (decision : Fields) (t : Trace)
      → Agrees lib s
      → let out = decide lib w agent limits model s raw decision t in Kept n out.0 out.1
  unfolding decide
  decide-Kept n s raw decision t a = elim (Bool-cases (is_str "final" (get "action" decision))) [
    | inl h ↦ rw h a.memo
    | inr h ↦ rw h (elim (Bool-cases (is_str "call_tool" (get "action" decision))) [
      | inl k ↦ rw k (use_tool-Kept n _ _ _ t (record { memo = a.memo; same = a.same }))
      | inr k ↦ rw k a.memo
    ])
  ]

  read_reply-Kept :
      (n : ℕ) (s : Loop) (raw : String) (v : Option Value) (t : Trace)
      → Agrees lib s
      → let out = read_reply lib w agent limits model s raw v t in Kept n out.0 out.1
  unfolding read_reply
  read_reply-Kept n s raw none t a = a.memo
  read_reply-Kept n s raw (some null) t a = tt
  read_reply-Kept n s raw (some (bool b)) t a = tt
  read_reply-Kept n s raw (some (num x)) t a = tt
  read_reply-Kept n s raw (some (str x)) t a = tt
  read_reply-Kept n s raw (some (arr vs)) t a = tt
  read_reply-Kept n s raw (some (obj decision)) t a = decide-Kept n s raw decision t a

  after_completion-Kept :
      (n : ℕ) (s : Loop) (r : Outcome String) (t : Trace)
      → Agrees lib s
      → let out = after_completion lib w agent limits model s r t in Kept n out.0 out.1
  unfolding after_completion
  after_completion-Kept n s (raise e) t a = a.memo
  after_completion-Kept n s (ok raw) t a = read_reply-Kept n s raw (lib.loads raw) t a

  step-Kept :
      (n : ℕ) (s : Loop) (t : Trace)
      → Agrees lib s
      → let out = step lib w agent limits model s t in Kept n out.0 out.1
  unfolding step
  step-Kept n s t a =
      elim (Bool-cases (leb limits.token_budget (estimate_messages_tokens s.messages))) [
        | inl h ↦ rw h a.memo
        | inr h ↦ rw h (after_completion-Kept n s (w.complete t s.messages model) _ a)
      ]

  pub IsMemo-kept :
      (iterations : ℕ) (system_prompt user_query : String) (t : Trace) (r : ToolLoopResult)
      → (run_tool_loop lib w agent limits model iterations system_prompt user_query t).0 ≡ ok r
      → IsMemo lib r.tool_calls
  unfolding run_tool_loop start
  IsMemo-kept iterations system_prompt user_query t r h =
      let first = start lib w agent limits model system_prompt user_query in
      let m =
        rounds_rule lib w agent limits model (λ n s u. Agrees lib s) (MemoOutcome lib)
          (λ s u a. a.memo) (λ n s u a. step-Kept n s u a) iterations first t
          (record { memo = record { distinct = tt; faithful = tt }; same = λ k. refl }) in
      subst
        (λ (o : Outcome ToolLoopResult).
          MemoOutcome lib o
            (run_tool_loop lib w agent limits model iterations system_prompt user_query t).1)
        h m
