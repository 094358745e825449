-- ===== src/Agents/ToolLoop/Failures.antt =====
-- How a run of the loop ends: when it returns, with what, and when it raises.
use mathlib.Core.Path.{subst}
use dealership_agent.Agents.Tokens.{estimate_messages_tokens}
use dealership_agent.Agents.ToolBinding.{SubAgent, call_tool}
use dealership_agent.Agents.ToolLoop.{
  Limits, Loop, Step, ToolLoopResult, after_completion, answer_or_text, cache_key, compact, decide,
  lookup, observe, read_reply, run_tool_loop, start, step, use_cached, use_fresh, use_tool,
}
use dealership_agent.Agents.ToolLoop.Rule.{After, rounds_rule}
use dealership_agent.Base.{
  All, Bool, Bool-cases, List, Option, Option-cases, String, [], arith, false, if◌then◌else◌, inl,
  inr, leb, none, refl, some, true, ℕ, ◌+◌, ◌=ₛ◌, ◌∷◌, ◌≡◌, ◌⊎◌,
}
use dealership_agent.Python.{
  Fields, Library, Message, Outcome, Trace, Value, World, arr, bool, get, is_null, is_str, null,
  num, obj, ok, raise, str,
}

abbrev bit : Bool → ℕ
bit b = if b then 1 else 0

-- How many of the three ways to end with no answer a result names.
abbrev pub flags : ToolLoopResult → ℕ
flags r = bit r.hit_cap + bit r.llm_call_failed + bit r.hit_budget_guard

-- An answer and no flag, or one flag and no answer.
abbrev pub IsOneWay : ToolLoopResult → Type 0
IsOneWay r =
    ((flags r ≡ 0) × (is_null r.final_answer ≡ false))
    ⊎ ((flags r ≡ 1) × (is_null r.final_answer ≡ true))

-- What a reply may parse to: nothing, or an object whose answer, if it has one, is not null.
abbrev pub IsReply : Option Value → Type 0
IsReply none = Unit
IsReply (some (obj decision)) = is_null (answer_or_text decision) ≡ false
IsReply (some _) = ⊥

module _ (lib : Library) (w : World) (agent : SubAgent) (limits : Limits) (model : String) where
  abbrev pub IsCompact : Value → Type 0
  IsCompact v = (c : String) × (compact lib w agent limits model v ≡ ok c)

  -- What the model and the tool server must do for a run to return.
  pub record Cooperates : Type 0 where
    pub replies :
        (t : Trace) (messages : List Message) (m raw : String)
        → w.complete t messages m ≡ ok raw
        → IsReply (lib.loads raw)
    pub results :
        (tool arguments v : Value) (t : Trace)
        → (call_tool w agent tool arguments t).0 ≡ ok v
        → IsCompact v

  abbrev CacheCompact : List (String × Value) → Type 0
  CacheCompact = All (λ e. IsCompact e.1)

  lookup-CacheCompact :
      (k : String) (v : Value) (m : List (String × Value))
      → CacheCompact m
      → lookup k m ≡ some v
      → IsCompact v
  unfolding lookup
  lookup-CacheCompact k v [] h e = absurd (ground arith)
  lookup-CacheCompact k v ((j, u) ∷ m) h e = elim (Bool-cases (j =ₛ k)) [
    | inl hit ↦ let same : u ≡ v = ground arith in subst IsCompact same h.0
    | inr miss ↦ lookup-CacheCompact k v m h.1 (rw miss at e)
  ]

  abbrev Returned : Outcome ToolLoopResult → Trace → Type 0
  Returned (ok r) t = IsOneWay r
  Returned (raise e) t = ⊥

  abbrev Going : ℕ → Outcome Step → Trace → Type 0
  Going = After lib w agent limits model (λ n s u. CacheCompact s.call_cache) Returned

  use_cached-Going :
      (n : ℕ) (t : Trace) (s : Loop) (tool arguments result : Value)
      → CacheCompact s.call_cache
      → IsCompact result
      → Going n (use_cached lib w agent limits model s tool arguments result) t
  unfolding use_cached observe
  use_cached-Going n t s tool arguments result h (c, e) = rw e h

  use_fresh-Going :
      (n : ℕ) (t : Trace) (s : Loop) (key : String) (tool arguments : Value) (r : Outcome Value)
      → CacheCompact s.call_cache
      → ((v : Value) → r ≡ ok v → IsCompact v)
      → Going n (ok (use_fresh lib w agent limits model s key tool arguments r)) t
  unfolding use_fresh observe
  use_fresh-Going n t s key tool arguments (raise e) h f = h
  use_fresh-Going n t s key tool arguments (ok v) h f = go (f v refl)
    where
      go :
          IsCompact v
          → Going n (ok (use_fresh lib w agent limits model s key tool arguments (ok v))) t
      go (c, e) = rw (e, use_fresh) ((c, e), h)

  module _ (coop : Cooperates) where
    use_tool-Going :
        (n : ℕ) (s : Loop) (tool arguments : Value) (t : Trace)
        → CacheCompact s.call_cache
        → let out = use_tool lib w agent limits model s tool arguments t in Going n out.0 out.1
    unfolding use_tool
    use_tool-Going n s tool arguments t h =
        elim (Option-cases (lookup (cache_key lib tool arguments) s.call_cache)) [
          | inl e ↦
              rw (e, use_tool)
                (use_fresh-Going n _ s _ tool arguments (call_tool w agent tool arguments t).0 h
                  (λ v f. coop.results tool arguments v t f))
          | inr (v, e) ↦
              rw (e, use_tool)
                (use_cached-Going n t s tool arguments v h
                  (lookup-CacheCompact _ v s.call_cache h e))
        ]

    decide-Going :
        (n : ℕ) (s : Loop) (raw : String) (decision : Fields) (t : Trace)
        → CacheCompact s.call_cache
        → is_null (answer_or_text decision) ≡ false
        → let out = decide lib w agent limits model s raw decision t in Going n out.0 out.1
    unfolding decide
    decide-Going n s raw decision t h a =
        elim (Bool-cases (is_str "final" (get "action" decision))) [
          | inl f ↦ rw f (inl (refl, a))
          | inr f ↦ rw f (elim (Bool-cases (is_str "call_tool" (get "action" decision))) [
            | inl k ↦ rw k (use_tool-Going n _ _ _ t h)
            | inr k ↦ rw k (inl (refl, refl))
          ])
        ]

    read_reply-Going :
        (n : ℕ) (s : Loop) (raw : String) (v : Option Value) (t : Trace)
        → CacheCompact s.call_cache
        → IsReply v
        → let out = read_reply lib w agent limits model s raw v t in Going n out.0 out.1
    unfolding read_reply
    read_reply-Going n s raw none t h r = inl (refl, refl)
    read_reply-Going n s raw (some (obj decision)) t h r = decide-Going n s raw decision t h r
    read_reply-Going n s raw (some null) t h r = absurd r
    read_reply-Going n s raw (some (bool b)) t h r = absurd r
    read_reply-Going n s raw (some (num b)) t h r = absurd r
    read_reply-Going n s raw (some (str b)) t h r = absurd r
    read_reply-Going n s raw (some (arr b)) t h r = absurd r

    after_completion-Going :
        (n : ℕ) (s : Loop) (r : Outcome String) (t : Trace)
        → CacheCompact s.call_cache
        → ((raw : String) → r ≡ ok raw → IsReply (lib.loads raw))
        → let out = after_completion lib w agent limits model s r t in Going n out.0 out.1
    unfolding after_completion
    after_completion-Going n s (raise e) t h f = inr (refl, refl)
    after_completion-Going n s (ok raw) t h f =
        read_reply-Going n s raw (lib.loads raw) t h (f raw refl)

    step-Going :
        (n : ℕ) (s : Loop) (t : Trace)
        → CacheCompact s.call_cache
        → let out = step lib w agent limits model s t in Going n out.0 out.1
    unfolding step
    step-Going n s t h =
        elim (Bool-cases (leb limits.token_budget (estimate_messages_tokens s.messages))) [
          | inl b ↦ rw b (inr (refl, refl))
          | inr b ↦ rw b (
              after_completion-Going n s (w.complete t s.messages model) _ h
                (λ raw e. coop.replies t s.messages model raw e))
        ]

    value-Returned :
        (o : Outcome ToolLoopResult) (t : Trace)
        → Returned o t
        → (r : ToolLoopResult) × (o ≡ ok r) × IsOneWay r
    value-Returned (ok r) t h = (r, refl, h)
    value-Returned (raise e) t h = absurd h

    -- If each reply of the model is no JSON, or an object whose answer is not null, and each result
    -- of the tool server can be compacted, then a run returns, whatever fails on the way: with an
    -- answer and no flag, or with no answer and exactly one of the three flags.
    pub run_returns :
        (iterations : ℕ) (system_prompt user_query : String) (t : Trace)
        → (r : ToolLoopResult) × ((run_tool_loop lib w agent limits model iterations system_prompt
              user_query t).0
            ≡ ok r)
          × IsOneWay r
    unfolding run_tool_loop start
    run_returns iterations system_prompt user_query t = value-Returned _ _ (
        rounds_rule lib w agent limits model (λ n s u. CacheCompact s.call_cache) Returned
          (λ s u h. inr (refl, refl)) (λ n s u h. step-Going n s u h) iterations
          (start lib w agent limits model system_prompt user_query) t tt)
