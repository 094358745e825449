-- ===== src/Agents/ToolLoop/Rule.antt =====
-- The induction rule of the loop: an invariant of its variables and the trace, indexed by the rounds
-- that are left, and what it says of the outcome.
use dealership_agent.Agents.ToolBinding.{SubAgent}
use dealership_agent.Agents.ToolLoop.{
  Limits, Loop, Step, ToolLoopResult, cap_result, done, more, rounds, step,
}
use dealership_agent.Base.{String, suc, zero, ℕ}
use dealership_agent.Python.{Library, Outcome, Trace, World, continue, ok, pure, raise}

module _ (lib : Library) (w : World) (agent : SubAgent) (limits : Limits) (model : String)
    (I : ℕ → Loop → Trace → Type 0) (Q : Outcome ToolLoopResult → Trace → Type 0) where
  -- What a round must establish, with `n` rounds left after it.
  abbrev pub After : ℕ → Outcome Step → Trace → Type 0
  After n (raise e) t = Q (raise e) t
  After n (ok (done x)) t = Q (ok x) t
  After n (ok (more s)) t = I n s t

  after_round :
      (n : ℕ) (r : Outcome Step) (t : Trace)
      → After n r t
      → ((s : Loop) (t' : Trace)
          → I n s t'
          → Q (rounds lib w agent limits model n s t').0 (rounds lib w agent limits model n s t').1)
      → let out =
          continue r
            (λ next. elim next [ done x ↦ pure x | more s ↦ rounds lib w agent limits model n s ])
            t in
        Q out.0 out.1
  after_round n (raise e) t h ih = h
  after_round n (ok (done x)) t h ih = h
  after_round n (ok (more s)) t h ih = ih s t h

  pub rounds_rule :
      ((s : Loop) (t : Trace) → I 0 s t → Q (ok (cap_result s.tool_calls)) t)
      → ((n : ℕ) (s : Loop) (t : Trace)
          → I (suc n) s t
          → After n (step lib w agent limits model s t).0 (step lib w agent limits model s t).1)
      → (n : ℕ) (s : Loop) (t : Trace) → I n s t
      → Q (rounds lib w agent limits model n s t).0 (rounds lib w agent limits model n s t).1
  unfolding rounds
  rounds_rule last round zero s t h = last s t h
  rounds_rule last round (suc n) s t h =
      after_round n (step lib w agent limits model s t).0 (step lib w agent limits model s t).1
        (round n s t h) (rounds_rule last round n)

-- The rule for what is said of the trace alone.
module _ (lib : Library) (w : World) (agent : SubAgent) (limits : Limits) (model : String)
    (P : ℕ → Trace → Type 0) where
  trace-After :
      (n : ℕ) (r : Outcome Step) (t : Trace)
      → ((m : ℕ) (u : Trace) → P m u → P 0 u)
      → P n t
      → After lib w agent limits model (λ m s u. P m u) (λ o u. P 0 u) n r t
  trace-After n (raise e) t drop h = drop n t h
  trace-After n (ok (done x)) t drop h = drop n t h
  trace-After n (ok (more s)) t drop h = h

  pub rounds_trace_rule :
      ((m : ℕ) (u : Trace) → P m u → P 0 u)
      → ((m : ℕ) (s : Loop) (u : Trace) → P (suc m) u → P m (step lib w agent limits model s u).1)
      → (n : ℕ) (s : Loop) (t : Trace) → P n t
      → P 0 (rounds lib w agent limits model n s t).1
  rounds_trace_rule drop round =
      rounds_rule lib w agent limits model (λ m s u. P m u) (λ o u. P 0 u) (λ s u h. h)
        (λ m s u h. trace-After m _ _ drop (round m s u h))
