-- ===== src/Llm/Groq/Retries.antt =====
-- How often the provider asks, how long it waits, and what it returns.
use dealership_agent.Base.{ℕ, zero, suc, ◌+◌, ◌*◌, ◌≤◌, ◌≡◌, refl, ap, ◌∙◌, arith}
use dealership_agent.Llm.Groq.{
  GroqProvider, Reply, Completion, delay_after, attempts, complete, retryable, rejected, completed,
  content_or_empty, finish, respond,
}
use dealership_agent.Llm.Normalize.{normalize_llm_response}
use dealership_agent.Python.{Exn, Library, ok, raise}

delay_bound : (p : GroqProvider) (attempt : ℕ) → delay_after p attempt ≤ p.max_delay
unfolding delay_after
delay_bound p attempt = omega arith

-- The replies number `from`, `from + 1`, … , `from + n - 1` were errors to retry.
abbrev pub AllRetryable : (ℕ → Reply) → ℕ → ℕ → Type 0
AllRetryable client from zero = Unit
AllRetryable client from (suc n) =
    ((e : Exn) × (client from ≡ retryable e)) × AllRetryable client (suc from) n

module _ (lib : Library) (p : GroqProvider) (client : ℕ → Reply) where
  -- What the last reply makes of the call; `spent` says that no retry is left.
  abbrev pub Decided : Completion → Type 0 → Reply → Type 0
  Decided c Spent (completed content) =
      c.result ≡ ok (normalize_llm_response lib (content_or_empty content))
  Decided c Spent (rejected e) = c.result ≡ raise e
  Decided c Spent (retryable e) = (c.result ≡ raise e) × Spent

  -- After `n` errors to retry the next reply decided.
  abbrev pub IsRun : ℕ → ℕ → ℕ → Completion → Type 0
  IsRun left attempt slept c =
      (n : ℕ) × (c.requests ≡ suc (attempt + n))
      × (n ≤ left)
      × (c.slept ≤ slept + n * p.max_delay)
      × AllRetryable client attempt n
      × Decided c (n ≡ left) (client (attempt + n))

  at_once :
      (left attempt slept : ℕ) (c : Completion) (r : Reply)
      → client attempt ≡ r
      → c.requests ≡ suc attempt
      → c.slept ≡ slept
      → Decided c (0 ≡ left) r
      → IsRun left attempt slept c
  at_once left attempt slept c r e q w d =
      let same : client (attempt + 0) ≡ r = ap client (omega arith) ∙ e in
      (0, omega arith, omega arith, omega arith, tt, rw same d)

  later :
      (left attempt slept wait : ℕ) (c : Completion) (e : Exn)
      → client attempt ≡ retryable e
      → wait ≤ p.max_delay
      → IsRun left (suc attempt) (slept + wait) c
      → IsRun (suc left) attempt slept c
  later left attempt slept wait c e h b (n, q, m, w, a, d) = (
    suc n,
    omega arith,
    omega arith,
    grind arith,
    ((e, h), a),
    let same : client (attempt + suc n) ≡ client (suc attempt + n) = ap client (omega arith) in
        rw same (spend (client (suc attempt + n)) d),
  )
    where
      spend : (r : Reply) → Decided c (n ≡ left) r → Decided c (suc n ≡ suc left) r
      spend (completed content) d = d
      spend (rejected e) d = d
      spend (retryable e) d = (d.0, omega (arith, d.1))

  attempts-IsRun :
      (left attempt slept : ℕ) → IsRun left attempt slept (attempts lib p client left attempt slept)
  unfolding attempts
  attempts-IsRun zero attempt slept = go (client attempt) refl
    where
      go :
          (r : Reply)
          → client attempt ≡ r
          → IsRun 0 attempt slept (
              respond lib p client attempt slept r
                (λ e. finish lib p client attempt slept (raise e)))
      go (completed content) e = at_once 0 attempt slept _ _ e refl refl refl
      go (rejected x) e = at_once 0 attempt slept _ _ e refl refl refl
      go (retryable x) e = at_once 0 attempt slept _ _ e refl refl (refl, refl)
  attempts-IsRun (suc left) attempt slept =
      go (attempts-IsRun left (suc attempt) (slept + delay_after p (suc attempt))) (client attempt)
        refl
    where
      go :
          IsRun left
            (suc attempt)
            (slept + delay_after p (suc attempt))
            (attempts lib p client left (suc attempt) (slept + delay_after p (suc attempt)))
          → (r : Reply) → client attempt ≡ r
          → IsRun (suc left) attempt slept (
              respond lib p client attempt slept r (λ e.
                attempts lib p client left (suc attempt) (slept + delay_after p (suc attempt))))
      go ih (completed content) e = at_once (suc left) attempt slept _ _ e refl refl refl
      go ih (rejected x) e = at_once (suc left) attempt slept _ _ e refl refl refl
      go ih (retryable x) e =
          later left attempt slept (delay_after p (suc attempt)) _ x e (delay_bound p (suc attempt))
            ih

  -- A call asks at most `max_retries` times more than once and sleeps at most `max_delay` for each
  -- retry. Every request but the last one met an error worth a retry. The last reply decides: a
  -- completion is returned normalized, an error of another kind is raised at once, and an error
  -- worth a retry is raised only when the retries are spent.
  pub complete_retries : IsRun p.max_retries 0 0 (complete lib p client)
  unfolding complete
  complete_retries = attempts-IsRun p.max_retries 0 0
