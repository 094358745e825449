-- ===== src/Llm/Groq.antt =====
-- llm/groq_provider.py: the explicit retry loop. The Groq client is outside the program: it answers
-- by a function of the number of the call. Delays are whole ticks of the clock.
pub mod Retries
use dealership_agent.Base.{Option, String, min, none, some, suc, zero, ℕ, ◌*◌, ◌+◌, ◌-◌, ◌^◌}
use dealership_agent.Llm.Normalize.{normalize_llm_response}
use dealership_agent.Python.{Exn, Library, Outcome, attempt, ok, raise}

-- What one request gives: a completion, an error of `_RETRYABLE_EXCEPTIONS`, or any other.
pub data Reply : Type 0 where
  -- `response.choices[0].message.content`
  completed : Option String → Reply
  retryable : Exn → Reply
  rejected : Exn → Reply

pub record GroqProvider : Type 0 where
  pub max_retries : ℕ
  pub base_delay : ℕ
  pub max_delay : ℕ

-- The result, how many requests were made, and how long the provider slept.
pub record Completion : Type 0 where
  pub result : Outcome String
  pub requests : ℕ
  pub slept : ℕ

unfoldable pub delay_after : GroqProvider → ℕ → ℕ
delay_after p attempt = min (p.base_delay * 2 ^ (attempt - 1)) p.max_delay

-- content or ""
abbrev pub content_or_empty : Option String → String
content_or_empty none = ""
content_or_empty (some s) = s

module _ (lib : Library) (p : GroqProvider) (client : ℕ → Reply) where
  abbrev pub finish : ℕ → ℕ → Outcome String → Completion
  finish attempt slept result = record { result = result; requests = suc attempt; slept = slept }

  -- What a reply leads to, when `retry` is what an error to retry leads to.
  abbrev pub respond : ℕ → ℕ → Reply → (Exn → Completion) → Completion
  respond attempt slept (completed content) retry =
      finish attempt slept (ok (normalize_llm_response lib (content_or_empty content)))
  respond attempt slept (rejected e) retry = finish attempt slept (raise e)
  respond attempt slept (retryable e) retry = retry e

  -- The passes of `while True`: after `attempt` errors, with `left` retries left.
  unfoldable pub attempts : ℕ → ℕ → ℕ → Completion
  unfolding delay_after
  attempts zero attempt slept =
      respond attempt slept (client attempt) (λ e. finish attempt slept (raise e))
  attempts (suc left) attempt slept =
      respond attempt slept (client attempt)
        (λ e. attempts left (suc attempt) (slept + delay_after p (suc attempt)))

  unfoldable pub complete : Completion
  unfolding attempts
  complete = attempts p.max_retries 0 0
