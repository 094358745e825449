-- ===== src/Agents/Tokens.antt =====
-- agents/tokens.py: the estimate of four characters to a token.
use dealership_agent.Base.{ℕ, ◌+◌, ◌/◌, max, List, [], ◌∷◌, ◌++◌, String, ◌≡◌, arith, len}
use dealership_agent.Python.{Message}

unfoldable pub estimate_tokens : String → ℕ
estimate_tokens text = max 1 (len text / 4)

unfoldable pub estimate_messages_tokens : List Message → ℕ
estimate_messages_tokens [] = 0
estimate_messages_tokens (m ∷ ms) = estimate_tokens m.content + estimate_messages_tokens ms

-- The estimate of a history is the sum over its parts, so a longer history never looks cheaper.
pub estimate-append :
    (ms ns : List Message)
    → estimate_messages_tokens (ms ++ ns)
      ≡ estimate_messages_tokens ms + estimate_messages_tokens ns
unfolding estimate_messages_tokens
estimate-append [] ns = omega arith
estimate-append (m ∷ ms) ns = omega (arith, estimate-append ms ns)
