-- ===== src/Tools/Identity.antt =====
-- tools/identity.py: who a request is for.
use dealership_agent.Base.{Option, ℤ}
use dealership_agent.Python.{Value}

-- `customer_id` is missing for an anonymous session. The `session_id` of a token is any value.
pub record RequestIdentity : Type 0 where
  pub session_id : Value
  pub customer_id : Option ℤ
