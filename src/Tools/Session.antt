-- ===== src/Tools/Session.antt =====
-- agents/mcp_session.py and tools/server.py, `_identity_from_env`: how the identity of a turn reaches
-- the process of the tool server. An environment is the list of its variables, as `os.environ` has
-- them.
pub mod Travel
use dealership_agent.Base.{List, Option, String, [], if◌then◌else◌, none, some, ℤ, ◌=ₛ◌, ◌∷◌}
use dealership_agent.Python.{Outcome, Value, ok, raise, str, type_error, value_error, ◌>>=◌}
use dealership_agent.Tools.Identity.{RequestIdentity}

abbrev pub Environment : Type 0
Environment = List (String × String)

abbrev pub session_id_env_var : String
session_id_env_var = "DEALERSHIP_MCP_SESSION_ID"

abbrev pub customer_id_env_var : String
customer_id_env_var = "DEALERSHIP_MCP_CUSTOMER_ID"

-- os.environ.get(name)
unfoldable pub get_env : String → Environment → Option String
get_env name [] = none
get_env name ((k, v) ∷ rest) = if k =ₛ name then some v else get_env name rest

-- {**env, name: value}
unfoldable pub set_env : String → String → Environment → Environment
set_env name value [] = (name, value) ∷ []
set_env name value ((k, v) ∷ rest) =
    let later = set_env name value rest in if k =ₛ name then (k, value) ∷ rest else (k, v) ∷ later

-- `str(customer_id)` and `int(text)`, which fails with a ValueError.
pub record Printing : Type 0 where
  pub print_int : ℤ → String
  pub parse_int : String → Option ℤ

-- A session id that is no text cannot stand in an environment.
abbrev pub session_text : Value → Outcome String
session_text (str s) = ok s
session_text v = raise type_error

unfoldable pub with_customer : Printing → Option ℤ → Environment → Environment
unfolding set_env
with_customer printing none env = env
with_customer printing (some c) env = set_env customer_id_env_var (printing.print_int c) env

-- open_mcp_session, the environment of the process that it starts
unfoldable pub session_environment : Printing → Environment → RequestIdentity → Outcome Environment
unfolding with_customer
session_environment printing parent identity = session_text identity.session_id >>= λ session.
    ok (with_customer printing identity.customer_id (set_env session_id_env_var session parent))

-- int(customer_id_str) if customer_id_str else None
unfoldable pub customer_from : Printing → Option String → Outcome (Option ℤ)
customer_from printing none = ok none
customer_from printing (some text) =
    if text =ₛ ""
    then ok none
    else elim (printing.parse_int text) [ none ↦ raise value_error | some c ↦ ok (some c) ]

unfoldable pub identity_with :
    Printing → Environment → Option String → Outcome (Option RequestIdentity)
unfolding customer_from get_env
identity_with printing env none = ok none
identity_with printing env (some session) =
    if session =ₛ ""
    then ok none
    else (customer_from printing (get_env customer_id_env_var env) >>= λ customer.
        ok (some (record { session_id = str session; customer_id = customer })))

-- _identity_from_env
unfoldable pub identity_from_env : Printing → Environment → Outcome (Option RequestIdentity)
unfolding identity_with get_env
identity_from_env printing env = identity_with printing env (get_env session_id_env_var env)
