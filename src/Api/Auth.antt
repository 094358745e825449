-- ===== src/Api/Auth.antt =====
-- api/auth.py: the identity of a request, from its bearer token.
pub mod Verified
use dealership_agent.Base.{Option, String, if◌then◌else◌, none, some, ℤ, ◌=ₛ◌}
use dealership_agent.Config.{Settings}
use dealership_agent.Python.{
  Exn, Fields, Outcome, Value, get, http_exception, ok, or_else, raise, str, truthy, ◌>>=◌,
}
use dealership_agent.Tools.Identity.{RequestIdentity}

-- What the code takes from its libraries: the reading of a file, `jose.jwt.decode` (token, key,
-- algorithm, audience and issuer; `none` is a JWTError), `int(…)` with its two errors as `none`,
-- and `str(uuid.uuid4())`.
pub record Jwt : Type 0 where
  pub read_file : String → Outcome String
  pub decode : String → String → String → String → String → Option Fields
  pub to_int : Value → Option ℤ
  pub new_session : String

abbrev pub unauthorized : String → Exn
unauthorized detail = http_exception 401 detail none

-- _load_public_key, with the RuntimeError of an empty path as the 401 that `verify_token` makes of it
unfoldable pub load_public_key : Jwt → String → Outcome String
load_public_key jwt path =
    if path =ₛ ""
    then raise
        (unauthorized "JWT_PUBLIC_KEY_PATH is not set - cannot verify tokens without a public key.")
    else jwt.read_file path

-- The last lines, from `int(subject)`.
abbrev pub identity_from : Jwt → Fields → Option ℤ → Outcome RequestIdentity
identity_from jwt claims none =
    raise (unauthorized "Token subject claim is not a valid customer id")
identity_from jwt claims (some customer) = ok (record {
  session_id = or_else (get "session_id" claims) (str jwt.new_session);
  customer_id = some customer;
})

unfoldable pub identity_of_claims : Jwt → Option Fields → Outcome RequestIdentity
identity_of_claims jwt none = raise (unauthorized "Invalid or expired token")
identity_of_claims jwt (some claims) =
    if truthy (get "sub" claims)
    then identity_from jwt claims (jwt.to_int (get "sub" claims))
    else raise (unauthorized "Token is missing a subject claim")

unfoldable pub verify_token : Jwt → Settings → String → Outcome RequestIdentity
unfolding load_public_key identity_of_claims
verify_token jwt settings token = load_public_key jwt settings.jwt_public_key_path >>= λ key.
    identity_of_claims jwt
      (jwt.decode token key settings.jwt_algorithm settings.jwt_audience settings.jwt_issuer)

-- From the credentials of the request, if it has any.
unfoldable pub get_current_identity : Jwt → Settings → Option String → Outcome RequestIdentity
unfolding verify_token
get_current_identity jwt settings none = raise (unauthorized "Missing bearer token")
get_current_identity jwt settings (some token) = verify_token jwt settings token
