-- ===== src/Python/Outcomes.antt =====
-- A call that returns or raises.
use dealership_agent.Base.{List, Option, String, [], arith, refl, ◌∷◌, ◌≡◌, ℕ}
use dealership_agent.Python.Values.{Value}

pub data Exn : Type 0 where
  -- json.JSONDecodeError
  json_decode_error : Exn
  -- a missing key, a wrong type, a missing attribute, a value that does not fit
  key_error : String → Exn
  type_error attribute_error value_error index_error : Exn
  -- `PermissionError` of a tool call outside the allow-list: agent, tool, allowed tools
  permission_error : String → Value → List String → Exn
  -- `PermissionError` of a customer-scoped connection, with its text
  scope_error : String → Exn
  -- `RuntimeError` of a sub-agent's construction: agent, tools
  unregistered_tools specs_mismatch : String → List String → Exn
  -- `RuntimeError` with its text
  runtime_error : String → Exn
  -- FastAPI's `HTTPException`: status, detail, and the header Retry-After
  http_exception : ℕ → String → Option ℕ → Exn
  -- what the LLM provider or the MCP session raised, by its text
  external_error : String → Exn

pub data Outcome {ℓ} (A : Type ℓ) : Type ℓ where
  ok : A → Outcome A
  raise : Exn → Outcome A

infixl 5 ◌>>=◌
abbrev pub ◌>>=◌ {ℓ κ} : {A : Type ℓ} {B : Type κ} → Outcome A → (A → Outcome B) → Outcome B
ok a >>= f = f a
raise e >>= f = raise e

-- [f(x) for x in xs]
abbrev pub traverse {ℓ κ} : {A : Type ℓ} {B : Type κ} → (A → Outcome B) → List A → Outcome (List B)
traverse f [] = ok []
traverse f (x ∷ xs) = elim (f x) [
  | raise e ↦ raise e
  | ok y ↦ elim (traverse f xs) [ raise e ↦ raise e | ok ys ↦ ok (y ∷ ys) ]
]

-- What a chain that returns has computed before.
pub then_ok {ℓ κ} :
    {A : Type ℓ} {B : Type κ} (m : Outcome A) (f : A → Outcome B) (b : B)
    → (m >>= f) ≡ ok b
    → (a : A) × (m ≡ ok a) × (f a ≡ ok b)
then_ok (ok a) f b h = (a, refl, h)
then_ok (raise e) f b h = absurd (ground arith)

pub ok_injective {ℓ} : {A : Type ℓ} (a b : A) → ok a ≡ ok b → a ≡ b
ok_injective a b h = ground arith
