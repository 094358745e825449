-- ===== src/Python/Effects.antt =====
-- Code that calls the LLM provider and the tool server. Both are outside the program: they answer
-- by functions of all that they have been asked so far, so nothing is assumed of their replies.
use dealership_agent.Base.{Bool, List, Option, String, arith, refl, ◌∷◌, ◌≡◌}
use dealership_agent.Python.Outcomes.{Outcome, ok, raise}
use dealership_agent.Python.Values.{Value}

pub data Role : Type 0 where
  system user assistant : Role

-- llm.base.Message
pub record Message : Type 0 where
  pub role : Role
  pub content : String

-- What is asked of the world.
pub data Event : Type 0 where
  -- llm.complete(messages, model=model)
  completion : List Message → String → Event
  -- session.call_tool(name, arguments)
  tool_call : String → Value → Event

-- Newest first.
abbrev pub Trace : Type 0
Trace = List Event

-- mcp.types.CallToolResult: the text of the first content item if that is a text, and the
-- structured content.
pub record CallToolResult : Type 0 where
  pub is_error : Bool
  pub first_text : Option String
  pub structured : Value

pub record World : Type 0 where
  pub complete : Trace → List Message → String → Outcome String
  pub call_tool : Trace → String → Value → Outcome CallToolResult

-- An action reads the world, extends the trace, and returns or raises.
abbrev pub Action : Type 0 → Type 0
Action A = Trace → Outcome A × Trace

abbrev pub pure : {A : Type 0} → A → Action A
pure a t = (ok a, t)

abbrev pub lift : {A : Type 0} → Outcome A → Action A
lift r t = (r, t)

abbrev pub continue : {A B : Type 0} → Outcome A → (A → Action B) → Action B
continue (ok a) f t = f a t
continue (raise e) f t = (raise e, t)

abbrev pub bind : {A B : Type 0} → Action A → (A → Action B) → Action B
bind m f t = let (r, t') = m t in continue r f t'

-- try m except Exception
abbrev pub attempt : {A : Type 0} → Action A → Action (Outcome A)
attempt m t = let (r, t') = m t in (ok r, t')

module _ (w : World) where
  unfoldable pub complete : List Message → String → Action String
  complete messages model t = (w.complete t messages model, completion messages model ∷ t)

  unfoldable pub session_call : String → Value → Action CallToolResult
  session_call name arguments t = (w.call_tool t name arguments, tool_call name arguments ∷ t)

-- What an action that returns has done before it returned.
continue_ok :
    {A B : Type 0} (r : Outcome A) (f : A → Action B) (t : Trace) (b : B)
    → (continue r f t).0 ≡ ok b
    → (a : A) × (r ≡ ok a) × ((f a t).0 ≡ ok b)
continue_ok (ok a) f t b h = (a, refl, h)
continue_ok (raise e) f t b h = absurd (ground arith)

pub bind_ok :
    {A B : Type 0} (m : Action A) (f : A → Action B) (t : Trace) (b : B)
    → (bind m f t).0 ≡ ok b
    → (a : A) × ((m t).0 ≡ ok a) × ((f a (m t).1).0 ≡ ok b)
bind_ok m f t b h = continue_ok (m t).0 f (m t).1 b h

-- An invariant of the trace goes through a sequence.
continue_trace :
    {A B : Type 0} (P : Trace → Type 0) (r : Outcome A) (f : A → Action B) (t : Trace)
    → ((a : A) → P (f a t).1)
    → P t
    → P (continue r f t).1
continue_trace P (ok a) f t g h = g a
continue_trace P (raise e) f t g h = h

pub bind_trace :
    {A B : Type 0} (P : Trace → Type 0) (m : Action A) (f : A → Action B) (t : Trace)
    → P (m t).1
    → ((a : A) → P (f a (m t).1).1)
    → P (bind m f t).1
bind_trace P m f t h g = continue_trace P (m t).0 f (m t).1 g h

-- An action that keeps an invariant of the trace, whatever it returns.
abbrev pub Keeps : {A : Type 0} → (Trace → Type 0) → Action A → Type 0
Keeps P m = (t : Trace) → P t → P (m t).1

pub bind-Keeps :
    {A B : Type 0} (P : Trace → Type 0) (m : Action A) (f : A → Action B)
    → Keeps P m
    → ((a : A) → Keeps P (f a))
    → Keeps P (bind m f)
bind-Keeps P m f g h t p = bind_trace P m f t (g t p) (λ a. h a (m t).1 (g t p))
