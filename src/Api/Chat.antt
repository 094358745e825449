-- ===== src/Api/Chat.antt =====
-- api/app.py, `POST /chat`, with api/schemas.py: the limiter, the conversation, the turn, and the
-- reply.
pub mod Effects
pub mod Apart
pub mod Answered
use dealership_agent.Agents.Graph.{run_turn}
use dealership_agent.Agents.State.{GraphState, tool_of}
use dealership_agent.Agents.ToolBinding.{RegisteredTool}
use dealership_agent.Agents.ToolLoop.{ToolLoopResult, done, say}
use dealership_agent.Api.Conversations.{
  Store, append_messages, create_conversation, load_conversation,
}
use dealership_agent.Api.RateLimit.{RateLimiter, check, get_rate_limiter}
use dealership_agent.Base.{
  Bool, List, Option, String, [], if◌then◌else◌, map, none, some, ℕ, ℤ, ◌++◌, ◌+◌, ◌∷◌,
}
use dealership_agent.Config.{Settings}
use dealership_agent.Python.{
  Library, Message, Outcome, Trace, Value, World, assistant, http_exception, is_null, ok, raise,
  runtime_error, str, traverse, truthy, user, value_error, ◌>>=◌,
}
use dealership_agent.Tools.Identity.{RequestIdentity}

-- A body with any other field loses that field.
pub record ChatRequest : Type 0 where
  pub message : String
  pub conversation_id : Option String

pub record ChatResponse : Type 0 where
  pub answer : String
  pub degraded : Bool
  pub degradation_reasons : List String
  pub tool_calls_made : List String
  pub conversation_id : String
  pub latency_ms : ℕ

-- What a service process keeps between requests: the limiter, once it is built, and the database.
pub record Service : Type 0 where
  pub limiter : Option RateLimiter
  pub store : Store

-- What a request depends on outside of the code: the clock at its start, the latency that is
-- measured, a fresh conversation reference, what the tool server lists, and `str(…)` of an id.
pub record Surroundings : Type 0 where
  pub now : ℕ
  pub latency : ℕ
  pub fresh_ref : String
  pub listed_first : Outcome (List RegisteredTool)
  pub listed_second : Outcome (List RegisteredTool)
  pub print_id : Option ℤ → String

-- An open conversation: its id, its reference, and what was said before.
pub record Opened : Type 0 where
  pub id : ℕ
  pub ref : String
  pub prior : List Message

abbrev pub opened_existing : String → Option (ℕ × List Message) → Store → Outcome (Opened × Store)
opened_existing ref none store = raise (http_exception 404 "Conversation not found" none)
opened_existing ref (some (id, prior)) store =
    ok (record { id = id; ref = ref; prior = prior }, store)

abbrev pub opened_new : Outcome ((ℕ × String) × Store) → Outcome (Opened × Store)
opened_new (raise e) = raise e
opened_new (ok ((id, ref), store)) = ok (record { id = id; ref = ref; prior = [] }, store)

unfoldable pub open_conversation : ℤ → Option String → String → Store → Outcome (Opened × Store)
open_conversation customer (some ref) fresh store =
    opened_existing ref (load_conversation customer ref store) store
open_conversation customer none fresh store = opened_new (create_conversation customer fresh store)

-- final_response or "", which `Message` wants to be a text
unfoldable pub answer_of : Value → Outcome String
answer_of (str s) = ok s
answer_of v = if truthy v then raise (value_error) else ok ""

unfoldable pub loop_calls : Option ToolLoopResult → List Value
loop_calls none = []
loop_calls (some r) = map tool_of r.tool_calls

-- _tool_calls_made
unfoldable pub tool_calls_made : GraphState → List Value
unfolding loop_calls
tool_calls_made result =
    loop_calls result.sales_result
    ++ (loop_calls result.account_result
        ++ (if is_null result.escalate_result then [] else str "escalate_to_human" ∷ []))

-- A name of the response is a text.
abbrev pub name_of : Value → Outcome String
name_of (str s) = ok s
name_of v = raise value_error

abbrev pub exchange : ChatRequest → String → List Message
exchange request answer = say user request.message ∷ say assistant answer ∷ []

abbrev pub respond_with : Surroundings → String → Opened → GraphState → List String → ChatResponse
respond_with around answer opened result names = record {
  answer = answer;
  degraded = result.degraded;
  degradation_reasons = result.degradation_reasons;
  tool_calls_made = names;
  conversation_id = opened.ref;
  latency_ms = around.latency;
}

-- From the end of the turn: the exchange is stored before the response is built.
unfoldable pub store_and_respond :
    Surroundings
    → ℤ
    → ChatRequest
    → Opened
    → GraphState
    → Store
    → String
    → Outcome ChatResponse × Store
unfolding tool_calls_made
store_and_respond around customer request opened result store answer =
    elim (append_messages customer opened.id (exchange request answer) store) [
      | raise e ↦ (raise e, store)
      | ok store' ↦ (
        traverse name_of (tool_calls_made result) >>= λ names.
            ok (respond_with around answer opened result names),
        store',
      )
    ]

unfoldable pub finish_turn :
    Surroundings
    → ℤ
    → ChatRequest
    → Opened
    → Store
    → Outcome (Option GraphState)
    → Outcome ChatResponse × Store
unfolding answer_of store_and_respond
finish_turn around customer request opened store (raise e) = (raise e, store)
finish_turn around customer request opened store (ok none) =
    (raise (runtime_error "GraphRecursionError"), store)
finish_turn around customer request opened store (ok (some result)) =
    elim (answer_of result.final_response) [
      | raise e ↦ (raise e, store)
      | ok answer ↦ store_and_respond around customer request opened result store answer
    ]

module _ (lib : Library) (w : World) (settings : Settings) (around : Surroundings) where
  -- What a handler does: a response or an exception, the service after it, and the trace.
  abbrev pub Handled : Type 0
  Handled = (Outcome ChatResponse × Service) × Trace

  unfoldable pub run_opened :
      RequestIdentity → ℤ → ChatRequest → Service → Outcome (Opened × Store) → Trace → Handled
  unfolding finish_turn run_turn
  run_opened identity customer request service (raise e) t = ((raise e, service), t)
  run_opened identity customer request service (ok (opened, store)) t =
      let messages = opened.prior ++ (say user request.message ∷ []) in
      let turn =
        run_turn lib w settings around.listed_first around.listed_second identity messages t in
      let done = finish_turn around customer request opened store turn.0 in
      ((done.0, record service { store = done.1 }), turn.1)

  unfoldable pub chat_as : RequestIdentity → ChatRequest → Service → Option ℤ → Trace → Handled
  unfolding open_conversation run_opened
  chat_as identity request service none t =
      ((raise (http_exception 401 "Authenticated identity required" none), service), t)
  chat_as identity request service (some customer) t =
      run_opened identity customer request service
        (open_conversation customer request.conversation_id around.fresh_ref service.store) t

  unfoldable pub chat : RequestIdentity → ChatRequest → Service → Trace → Handled
  unfolding get_rate_limiter check chat_as
  chat identity request service t =
      let limiter =
        get_rate_limiter service.limiter settings.rate_limit_per_customer_per_minute
          settings.rate_limit_global_per_minute around.now in
      let checked = check limiter (around.print_id identity.customer_id) around.now in
      let service' : Service = record service { limiter = some checked.0 } in
      if checked.1.allowed then chat_as identity request service' identity.customer_id t else (
        (
          raise (http_exception 429 "Rate limit exceeded" (some (checked.1.retry_after + 1))),
          service',
        ),
        t,
      )
