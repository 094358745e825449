-- ===== src/Tests/Service.antt =====
-- Tokens, conversations, and requests to `/chat`.
use dealership_agent.Agents.ActionClaims.{
  action_vocabulary, check_draft, mentions_action_vocabulary,
}
use dealership_agent.Agents.Graph.{run_node, run_turn}
use dealership_agent.Agents.Pricing.{derive_price_filters, mentions}
use dealership_agent.Agents.Routing.{is_clarify, last_content}
use dealership_agent.Agents.ToolBinding.{
  bind_spec, bind_specs, build_sub_agent, call_tool, make_sub_agent, missing_tools,
  registered_by_name,
}
use dealership_agent.Agents.ToolLoop.{say}
use dealership_agent.Api.Auth.{Jwt, get_current_identity}
use dealership_agent.Api.Auth.Verified.{get_current_identity-verified}
use dealership_agent.Api.Chat.{
  ChatRequest, ChatResponse, Service, Surroundings, chat, chat_as, finish_turn, open_conversation,
  run_opened,
}
use dealership_agent.Api.Chat.Answered.{IsContinued, chat_continues}
use dealership_agent.Api.Chat.Apart.{IsRefused, chat_not_found, chat_others}
use dealership_agent.Api.Chat.Effects.{Apart}
use dealership_agent.Api.Conversations.{
  Store, append_messages, create_conversation, in_scope, load_conversation, loaded,
  with_conversation, with_message,
}
use dealership_agent.Api.Conversations.Histories.{appended, histories, started}
use dealership_agent.Api.Conversations.Isolation.{load_conversation-own_part, own_part}
use dealership_agent.Api.Conversations.Refines.{
  append_messages-refines, create_conversation-refines,
}
use dealership_agent.Api.Conversations.Stored.{IsStored}
use dealership_agent.Api.Conversations.WellFormed.{IsWellFormed}
use dealership_agent.Api.Health.{readyz}
use dealership_agent.Api.RateLimit.{get_or, new_limiter}
use dealership_agent.Base.{
  List, String, [], arith, contains, false, none, pos, refl, same_int, some, strip, ℤ, ◌∷◌, ◌≡◌,
}
use dealership_agent.Config.{Settings, defaults}
use dealership_agent.Python.{
  Fields, Message, World, end, field, obj, ok, raise, str, truthy, user, value_error,
}
use dealership_agent.Tests.{listed, scripted, toy}
use dealership_agent.Tools.Identity.{RequestIdentity}

abbrev tables : Store
tables = record {
  conversations =
      record { id = 0; conversation_ref = "conv-a"; customer_id = pos 1 }
      ∷ record { id = 1; conversation_ref = "conv-b"; customer_id = pos 2 }
      ∷ [];
  messages = record { conversation_id = 0; message = say user "Hello" } ∷ [];
  next_id = 2;
  customers = pos 1 ∷ pos 2 ∷ [];
}

tables-IsWellFormed : IsWellFormed tables
tables-IsWellFormed = record {
  below = (omega arith, (omega arith, tt));
  distinct = (refl, (refl, tt));
}

abbrev news : List Message
news = say user "Hi" ∷ []

loads_own : load_conversation (pos 1) "conv-a" tables ≡ some (0, say user "Hello" ∷ [])
unfolding load_conversation loaded same_int
loads_own = refl

appends : append_messages (pos 1) 0 news tables ≡ ok (with_message 0 (say user "Hi") tables)
unfolding append_messages in_scope same_int
appends = refl

tables-IsStored : IsStored tables
tables-IsStored = record { well_formed = tables-IsWellFormed; owned = (omega arith, tt) }

append_messages-refines_example :
    histories (with_message 0 (say user "Hi") tables)
    ≡ appended (pos 1) "conv-a" (say user "Hello" ∷ []) news (histories tables)
append_messages-refines_example =
    append_messages-refines (pos 1) "conv-a" tables tables-IsStored 0 (say user "Hello" ∷ []) news
      (with_message 0 (say user "Hi") tables) loads_own appends

creates :
    create_conversation (pos 2) "conv-c" tables
    ≡ ok ((2, "conv-c"), with_conversation "conv-c" (pos 2) tables)
unfolding create_conversation same_int
creates = refl

create_conversation-refines_example :
    histories (with_conversation "conv-c" (pos 2) tables)
    ≡ started (pos 2) "conv-c" (histories tables)
create_conversation-refines_example =
    create_conversation-refines (pos 2) "conv-c" tables tables-IsStored (2, "conv-c")
      (with_conversation "conv-c" (pos 2) tables) creates

load_conversation-own_part_example :
    load_conversation (pos 1) "conv-b" (own_part (pos 1) tables)
    ≡ load_conversation (pos 1) "conv-b" tables
load_conversation-own_part_example = load_conversation-own_part (pos 1) "conv-b" tables

abbrev jwt : Jwt
jwt = record {
  read_file = λ path. ok "key";
  decode = λ token key algorithm audience issuer. some (field "sub" (str "1") end);
  to_int = λ v. some (pos 1);
  new_session = "fresh";
}

abbrev keyed : Settings
keyed = record defaults { jwt_public_key_path = "key.pem" }

abbrev first_customer : RequestIdentity
first_customer = record { session_id = str "fresh"; customer_id = some (pos 1) }

token_accepted : get_current_identity jwt keyed (some "token") ≡ ok first_customer
unfolding get_current_identity truthy
token_accepted = refl

get_current_identity-verified_example :
    (token key : String) × (claims : Fields) × (customer : ℤ) × (some "token" ≡ some token)
    × (ok "key" ≡ ok key)
    × (some (field "sub" (str "1") end) ≡ some claims)
    × (some (pos 1) ≡ some customer)
    × (some (pos 1) ≡ some customer)
get_current_identity-verified_example =
    get_current_identity-verified jwt keyed (some "token") first_customer token_accepted

abbrev service : Service
service = record { limiter = none; store = tables }

abbrev around : Surroundings
around = record {
  now = 0;
  latency = 5;
  fresh_ref = "conv-c";
  listed_first = ok listed;
  listed_second = ok listed;
  print_id = λ c. "1";
}

abbrev continuing : ChatRequest
continuing = record { message = "A person, please."; conversation_id = some "conv-a" }

abbrev prying : ChatRequest
prying = record { message = "Hello"; conversation_id = some "conv-b" }

abbrev escalating : World
escalating = scripted ("escalate" ∷ "" ∷ "Hi." ∷ [])

chat_others_example :
    Apart
      (pos 2)
      "conv-b"
      tables
      (chat toy escalating defaults around first_customer continuing service []).0.1.store
chat_others_example =
    chat_others toy escalating defaults around (pos 2) "conv-b" first_customer continuing service []
      (λ h. cc) tables-IsWellFormed

not_loaded : load_conversation (pos 1) "conv-b" tables ≡ none
unfolding load_conversation loaded same_int
not_loaded = refl

chat_not_found_example :
    IsRefused toy escalating defaults around [] tables
      (chat toy escalating defaults around first_customer prying service [])
chat_not_found_example =
    chat_not_found toy escalating defaults around (pos 1) "conv-b" first_customer prying service []
      refl refl not_loaded

abbrev answered_hi : ChatResponse
answered_hi = record {
  answer = "Hi.";
  degraded = false;
  degradation_reasons = [];
  tool_calls_made = "escalate_to_human" ∷ [];
  conversation_id = "conv-a";
  latency_ms = 5;
}

chat_answers :
    (chat toy escalating defaults around first_customer continuing service []).0.0 ≡ ok answered_hi
unfolding chat chat_as run_opened run_turn run_node build_sub_agent missing_tools bind_specs
    bind_spec registered_by_name make_sub_agent is_clarify last_content strip derive_price_filters
    mentions contains call_tool check_draft mentions_action_vocabulary action_vocabulary
    load_conversation loaded same_int append_messages in_scope open_conversation finish_turn
    new_limiter get_or
chat_answers = refl

chat_continues_example :
    IsContinued
      (pos 1)
      "conv-a"
      continuing
      answered_hi
      tables
      (chat toy escalating defaults around first_customer continuing service []).0.1.store
chat_continues_example =
    chat_continues toy escalating defaults around (pos 1) "conv-a" first_customer continuing service
      [] answered_hi refl refl chat_answers

-- A tool server that cannot be started makes the service unavailable, and the body says so.
unavailable : readyz toy (ok tt) (raise value_error) ≡ record {
  status_code = 503;
  body = field "status" (str "unavailable") (
      field "checks"
        (obj (field "database" (str "ok") (field "mcp_server" (str "error: error") end)))
        end);
}
unfolding readyz
unavailable = refl
