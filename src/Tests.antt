-- ===== src/Tests.antt =====
-- The properties at concrete inputs: the inputs here, the properties by component in the children.
mod Turns
mod Loops
mod Providers
mod Service
mod Sessions
mod Policies
mod Catalog
mod Documents
mod Loading
mod Cleaning
mod Minting
mod Frames
use dealership_agent.Agents.ToolBinding.{RegisteredTool, call_tool}
use dealership_agent.Agents.ToolLoop.{say}
use dealership_agent.Base.{
  List, Option, String, [], false, if◌then◌else◌, none, pos, some, ◌=ₛ◌, ◌∷◌,
}
use dealership_agent.Llm.Groq.{complete}
use dealership_agent.Python.{
  CallToolResult, Library, Message, Trace, Value, World, arr, bool, cons, end, field, int, nil, num,
  obj, ok, str, user,
}
use dealership_agent.Tools.Identity.{RequestIdentity}

-- A JSON reader that knows a few texts.
abbrev pub toy_loads : String → Option Value
toy_loads s =
    if s =ₛ "no"
    then some (obj (field "action_claim_detected" (bool false) end))
    else if s =ₛ "escalate"
    then some (obj (field "routes" (arr (cons (str "escalate") nil)) end))
    else if s =ₛ "call"
    then some (obj (field "action" (str "call_tool") (field "tool" (str "search_listings") end)))
    else if s =ₛ "answer"
    then some (obj (field "action" (str "final") (field "answer" (str "One red car.") end)))
    else if s =ₛ "[7]"
    then some (arr (cons (num (int (pos 7))) nil))
    else none

abbrev pub toy : Library
toy = record {
  lower = λ s. s;
  loads = toy_loads;
  dumps = λ v. "{}";
  dumps_sorted = λ v. "{}";
  format = λ v. "value";
  format_money = λ v. ok "1.00";
  format_fixed = λ v. "0.50";
  message = λ e. "error";
  is_word = λ c. false;
}

-- The n-th event of a turn is answered by the n-th text.
abbrev pub reply_at : List String → Trace → String
reply_at [] t = ""
reply_at (s ∷ ss) [] = s
reply_at (s ∷ ss) (e ∷ t) = reply_at ss t

abbrev pub cars : CallToolResult
cars = record {
  is_error = false;
  first_text = none;
  structured = obj (field "result" (str "one red car") end);
}

abbrev pub scripted : List String → World
scripted replies = record {
  complete = λ t messages model. ok (reply_at replies t);
  call_tool = λ t name arguments. ok cars;
}

abbrev pub registered : String → RegisteredTool
registered name = record { name = name; description = none; input_schema = obj end }

abbrev pub listed : List RegisteredTool
listed =
    registered "search_listings"
    ∷ registered "search_policy_docs"
    ∷ registered "get_order_status"
    ∷ registered "list_my_orders"
    ∷ registered "escalate_to_human"
    ∷ []

abbrev pub question : List Message
question = say user "Do you have a red car?" ∷ []

abbrev pub someone : RequestIdentity
someone = record { session_id = str "s1"; customer_id = some (pos 1) }
