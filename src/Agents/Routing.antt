-- ===== src/Agents/Routing.antt =====
-- agents/nodes.py, the first two nodes: intake and the router, with the decision that the router
-- accepts. A node returns what it changes in the state.
pub mod Valid
use dealership_agent.Agents.Pricing.{derive_price_filters}
use dealership_agent.Agents.Prompts.{router_system_prompt}
use dealership_agent.Agents.State.{GraphState}
use dealership_agent.Agents.ToolLoop.{say}
use dealership_agent.Base.{
  Bool, List, Option, String, [], all, false, if◌then◌else◌, length, ltb, member, none, not, some,
  strip, ◌&&◌, ◌=ₛ◌, ◌∷◌,
}
use dealership_agent.Config.{Settings, model_classifier}
use dealership_agent.Python.{
  Action, Fields, Library, Message, Outcome, Value, World, arr, attribute_error, bind, complete,
  cons, elements, end, get, index_error, lift, obj, ok, or_else, pure, raise, str, system,
  type_error, ◌>>=◌,
}

abbrev pub Update : Type 0
Update = GraphState → GraphState

abbrev pub unchanged : Update
unchanged s = s

abbrev pub default_clarify_question : String
default_clarify_question =
    "Could you tell me a bit more about what you're looking for - a vehicle, a dealership policy, or help with an existing order?"

abbrev pub valid_routes : List String
valid_routes = "sales" ∷ "account" ∷ "clarify" ∷ "escalate" ∷ []

-- messages[-1].content
unfoldable pub last_content : List Message → Outcome String
last_content [] = raise index_error
last_content (m ∷ []) = ok m.content
last_content (m ∷ n ∷ ms) = last_content (n ∷ ms)

-- messages[-1].content.strip() if messages else ""
unfoldable pub stripped : Outcome String → String
stripped (ok content) = strip content
stripped (raise e) = ""

unfoldable pub intake_node : GraphState → Action Update
unfolding stripped
intake_node state =
    if stripped (last_content state.messages) =ₛ ""
    then pure (λ s. record s {
      routes = "clarify" ∷ [];
      clarify_question = str "I didn't catch that - what can I help you with?";
    })
    else pure unchanged

-- state.get("routes") == ["clarify"]
unfoldable pub is_clarify : List String → Bool
is_clarify (r ∷ []) = r =ₛ "clarify"
is_clarify _ = false

-- The elements of `set(routes)`, which are all texts or the set is no subset of the valid routes. A
-- list or a dict cannot stand in a set.
unfoldable pub texts : List Value → Outcome (Option (List String))
texts [] = ok (some [])
texts (arr vs ∷ rest) = raise type_error
texts (obj fs ∷ rest) = raise type_error
texts (str s ∷ rest) = texts rest >>= λ ts. ok (elim ts [ none ↦ none | some xs ↦ some (s ∷ xs) ])
texts (v ∷ rest) = texts rest >>= λ ts. ok none

-- The last three tests of the condition, on routes that are texts.
unfoldable pub accepted : List String → Bool
accepted routes =
    all (λ r. member r valid_routes) routes
    && not (member "clarify" routes && ltb 1 (length routes))
    && not (member "escalate" routes && ltb 1 (length routes))

-- The routes of a decision that passes all the tests.
unfoldable pub routes_of : Value → Outcome (Option (List String))
unfolding texts accepted
routes_of (arr (cons v vs)) = texts (v ∷ elements vs) >>= λ ts.
    ok (elim ts [ none ↦ none | some routes ↦ if accepted routes then some routes else none ])
routes_of _ = ok none

-- The update that the router returns.
unfoldable pub routed : Fields → Option Fields → Option (List String) → Update
routed decision filters (some routes) s = record s {
  routes = routes;
  order_ref = get "order_ref" decision;
  price_filters = filters;
  clarify_question = get "clarify_question" decision;
  escalate_summary = get "escalate_summary" decision;
  escalate_reason = get "escalate_reason" decision;
}
routed decision filters none s = record s {
  routes = "clarify" ∷ [];
  order_ref = get "order_ref" decision;
  price_filters = filters;
  clarify_question = or_else (get "clarify_question" decision) (str default_clarify_question);
  escalate_summary = get "escalate_summary" decision;
  escalate_reason = get "escalate_reason" decision;
}

unfoldable pub route_decision : Library → List Message → Fields → Outcome Update
unfolding routes_of routed
route_decision lib messages decision = routes_of (get "routes" decision) >>= λ routes.
    (last_content messages >>= λ content.
    ok (routed decision (derive_price_filters lib content) routes))

-- json.loads(raw), or {} if that fails; `decision.get` wants an object
unfoldable pub read_decision : Library → List Message → Option Value → Outcome Update
unfolding route_decision
read_decision lib messages none = route_decision lib messages end
read_decision lib messages (some (obj decision)) = route_decision lib messages decision
read_decision lib messages (some _) = raise attribute_error

module _ (lib : Library) (w : World) (settings : Settings) where
  unfoldable pub router_node : GraphState → Action Update
  unfolding complete is_clarify read_decision
  router_node state =
      if is_clarify state.routes
      then pure unchanged
      else bind
          (complete w (say system router_system_prompt ∷ state.messages)
            (model_classifier settings))
          (λ raw. lift (read_decision lib state.messages (lib.loads raw)))
