-- ===== src/Agents/Routing/Valid.antt =====
-- Whatever the model decides, the routes are valid.
use mathlib.Core.Path.{subst}
use dealership_agent.Agents.Pricing.{derive_price_filters}
use dealership_agent.Agents.Routing.{
  Update, accepted, last_content, read_decision, route_decision, routed, routes_of, texts,
  valid_routes,
}
use dealership_agent.Agents.State.{GraphState}
use dealership_agent.Base.{
  All, Bool-cases, List, Option, String, [], all, arith, eq_iff, false, if◌then◌else◌, inl, inr,
  length, member, none, refl, some, true, ◌∷◌, ◌≡◌, ◌≤◌, ◌⊎◌,
}
use dealership_agent.Python.{
  Fields, Library, Message, Value, arr, bool, cons, elements, end, get, null, num, obj, ok, str,
  then_ok,
}

-- The exclusive routes alone, or at least one sub-agent.
abbrev pub IsRouting : List String → Type 0
IsRouting routes =
    (routes ≡ "clarify" ∷ [])
    ⊎ ((routes ≡ "escalate" ∷ [])
        ⊎ ((1 ≤ length routes) × All (λ r. (r ≡ "sales") ⊎ (r ≡ "account")) routes))

valid_route_cases :
    (r : String)
    → member r valid_routes ≡ true
    → (r ≡ "sales") ⊎ ((r ≡ "account") ⊎ ((r ≡ "clarify") ⊎ (r ≡ "escalate")))
valid_route_cases r h =
    ground (arith, eq_iff r "sales", eq_iff r "account", eq_iff r "clarify", eq_iff r "escalate")

-- Without the exclusive routes only the sub-agents are left.
only_agents :
    (routes : List String)
    → all (λ r. member r valid_routes) routes ≡ true
    → member "clarify" routes ≡ false
    → member "escalate" routes ≡ false
    → All (λ r. (r ≡ "sales") ⊎ (r ≡ "account")) routes
only_agents [] a c e = tt
only_agents (r ∷ rs) a c e = (
  elim (valid_route_cases r (ground arith)) [
    | inl h ↦ inl h
    | inr (inl h) ↦ inr h
    | inr (inr (inl h)) ↦ absurd (ground (arith, eq_iff "clarify" r))
    | inr (inr (inr h)) ↦ absurd (ground (arith, eq_iff "escalate" r))
  ],
  only_agents rs (ground arith) (ground arith) (ground arith),
)

accepted-IsRouting : (r : String) (rs : List String) → accepted (r ∷ rs) ≡ true → IsRouting (r ∷ rs)
unfolding accepted
accepted-IsRouting r (s ∷ rs) h =
    inr (inr (omega arith, only_agents (r ∷ s ∷ rs) (ground arith) (ground arith) (ground arith)))
accepted-IsRouting r [] h = elim (valid_route_cases r (ground arith)) [
  | inl e ↦ inr (inr (omega arith, (inl e, tt)))
  | inr (inl e) ↦ inr (inr (omega arith, (inr e, tt)))
  | inr (inr (inl e)) ↦ inl (rw e refl)
  | inr (inr (inr e)) ↦ inr (inl (rw e refl))
]

abbrev IsChosen : Option (List String) → Type 0
IsChosen none = Unit
IsChosen (some routes) = IsRouting routes

-- The texts of a list that is not empty are a list that is not empty.
texts-some :
    (v : Value) (vs : List Value) (ts : Option (List String))
    → texts (v ∷ vs) ≡ ok ts
    → (ts ≡ none) ⊎ ((r : String) × (rs : List String) × (ts ≡ some (r ∷ rs)))
unfolding texts
texts-some (arr x) vs ts h = absurd (ground arith)
texts-some (obj x) vs ts h = absurd (ground arith)
texts-some (str s) vs ts h = let (us, h1, h2) = then_ok (texts vs) _ ts h in go us h2
  where
    go :
        (us : Option (List String))
        → ok (elim us [ none ↦ none | some xs ↦ some (s ∷ xs) ]) ≡ ok ts
        → (ts ≡ none) ⊎ ((r : String) × (rs : List String) × (ts ≡ some (r ∷ rs)))
    go none h = inl (ground arith)
    go (some xs) h = inr (s, xs, ground arith)
texts-some null vs ts h = inl (let (us, h1, h2) = then_ok (texts vs) _ ts h in ground arith)
texts-some (bool b) vs ts h = inl (let (us, h1, h2) = then_ok (texts vs) _ ts h in ground arith)
texts-some (num n) vs ts h = inl (let (us, h1, h2) = then_ok (texts vs) _ ts h in ground arith)

accepted-IsChosen :
    (r : String) (rs : List String) (chosen : Option (List String))
    → ok (if accepted (r ∷ rs) then some (r ∷ rs) else none) ≡ ok chosen
    → IsChosen chosen
accepted-IsChosen r rs none h = tt
accepted-IsChosen r rs (some routes) h = elim (Bool-cases (accepted (r ∷ rs))) [
  | inl e ↦
      let q : (r ∷ rs) ≡ routes = ground arith in subst IsRouting q (accepted-IsRouting r rs e)
  | inr e ↦ absurd (ground arith)
]

routes_of-IsChosen :
    (v : Value) (chosen : Option (List String)) → routes_of v ≡ ok chosen → IsChosen chosen
unfolding routes_of
routes_of-IsChosen v none h = tt
routes_of-IsChosen (arr (cons v vs)) (some routes) h =
    let (ts, h1, h2) = then_ok (texts (v ∷ elements vs)) _ (some routes) h in
    elim (texts-some v (elements vs) ts h1) [
      | inl e ↦ absurd (ground arith)
      | inr (r, rs, e) ↦ accepted-IsChosen r rs (some routes) (rw e at h2)
    ]
routes_of-IsChosen v (some routes) h = absurd (ground arith)

routed-IsRouting :
    (decision : Fields) (filters : Option Fields) (ts : Option (List String))
    → IsChosen ts
    → (s : GraphState) → IsRouting (routed decision filters ts s).routes
unfolding routed
routed-IsRouting decision filters none c s = inl refl
routed-IsRouting decision filters (some routes) c s = c

route_decision-IsRouting :
    (lib : Library) (messages : List Message) (decision : Fields) (u : Update)
    → route_decision lib messages decision ≡ ok u
    → (s : GraphState) → IsRouting (u s).routes
unfolding route_decision
route_decision-IsRouting lib messages decision u h s =
    let (chosen, h1, h2) = then_ok (routes_of (get "routes" decision)) _ u h in
    let (content, h3, h4) = then_ok (last_content messages) _ u h2 in
    let q : routed decision (derive_price_filters lib content) chosen ≡ u = ground arith in
    subst (λ v. IsRouting (v s).routes) q
      (routed-IsRouting decision _ chosen (routes_of-IsChosen (get "routes" decision) chosen h1) s)

-- Whatever the model replies, a decision that is read gives routes that the graph knows: the
-- question alone, the escalation alone, or a list that is not empty of the two sub-agents.
pub read_decision_routes :
    (lib : Library) (messages : List Message) (raw : Option Value) (u : Update)
    → read_decision lib messages raw ≡ ok u
    → (s : GraphState) → IsRouting (u s).routes
unfolding read_decision
read_decision_routes lib messages none u h s = route_decision-IsRouting lib messages end u h s
read_decision_routes lib messages (some (obj decision)) u h s =
    route_decision-IsRouting lib messages decision u h s
read_decision_routes lib messages (some v) u h s = absurd (ground arith)
