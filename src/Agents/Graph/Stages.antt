-- ===== src/Agents/Graph/Stages.antt =====
-- The stages of a turn, a family over the active nodes and the state.
use dealership_agent.Agents.ActionClaims.{build_evidence_summary}
use dealership_agent.Agents.ActionClaims.Clean.{Passed}
use dealership_agent.Agents.Degradation.{compute_degradation}
use dealership_agent.Agents.Graph.{
  Node, account_agent, add_nodes, clarify, escalate, frontier, intake, merge, node_if, or_clarify,
  route_after_intake, route_after_merge, router, routes_after_router, sales_agent, synthesis,
  verify_claims,
}
use dealership_agent.Agents.Nodes.{any_result_needs_escalation}
use dealership_agent.Agents.Prompts.{safe_fallback_text}
use dealership_agent.Agents.Routing.{is_clarify}
use dealership_agent.Agents.State.{GraphState}
use dealership_agent.Base.{
  Bool, Bool-cases, List, String, [], false, inl, inr, member, none, true, ◌++◌, ◌∷◌, ◌≡◌, ◌⊎◌,
}
use dealership_agent.Config.{Settings, model_classifier}
use dealership_agent.Python.{Library, Trace, Value, World, null, ok, str, truthy}

-- Nothing was looked up and nothing was escalated.
abbrev pub Untouched : GraphState → Type 0
Untouched s = (s.sales_result ≡ none) × (s.account_result ≡ none) × (s.escalate_result ≡ null)

-- A question back, with nothing done.
abbrev pub IsQuestion : GraphState → Type 0
IsQuestion s = Untouched s × (truthy s.final_response ≡ true)

-- `degraded` is not hidden.
abbrev pub IsHonest : Library → GraphState → Type 0
IsHonest lib s = (s.degraded ≡ true) ⊎ ((compute_degradation lib s).0 ≡ false)

module _ (lib : Library) (w : World) (settings : Settings) where
  -- A reply that passed the check of its claims against what the turn did, or the fixed text.
  abbrev pub IsChecked : GraphState → Type 0
  IsChecked s =
      IsHonest lib s
      × ((s.final_response ≡ str safe_fallback_text)
          ⊎ ((reply : String) × (s.final_response ≡ str reply)
              × (evidence : Value) × (build_evidence_summary s ≡ ok evidence)
              × (t : Trace) × Passed lib w (model_classifier settings) reply evidence t))

  pub data Stage : List Node → GraphState → Type 0 where
    at_intake : (s : GraphState) → Untouched s → Stage (intake ∷ []) s
    at_router : (s : GraphState) → Untouched s → Stage (router ∷ []) s
    at_clarify : (s : GraphState) → Untouched s → Stage (clarify ∷ []) s
    at_sales : (s : GraphState) → Stage (sales_agent ∷ []) s
    at_account : (s : GraphState) → Stage (account_agent ∷ []) s
    at_both : (s : GraphState) → Stage (sales_agent ∷ account_agent ∷ []) s
    at_merge : (s : GraphState) → Stage (merge ∷ []) s
    at_escalate : (s : GraphState) → Stage (escalate ∷ []) s
    at_synthesis : (s : GraphState) → Stage (synthesis ∷ []) s
    at_verify :
        (s : GraphState) (draft : String)
        → s.final_response ≡ str draft
        → s.degraded ≡ (compute_degradation lib s).0
        → Stage (verify_claims ∷ []) s
    at_end : (s : GraphState) → IsQuestion s ⊎ IsChecked s → Stage [] s

  -- Whatever a turn's stage, with no nodes left it is over.
  pub final_of : (s : GraphState) → Stage [] s → IsQuestion s ⊎ IsChecked s
  final_of _ (at_end s h) = h

  pub after_intake : (s : GraphState) → Untouched s → Stage (frontier (intake ∷ []) s) s
  unfolding frontier route_after_intake
  after_intake s h = elim (Bool-cases (is_clarify s.routes)) [
    | inl e ↦ rw e (at_clarify s h)
    | inr e ↦ rw e (at_router s h)
  ]

  pub after_router : (s : GraphState) → Untouched s → Stage (frontier (router ∷ []) s) s
  unfolding frontier routes_after_router
  after_router s h = elim (Bool-cases (member "clarify" s.routes)) [
    | inl e ↦ rw e (at_clarify s h)
    | inr e ↦ rw e (elim (Bool-cases (member "escalate" s.routes)) [
      | inl f ↦ rw f (at_escalate s)
      | inr f ↦ rw f (agents (member "sales" s.routes) (member "account" s.routes))
    ])
  ]
    where
      agents :
          (a b : Bool)
          → Stage (add_nodes (or_clarify (node_if a sales_agent ++ node_if b account_agent)) []) s
      agents true true = at_both s
      agents true false = at_sales s
      agents false true = at_account s
      agents false false = at_clarify s h

  pub after_merge : (s : GraphState) → Stage (frontier (merge ∷ []) s) s
  unfolding frontier route_after_merge
  after_merge s = elim (Bool-cases (any_result_needs_escalation s)) [
    | inl e ↦ rw e (at_escalate s)
    | inr e ↦ rw e (at_synthesis s)
  ]
