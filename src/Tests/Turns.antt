-- ===== src/Tests/Turns.antt =====
-- Whole turns.
use dealership_agent.Agents.ActionClaims.{
  VerificationOutcome, action_vocabulary, build_evidence_summary, check_draft, clean,
  mentions_action_vocabulary, outcome,
}
use dealership_agent.Agents.ActionClaims.Clean.{Passed, check_draft_clean}
use dealership_agent.Agents.Degradation.{compute_degradation, not_created}
use dealership_agent.Agents.Degradation.Honest.{IsClean, compute_degradation_iff}
use dealership_agent.Agents.Graph.{run_node, run_turn}
use dealership_agent.Agents.Graph.Finishes.{Finished, run_turn_finishes}
use dealership_agent.Agents.Graph.Replies.{run_turn_replies}
use dealership_agent.Agents.Graph.Requests.{InScope}
use dealership_agent.Agents.Graph.Scope.{all_tools, run_turn-InScope}
use dealership_agent.Agents.Graph.Stages.{IsChecked, IsQuestion}
use dealership_agent.Agents.Pricing.{derive_price_filters, mentions}
use dealership_agent.Agents.Routing.{is_clarify, last_content, read_decision, routed, unchanged}
use dealership_agent.Agents.State.{GraphState, initial_state}
use dealership_agent.Agents.Synthesis.{verify_claims_node}
use dealership_agent.Agents.Synthesis.Verified.{Cleared, verify_claims_node-Cleared}
use dealership_agent.Agents.ToolBinding.{
  bind_spec, bind_specs, build_sub_agent, call_tool, make_sub_agent, missing_tools,
  registered_by_name,
}
use dealership_agent.Base.{All, [], contains, false, none, refl, some, strip, ◌↔◌, ◌∷◌, ◌≡◌, ◌⊎◌}
use dealership_agent.Config.{defaults}
use dealership_agent.Python.{Value, World, arr, cons, end, field, nil, null, obj, ok, str}
use dealership_agent.Tests.{listed, question, scripted, someone, toy}

abbrev escalating : World
escalating = scripted ("escalate" ∷ "" ∷ "Hi." ∷ [])

abbrev escalated : GraphState
escalated = record (initial_state question someone) {
  routes = "escalate" ∷ [];
  escalate_result = str "one red car";
  final_response = str "Hi.";
}

turn_ends :
    (run_turn toy escalating defaults (ok listed) (ok listed) someone question []).0
    ≡ ok (some escalated)
unfolding run_turn run_node build_sub_agent missing_tools bind_specs bind_spec registered_by_name
    make_sub_agent is_clarify last_content strip derive_price_filters mentions contains call_tool
    check_draft mentions_action_vocabulary action_vocabulary
turn_ends = refl

run_turn_replies_example : IsQuestion escalated ⊎ IsChecked toy escalating defaults escalated
run_turn_replies_example =
    run_turn_replies toy escalating defaults (ok listed) (ok listed) someone question [] escalated
      turn_ends

run_turn_finishes_example :
    Finished (run_turn toy escalating defaults (ok listed) (ok listed) someone question []).0
run_turn_finishes_example =
    run_turn_finishes toy escalating defaults (ok listed) (ok listed) someone question []

run_turn-InScope_example :
    All
      (InScope all_tools)
      (run_turn toy escalating defaults (ok listed) (ok listed) someone question []).1
run_turn-InScope_example =
    run_turn-InScope toy escalating defaults (ok listed) (ok listed) someone question

node_ends : (verify_claims_node toy escalating defaults escalated []).0 ≡ ok unchanged
unfolding verify_claims_node check_draft mentions_action_vocabulary action_vocabulary mentions
    contains
node_ends = refl

verify_claims_node-Cleared_example :
    (evidence : Value) × (build_evidence_summary escalated ≡ ok evidence)
    × Cleared toy escalating defaults escalated evidence unchanged
verify_claims_node-Cleared_example =
    verify_claims_node-Cleared toy escalating defaults escalated [] unchanged node_ends

abbrev asking : World
asking = scripted ("no" ∷ [])

abbrev no_claim : VerificationOutcome
no_claim = outcome clean [] false (some false) false

draft_passes : (check_draft toy asking "m" "A ticket?" null []).0 ≡ ok no_claim
unfolding check_draft mentions_action_vocabulary action_vocabulary mentions contains
draft_passes = refl

check_draft_clean_example : Passed toy asking "m" "A ticket?" null []
check_draft_clean_example =
    check_draft_clean toy asking "m" "A ticket?" null [] no_claim draft_passes refl

decision_read :
    read_decision toy question (some (obj (field "routes" (arr (cons (str "sales") nil)) end)))
    ≡ ok (routed (field "routes" (arr (cons (str "sales") nil)) end) none (some ("sales" ∷ [])))
unfolding read_decision last_content derive_price_filters mentions contains
decision_read = refl

compute_degradation_iff_example :
    (((compute_degradation toy escalated).0 ≡ false) ↔ (
      IsClean escalated.sales_result
      × IsClean escalated.account_result
      × (not_created escalated.escalate_result ≡ false)))
    × (((compute_degradation toy escalated).0 ≡ false)
        ↔ ((compute_degradation toy escalated).1 ≡ []))
compute_degradation_iff_example = compute_degradation_iff toy escalated
