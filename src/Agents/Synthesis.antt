-- ===== src/Agents/Synthesis.antt =====
-- agents/nodes.py, the last two nodes: the reply, and the check of what it claims to have done.
pub mod Verified
use dealership_agent.Agents.ActionClaims.{
  Label, VerificationOutcome, build_evidence_summary, check_draft, clean, format_violations,
  violation,
}
use dealership_agent.Agents.Degradation.{compute_degradation}
use dealership_agent.Agents.Prompts.{
  correction_instruction, safe_fallback_text, synthesis_system_prompt,
}
use dealership_agent.Agents.Routing.{Update, unchanged}
use dealership_agent.Agents.State.{GraphState, result_value}
use dealership_agent.Agents.ToolLoop.{say}
use dealership_agent.Base.{
  Bool, List, Option, String, [], if◌then◌else◌, join, none, some, true, ◌++◌, ◌<>◌, ◌=ₛ◌, ◌∷◌,
}
use dealership_agent.Config.{Settings, model_classifier, model_synthesis}
use dealership_agent.Python.{
  Action, Library, Message, Outcome, Value, World, assistant, attribute_error, bind, complete, end,
  field, lift, obj, ok, pure, raise, str, system, truthy, user,
}

abbrev pub agent_results : GraphState → Value
agent_results state = obj (
    field "sales" (result_value state.sales_result) (
      field "account" (result_value state.account_result)
        (field "escalation" state.escalate_result end)))

-- if degradation_note: messages.append(…)
abbrev pub note_message : Option String → List Message
note_message none = []
note_message (some note) = if note =ₛ "" then [] else say user note ∷ []

unfoldable pub build_synthesis_messages : Library → GraphState → Option String → List Message
build_synthesis_messages lib state note =
    say system synthesis_system_prompt
    ∷ (state.messages
        ++ (say user ("Agent results: " <> lib.dumps (agent_results state)) ∷ note_message note))

unfoldable pub degradation_note : List String → String
degradation_note reasons =
    "Internal note, do not quote verbatim: this turn did not fully complete ("
    <> (join ", " reasons
        <> "). If this means part of the customer's request could not be answered, you MUST say so plainly in your reply and offer to try again or escalate - never present partial or missing results as if they were complete.")

-- The note is there when the turn is degraded.
abbrev pub note_of : Bool × List String → Option String
unfolding degradation_note
note_of (degraded, reasons) = if degraded then some (degradation_note reasons) else none

unfoldable pub synthesis_messages : Library → GraphState → List Message
unfolding build_synthesis_messages compute_degradation
synthesis_messages lib state =
    build_synthesis_messages lib state (note_of (compute_degradation lib state))

abbrev pub synthesized : Bool × List String → String → Update
synthesized (degraded, reasons) response s = record s {
  final_response = str response;
  degraded = degraded;
  degradation_reasons = reasons;
}

-- state.get("final_response") or "", where the check calls `.lower()` on the draft
unfoldable pub draft_of : Value → Outcome String
draft_of (str s) = ok s
draft_of v = if truthy v then raise attribute_error else ok ""

unfoldable pub violation_text : Library → VerificationOutcome → Outcome String
violation_text lib o =
    if o.unparseable
    then ok
        "- the fact-check itself could not be completed, so no claim in this draft can be verified as true"
    else format_violations lib o.claims

-- What the node puts in the state: a reply, and one more reason.
abbrev pub replaced : GraphState → String → String → Update
replaced state reply reason s = record s {
  final_response = str reply;
  degraded = true;
  degradation_reasons = state.degradation_reasons ++ (reason ∷ []);
}

unfoldable pub correction_messages : Library → GraphState → String → String → List Message
unfolding build_synthesis_messages
correction_messages lib state draft violations =
    build_synthesis_messages lib state none
    ++ (say assistant draft ∷ say user (correction_instruction violations) ∷ [])

unfoldable pub after_recheck : GraphState → String → VerificationOutcome → Update
after_recheck state regenerated o = elim o.label [
  | clean ↦ replaced state regenerated "action_claim_corrected"
  | violation ↦ replaced state safe_fallback_text "action_claim_replaced"
]

module _ (lib : Library) (w : World) (settings : Settings) where
  unfoldable pub synthesis_node : GraphState → Action Update
  unfolding complete synthesis_messages compute_degradation
  synthesis_node state =
      bind (complete w (synthesis_messages lib state) (model_synthesis settings))
        (λ response. pure (synthesized (compute_degradation lib state) response))

  abbrev pub check_of : String → Value → Action VerificationOutcome
  check_of = check_draft lib w (model_classifier settings)

  -- The second draft and its check, from the first draft's outcome.
  unfoldable pub correct_draft : GraphState → String → Value → VerificationOutcome → Action Update
  unfolding complete violation_text correction_messages after_recheck
  correct_draft state draft evidence o = bind (lift (violation_text lib o)) λ violations.
      (bind (complete w (correction_messages lib state draft violations) (model_synthesis settings))
        λ regenerated.
          (bind (check_of regenerated evidence)
            λ recheck. (pure (after_recheck state regenerated recheck))))

  abbrev pub after_label : Label → GraphState → String → Value → VerificationOutcome → Action Update
  after_label clean state draft evidence o = pure unchanged
  after_label violation state draft evidence o = correct_draft state draft evidence o

  unfoldable pub after_check : GraphState → String → Value → VerificationOutcome → Action Update
  after_check state draft evidence o = after_label o.label state draft evidence o

  unfoldable pub verify_claims_node : GraphState → Action Update
  unfolding draft_of build_evidence_summary after_check
  verify_claims_node state = bind (lift (build_evidence_summary state)) λ evidence.
      (bind (lift (draft_of state.final_response))
        λ draft. (bind (check_of draft evidence) (after_check state draft evidence)))
