-- ===== src/Agents/ActionClaims.antt =====
-- agents/action_claims.py: the check of a draft reply for claims of actions that were not taken.
pub mod Precheck
pub mod Clean
use dealership_agent.Agents.Pricing.{mentions}
use dealership_agent.Agents.Prompts.{stage1_system_prompt, stage2_system_prompt}
use dealership_agent.Agents.State.{GraphState, has_error, result_of, tool_of}
use dealership_agent.Agents.ToolLoop.{ToolCall, ToolLoopResult, say}
use dealership_agent.Base.{
  Bool, List, Option, String, [], false, if◌then◌else◌, join, map, none, not, some, true, ◌++◌,
  ◌<>◌, ◌∷◌,
}
use dealership_agent.Python.{
  Action, Library, Message, Outcome, Value, World, arr, array, attribute_error, bind, bool,
  complete, elements, end, field, get, get?, is_str, key_error, lift, null, num, obj, ok, pure,
  raise, system, traverse, truthy, type_error, user, ◌>>=◌,
}

unfoldable pub action_vocabulary : List String
action_vocabulary =
    "escalat" ∷ "hand off" ∷ "handoff" ∷ "handed off" ∷ "human agent" ∷ "human rep" ∷ "specialist"
    ∷ "follow up" ∷ "follow-up" ∷ "reach out" ∷ "get back to you" ∷ "in touch" ∷ "connect you"
    ∷ "someone from our team" ∷ "someone will" ∷ "support ticket" ∷ "ticket" ∷ "cancel" ∷ "refund"
    ∷ "reimburse" ∷ "book" ∷ "schedul" ∷ "process your" ∷ "processed" ∷ "created a" ∷ "opened a"
    ∷ "submitted" ∷ "flagged" ∷ "passed along" ∷ "passed this along" ∷ "forwarded" ∷ "updated your"
    ∷ "added a note" ∷ "team will" ∷ "manager" ∷ []

-- Stage 0.
unfoldable pub mentions_action_vocabulary : Library → String → Bool
mentions_action_vocabulary lib text = mentions action_vocabulary (lib.lower text)

-- parsed["action_claim_detected"], with every error of the `try` block as `None`
unfoldable pub detected_of : Option Value → Option Bool
detected_of (some (obj parsed)) = elim (get? "action_claim_detected" parsed) [
  | some (bool b) ↦ some b
  | _ ↦ none
]
detected_of _ = none

abbrev pub stage1_messages : String → List Message
stage1_messages draft = say system stage1_system_prompt ∷ say user ("Draft reply:\n" <> draft) ∷ []

-- parsed["claims"], likewise
unfoldable pub claims_of : Option Value → Option (List Value)
claims_of (some (obj parsed)) = elim (get? "claims" parsed) [
  | some (arr claims) ↦ some (elements claims)
  | _ ↦ none
]
claims_of _ = none

abbrev pub stage2_messages : Library → String → Value → List Message
stage2_messages lib draft evidence =
    say system stage2_system_prompt
    ∷ say user
        ("Draft reply:\n" <> (draft <> ("\n\nAvailable tool evidence:\n" <> lib.dumps evidence)))
    ∷ []

-- for chunk in call.get("result") or []: the content of each chunk that is a dict and has one
unfoldable pub snippet_of : Value → List Value
snippet_of (obj chunk) = if truthy (get "content" chunk) then get "content" chunk ∷ [] else []
snippet_of _ = []

snippets : List Value → List Value
unfolding snippet_of
snippets [] = []
snippets (chunk ∷ chunks) = snippet_of chunk ++ snippets chunks

-- What iterating over the result gives: the elements of a list, and for a dict or a text only keys
-- or characters, which are no dicts. A number or `True` cannot be iterated over.
unfoldable pub result_snippets : Value → Outcome (List Value)
unfolding snippets
result_snippets (arr chunks) = ok (snippets (elements chunks))
result_snippets (bool true) = raise type_error
result_snippets (num n) = if truthy (num n) then raise type_error else ok []
result_snippets _ = ok []

unfoldable pub call_snippets : ToolCall → Outcome (List Value)
unfolding result_snippets
call_snippets call =
    if is_str "search_policy_docs" (tool_of call) then result_snippets (result_of call) else ok []

all_snippets : List ToolCall → Outcome (List Value)
unfolding call_snippets
all_snippets [] = ok []
all_snippets (call ∷ calls) =
    call_snippets call >>= λ here. (all_snippets calls >>= λ rest. ok (here ++ rest))

-- _extract_retrieved_policy_snippets
unfoldable pub extract_retrieved_policy_snippets : Option ToolLoopResult → Outcome (List Value)
unfolding all_snippets
extract_retrieved_policy_snippets none = ok []
extract_retrieved_policy_snippets (some r) = all_snippets r.tool_calls

call_summary : ToolCall → Value
call_summary call =
    obj (field "tool" (tool_of call) (field "succeeded" (bool (not (has_error call))) end))

tool_summary : Option ToolLoopResult → Value
unfolding call_summary
tool_summary none = null
tool_summary (some r) = arr (array (map call_summary r.tool_calls))

unfoldable pub build_evidence_summary : GraphState → Outcome Value
unfolding tool_summary extract_retrieved_policy_snippets
build_evidence_summary state = extract_retrieved_policy_snippets state.sales_result >>= λ snippets.
    ok (
      obj (
        field "sales_tool_calls" (tool_summary state.sales_result) (
          field "account_tool_calls" (tool_summary state.account_result) (
            field "escalation_result" state.escalate_result
              (field "retrieved_policy_snippets" (arr (array snippets)) end)))))

-- not c.get("substantiated"), where a claim that is no dict raises
unfoldable pub is_unsubstantiated : Value → Outcome Bool
is_unsubstantiated (obj claim) = ok (not (truthy (get "substantiated" claim)))
is_unsubstantiated _ = raise attribute_error

unfoldable pub unsubstantiated_claims : List Value → Outcome (List Value)
unfolding is_unsubstantiated
unsubstantiated_claims [] = ok []
unsubstantiated_claims (c ∷ cs) = is_unsubstantiated c >>= λ bad.
    (unsubstantiated_claims cs >>= λ rest. ok (if bad then c ∷ rest else rest))

-- c["type"], c["quote"]
claim_line : Library → Value → Outcome String
claim_line lib (obj claim) = elim (get? "type" claim) [
  | none ↦ raise (key_error "type")
  | some type ↦ elim (get? "quote" claim) [
    | none ↦ raise (key_error "quote")
    | some quote ↦ ok ("- [" <> (lib.format type <> ("] \"" <> (lib.format quote <> "\""))))
  ]
]
claim_line lib _ = raise type_error

unfoldable pub format_violations : Library → List Value → Outcome String
unfolding claim_line
format_violations lib claims = traverse (claim_line lib) claims >>= λ ls. ok (join "\n" ls)

pub data Label : Type 0 where
  violation clean : Label

pub record VerificationOutcome : Type 0 where
  pub label : Label
  pub claims : List Value
  pub skipped_precheck : Bool
  pub stage1_detected : Option Bool
  pub unparseable : Bool

abbrev pub outcome : Label → List Value → Bool → Option Bool → Bool → VerificationOutcome
outcome label claims skipped detected unparseable = record {
  label = label;
  claims = claims;
  skipped_precheck = skipped;
  stage1_detected = detected;
  unparseable = unparseable;
}

-- The end of `check_draft`.
abbrev pub judged : List Value → VerificationOutcome
judged [] = outcome clean [] false (some true) false
judged (c ∷ cs) = outcome violation (c ∷ cs) false (some true) false

module _ (lib : Library) (w : World) (model : String) where
  unfoldable pub detect_action_claim : String → Action (Option Bool)
  unfolding complete detected_of
  detect_action_claim draft =
      bind (complete w (stage1_messages draft) model) (λ raw. pure (detected_of (lib.loads raw)))

  unfoldable pub verify_action_claims : String → Value → Action (Option (List Value))
  unfolding complete claims_of
  verify_action_claims draft evidence =
      bind (complete w (stage2_messages lib draft evidence) model)
        (λ raw. pure (claims_of (lib.loads raw)))

  unfoldable pub after_stage2 : Option (List Value) → Action VerificationOutcome
  unfolding unsubstantiated_claims
  after_stage2 none = pure (outcome violation [] false (some true) true)
  after_stage2 (some claims) = lift (unsubstantiated_claims claims >>= λ bad. ok (judged bad))

  unfoldable pub after_stage1 : String → Value → Option Bool → Action VerificationOutcome
  unfolding verify_action_claims after_stage2
  after_stage1 draft evidence none = pure (outcome violation [] false none true)
  after_stage1 draft evidence (some false) = pure (outcome clean [] false (some false) false)
  after_stage1 draft evidence (some true) = bind (verify_action_claims draft evidence) after_stage2

  unfoldable pub check_draft : String → Value → Action VerificationOutcome
  unfolding detect_action_claim after_stage1
  check_draft draft evidence =
      if not (mentions_action_vocabulary lib draft)
      then pure (outcome clean [] true none false)
      else bind (detect_action_claim draft) (after_stage1 draft evidence)
