-- ===== src/Agents/Nodes/Causes.antt =====
-- The escalation record names a cause exactly when the graph escalates for a loop that failed.
use dealership_agent.Agents.Nodes.{
  any_result_needs_escalation, cause_of, cause_text, escalation_cause, has_flag, result_causes,
}
use dealership_agent.Agents.State.{GraphState}
use dealership_agent.Agents.ToolLoop.{ToolLoopResult}
use dealership_agent.Base.{
  Bool, Bool-cases, List, Option, String, [], arith, false, inl, inr, none, refl, some, true, ◌++◌,
  ◌||◌, ◌↔◌, ◌∷◌, ◌≡◌,
}

causes-empty :
    (label : String) (r : Option ToolLoopResult)
    → (result_causes label r ≡ []) ↔ (has_flag r ≡ false)
unfolding result_causes
causes-empty label none = (λ h. refl, λ h. refl)
causes-empty label (some r) = (λ h. ground arith, λ h. ground arith)

abbrev pub reason_text : String
reason_text = "tool_loop_could_not_complete"

cause_iff :
    (xs ys : List String) (f g : Bool)
    → ((xs ≡ []) ↔ (f ≡ false))
    → ((ys ≡ []) ↔ (g ≡ false))
    → (((f || g) ≡ true)
        ↔ ((summary : String) × (cause_of (xs ++ ys) ≡ some (summary, reason_text))))
      × (((f || g) ≡ false) ↔ (cause_of (xs ++ ys) ≡ none))
cause_iff [] [] f g p q =
    let a = p.0 refl in
    let b = q.0 refl in
    ((λ h. absurd (ground arith), λ h. absurd (ground arith)), (λ h. refl, λ h. ground arith))
cause_iff [] (y ∷ ys) f g p q =
    let b : g ≡ true = elim (Bool-cases g) [
      | inl e ↦ e
      | inr e ↦ absurd (let r = q.1 e in ground arith)
    ] in
    (
      (λ h. (cause_text (y ∷ ys), refl), λ h. ground arith),
      (λ h. absurd (ground arith), λ h. absurd (ground arith)),
    )
cause_iff (x ∷ xs) ys f g p q =
    let a : f ≡ true = elim (Bool-cases f) [
      | inl e ↦ e
      | inr e ↦ absurd (let r = p.1 e in ground arith)
    ] in
    (
      (λ h. (cause_text (x ∷ (xs ++ ys)), refl), λ h. ground arith),
      (λ h. absurd (ground arith), λ h. absurd (ground arith)),
    )

-- A turn in which a sub-agent's loop ended without an answer has an escalation cause, with the
-- reason `tool_loop_could_not_complete`; any other turn has none.
pub escalation_cause_iff :
    (s : GraphState)
    → ((any_result_needs_escalation s ≡ true)
        ↔ ((summary : String) × (escalation_cause s ≡ some (summary, reason_text))))
      × ((any_result_needs_escalation s ≡ false) ↔ (escalation_cause s ≡ none))
unfolding any_result_needs_escalation escalation_cause
escalation_cause_iff s =
    cause_iff _ _ (has_flag s.sales_result) (has_flag s.account_result)
      (causes-empty "the sales lookup" s.sales_result)
      (causes-empty "the account lookup" s.account_result)
