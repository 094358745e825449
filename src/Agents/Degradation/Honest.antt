-- ===== src/Agents/Degradation/Honest.antt =====
-- A turn counts as degraded exactly when something in it went wrong.
use dealership_agent.Agents.Degradation.{
  call_reasons, compute_degradation, degradation_reasons_of, is_empty, not_created, reason_if,
  result_degradation_reasons,
}
use dealership_agent.Agents.State.{GraphState, has_error, tool_of}
use dealership_agent.Agents.ToolLoop.{ToolCall, ToolLoopResult}
use dealership_agent.Base.{
  All, Bool, List, Option, String, [], arith, false, none, not, refl, some, true, ◌++◌, ◌<>◌, ◌↔◌,
  ◌∷◌, ◌≡◌,
}
use dealership_agent.Python.{Library}

-- Nothing went wrong in a loop: no flag, and no tool call with an error.
abbrev pub IsClean : Option ToolLoopResult → Type 0
IsClean none = Unit
IsClean (some r) =
    (r.hit_cap ≡ false)
    × (r.llm_call_failed ≡ false)
    × (r.hit_budget_guard ≡ false)
    × All (λ c. has_error c ≡ false) r.tool_calls

append-nil_iff : (xs ys : List String) → ((xs ++ ys) ≡ []) ↔ ((xs ≡ []) × (ys ≡ []))
append-nil_iff [] ys = (λ h. (refl, h), λ h. h.1)
append-nil_iff (x ∷ xs) ys = (λ h. absurd (ground arith), λ h. absurd (ground arith))

reason_if-nil : (b : Bool) (r : String) → (reason_if b r ≡ []) ↔ (b ≡ false)
reason_if-nil true r = (λ h. absurd (ground arith), λ h. absurd (ground arith))
reason_if-nil false r = (λ h. refl, λ h. refl)

call_reasons-nil :
    (lib : Library) (p : String) (calls : List ToolCall)
    → (call_reasons lib p calls ≡ []) ↔ All (λ c. has_error c ≡ false) calls
unfolding call_reasons
call_reasons-nil lib p [] = (λ h. tt, λ h. refl)
call_reasons-nil lib p (c ∷ calls) =
    let head = reason_if-nil (has_error c) (p <> ("_tool_error:" <> lib.format (tool_of c))) in
    let both = append-nil_iff (reason_if (has_error c) _) (call_reasons lib p calls) in
    let rest = call_reasons-nil lib p calls in
    (λ h. (head.0 (both.0 h).0, rest.0 (both.0 h).1), λ h. both.1 (head.1 h.0, rest.1 h.1))

result_reasons-nil :
    (lib : Library) (p : String) (r : Option ToolLoopResult)
    → (result_degradation_reasons lib p r ≡ []) ↔ IsClean r
unfolding result_degradation_reasons
result_reasons-nil lib p none = (λ h. tt, λ h. refl)
result_reasons-nil lib p (some r) =
    let a = reason_if-nil r.hit_cap (p <> "_hit_iteration_cap") in
    let b = reason_if-nil r.llm_call_failed (p <> "_llm_call_failed") in
    let c = reason_if-nil r.hit_budget_guard (p <> "_budget_guard_fired") in
    let d = call_reasons-nil lib p r.tool_calls in
    let ab = append-nil_iff (reason_if r.hit_cap _) _ in
    let bc = append-nil_iff (reason_if r.llm_call_failed _) _ in
    let cd = append-nil_iff (reason_if r.hit_budget_guard _) (call_reasons lib p r.tool_calls) in
    (
      λ h.
          let u = ab.0 h in
          let v = bc.0 u.1 in let x = cd.0 v.1 in (a.0 u.0, b.0 v.0, c.0 x.0, d.0 x.1),
      λ h. ab.1 (a.1 h.0, bc.1 (b.1 h.1, cd.1 (c.1 h.2, d.1 h.3))),
    )

-- A turn is not degraded exactly when both loops ended without a flag and without a failed tool
-- call, and no escalation came back as not created; and it is not degraded exactly when it names
-- no reason.
pub compute_degradation_iff :
    (lib : Library) (s : GraphState)
    → (((compute_degradation lib s).0 ≡ false) ↔ (
        IsClean s.sales_result
        × IsClean s.account_result
        × (not_created s.escalate_result ≡ false)))
      × (((compute_degradation lib s).0 ≡ false) ↔ ((compute_degradation lib s).1 ≡ []))
unfolding compute_degradation
compute_degradation_iff lib s =
    let reasons : List String = degradation_reasons_of lib s in
    let sales = result_reasons-nil lib "sales" s.sales_result in
    let account = result_reasons-nil lib "account" s.account_result in
    let created = reason_if-nil (not_created s.escalate_result) "escalation_not_created" in
    let first = append-nil_iff (result_degradation_reasons lib "sales" s.sales_result) (
      result_degradation_reasons lib "account" s.account_result
      ++ reason_if (not_created s.escalate_result) "escalation_not_created") in
    let second =
      append-nil_iff (result_degradation_reasons lib "account" s.account_result)
        (reason_if (not_created s.escalate_result) "escalation_not_created") in
    let flag = empty_iff reasons in
    (
      (
        λ h.
            let u = first.0 (flag.0 h) in
            let v = second.0 u.1 in (sales.0 u.0, account.0 v.0, created.0 v.1),
        λ h. flag.1 (first.1 (sales.1 h.0, second.1 (account.1 h.1, created.1 h.2))),
      ),
      flag,
    )
  where
    empty_iff : (xs : List String) → (not (is_empty xs) ≡ false) ↔ (xs ≡ [])
    empty_iff [] = (λ h. refl, λ h. refl)
    empty_iff (x ∷ xs) = (λ h. absurd (ground arith), λ h. absurd (ground arith))
