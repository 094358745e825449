-- ===== src/Agents/Synthesis/Verified.antt =====
-- What a reply has passed when it leaves the graph.
use mathlib.Core.Path.{subst}
use dealership_agent.Agents.ActionClaims.{
  Label, VerificationOutcome, build_evidence_summary, clean, violation,
}
use dealership_agent.Agents.ActionClaims.Clean.{Passed, check_draft_clean}
use dealership_agent.Agents.Prompts.{safe_fallback_text}
use dealership_agent.Agents.Routing.{Update, unchanged}
use dealership_agent.Agents.State.{GraphState}
use dealership_agent.Agents.Synthesis.{
  after_check, after_label, after_recheck, check_of, correct_draft, correction_messages, draft_of,
  replaced, verify_claims_node, violation_text,
}
use dealership_agent.Base.{String, arith, inl, inr, refl, ◌≡◌, ◌⊎◌}
use dealership_agent.Config.{Settings, model_classifier, model_synthesis}
use dealership_agent.Python.{Library, Trace, Value, World, bind_ok, complete, lift, ok}

module _ (lib : Library) (w : World) (settings : Settings) (state : GraphState) where
  abbrev pub PassedCheck : String → Value → Type 0
  PassedCheck draft evidence =
      (t : Trace) × Passed lib w (model_classifier settings) draft evidence t

  -- The draft stays, or a second one takes its place, or the fixed text does.
  abbrev pub Cleared : Value → Update → Type 0
  Cleared evidence u =
      ((u ≡ unchanged)
        × (draft : String) × (draft_of state.final_response ≡ ok draft)
        × PassedCheck draft evidence)
      ⊎ (((reply : String) × (u ≡ replaced state reply "action_claim_corrected")
            × PassedCheck reply evidence)
          ⊎ (u ≡ replaced state safe_fallback_text "action_claim_replaced"))

  recheck-Cleared :
      (reply : String) (evidence : Value) (t : Trace) (o : VerificationOutcome)
      → (check_of lib w settings reply evidence t).0 ≡ ok o
      → Cleared evidence (after_recheck state reply o)
  unfolding after_recheck
  recheck-Cleared reply evidence t o h = go o.label refl
    where
      go : (l : Label) → o.label ≡ l → Cleared evidence (after_recheck state reply o)
      go clean e =
          inr (inl (reply, rw e refl, (t, check_draft_clean lib w _ reply evidence t o h e)))
      go violation e = inr (inr (rw e refl))

  same_update :
      (evidence : Value) {u v : Update} → ok u ≡ ok v → Cleared evidence u → Cleared evidence v
  same_update evidence {u} {v} e c = let q : u ≡ v = ground arith in subst (Cleared evidence) q c

  correct-Cleared :
      (draft : String) (evidence : Value) (o : VerificationOutcome) (t : Trace) (u : Update)
      → (correct_draft lib w settings state draft evidence o t).0 ≡ ok u
      → Cleared evidence u
  unfolding correct_draft
  correct-Cleared draft evidence o t u h =
      let (violations, h1, h2) = bind_ok (lift (violation_text lib o)) _ t u h in
      let (reply, h3, h4) =
        bind_ok
          (complete w (correction_messages lib state draft violations) (model_synthesis settings)) _
          t u h2 in
      let (recheck, h5, h6) = bind_ok (check_of lib w settings reply evidence) _ _ u h4 in
      same_update evidence h6 (recheck-Cleared reply evidence _ recheck h5)

  check-Cleared :
      (draft : String) (evidence : Value) (o : VerificationOutcome) (t : Trace) (u : Update)
      → draft_of state.final_response ≡ ok draft
      → (check_of lib w settings draft evidence t).0 ≡ ok o
      → (after_check lib w settings state draft evidence o
          (check_of lib w settings draft evidence t).1).0
        ≡ ok u
      → Cleared evidence u
  unfolding after_check
  check-Cleared draft evidence o t u d h f = go o.label refl f
    where
      go :
          (l : Label)
          → o.label ≡ l
          → (after_label lib w settings l state draft evidence o
              (check_of lib w settings draft evidence t).1).0
            ≡ ok u
          → Cleared evidence u
      go clean e f =
          same_update evidence f
            (inl (refl, draft, d, (t, check_draft_clean lib w _ draft evidence t o h e)))
      go violation e f = correct-Cleared draft evidence o _ u f

  -- When the check of a turn returns, the reply is one of three: the draft, which has passed the
  -- check; a second draft, which has passed it too and carries the reason `action_claim_corrected`;
  -- or the fixed text, with the reason `action_claim_replaced`.
  pub verify_claims_node-Cleared :
      (t : Trace) (u : Update)
      → (verify_claims_node lib w settings state t).0 ≡ ok u
      → (evidence : Value) × (build_evidence_summary state ≡ ok evidence) × Cleared evidence u
  unfolding verify_claims_node
  verify_claims_node-Cleared t u h =
      let (evidence, h1, h2) = bind_ok (lift (build_evidence_summary state)) _ t u h in
      let (draft, h3, h4) = bind_ok (lift (draft_of state.final_response)) _ t u h2 in
      let (o, h5, h6) = bind_ok (check_of lib w settings draft evidence) _ t u h4 in
      (evidence, h1, check-Cleared draft evidence o t u h3 h5 h6)
