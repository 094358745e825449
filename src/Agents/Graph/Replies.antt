-- ===== src/Agents/Graph/Replies.antt =====
-- What the customer is told when a turn ends: every superstep moves a turn from stage to stage.
use mathlib.Core.Path.{subst}
use dealership_agent.Agents.ActionClaims.{build_evidence_summary}
use dealership_agent.Agents.Degradation.{compute_degradation}
use dealership_agent.Agents.Graph.{
  Node, clarify, frontier, intake, recursion_limit, router, run_graph, run_node, run_turn,
  superstep, synthesis, verify_claims,
}
use dealership_agent.Agents.Graph.Stages.{
  IsChecked, IsHonest, IsQuestion, Stage, Untouched, after_intake, after_merge, after_router,
  at_account, at_both, at_clarify, at_end, at_escalate, at_intake, at_merge, at_router, at_sales,
  at_synthesis, at_verify, final_of,
}
use dealership_agent.Agents.Nodes.{clarify_node}
use dealership_agent.Agents.Prompts.{router_system_prompt}
use dealership_agent.Agents.Routing.{
  Update, default_clarify_question, intake_node, is_clarify, last_content, read_decision,
  route_decision, routed, router_node, routes_of, stripped,
}
use dealership_agent.Agents.State.{GraphState, initial_state}
use dealership_agent.Agents.Synthesis.{
  draft_of, synthesis_messages, synthesis_node, synthesized, verify_claims_node,
}
use dealership_agent.Agents.Synthesis.Verified.{verify_claims_node-Cleared}
use dealership_agent.Agents.ToolBinding.{
  RegisteredTool, SubAgent, build_account_agent, build_sales_agent,
}
use dealership_agent.Agents.ToolLoop.{say}
use dealership_agent.Base.{
  Bool-cases, List, Option, String, [], arith, inl, inr, none, refl, some, suc, true, zero, ℕ, ◌=ₛ◌,
  ◌∷◌, ◌≡◌, ◌⊎◌,
}
use dealership_agent.Config.{Settings, model_classifier, model_synthesis}
use dealership_agent.Python.{
  Fields, Library, Message, Outcome, Trace, Value, World, bind_ok, complete, end, get, lift, obj,
  ok, or_else, pure, str, system, then_ok, truthy, ◌>>=◌,
}
use dealership_agent.Tools.Identity.{RequestIdentity}

same_value : {A : Type 0} (a b : A) → ok a ≡ ok b → a ≡ b
same_value a b h = ground arith

default_question : truthy (str default_clarify_question) ≡ true
unfolding truthy
default_question = refl

or_else-truthy : (v : Value) → truthy (or_else v (str default_clarify_question)) ≡ true
or_else-truthy v = elim (Bool-cases (truthy v)) [
  | inl e ↦ rw (e, e) refl
  | inr e ↦ rw e default_question
]

draft_is : (a b : String) → draft_of (str a) ≡ ok b → a ≡ b
unfolding draft_of
draft_is a b h = ground arith

module _ (lib : Library) (w : World) (settings : Settings) (sales account : SubAgent) where
  -- A superstep of one node does what the node does.
  one_node :
      (n : Node) (s : GraphState) (t : Trace) (u : Update)
      → (superstep lib w settings sales account (n ∷ []) s t).0 ≡ ok u
      → (run_node lib w settings sales account n s t).0 ≡ ok u
  unfolding superstep
  one_node n s t u h =
      let (v, h1, h2) = bind_ok (run_node lib w settings sales account n s) _ t u h in
      let q : v ≡ u = same_value v u h2 in
      subst (λ x. (run_node lib w settings sales account n s t).0 ≡ ok x) q h1

  intake-Untouched :
      (s : GraphState) (t : Trace) (u : Update)
      → (intake_node s t).0 ≡ ok u
      → Untouched s
      → Untouched (u s)
  unfolding intake_node
  intake-Untouched s t u h c = elim (Bool-cases (stripped (last_content s.messages) =ₛ "")) [
    | inl e ↦ subst (λ x. Untouched (x s)) (same_value _ u (rw e at h)) c
    | inr e ↦ subst (λ x. Untouched (x s)) (same_value _ u (rw e at h)) c
  ]

  routed-Untouched :
      (decision : Fields) (filters : Option Fields) (ts : Option (List String)) (s : GraphState)
      → Untouched s
      → Untouched (routed decision filters ts s)
  unfolding routed
  routed-Untouched decision filters none s c = c
  routed-Untouched decision filters (some ts) s c = c

  decision-Untouched :
      (decision : Fields) (s : GraphState) (u : Update)
      → route_decision lib s.messages decision ≡ ok u
      → Untouched s
      → Untouched (u s)
  unfolding route_decision
  decision-Untouched decision s u h c =
      let (ts, h1, h2) = then_ok (routes_of (get "routes" decision)) _ u h in
      let (content, h3, h4) = then_ok (last_content s.messages) _ u h2 in
      subst (λ x. Untouched (x s)) (same_value _ u h4) (routed-Untouched decision _ ts s c)

  read-Untouched :
      (raw : Option Value) (s : GraphState) (u : Update)
      → read_decision lib s.messages raw ≡ ok u
      → Untouched s
      → Untouched (u s)
  unfolding read_decision
  read-Untouched none s u h c = decision-Untouched end s u h c
  read-Untouched (some (obj decision)) s u h c = decision-Untouched decision s u h c
  read-Untouched (some v) s u h c = absurd (ground arith)

  router-Untouched :
      (s : GraphState) (t : Trace) (u : Update)
      → (router_node lib w settings s t).0 ≡ ok u
      → Untouched s
      → Untouched (u s)
  unfolding router_node
  router-Untouched s t u h c = elim (Bool-cases (is_clarify s.routes)) [
    | inl e ↦ subst (λ x. Untouched (x s)) (same_value _ u (rw e at h)) c
    | inr e ↦
        let (raw, h1, h2) =
          bind_ok
            (complete w (say system router_system_prompt ∷ s.messages) (model_classifier settings))
            (λ raw. lift (read_decision lib s.messages (lib.loads raw))) t u (rw e at h) in
        read-Untouched (lib.loads raw) s u h2 c
  ]

  clarify_node-IsQuestion :
      (s : GraphState) (t : Trace) (u : Update)
      → (clarify_node s t).0 ≡ ok u
      → Untouched s
      → IsQuestion (u s)
  unfolding clarify_node
  clarify_node-IsQuestion s t u h c =
      subst (λ x. IsQuestion (x s)) (same_value _ u h) (c, or_else-truthy s.clarify_question)

  synthesis-Stage :
      (s : GraphState) (t : Trace) (u : Update)
      → (synthesis_node lib w settings s t).0 ≡ ok u
      → Stage lib w settings (verify_claims ∷ []) (u s)
  unfolding synthesis_node
  synthesis-Stage s t u h =
      let (response, h1, h2) =
        bind_ok (complete w (synthesis_messages lib s) (model_synthesis settings))
          (λ response. pure (synthesized (compute_degradation lib s) response)) t u h in
      let v : Update = synthesized (compute_degradation lib s) response in
      subst (λ x. Stage lib w settings (verify_claims ∷ []) (x s)) (same_value v u h2)
        (at_verify (v s) response refl refl)

  verify-IsChecked :
      (s : GraphState) (draft : String) (t : Trace) (u : Update)
      → s.final_response ≡ str draft
      → s.degraded ≡ (compute_degradation lib s).0
      → (verify_claims_node lib w settings s t).0 ≡ ok u
      → IsChecked lib w settings (u s)
  unfolding build_evidence_summary
  verify-IsChecked s draft t u d g h =
      let (evidence, e, c) = verify_claims_node-Cleared lib w settings s t u h in
      elim c [
        | inl (q, reply, f, p) ↦ rw q (honest, inr (reply, kept reply f, evidence, e, p.0, p.1))
        | inr (inl (reply, q, p)) ↦ rw q (inl refl, inr (reply, refl, evidence, e, p.0, p.1))
        | inr (inr q) ↦ rw q (inl refl, inl refl)
      ]
    where
      honest : IsHonest lib s
      honest = elim (Bool-cases s.degraded) [ inl e ↦ inl e | inr e ↦ inr (ground arith) ]

      kept : (reply : String) → draft_of s.final_response ≡ ok reply → s.final_response ≡ str reply
      kept reply f = let y = draft_is draft reply (rw d at f) in rw (d, y) refl

  -- A superstep moves a turn to its next stage.
  superstep-Stage :
      (ns : List Node) (s : GraphState) (t : Trace) (u : Update)
      → Stage lib w settings ns s
      → (superstep lib w settings sales account ns s t).0 ≡ ok u
      → Stage lib w settings (frontier ns (u s)) (u s)
  unfolding run_node frontier superstep
  superstep-Stage _ s t u (at_intake _ c) h =
      after_intake lib w settings (u s) (intake-Untouched s t u (one_node intake s t u h) c)
  superstep-Stage _ s t u (at_router _ c) h =
      after_router lib w settings (u s) (router-Untouched s t u (one_node router s t u h) c)
  superstep-Stage _ s t u (at_clarify _ c) h =
      at_end (u s) (inl (clarify_node-IsQuestion s t u (one_node clarify s t u h) c))
  superstep-Stage _ s t u (at_sales _) h = at_merge (u s)
  superstep-Stage _ s t u (at_account _) h = at_merge (u s)
  superstep-Stage _ s t u (at_both _) h = at_merge (u s)
  superstep-Stage _ s t u (at_merge _) h = after_merge lib w settings (u s)
  superstep-Stage _ s t u (at_escalate _) h = at_synthesis (u s)
  superstep-Stage _ s t u (at_synthesis _) h = synthesis-Stage s t u (one_node synthesis s t u h)
  superstep-Stage _ s t u (at_verify _ draft d g) h =
      at_end (u s) (inr (verify-IsChecked s draft t u d g (one_node verify_claims s t u h)))
  superstep-Stage _ s t u (at_end _ f) h =
      subst (λ x. Stage lib w settings [] (x s)) (same_value _ u h) (at_end s f)

  run_graph-Stage :
      (k : ℕ) (ns : List Node) (s : GraphState) (t : Trace) (r : GraphState)
      → Stage lib w settings ns s
      → (run_graph lib w settings sales account k ns s t).0 ≡ ok (some r)
      → IsQuestion r ⊎ IsChecked lib w settings r
  unfolding run_graph
  run_graph-Stage k [] s t r g h =
      let q : s ≡ r = ground arith in
      subst (λ x. IsQuestion x ⊎ IsChecked lib w settings x) q (final_of lib w settings s g)
  run_graph-Stage zero (n ∷ ns) s t r g h = absurd (ground arith)
  run_graph-Stage (suc k) (n ∷ ns) s t r g h =
      let (u, h1, h2) =
        bind_ok (superstep lib w settings sales account (n ∷ ns) s) _ t (some r) h in
      run_graph-Stage k (frontier (n ∷ ns) (u s)) (u s) _ r (superstep-Stage (n ∷ ns) s t u g h1) h2

-- A turn that ends in a state either asks the customer a question, with no sub-agent run and
-- nothing escalated; or it gives a reply that the check of action claims has passed, against the
-- evidence of what this turn did, or the fixed text instead, and then a turn that is not marked
-- degraded is one in which nothing went wrong.
pub run_turn_replies :
    (lib : Library) (w : World) (settings : Settings)
    (listed_first listed_second : Outcome (List RegisteredTool)) (identity : RequestIdentity)
    (messages : List Message) (t : Trace) (r : GraphState)
    → (run_turn lib w settings listed_first listed_second identity messages t).0 ≡ ok (some r)
    → IsQuestion r ⊎ IsChecked lib w settings r
unfolding run_turn
run_turn_replies lib w settings listed_first listed_second identity messages t r h =
    let (sales, h1, h2) = bind_ok (lift (listed_first >>= build_sales_agent)) _ t (some r) h in
    let (account, h3, h4) =
      bind_ok (lift (listed_second >>= build_account_agent)) _ t (some r) h2 in
    let start : GraphState = initial_state messages identity in
    run_graph-Stage lib w settings sales account recursion_limit (intake ∷ []) start t r
      (at_intake start (refl, refl, refl)) h4
