-- ===== src/Agents/Graph/Requests.antt =====
-- What a turn asks of the tool server: the tools of its two sub-agents, and no other.
use dealership_agent.Agents.ActionClaims.{
  after_stage1, after_stage2, check_draft, claims_of, detect_action_claim, detected_of,
  mentions_action_vocabulary, stage1_messages, verify_action_claims,
}
use dealership_agent.Agents.Nodes.{limits_of, loop_of}
use dealership_agent.Agents.ToolBinding.{SubAgent}
use dealership_agent.Agents.ToolLoop.{Limits, Loop, max_iterations, run_tool_loop, start, step}
use dealership_agent.Agents.ToolLoop.Requests.{AtMostOneCall, step_trace}
use dealership_agent.Agents.ToolLoop.Rule.{rounds_trace_rule}
use dealership_agent.Base.{
  All, Bool, Bool-cases, List, Option, String, false, inl, inr, member, none, some, true, ◌∷◌, ◌≡◌,
}
use dealership_agent.Config.{Settings, model_classifier}
use dealership_agent.Python.{
  Event, Library, Message, Trace, Value, World, bind, bind_trace, complete, completion, pure,
  tool_call,
}

-- A request is in scope when it is a completion or a call of a tool that an agent may call.
abbrev pub InScope : List String → Event → Type 0
InScope allowed (completion messages model) = Unit
InScope allowed (tool_call name arguments) = member name allowed ≡ true

abbrev pub AllInScope : List String → Trace → Type 0
AllInScope allowed t = All (InScope allowed) t

pub one_call_in_scope :
    (agent : SubAgent) (lib : Library) (w : World) (limits : Limits) (model : String)
    (allowed : List String) (t u : Trace)
    → ((name : String) → member name agent.allowed_tools ≡ true → member name allowed ≡ true)
    → AllInScope allowed t
    → AtMostOneCall lib w agent limits model t u
    → AllInScope allowed u
one_call_in_scope agent lib w limits model allowed t u sub h (inl e) = rw e h
one_call_in_scope agent lib w limits model allowed t u sub h (inr (name, arguments, m, e)) =
    rw e (sub name m, h)

module _ (lib : Library) (w : World) (settings : Settings) (allowed : List String) where
  pub loop_in_scope :
      (agent : SubAgent) (system_prompt user_query : String) (t : Trace)
      → ((name : String) → member name agent.allowed_tools ≡ true → member name allowed ≡ true)
      → AllInScope allowed t
      → AllInScope allowed (loop_of lib w settings agent system_prompt user_query t).1
  unfolding run_tool_loop
  loop_in_scope agent system_prompt user_query t sub h =
      rounds_trace_rule lib w agent (limits_of lib w settings) (model_classifier settings)
        (λ n u. AllInScope allowed u) (λ n u h. h) (λ n s u h. one_step s u h) max_iterations
        (start lib w agent (limits_of lib w settings) (model_classifier settings) system_prompt
          user_query)
        t h
    where
      one_step :
          (s : Loop) (u : Trace)
          → AllInScope allowed u
          → AllInScope allowed
              (step lib w agent (limits_of lib w settings) (model_classifier settings) s u).1
      one_step s u h =
          elim (step_trace lib w agent (limits_of lib w settings) (model_classifier settings) s u) [
            | inl e ↦ rw e h
            | inr (b, c) ↦
                one_call_in_scope agent lib w (limits_of lib w settings) (model_classifier settings)
                  allowed (completion s.messages (model_classifier settings) ∷ u)
                  (step lib w agent (limits_of lib w settings) (model_classifier settings) s u).1
                  sub (tt, h) c
          ]

  pub complete_in_scope :
      (messages : List Message) (model : String) (t : Trace)
      → AllInScope allowed t
      → AllInScope allowed (complete w messages model t).1
  unfolding complete
  complete_in_scope messages model t h = (tt, h)

  asked_in_scope :
      {A : Type 0} (messages : List Message) (model : String) (f : String → A) (t : Trace)
      → AllInScope allowed t
      → AllInScope allowed (bind (complete w messages model) (λ raw. pure (f raw)) t).1
  asked_in_scope messages model f t h =
      bind_trace (AllInScope allowed) (complete w messages model) (λ raw. pure (f raw)) t
        (complete_in_scope messages model t h) (λ raw. complete_in_scope messages model t h)

  after_claims :
      (model : String) (c : Option (List Value)) (t : Trace)
      → AllInScope allowed t
      → AllInScope allowed (after_stage2 lib w model c t).1
  unfolding after_stage2
  after_claims model none t h = h
  after_claims model (some cs) t h = h

  after_detection :
      (model draft : String) (evidence : Value) (d : Option Bool) (t : Trace)
      → AllInScope allowed t
      → AllInScope allowed (after_stage1 lib w model draft evidence d t).1
  unfolding after_stage1 verify_action_claims
  after_detection model draft evidence none t h = h
  after_detection model draft evidence (some false) t h = h
  after_detection model draft evidence (some true) t h =
      bind_trace (AllInScope allowed) (verify_action_claims lib w model draft evidence)
        (after_stage2 lib w model) t (asked_in_scope _ model _ t h)
        (λ c.
          after_claims model c _ (asked_in_scope _ model (λ raw. claims_of (lib.loads raw)) t h))

  pub check_in_scope :
      (model draft : String) (evidence : Value) (t : Trace)
      → AllInScope allowed t
      → AllInScope allowed (check_draft lib w model draft evidence t).1
  unfolding check_draft detect_action_claim
  check_in_scope model draft evidence t h =
      let asked =
        asked_in_scope (stage1_messages draft) model (λ raw. detected_of (lib.loads raw)) t h in
      elim (Bool-cases (mentions_action_vocabulary lib draft)) [
        | inr e ↦ rw e h
        | inl e ↦ rw e (
            bind_trace (AllInScope allowed) (detect_action_claim lib w model draft)
              (after_stage1 lib w model draft evidence) t asked
              (λ d. after_detection model draft evidence d _ asked))
      ]
