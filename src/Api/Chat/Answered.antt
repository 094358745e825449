-- ===== src/Api/Chat/Answered.antt =====
-- What a request to `/chat` that is answered leaves in its conversation.
use mathlib.Core.Path.{subst}
use dealership_agent.Agents.State.{GraphState}
use dealership_agent.Api.Chat.{
  ChatRequest, ChatResponse, Opened, Service, Surroundings, chat, chat_as, exchange,
  open_conversation, opened_existing, respond_with, run_opened,
}
use dealership_agent.Api.Chat.Effects.{Stored, finish_turn-Stored}
use dealership_agent.Api.Conversations.{Store, load_conversation}
use dealership_agent.Api.Conversations.History.{append_messages-load}
use dealership_agent.Api.RateLimit.{check, get_rate_limiter}
use dealership_agent.Base.{
  Bool-cases, List, Option, String, arith, inl, inr, none, refl, some, sym, ℕ, ℤ, ◌++◌, ◌∙◌, ◌≡◌,
}
use dealership_agent.Config.{Settings}
use dealership_agent.Python.{Library, Message, Outcome, Trace, World, ok, raise, ◌>>=◌}
use dealership_agent.Tools.Identity.{RequestIdentity}

-- The conversation held `prior` before, and holds the exchange at its end now.
abbrev pub IsContinued : ℤ → String → ChatRequest → ChatResponse → Store → Store → Type 0
IsContinued customer ref request response s s' =
    (id : ℕ) × (prior : List Message) × (load_conversation customer ref s ≡ some (id, prior))
    × (load_conversation customer ref s' ≡ some (id, prior ++ exchange request response.answer))
    × (response.conversation_id ≡ ref)

respond_answer :
    (around : Surroundings) (answer : String) (opened : Opened) (result : GraphState)
    (r : Outcome (List String)) (response : ChatResponse)
    → (r >>= λ names. ok (respond_with around answer opened result names)) ≡ ok response
    → (response.answer ≡ answer) × (response.conversation_id ≡ opened.ref)
respond_answer around answer opened result (raise e) response h = absurd (ground arith)
respond_answer around answer opened result (ok names) response h = (ground arith, ground arith)

continued :
    (customer : ℤ) (ref : String) (id : ℕ) (prior : List Message) (request : ChatRequest)
    (response : ChatResponse) (s : Store) (ended : Outcome ChatResponse × Store)
    → load_conversation customer ref s ≡ some (id, prior)
    → Stored customer request (record { id = id; ref = ref; prior = prior }) s ended
    → ended.0 ≡ ok response
    → IsContinued customer ref request response s ended.1
continued customer ref id prior request response s ended l (inl (e, x, y)) h = absurd (ground arith)
continued customer ref id prior request response s ended l (inr (answer, a, r, result, around, x))
      h =
    let (same, named) =
      respond_answer around answer (record { id = id; ref = ref; prior = prior }) result r response
        (sym x ∙ h) in
    let (s', b, g) = append_messages-load customer ref id prior (exchange request answer) s l in
    let q : s' ≡ ended.1 = ground arith in
    (
      id,
      prior,
      l,
      subst
          (λ z.
            load_conversation customer ref z ≡ some (id, prior ++ exchange request response.answer))
          q
          (subst (λ z. load_conversation customer ref s' ≡ some (id, prior ++ exchange request z))
            (sym same) g),
      named,
    )

module _ (lib : Library) (w : World) (settings : Settings) (around : Surroundings) where
  opened_answered :
      (customer : ℤ) (ref : String) (identity : RequestIdentity) (request : ChatRequest)
      (service : Service) (t : Trace) (response : ChatResponse) (l : Option (ℕ × List Message))
      → load_conversation customer ref service.store ≡ l
      → (run_opened lib w settings around identity customer request service
          (opened_existing ref l service.store)
          t).0.0
        ≡ ok response
      → IsContinued customer ref request response service.store
          (run_opened lib w settings around identity customer request service
            (opened_existing ref l service.store)
            t).0.1.store
  unfolding run_opened
  opened_answered customer ref identity request service t response none e h = absurd (ground arith)
  opened_answered customer ref identity request service t response (some (id, prior)) e h =
      continued customer ref id prior request response service.store _ e
        (finish_turn-Stored around customer request (record { id = id; ref = ref; prior = prior })
          service.store _)
        h

  -- The request with its conversation, opened in any way that is the existing one.
  answered :
      (customer : ℤ) (ref : String) (identity : RequestIdentity) (request : ChatRequest)
      (service : Service) (t : Trace) (response : ChatResponse) (o : Outcome (Opened × Store))
      → opened_existing ref (load_conversation customer ref service.store) service.store ≡ o
      → (run_opened lib w settings around identity customer request service o t).0.0 ≡ ok response
      → IsContinued customer ref request response service.store
          (run_opened lib w settings around identity customer request service o t).0.1.store
  answered customer ref identity request service t response o e h =
      let run = λ (x : Outcome (Opened × Store)).
        run_opened lib w settings around identity customer request service x t in
      subst (λ x. IsContinued customer ref request response service.store (run x).0.1.store) e
        (opened_answered customer ref identity request service t response
          (load_conversation customer ref service.store) refl
          (subst (λ x. (run x).0.0 ≡ ok response) (sym e) h))

  -- A request that continues a conversation and is answered could load it: the conversation then
  -- holds what it held before, followed by the customer's message and the answer of the response,
  -- and the response names the same conversation.
  pub chat_continues :
      (customer : ℤ) (ref : String) (identity : RequestIdentity) (request : ChatRequest)
      (service : Service) (t : Trace) (response : ChatResponse)
      → identity.customer_id ≡ some customer
      → request.conversation_id ≡ some ref
      → (chat lib w settings around identity request service t).0.0 ≡ ok response
      → IsContinued customer ref request response service.store
          (chat lib w settings around identity request service t).0.1.store
  unfolding chat chat_as open_conversation
  chat_continues customer ref identity request service t response c r h =
      let limiter =
        get_rate_limiter service.limiter settings.rate_limit_per_customer_per_minute
          settings.rate_limit_global_per_minute around.now in
      let checked = check limiter (around.print_id identity.customer_id) around.now in
      elim (Bool-cases checked.1.allowed) [
        | inr e ↦ absurd (let k = rw e at h in ground arith)
        | inl e ↦ rw e (
            as_customer (record service { limiter = some checked.0 }) identity.customer_id c
              (rw e at h))
      ]
    where
      existing :
          (store : Store)
          → opened_existing ref (load_conversation customer ref store) store
            ≡ open_conversation customer request.conversation_id around.fresh_ref store
      existing store = rw r refl

      as_customer :
          (service' : Service) (found : Option ℤ)
          → found ≡ some customer
          → (chat_as lib w settings around identity request service' found t).0.0 ≡ ok response
          → IsContinued customer ref request response service'.store
              (chat_as lib w settings around identity request service' found t).0.1.store
      as_customer service' none c h = absurd (ground arith)
      as_customer service' (some other) c h =
          let same : other ≡ customer = ground arith in
          let run = λ (x : ℤ). chat_as lib w settings around identity request service' (some x) t in
          subst (λ x. IsContinued customer ref request response service'.store (run x).0.1.store)
            (sym same)
            (answered customer ref identity request service' t response
              (open_conversation customer request.conversation_id around.fresh_ref service'.store)
              (existing service'.store) (subst (λ x. (run x).0.0 ≡ ok response) same h))
