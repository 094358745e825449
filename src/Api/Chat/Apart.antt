-- ===== src/Api/Chat/Apart.antt =====
-- What a request to `/chat` leaves as it was.
use mathlib.Core.Path.{subst}
use dealership_agent.Agents.Graph.{run_turn}
use dealership_agent.Agents.ToolLoop.{say}
use dealership_agent.Api.Chat.{
  ChatRequest, Handled, Opened, Service, Surroundings, chat, chat_as, finish_turn,
  open_conversation, opened_existing, run_opened,
}
use dealership_agent.Api.Chat.Effects.{Apart, Stored-Apart, finish_turn-Stored, opened_others}
use dealership_agent.Api.Conversations.{Store, load_conversation}
use dealership_agent.Api.Conversations.WellFormed.{IsWellFormed}
use dealership_agent.Api.RateLimit.{check, get_rate_limiter}
use dealership_agent.Base.{
  Bool-cases, Option, String, [], ap, inl, inr, none, refl, some, sym, ℤ, ◌++◌, ◌+◌, ◌∙◌, ◌∷◌, ◌≡◌,
  ◌≢◌,
}
use dealership_agent.Config.{Settings}
use dealership_agent.Python.{Exn, Library, Outcome, Trace, World, http_exception, ok, raise, user}
use dealership_agent.Tools.Identity.{RequestIdentity}

module _ (lib : Library) (w : World) (settings : Settings) (around : Surroundings) where
  run_opened-Apart :
      (d customer : ℤ) (ref : String) (identity : RequestIdentity) (request : ChatRequest)
      (service : Service) (t : Trace) (o : Outcome (Opened × Store))
      → d ≢ customer
      → IsWellFormed service.store
      → open_conversation customer request.conversation_id around.fresh_ref service.store ≡ o
      → Apart d ref service.store
          (run_opened lib w settings around identity customer request service o t).0.1.store
  unfolding run_opened
  run_opened-Apart d customer ref identity request service t (raise e) n v h = (v, refl)
  run_opened-Apart d customer ref identity request service t (ok (opened, s)) n v h =
      let (v2, same) =
        opened_others d customer request.conversation_id around.fresh_ref ref service.store s opened
          n v h in
      let turn =
        (run_turn lib w settings around.listed_first around.listed_second identity
          (opened.prior ++ (say user request.message ∷ [])) t).0 in
      let (v3, later) =
        Stored-Apart d customer ref request opened s
          (finish_turn around customer request opened s turn) n v2
          (finish_turn-Stored around customer request opened s turn) in
      (v3, later ∙ same)

  -- Whatever one customer's request does, on every branch and whatever the model says, every other
  -- customer loads from the tables what was loaded before, under any reference; and the ids stay
  -- distinct. The identity must not be the other customer's.
  pub chat_others :
      (d : ℤ) (ref : String) (identity : RequestIdentity) (request : ChatRequest)
      (service : Service) (t : Trace)
      → identity.customer_id ≢ some d
      → IsWellFormed service.store
      → Apart d ref service.store (chat lib w settings around identity request service t).0.1.store
  unfolding chat
  chat_others d ref identity request service t n v =
      let limiter =
        get_rate_limiter service.limiter settings.rate_limit_per_customer_per_minute
          settings.rate_limit_global_per_minute around.now in
      let checked = check limiter (around.print_id identity.customer_id) around.now in
      elim (Bool-cases checked.1.allowed) [
        | inr e ↦ rw e (v, refl)
        | inl e ↦
            rw e (apart (record service { limiter = some checked.0 }) v identity.customer_id n)
      ]
    where
      apart :
          (service' : Service)
          → IsWellFormed service'.store
          → (customer : Option ℤ) → customer ≢ some d
          → Apart d ref service'.store
              (chat_as lib w settings around identity request service' customer t).0.1.store
      apart service' v none n = (v, refl)
      apart service' v (some customer) n =
          run_opened-Apart d customer ref identity request service' t
            (open_conversation customer request.conversation_id around.fresh_ref service'.store)
            (λ q. n (ap some (sym q))) v refl

  -- Nothing was asked and nothing was written.
  abbrev pub IsRefused : Trace → Store → Handled lib w settings around → Type 0
  IsRefused t store handled =
      (handled.1 ≡ t) × (handled.0.1.store ≡ store) × (e : Exn) × (handled.0.0 ≡ raise e)

  -- A request for a conversation that the customer cannot load, be it another customer's or nobody's,
  -- raises. The model and the tool server are not asked, and no row is written.
  pub chat_not_found :
      (customer : ℤ) (ref : String) (identity : RequestIdentity) (request : ChatRequest)
      (service : Service) (t : Trace)
      → identity.customer_id ≡ some customer
      → request.conversation_id ≡ some ref
      → load_conversation customer ref service.store ≡ none
      → IsRefused t service.store (chat lib w settings around identity request service t)
  unfolding chat chat_as open_conversation run_opened
  chat_not_found customer ref identity request service t c r l =
      let limiter =
        get_rate_limiter service.limiter settings.rate_limit_per_customer_per_minute
          settings.rate_limit_global_per_minute around.now in
      let checked = check limiter (around.print_id identity.customer_id) around.now in
      elim (Bool-cases checked.1.allowed) [
        | inr e ↦ rw e (
          refl,
          refl,
          http_exception 429 "Rate limit exceeded" (some (checked.1.retry_after + 1)),
          refl,
        )
        | inl e ↦
            rw e (missing (record service { limiter = some checked.0 }) l identity.customer_id c)
      ]
    where
      not_opened :
          (store : Store)
          → load_conversation customer ref store ≡ none
          → open_conversation customer request.conversation_id around.fresh_ref store
            ≡ raise (http_exception 404 "Conversation not found" none)
      not_opened store l = rw r (ap (λ x. opened_existing ref x store) l)

      missing :
          (service' : Service)
          → load_conversation customer ref service'.store ≡ none
          → (found : Option ℤ) → found ≡ some customer
          → IsRefused t service'.store
              (chat_as lib w settings around identity request service' found t)
      missing service' l found c =
          subst
            (λ x.
              IsRefused t service'.store
                (chat_as lib w settings around identity request service' x t))
            (sym c)
            (subst
              (λ o.
                IsRefused t service'.store
                  (run_opened lib w settings around identity customer request service' o t))
              (sym (not_opened service'.store l))
              (refl, refl, http_exception 404 "Conversation not found" none, refl))
