-- ===== src/Api/Chat/Effects.antt =====
-- What a request to `/chat` does to the conversations, in all its branches.

use mathlib.Core.Path.{subst}
use dealership_agent.Agents.State.{GraphState}
use dealership_agent.Api.Chat.{
  ChatRequest, ChatResponse, Opened, Surroundings, answer_of, exchange, finish_turn, name_of,
  open_conversation, opened_existing, opened_new, respond_with, store_and_respond, tool_calls_made,
}
use dealership_agent.Api.Conversations.{
  ConversationRow, Store, append_messages, create_conversation, load_conversation, loaded,
  with_conversation,
}
use dealership_agent.Api.Conversations.History.{filter-drop}
use dealership_agent.Api.Conversations.Isolation.{append_messages-others, load_conversation-cong}
use dealership_agent.Api.Conversations.WellFormed.{
  IsWellFormed, append_messages-IsWellFormed, create_conversation-IsWellFormed,
}
use dealership_agent.Base.{
  Bool-cases, List, Option, String, arith, false, inl, inr, none, refl, same_int, same_int_iff,
  some, sym, ℕ, ℤ, ◌≡◌, ◌≢◌, ◌⊎◌,
}
use dealership_agent.Python.{Exn, Message, Outcome, ok, raise, runtime_error, traverse, ◌>>=◌}

-- A request that ends with a stored exchange, or without one.
abbrev pub Stored : ℤ → ChatRequest → Opened → Store → Outcome ChatResponse × Store → Type 0
Stored customer request opened store ended =
    ((ended.1 ≡ store) × (e : Exn) × (ended.0 ≡ raise e))
    ⊎ ((answer : String) × (append_messages customer opened.id (exchange request answer) store
          ≡ ok ended.1)
        × (r : Outcome (List String)) × (result : GraphState) × (around : Surroundings) × (ended.0
            ≡ (r >>= λ names. ok (respond_with around answer opened result names))))

store_and_respond-Stored :
    (around : Surroundings) (customer : ℤ) (request : ChatRequest) (opened : Opened)
    (result : GraphState) (store : Store) (answer : String)
    → Stored customer request opened store
        (store_and_respond around customer request opened result store answer)
unfolding store_and_respond
store_and_respond-Stored around customer request opened result store answer =
    go (append_messages customer opened.id (exchange request answer) store) refl
  where
    go :
        (a : Outcome Store)
        → append_messages customer opened.id (exchange request answer) store ≡ a
        → Stored customer request opened store (elim a [
          | raise e ↦ (raise e, store)
          | ok store' ↦ (
            traverse name_of (tool_calls_made result) >>= λ names.
                ok (respond_with around answer opened result names),
            store',
          )
        ])
    go (raise e) h = inl (refl, e, refl)
    go (ok s) h = inr (answer, h, traverse name_of (tool_calls_made result), result, around, refl)

pub finish_turn-Stored :
    (around : Surroundings) (customer : ℤ) (request : ChatRequest) (opened : Opened) (store : Store)
    (turn : Outcome (Option GraphState))
    → Stored customer request opened store (finish_turn around customer request opened store turn)
unfolding finish_turn
finish_turn-Stored around customer request opened store (raise e) = inl (refl, e, refl)
finish_turn-Stored around customer request opened store (ok none) =
    inl (refl, runtime_error "GraphRecursionError", refl)
finish_turn-Stored around customer request opened store (ok (some result)) =
    go (answer_of result.final_response)
  where
    go :
        (a : Outcome String)
        → Stored customer request opened store (elim a [
          | raise e ↦ (raise e, store)
          | ok answer ↦ store_and_respond around customer request opened result store answer
        ])
    go (raise e) = inl (refl, e, refl)
    go (ok answer) = store_and_respond-Stored around customer request opened result store answer

create_conversation-others :
    (d customer : ℤ) (fresh ref : String) (made : ℕ × String) (s s' : Store)
    → d ≢ customer
    → create_conversation customer fresh s ≡ ok (made, s')
    → load_conversation d ref s' ≡ load_conversation d ref s
unfolding create_conversation load_conversation loaded
create_conversation-others d customer fresh ref made s s' n h =
    let same : with_conversation fresh customer s ≡ s' = ground arith in
    subst (λ x. load_conversation d ref x ≡ load_conversation d ref s) same unseen
  where
    row : ConversationRow
    row = record { id = s.next_id; conversation_ref = fresh; customer_id = customer }

    not_mine : same_int customer d ≡ false
    not_mine = elim (Bool-cases (same_int customer d)) [
      | inr e ↦ e
      | inl e ↦ absurd (n (sym ((same_int_iff customer d).0 e)))
    ]

    unseen :
        load_conversation d ref (with_conversation fresh customer s) ≡ load_conversation d ref s
    unseen =
        load_conversation-cong d ref (with_conversation fresh customer s) s
          (filter-drop (λ r. same_int r.customer_id d) s.conversations row not_mine) refl

-- The ways that opening a conversation ends.
pub opened_others :
    (d customer : ℤ) (wanted : Option String) (fresh ref : String) (s s' : Store) (opened : Opened)
    → d ≢ customer
    → IsWellFormed s
    → open_conversation customer wanted fresh s ≡ ok (opened, s')
    → IsWellFormed s' × (load_conversation d ref s' ≡ load_conversation d ref s)
unfolding open_conversation
opened_others d customer (some r) fresh ref s s' opened n w h =
    existing (load_conversation customer r s) h
  where
    existing :
        (l : Option (ℕ × List Message))
        → opened_existing r l s ≡ ok (opened, s')
        → IsWellFormed s' × (load_conversation d ref s' ≡ load_conversation d ref s)
    existing none h = absurd (ground arith)
    existing (some x) h =
        let e : s ≡ s' = ground arith in
        subst (λ y. IsWellFormed y × (load_conversation d ref y ≡ load_conversation d ref s)) e
          (w, refl)
opened_others d customer none fresh ref s s' opened n w h =
    made (create_conversation customer fresh s) refl h
  where
    made :
        (c : Outcome ((ℕ × String) × Store))
        → create_conversation customer fresh s ≡ c
        → opened_new c ≡ ok (opened, s')
        → IsWellFormed s' × (load_conversation d ref s' ≡ load_conversation d ref s)
    made (raise e) q h = absurd (ground arith)
    made (ok (x, s2)) q h =
        let e : s2 ≡ s' = ground arith in
        subst (λ y. IsWellFormed y × (load_conversation d ref y ≡ load_conversation d ref s)) e
          (
            create_conversation-IsWellFormed customer fresh x s s2 w q,
            create_conversation-others d customer fresh ref x s s2 n q,
          )

-- The store is well-formed, and a customer loads from it what was loaded from the other.
abbrev pub Apart : ℤ → String → Store → Store → Type 0
Apart d ref s s' = IsWellFormed s' × (load_conversation d ref s' ≡ load_conversation d ref s)

pub Stored-Apart :
    (d customer : ℤ) (ref : String) (request : ChatRequest) (opened : Opened) (s : Store)
    (ended : Outcome ChatResponse × Store)
    → d ≢ customer
    → IsWellFormed s
    → Stored customer request opened s ended
    → Apart d ref s ended.1
Stored-Apart d customer ref request opened s ended n w (inl (e, x, y)) =
    subst (Apart d ref s) (sym e) (w, refl)
Stored-Apart d customer ref request opened s ended n w (inr (answer, a, r, result, around, x)) = (
  append_messages-IsWellFormed customer opened.id (exchange request answer) s ended.1 w a,
  append_messages-others customer d opened.id (exchange request answer) ref s ended.1
      (λ q. n (sym q)) w a,
)
