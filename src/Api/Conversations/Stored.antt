-- ===== src/Api/Conversations/Stored.antt =====
-- Tables in which every message belongs to a conversation.
use mathlib.Core.Path.{subst}
use dealership_agent.Api.Conversations.{
  ConversationRow, MessageRow, Store, append_messages, create_conversation, in_scope,
  visible_conversations, with_conversation, with_message,
}
use dealership_agent.Api.Conversations.WellFormed.{IsWellFormed, create_conversation-IsWellFormed}
use dealership_agent.Base.{
  All, All-append, Bool-cases, List, String, [], any, arith, false, filter, inl, inr, same_int, suc,
  true, ℕ, ℤ, ◌<◌, ◌==◌, ◌∷◌, ◌≡◌,
}
use dealership_agent.Python.{Message, ok}

-- The ids are in order, and every message belongs to a conversation that was made.
pub record IsStored (s : Store) : Type 0 where
  pub well_formed : IsWellFormed s
  pub owned : All (λ m. m.conversation_id < s.next_id) s.messages

id_below :
    (n id : ℕ) (customer : ℤ) (rows : List ConversationRow)
    → All (λ r. r.id < n) rows
    → any (λ r. r.id == id) (filter (λ r. same_int r.customer_id customer) rows) ≡ true
    → id < n
id_below n id customer [] h k = absurd (ground arith)
id_below n id customer (r ∷ rs) h k = elim (Bool-cases (same_int r.customer_id customer)) [
  | inr e ↦ id_below n id customer rs h.1 (rw (e, filter) at k)
  | inl e ↦ elim (Bool-cases (r.id == id)) [
    | inl f ↦ ground arith
    | inr f ↦ id_below n id customer rs h.1 (rw (e, f, filter) at k)
  ]
]

owned_later :
    (n : ℕ) (rows : List MessageRow)
    → All (λ m. m.conversation_id < n) rows
    → All (λ m. m.conversation_id < suc n) rows
owned_later n [] h = tt
owned_later n (m ∷ ms) h = (omega arith, owned_later n ms h.1)

pub create_conversation-IsStored :
    (customer : ℤ) (ref : String) (made : ℕ × String) (s s' : Store)
    → IsStored s
    → create_conversation customer ref s ≡ ok (made, s')
    → IsStored s'
unfolding create_conversation
create_conversation-IsStored customer ref made s s' w h =
    let same : with_conversation ref customer s ≡ s' = ground arith in
    record {
      well_formed = create_conversation-IsWellFormed customer ref made s s' w.well_formed h;
      owned =
          subst (λ t. All (λ m. m.conversation_id < t.next_id) t.messages) same
            (owned_later s.next_id s.messages w.owned);
    }

pub append_messages-IsStored :
    (customer : ℤ) (id : ℕ) (ms : List Message) (s s' : Store)
    → IsStored s
    → append_messages customer id ms s ≡ ok s'
    → IsStored s'
unfolding append_messages in_scope visible_conversations
append_messages-IsStored customer id [] s s' w h =
    let e : s ≡ s' = ground arith in subst IsStored e w
append_messages-IsStored customer id (m ∷ ms) s s' w h =
    elim (Bool-cases (in_scope customer s id)) [
      | inr e ↦ absurd (refused e)
      | inl e ↦
          append_messages-IsStored customer id ms (with_message id m s) s'
            (record {
              well_formed = record {
                below = w.well_formed.below;
                distinct = w.well_formed.distinct;
              };
              owned =
                  All-append (λ x. x.conversation_id < s.next_id) s.messages
                    (record { conversation_id = id; message = m } ∷ []) w.owned
                    (id_below s.next_id id customer s.conversations w.well_formed.below e, tt);
            })
            (rw e at h)
    ]
  where
    refused : in_scope customer s id ≡ false → ⊥
    refused e = let k = rw e at h in ground arith
