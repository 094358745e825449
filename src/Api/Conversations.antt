-- ===== src/Api/Conversations.antt =====
-- api/conversations.py on the two tables of
-- db/migrations/versions/e90c8a3aff54_add_conversation_persistence_with_rls.py, with the row policies
-- of that migration and the scope that db/rls.py sets. Rows stand in the order of their serial ids.
pub mod History
pub mod Isolation
pub mod WellFormed
pub mod Histories
pub mod Refines
pub mod Rows
pub mod Stored
use dealership_agent.Base.{
  Bool, List, Option, String, [], any, filter, if◌then◌else◌, map, none, not, same_int, some, suc,
  ℕ, ℤ, ◌++◌, ◌==◌, ◌=ₛ◌, ◌∷◌,
}
use dealership_agent.Python.{Message, Outcome, external_error, ok, raise}

pub record ConversationRow : Type 0 where
  pub id : ℕ
  pub conversation_ref : String
  pub customer_id : ℤ

pub record MessageRow : Type 0 where
  pub conversation_id : ℕ
  pub message : Message

-- The tables, the next serial id, and the ids of the table `customers` that the foreign key reads.
pub record Store : Type 0 where
  pub conversations : List ConversationRow
  pub messages : List MessageRow
  pub next_id : ℕ
  pub customers : List ℤ

-- The rows that the policy `conversations_isolation` shows in the scope of a customer.
unfoldable pub visible_conversations : ℤ → Store → List ConversationRow
visible_conversations customer store =
    filter (λ r. same_int r.customer_id customer) store.conversations

-- conversation_id IN (SELECT id FROM conversations WHERE customer_id = …)
unfoldable pub in_scope : ℤ → Store → ℕ → Bool
unfolding visible_conversations
in_scope customer store id = any (λ r. r.id == id) (visible_conversations customer store)

-- The rows that `conversation_messages_isolation` shows.
unfoldable pub visible_messages : ℤ → Store → List MessageRow
unfolding in_scope
visible_messages customer store =
    filter (λ m. in_scope customer store m.conversation_id) store.messages

-- The second query: the messages of a conversation in the order of their ids.
unfoldable pub messages_of : ℤ → Store → ℕ → List Message
unfolding visible_messages
messages_of customer store id =
    map (λ m. m.message) (filter (λ m. m.conversation_id == id) (visible_messages customer store))

-- The first query: `fetchone`.
unfoldable pub conversation_by_ref : ℤ → Store → String → List ConversationRow
unfolding visible_conversations
conversation_by_ref customer store ref =
    filter (λ r. r.conversation_ref =ₛ ref) (visible_conversations customer store)

unfoldable pub loaded : ℤ → Store → List ConversationRow → Option (ℕ × List Message)
unfolding messages_of
loaded customer store [] = none
loaded customer store (r ∷ rs) = some (r.id, messages_of customer store r.id)

unfoldable pub load_conversation : ℤ → String → Store → Option (ℕ × List Message)
unfolding conversation_by_ref loaded
load_conversation customer ref store =
    loaded customer store (conversation_by_ref customer store ref)

abbrev pub with_conversation : String → ℤ → Store → Store
with_conversation ref customer store = record store {
  conversations =
      store.conversations
      ++ (record { id = store.next_id; conversation_ref = ref; customer_id = customer } ∷ []);
  next_id = suc store.next_id;
}

-- The insert: the unique index and the foreign key see every row, whatever the scope. The `ref` is
-- `conv-` and a fresh UUID.
unfoldable pub create_conversation : ℤ → String → Store → Outcome ((ℕ × String) × Store)
create_conversation customer ref store =
    if any (λ r. r.conversation_ref =ₛ ref) store.conversations
    then raise (external_error "duplicate conversation_ref")
    else if not (any (λ c. same_int c customer) store.customers)
    then raise (external_error "no such customer")
    else ok ((store.next_id, ref), with_conversation ref customer store)

abbrev pub with_message : ℕ → Message → Store → Store
with_message id message store = record store {
  messages = store.messages ++ (record { conversation_id = id; message = message } ∷ []);
}

-- One transaction: an insert that the policy refuses raises, and then nothing is written.
unfoldable pub append_messages : ℤ → ℕ → List Message → Store → Outcome Store
unfolding in_scope
append_messages customer id [] store = ok store
append_messages customer id (m ∷ ms) store =
    let rest = append_messages customer id ms (with_message id m store) in
    if in_scope customer store id
    then rest
    else raise (external_error "new row violates row-level security policy")
