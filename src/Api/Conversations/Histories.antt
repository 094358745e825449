-- ===== src/Api/Conversations/Histories.antt =====
-- What every customer can load, as a map from references to histories.
use dealership_agent.Api.Conversations.{
  ConversationRow, MessageRow, Store, conversation_by_ref, in_scope, load_conversation, loaded,
  messages_of, visible_conversations,
}
use dealership_agent.Api.Conversations.History.{head_in_scope}
use dealership_agent.Base.{
  ==_iff, Bool, List, Option, String, [], ap, filter, filter_implied, if◌then◌else◌, map, none,
  refl, same_int, some, true, ℕ, ℤ, ◌&&◌, ◌++◌, ◌==◌, ◌=ₛ◌, ◌∙◌, ◌∷◌, ◌≡◌,
}
use dealership_agent.Python.{Message}

-- The abstract state: the messages of a customer's conversation under a reference.
abbrev pub Histories : Type 0
Histories = ℤ → String → Option (List Message)

abbrev without_id : Option (ℕ × List Message) → Option (List Message)
without_id none = none
without_id (some (id, messages)) = some messages

-- The map that the tables stand for.
unfoldable pub histories : Store → Histories
histories s customer ref = without_id (load_conversation customer ref s)

abbrev pub is_at : ℤ → String → ℤ → String → Bool
is_at customer ref c r = same_int customer c && (ref =ₛ r)

-- The abstract operations: a new conversation is empty, and messages come last in their own.
abbrev pub started : ℤ → String → Histories → Histories
started customer ref m c r = if is_at customer ref c r then some [] else m c r

abbrev pub appended : ℤ → String → List Message → List Message → Histories → Histories
appended customer ref prior ms m c r = if is_at customer ref c r then some (prior ++ ms) else m c r

-- The messages of a conversation, whoever asks.
abbrev pub written : ℕ → List MessageRow → List Message
written id rows = map (λ m. m.message) (filter (λ m. m.conversation_id == id) rows)

abbrev pub first_history : List MessageRow → List ConversationRow → Option (List Message)
first_history messages [] = none
first_history messages (row ∷ rows) = some (written row.id messages)

pub messages_of-written :
    (customer : ℤ) (s : Store) (id : ℕ)
    → in_scope customer s id ≡ true
    → messages_of customer s id ≡ written id s.messages
unfolding messages_of
messages_of-written customer s id h = ap (map (λ m. m.message)) (
    filter_implied (λ m. m.conversation_id == id) (λ m. in_scope customer s m.conversation_id)
      s.messages (λ m e. ap (in_scope customer s) ((==_iff m.conversation_id id).0 e) ∙ h))

-- The map read off the tables without the second policy.
pub histories-first :
    (s : Store) (customer : ℤ) (ref : String)
    → histories s customer ref ≡ first_history s.messages (conversation_by_ref customer s ref)
unfolding histories load_conversation loaded
histories-first s customer ref = go (conversation_by_ref customer s ref) refl
  where
    go :
        (rows : List ConversationRow)
        → conversation_by_ref customer s ref ≡ rows
        → without_id (loaded customer s rows) ≡ first_history s.messages rows
    go [] e = refl
    go (r ∷ rs) e = ap some (
        messages_of-written customer s r.id (
          head_in_scope customer (λ x. x.conversation_ref =ₛ ref) (visible_conversations customer s)
            r rs e))
