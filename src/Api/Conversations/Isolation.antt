-- ===== src/Api/Conversations/Isolation.antt =====
-- What the row policies keep apart.
use mathlib.Core.Path.{ap₂, fun_ext, subst}
use dealership_agent.Api.Conversations.{
  ConversationRow, MessageRow, Store, append_messages, conversation_by_ref, in_scope,
  load_conversation, loaded, messages_of, visible_conversations, visible_messages, with_message,
}
use dealership_agent.Api.Conversations.History.{filter-drop}
use dealership_agent.Api.Conversations.WellFormed.{DistinctIds, IsWellFormed}
use dealership_agent.Base.{
  ==_iff, Bool, Bool-cases, List, Option, String, [], any, ap, arith, false, filter, filter-twice,
  inl, inr, map, none, refl, same_int, same_int_iff, some, sym, true, ℕ, ℤ, ◌==◌, ◌=ₛ◌, ◌∙◌, ◌∷◌,
  ◌≡◌, ◌≢◌, ◌⊎◌,
}
use dealership_agent.Python.{Message, ok}

any-filter :
    {A : Type 0} (p q : A → Bool) (xs : List A) → any q (filter p xs) ≡ true → any q xs ≡ true
any-filter p q [] h = h
any-filter p q (x ∷ xs) h = elim (Bool-cases (p x)) [
  | inl e ↦ elim (Bool-cases (q x)) [
    | inl f ↦ rw f refl
    | inr f ↦ rw (f, any-filter p q xs (rw (e, f, filter) at h)) refl
  ]
  | inr e ↦ elim (Bool-cases (q x)) [
    | inl f ↦ rw f refl
    | inr f ↦ rw (f, any-filter p q xs (rw (e, filter) at h)) refl
  ]
]

-- The conversations that have the customer's number.
abbrev pub own_conversations : ℤ → Store → List ConversationRow
own_conversations customer s = filter (λ r. same_int r.customer_id customer) s.conversations

-- The tables with no row but these conversations and the messages that are in one of them.
abbrev pub own_part : ℤ → Store → Store
own_part customer s = record s {
  conversations = own_conversations customer s;
  messages =
      filter (λ m. any (λ r. r.id == m.conversation_id) (own_conversations customer s)) s.messages;
}

-- What a customer loads depends on that customer's own rows only: without every other row of both
-- tables the answer is the same, whether the reference is another customer's or nobody's.
pub load_conversation-own_part :
    (customer : ℤ) (ref : String) (s : Store)
    → load_conversation customer ref (own_part customer s) ≡ load_conversation customer ref s
unfolding load_conversation loaded
load_conversation-own_part customer ref s =
    ap
      (λ rows. loaded customer (own_part customer s) (filter (λ r. r.conversation_ref =ₛ ref) rows))
      rows_same
    ∙ go (conversation_by_ref customer s ref)
  where
    rows_same :
        visible_conversations customer (own_part customer s) ≡ visible_conversations customer s
    rows_same = filter-twice (λ r. same_int r.customer_id customer) s.conversations

    shown : Store → MessageRow → Bool
    shown t m = in_scope customer t m.conversation_id

    scope_same : shown (own_part customer s) ≡ shown s
    scope_same = fun_ext λ m. (ap (λ rows. any (λ r. r.id == m.conversation_id) rows) rows_same)

    messages_same :
        (id : ℕ) → messages_of customer (own_part customer s) id ≡ messages_of customer s id
    messages_same id =
        ap
          (λ p.
            map (λ x. x.message)
              (filter (λ x. x.conversation_id == id) (filter p (visible_messages customer s))))
          scope_same
        ∙ ap (λ rows. map (λ x. x.message) (filter (λ x. x.conversation_id == id) rows))
            (filter-twice (λ m. in_scope customer s m.conversation_id) s.messages)

    go :
        (rows : List ConversationRow)
        → loaded customer (own_part customer s) rows ≡ loaded customer s rows
    go [] = refl
    go (r ∷ rs) = ap (λ ms. some (r.id, ms)) (messages_same r.id)

-- The answer from the visible conversations and the messages.
abbrev view_of :
    List ConversationRow → List MessageRow → List ConversationRow → Option (ℕ × List Message)
view_of shown messages [] = none
view_of shown messages (r ∷ rs) = some (
  r.id,
  map (λ x. x.message)
      (filter (λ x. x.conversation_id == r.id)
        (filter (λ m. any (λ y. y.id == m.conversation_id) shown) messages)),
)

load-view :
    (customer : ℤ) (ref : String) (s : Store)
    → load_conversation customer ref s
      ≡ view_of (visible_conversations customer s) s.messages (conversation_by_ref customer s ref)
unfolding load_conversation loaded
load-view customer ref s = go (conversation_by_ref customer s ref)
  where
    go :
        (rows : List ConversationRow)
        → loaded customer s rows ≡ view_of (visible_conversations customer s) s.messages rows
    go [] = refl
    go (r ∷ rs) = refl

-- Stores that show a customer the same conversations, and have the same messages, load alike.
pub load_conversation-cong :
    (customer : ℤ) (ref : String) (a b : Store)
    → visible_conversations customer a ≡ visible_conversations customer b
    → a.messages ≡ b.messages
    → load_conversation customer ref a ≡ load_conversation customer ref b
unfolding conversation_by_ref
load_conversation-cong customer ref a b h k =
    load-view customer ref a
    ∙ (ap₂
          (λ shown messages. view_of shown messages (filter (λ r. r.conversation_ref =ₛ ref) shown))
          h k
        ∙ sym (load-view customer ref b))

-- An id in the scope of a customer is the first row's, or one of a later row.
first_or_later :
    (c : ℤ) (id : ℕ) (r : ConversationRow) (rs : List ConversationRow)
    → any (λ x. x.id == id) (filter (λ x. same_int x.customer_id c) (r ∷ rs)) ≡ true
    → ((r.customer_id ≡ c) × (r.id ≡ id))
      ⊎ (any (λ x. x.id == id) (filter (λ x. same_int x.customer_id c) rs) ≡ true)
first_or_later c id r rs h = elim (Bool-cases (same_int r.customer_id c)) [
  | inr e ↦ inr (rw (e, filter) at h)
  | inl e ↦ elim (Bool-cases (r.id == id)) [
    | inl f ↦ inl ((same_int_iff r.customer_id c).0 e, (==_iff r.id id).0 f)
    | inr f ↦ inr (rw (e, f, filter) at h)
  ]
]

later_not_first :
    (c : ℤ) (id : ℕ) (r : ConversationRow) (rs : List ConversationRow)
    → any (λ x. x.id == r.id) rs ≡ false
    → r.id ≡ id
    → any (λ x. x.id == id) (filter (λ x. same_int x.customer_id c) rs) ≡ true
    → ⊥
later_not_first c id r rs w e h =
    let k = any-filter (λ x. same_int x.customer_id c) (λ x. x.id == id) rs h in
    let n : any (λ x. x.id == id) rs ≡ false = subst (λ i. any (λ x. x.id == i) rs ≡ false) e w in
    cc

-- A conversation is in the scope of one customer only.
one_owner :
    (c d : ℤ) (id : ℕ) (rows : List ConversationRow)
    → DistinctIds rows
    → any (λ x. x.id == id) (filter (λ x. same_int x.customer_id c) rows) ≡ true
    → any (λ x. x.id == id) (filter (λ x. same_int x.customer_id d) rows) ≡ true
    → c ≡ d
one_owner c d id [] w h k = absurd (ground arith)
one_owner c d id (r ∷ rs) w h k = elim (first_or_later c id r rs h) [
  | inl (e, f) ↦ elim (first_or_later d id r rs k) [
    | inl (g, i) ↦ sym e ∙ g
    | inr l ↦ absurd (later_not_first d id r rs w.0 f l)
  ]
  | inr l ↦ elim (first_or_later d id r rs k) [
    | inl (g, i) ↦ absurd (later_not_first c id r rs w.0 i l)
    | inr m ↦ one_owner c d id rs w.1 l m
  ]
]

-- A message that is written outside of a customer's scope is not loaded.
write_unseen :
    (d : ℤ) (id : ℕ) (m : Message) (ref : String) (s : Store)
    → in_scope d s id ≡ false
    → load_conversation d ref (with_message id m s) ≡ load_conversation d ref s
unfolding load_conversation loaded
write_unseen d id m ref s h = go (conversation_by_ref d s ref)
  where
    row : MessageRow
    row = record { conversation_id = id; message = m }

    go : (rows : List ConversationRow) → loaded d (with_message id m s) rows ≡ loaded d s rows
    go [] = refl
    go (r ∷ rs) =
        ap
          (λ shown.
            some (r.id, map (λ x. x.message) (filter (λ x. x.conversation_id == r.id) shown)))
          (filter-drop (λ x. in_scope d s x.conversation_id) s.messages row h)

-- What one customer appends to a conversation no other customer sees: every other customer loads
-- what was loaded before. No two conversations may have the same id.
pub append_messages-others :
    (c d : ℤ) (id : ℕ) (ms : List Message) (ref : String) (s s' : Store)
    → c ≢ d
    → IsWellFormed s
    → append_messages c id ms s ≡ ok s'
    → load_conversation d ref s' ≡ load_conversation d ref s
unfolding append_messages
append_messages-others c d id [] ref s s' n w h =
    let e : s ≡ s' = ground arith in ap (load_conversation d ref) (sym e)
append_messages-others c d id (m ∷ ms) ref s s' n w h = elim (Bool-cases (in_scope c s id)) [
  | inr e ↦ absurd (refused e)
  | inl e ↦
      append_messages-others c d id ms ref (with_message id m s) s' n
        (record { below = w.below; distinct = w.distinct }) (allowed e)
      ∙ write_unseen d id m ref s (unseen e)
]
  where
    allowed : in_scope c s id ≡ true → append_messages c id ms (with_message id m s) ≡ ok s'
    allowed e = rw e at h

    refused : in_scope c s id ≡ false → ⊥
    refused e = let k = rw e at h in ground arith

    unseen : in_scope c s id ≡ true → in_scope d s id ≡ false
    unseen e = elim (Bool-cases (in_scope d s id)) [
      | inr f ↦ f
      | inl f ↦ absurd (n (one_owner c d id s.conversations w.distinct e f))
    ]
