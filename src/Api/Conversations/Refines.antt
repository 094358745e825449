-- ===== src/Api/Conversations/Refines.antt =====
-- The operations on the tables, against those on the map of histories.
use mathlib.Core.Path.{ap₂, fun_ext}
use mathlib.Core.List.{append-nil}
use dealership_agent.Api.Conversations.{
  ConversationRow, Store, append_messages, conversation_by_ref, create_conversation,
  load_conversation, loaded, visible_conversations, with_conversation,
}
use dealership_agent.Api.Conversations.Histories.{
  appended, first_history, histories, histories-first, is_at, messages_of-written, started, written,
}
use dealership_agent.Api.Conversations.History.{head_in_scope, some_pair}
use dealership_agent.Api.Conversations.Rows.{
  append_written, as_rows, by_ref-append, by_ref_head, no_messages, no_rows, row_by_id,
  written-append, written-other, written-rows,
}
use dealership_agent.Api.Conversations.Stored.{IsStored}
use dealership_agent.Base.{
  ==_iff, Bool-cases, List, String, [], any, ap, arith, eq_iff, false, filter, inl, inr, refl,
  same_int, same_int_iff, some, sym, true, ℕ, ℤ, ◌++◌, ◌==◌, ◌=ₛ◌, ◌∙◌, ◌∷◌, ◌≡◌,
}
use dealership_agent.Python.{Message, ok}

module _ (customer : ℤ) (ref : String) (s : Store) (w : IsStored s) where
  as_before :
      (c : ℤ) (r : String)
      → first_history s.messages (conversation_by_ref c s r ++ []) ≡ histories s c r
  as_before c r =
      ap (first_history s.messages) (append-nil (conversation_by_ref c s r))
      ∙ sym (histories-first s c r)

  started_at :
      (c : ℤ) (r : String)
      → any (λ x. x.conversation_ref =ₛ ref) s.conversations ≡ false
      → histories (with_conversation ref customer s) c r ≡ started customer ref (histories s) c r
  unfolding conversation_by_ref
  started_at c r new =
      let fresh : ConversationRow = record {
        id = s.next_id;
        conversation_ref = ref;
        customer_id = customer;
      } in
      let old = conversation_by_ref c s r in
      histories-first (with_conversation ref customer s) c r
      ∙ (ap (first_history s.messages) (by_ref-append c r s.conversations fresh)
          ∙ elim (Bool-cases (same_int customer c)) [
            | inr f ↦ rw (f, filter) (as_before c r)
            | inl f ↦ elim (Bool-cases (ref =ₛ r)) [
              | inr g ↦ rw (f, g, filter) (as_before c r)
              | inl g ↦
                  rw (f, g, filter)
                    (ap (λ rows. first_history s.messages (rows ++ (fresh ∷ [])))
                        (no_rows c r s.conversations (
                          ap (λ t. any (λ x. x.conversation_ref =ₛ t) s.conversations)
                            (sym ((eq_iff ref r).0 g))
                          ∙ new))
                      ∙ ap some (no_messages s.next_id s.messages w.owned))
            ]
          ])

  -- The row that was loaded, with its messages.
  loaded_row :
      (id : ℕ) (prior : List Message)
      → load_conversation customer ref s ≡ some (id, prior)
      → (row : ConversationRow) × (rows : List ConversationRow) × (conversation_by_ref customer s
            ref
          ≡ row ∷ rows)
        × (row.id ≡ id)
        × (written id s.messages ≡ prior)
  unfolding load_conversation loaded
  loaded_row id prior h = go (conversation_by_ref customer s ref) refl h
    where
      go :
          (found : List ConversationRow)
          → conversation_by_ref customer s ref ≡ found
          → loaded customer s found ≡ some (id, prior)
          → (row : ConversationRow) × (rows : List ConversationRow) × (conversation_by_ref customer
                s ref
              ≡ row ∷ rows)
            × (row.id ≡ id)
            × (written id s.messages ≡ prior)
      go [] e k = absurd (ground arith)
      go (x ∷ xs) e k =
          let (same, before) = some_pair k in
          let seen = messages_of-written customer s x.id (
            head_in_scope customer (λ y. y.conversation_ref =ₛ ref)
              (visible_conversations customer s) x xs e) in
          (x, xs, e, same, ap (λ i. written i s.messages) (sym same) ∙ (sym seen ∙ before))

  module _ (id : ℕ) (prior ms : List Message)
      (found : load_conversation customer ref s ≡ some (id, prior)) where
    -- No other conversation has the id.
    other_id :
        (c : ℤ) (r : String) (x : ConversationRow) (xs : List ConversationRow)
        → conversation_by_ref c s r ≡ x ∷ xs
        → is_at customer ref c r ≡ false
        → (id == x.id) ≡ false
    other_id c r x xs e n = elim (Bool-cases (id == x.id)) [
      | inr o ↦ o
      | inl o ↦
          let (row, rows, t, i, m) = loaded_row id prior found in
          let (c1, r1, f1) = by_ref_head s c r x xs w.well_formed.distinct e in
          let (c2, r2, f2) = by_ref_head s customer ref row rows w.well_formed.distinct t in
          let ids : row.id ≡ x.id = i ∙ (==_iff id x.id).0 o in
          let same : row ≡ x =
            some_same row x (sym f2 ∙ (ap (λ j. row_by_id j s.conversations) ids ∙ f1)) in
          let p : customer ≡ c = sym c2 ∙ (ap (λ y. y.customer_id) same ∙ c1) in
          let q : ref ≡ r = sym r2 ∙ (ap (λ y. y.conversation_ref) same ∙ r1) in
          let yes_at : is_at customer ref c r ≡ true =
            rw ((same_int_iff customer c).1 p) ((eq_iff ref r).1 q) in
          absurd (ground arith)
    ]
      where
        some_same : (a b : ConversationRow) → some a ≡ some b → a ≡ b
        some_same a b h = ground arith

    rest_same :
        (c : ℤ) (r : String) (rows : List ConversationRow)
        → conversation_by_ref c s r ≡ rows
        → is_at customer ref c r ≡ false
        → first_history (s.messages ++ as_rows id ms) rows ≡ first_history s.messages rows
    rest_same c r [] e n = refl
    rest_same c r (x ∷ xs) e n = ap some (
        written-append x.id s.messages (as_rows id ms)
        ∙ (ap (λ t. written x.id s.messages ++ t) (written-other x.id id ms (other_id c r x xs e n))
            ∙ append-nil (written x.id s.messages)))

    own_grows :
        first_history (s.messages ++ as_rows id ms) (conversation_by_ref customer s ref)
        ≡ some (prior ++ ms)
    own_grows =
        let (row, rows, t, i, m) = loaded_row id prior found in
        ap (first_history (s.messages ++ as_rows id ms)) t
        ∙ ap some (
            written-append row.id s.messages (as_rows id ms)
            ∙ (ap (λ j. written j s.messages ++ written j (as_rows id ms)) i
                ∙ ap₂ (λ a b. a ++ b) m (written-rows id ms)))

    appended_at :
        (s' : Store) (c : ℤ) (r : String)
        → append_messages customer id ms s ≡ ok s'
        → histories s' c r ≡ appended customer ref prior ms (histories s) c r
    unfolding conversation_by_ref
    appended_at s' c r a =
        let (cs, msgs) = append_written customer id ms s s' a in
        histories-first s' c r
        ∙ (ap₂
              (λ rows messages. first_history messages (
                filter (λ x. x.conversation_ref =ₛ r)
                  (filter (λ x. same_int x.customer_id c) rows)))
              cs msgs
            ∙ elim (Bool-cases (is_at customer ref c r)) [
              | inr n ↦
                  rw n
                    (rest_same c r (conversation_by_ref c s r) refl n ∙ sym (histories-first s c r))
              | inl h ↦ rw h (
                  ap₂
                    (λ x y. first_history (s.messages ++ as_rows id ms) (conversation_by_ref x s y))
                    (at_customer c r h) (at_ref c r h)
                  ∙ own_grows)
            ])
      where
        at_customer : (c : ℤ) (r : String) → is_at customer ref c r ≡ true → c ≡ customer
        at_customer c r h = elim (Bool-cases (same_int customer c)) [
          | inl e ↦ sym ((same_int_iff customer c).0 e)
          | inr e ↦ let k = rw e at h in absurd (ground arith)
        ]

        at_ref : (c : ℤ) (r : String) → is_at customer ref c r ≡ true → r ≡ ref
        at_ref c r h = elim (Bool-cases (same_int customer c)) [
          | inl e ↦ sym ((eq_iff ref r).0 (rw e at h))
          | inr e ↦ let k = rw e at h in absurd (ground arith)
        ]

started_step :
    (customer : ℤ) (ref : String) (s : Store)
    → IsStored s
    → (made : ℕ × String) (s' : Store) → create_conversation customer ref s ≡ ok (made, s')
    → (c : ℤ) (r : String) → histories s' c r ≡ started customer ref (histories s) c r
unfolding create_conversation
started_step customer ref s w made s' h c r =
    elim (Bool-cases (any (λ x. x.conversation_ref =ₛ ref) s.conversations)) [
      | inl e ↦ let k = rw e at h in absurd (ground arith)
      | inr e ↦
          let same : with_conversation ref customer s ≡ s' = ground arith in
          ap (λ t. histories t c r) (sym same) ∙ started_at customer ref s w c r e
    ]

-- Starting a conversation, when it succeeds, refines a step on a map from customers and references to
-- histories: the customer's new reference gets an empty history, and no other history changes.
pub create_conversation-refines :
    (customer : ℤ) (ref : String) (s : Store)
    → IsStored s
    → (made : ℕ × String) (s' : Store) → create_conversation customer ref s ≡ ok (made, s')
    → histories s' ≡ started customer ref (histories s)
create_conversation-refines customer ref s w made s' h =
    fun_ext (λ c. fun_ext (λ r. started_step customer ref s w made s' h c r))

-- Appending to a conversation that the customer has loaded, when it succeeds, refines the step on the
-- map of histories that adds the messages, in their order, at the end of that history; no other
-- history of any customer changes.
pub append_messages-refines :
    (customer : ℤ) (ref : String) (s : Store)
    → IsStored s
    → (id : ℕ) (prior ms : List Message) (s' : Store)
    → load_conversation customer ref s ≡ some (id, prior)
    → append_messages customer id ms s ≡ ok s'
    → histories s' ≡ appended customer ref prior ms (histories s)
append_messages-refines customer ref s w id prior ms s' h a =
    fun_ext (λ c. fun_ext (λ r. appended_at customer ref s w id prior ms h s' c r a))
