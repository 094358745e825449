-- ===== src/Api/Conversations/History.antt =====
-- A conversation that is written to is read back with what was written at its end.
use mathlib.Core.Path.{ap₂, subst}
use mathlib.Core.List.{append-nil, append_assoc, head-eq_of_cons-eq}
use dealership_agent.Api.Conversations.{
  ConversationRow, MessageRow, Store, append_messages, conversation_by_ref, in_scope,
  load_conversation, loaded, messages_of, visible_conversations, with_message,
}
use dealership_agent.Base.{
  ==_iff, Bool, Bool-cases, List, String, [], any, ap, arith, false, filter, inl, inr, map, refl,
  same_int, some, sym, true, ℕ, ℤ, ◌++◌, ◌==◌, ◌=ₛ◌, ◌∙◌, ◌∷◌, ◌≡◌,
}
use dealership_agent.Python.{Message, ok}

module _ {A : Type 0} (p : A → Bool) where
  -- A row at the end of a table that the filter keeps, or drops.
  pub filter-last :
      (xs : List A) (x : A) → p x ≡ true → filter p (xs ++ x ∷ []) ≡ filter p xs ++ x ∷ []
  filter-last [] x h = rw h refl
  filter-last (y ∷ ys) x h = elim (Bool-cases (p y)) [
    | inl e ↦ rw (e, filter-last ys x h, filter) refl
    | inr e ↦ rw (e, filter-last ys x h, filter) refl
  ]

  pub filter-drop : (xs : List A) (x : A) → p x ≡ false → filter p (xs ++ x ∷ []) ≡ filter p xs
  filter-drop [] x h = rw h refl
  filter-drop (y ∷ ys) x h = elim (Bool-cases (p y)) [
    | inl e ↦ rw (e, filter-drop ys x h, filter) refl
    | inr e ↦ rw (e, filter-drop ys x h, filter) refl
  ]

map-last :
    {A B : Type 0} (f : A → B) (xs : List A) (x : A) → map f (xs ++ x ∷ []) ≡ map f xs ++ f x ∷ []
map-last f [] x = refl
map-last f (y ∷ ys) x = ap (λ zs. f y ∷ zs) (map-last f ys x)

-- A message that is written to a conversation in scope is the last of its messages.
messages_of-write :
    (customer : ℤ) (id : ℕ) (m : Message) (s : Store)
    → in_scope customer s id ≡ true
    → messages_of customer (with_message id m s) id ≡ messages_of customer s id ++ (m ∷ [])
unfolding messages_of
messages_of-write customer id m s h =
    let row : MessageRow = record { conversation_id = id; message = m } in
    let shown : MessageRow → Bool = λ x. in_scope customer s x.conversation_id in
    let here : MessageRow → Bool = λ x. x.conversation_id == id in
    ap (λ rows. map (λ x. x.message) (filter here rows)) (filter-last shown s.messages row h)
    ∙ (ap (λ rows. map (λ x. x.message) rows)
          (filter-last here (filter shown s.messages) row ((==_iff id id).1 refl))
        ∙ map-last (λ x. x.message) (filter here (filter shown s.messages)) row)

append_all :
    (customer : ℤ) (id : ℕ) (ms : List Message) (s : Store)
    → in_scope customer s id ≡ true
    → (s' : Store) × (append_messages customer id ms s ≡ ok s')
      × (s'.conversations ≡ s.conversations)
      × (messages_of customer s' id ≡ messages_of customer s id ++ ms)
unfolding append_messages
append_all customer id [] s h = (s, refl, refl, sym (append-nil (messages_of customer s id)))
append_all customer id (m ∷ ms) s h =
    let (s', e, c, g) = append_all customer id ms (with_message id m s) h in
    let step = messages_of-write customer id m s h in
    (
      s',
      rw (h, e) refl,
      c,
      g ∙ (ap (λ z. z ++ ms) step ∙ append_assoc (messages_of customer s id) (m ∷ []) ms),
    )

pub head_in_scope :
    (customer : ℤ) (p : ConversationRow → Bool) (rows : List ConversationRow) (r : ConversationRow)
    (rs : List ConversationRow)
    → filter p rows ≡ r ∷ rs
    → any (λ x. x.id == r.id) rows ≡ true
head_in_scope customer p [] r rs h = absurd (ground arith)
head_in_scope customer p (x ∷ xs) r rs h = elim (Bool-cases (p x)) [
  | inl e ↦
      let q : x ≡ r = head-eq_of_cons-eq (rw (e, filter) at h) in
      let same : (x.id == r.id) ≡ true = (==_iff x.id r.id).1 (ap (λ y. y.id) q) in rw same refl
  | inr e ↦
      let rest = head_in_scope customer p xs r rs (rw (e, filter) at h) in
      elim (Bool-cases (x.id == r.id)) [ inl f ↦ rw f refl | inr f ↦ rw (f, rest) refl ]
]

pub some_pair : {A B : Type 0} {x y : A × B} → some x ≡ some y → (x.0 ≡ y.0) × (x.1 ≡ y.1)
some_pair h = ground arith

-- A customer who can load a conversation can append to it; loading it again then gives what it held
-- before, followed by what was appended.
pub append_messages-load :
    (customer : ℤ) (ref : String) (id : ℕ) (prior ms : List Message) (s : Store)
    → load_conversation customer ref s ≡ some (id, prior)
    → (s' : Store) × (append_messages customer id ms s ≡ ok s')
      × (load_conversation customer ref s' ≡ some (id, prior ++ ms))
unfolding load_conversation loaded
append_messages-load customer ref id prior ms s h = go (conversation_by_ref customer s ref) refl h
  where
    by_ref_same :
        (s' : Store)
        → s'.conversations ≡ s.conversations
        → conversation_by_ref customer s' ref ≡ conversation_by_ref customer s ref
    by_ref_same s' c =
        ap
          (λ cs.
            filter (λ r. r.conversation_ref =ₛ ref)
              (filter (λ r. same_int r.customer_id customer) cs))
          c

    go :
        (rows : List ConversationRow)
        → conversation_by_ref customer s ref ≡ rows
        → loaded customer s rows ≡ some (id, prior)
        → (s' : Store) × (append_messages customer id ms s ≡ ok s')
          × (load_conversation customer ref s' ≡ some (id, prior ++ ms))
    go [] e h = absurd (ground arith)
    go (r ∷ rs) e h =
        let here : in_scope customer s r.id ≡ true =
          head_in_scope customer (λ r. r.conversation_ref =ₛ ref) (visible_conversations customer s)
            r rs e in
        let (s', a, c, g) = append_all customer r.id ms s here in
        let (same, before) = some_pair h in
        (
          s',
          subst (λ i. append_messages customer i ms s ≡ ok s') same a,
          ap (loaded customer s') (by_ref_same s' c ∙ e)
              ∙ ap₂ (λ i ns. some (i, ns)) same (g ∙ ap (λ z. z ++ ms) before),
        )
