-- ===== src/Api/Conversations/WellFormed.antt =====
-- Well-formed tables of conversations.
use mathlib.Core.Path.{subst}
use dealership_agent.Api.Conversations.{
  ConversationRow, Store, append_messages, create_conversation, in_scope, with_conversation,
  with_message,
}
use dealership_agent.Base.{
  All, All-append, Bool, Bool-cases, List, String, [], any, arith, false, inl, inr, refl, suc, ℕ, ℤ,
  ◌++◌, ◌<◌, ◌==◌, ◌∷◌, ◌≡◌,
}
use dealership_agent.Python.{Message, ok}

-- Serial ids are below the next one, and no two conversations have the same.
abbrev pub DistinctIds : List ConversationRow → Type 0
DistinctIds [] = Unit
DistinctIds (r ∷ rs) = (any (λ x. x.id == r.id) rs ≡ false) × DistinctIds rs

pub record IsWellFormed (s : Store) : Type 0 where
  pub below : All (λ r. r.id < s.next_id) s.conversations
  pub distinct : DistinctIds s.conversations

any-last :
    {A : Type 0} (q : A → Bool) (xs : List A) (x : A)
    → any q xs ≡ false
    → q x ≡ false
    → any q (xs ++ x ∷ []) ≡ false
any-last q [] x h k = rw k refl
any-last q (y ∷ ys) x h k = elim (Bool-cases (q y)) [
  | inl e ↦ absurd (ground arith)
  | inr e ↦ rw (e, any-last q ys x (rw e at h) k) refl
]

distinct-last :
    (rows : List ConversationRow) (r : ConversationRow)
    → DistinctIds rows
    → All (λ x. x.id < r.id) rows
    → DistinctIds (rows ++ r ∷ [])
distinct-last [] r d h = (refl, tt)
distinct-last (x ∷ xs) r d h =
    (any-last (λ y. y.id == x.id) xs r d.0 (ground arith), distinct-last xs r d.1 h.1)

below_later :
    (n : ℕ) (rows : List ConversationRow) → All (λ r. r.id < n) rows → All (λ r. r.id < suc n) rows
below_later n [] h = tt
below_later n (r ∷ rs) h = (omega arith, below_later n rs h.1)

-- Starting a conversation keeps the ids distinct and below the next one, and so does appending.
pub create_conversation-IsWellFormed :
    (customer : ℤ) (ref : String) (made : ℕ × String) (s s' : Store)
    → IsWellFormed s
    → create_conversation customer ref s ≡ ok (made, s')
    → IsWellFormed s'
unfolding create_conversation
create_conversation-IsWellFormed customer ref made s s' w h =
    let fresh : ConversationRow = record {
      id = s.next_id;
      conversation_ref = ref;
      customer_id = customer;
    } in
    let kept : IsWellFormed (with_conversation ref customer s) = record {
      below =
          All-append (λ r. r.id < suc s.next_id) s.conversations (fresh ∷ [])
            (below_later s.next_id s.conversations w.below) (omega arith, tt);
      distinct = distinct-last s.conversations fresh w.distinct w.below;
    } in
    let same : with_conversation ref customer s ≡ s' = ground arith in subst IsWellFormed same kept

pub append_messages-IsWellFormed :
    (customer : ℤ) (id : ℕ) (ms : List Message) (s s' : Store)
    → IsWellFormed s
    → append_messages customer id ms s ≡ ok s'
    → IsWellFormed s'
unfolding append_messages
append_messages-IsWellFormed customer id [] s s' w h =
    let e : s ≡ s' = ground arith in subst IsWellFormed e w
append_messages-IsWellFormed customer id (m ∷ ms) s s' w h =
    elim (Bool-cases (in_scope customer s id)) [
      | inr e ↦ absurd (refused e)
      | inl e ↦
          append_messages-IsWellFormed customer id ms (with_message id m s) s'
            (record { below = w.below; distinct = w.distinct }) (rw e at h)
    ]
  where
    refused : in_scope customer s id ≡ false → ⊥
    refused e = let k = rw e at h in ground arith
