-- ===== src/Api/Conversations/Rows.antt =====
-- The rows of the two tables, by id and by reference.
use mathlib.Core.List.{append-nil, append_assoc, head-eq_of_cons-eq, map-append}
use dealership_agent.Api.Conversations.{
  ConversationRow, MessageRow, Store, append_messages, conversation_by_ref, in_scope, with_message,
}
use dealership_agent.Api.Conversations.Histories.{written}
use dealership_agent.Api.Conversations.WellFormed.{DistinctIds}
use dealership_agent.Base.{
  ==_iff, All, Bool, Bool-cases, List, Option, String, [], any, ap, arith, eq_iff, false, filter,
  filter-append, filter-filter, if◌then◌else◌, inl, inr, map, none, refl, same_int, same_int_iff,
  some, sym, true, ℕ, ℤ, ◌&&◌, ◌++◌, ◌<◌, ◌==◌, ◌=ₛ◌, ◌∙◌, ◌∷◌, ◌≡◌,
}
use dealership_agent.Python.{Message, ok}

pub no_messages :
    (n : ℕ) (rows : List MessageRow) → All (λ m. m.conversation_id < n) rows → written n rows ≡ []
no_messages n [] h = refl
no_messages n (m ∷ ms) h =
    let other : (m.conversation_id == n) ≡ false = ground arith in
    rw (other, filter) (no_messages n ms h.1)

-- A reference that nobody has gives no rows.
pub no_rows :
    (customer : ℤ) (ref : String) (rows : List ConversationRow)
    → any (λ r. r.conversation_ref =ₛ ref) rows ≡ false
    → filter (λ r. r.conversation_ref =ₛ ref) (filter (λ r. same_int r.customer_id customer) rows)
      ≡ []
no_rows customer ref [] h = refl
no_rows customer ref (r ∷ rs) h = elim (Bool-cases (r.conversation_ref =ₛ ref)) [
  | inl e ↦ let k = rw e at h in absurd (ground arith)
  | inr e ↦ elim (Bool-cases (same_int r.customer_id customer)) [
    | inl f ↦ rw (f, e, filter) (no_rows customer ref rs (rw e at h))
    | inr f ↦ rw (f, filter) (no_rows customer ref rs (rw e at h))
  ]
]

pub by_ref-append :
    (c : ℤ) (r : String) (rows : List ConversationRow) (fresh : ConversationRow)
    → filter
        (λ x. x.conversation_ref =ₛ r)
        (filter (λ x. same_int x.customer_id c) (rows ++ (fresh ∷ [])))
      ≡ filter (λ x. x.conversation_ref =ₛ r) (filter (λ x. same_int x.customer_id c) rows)
        ++ filter
            (λ x. x.conversation_ref =ₛ r)
            (filter (λ x. same_int x.customer_id c) (fresh ∷ []))
by_ref-append c r rows fresh =
    ap (filter (λ x. x.conversation_ref =ₛ r))
      (filter-append (λ x. same_int x.customer_id c) rows (fresh ∷ []))
    ∙ filter-append (λ x. x.conversation_ref =ₛ r) (filter (λ x. same_int x.customer_id c) rows)
        (filter (λ x. same_int x.customer_id c) (fresh ∷ []))

-- The row with an id.
abbrev pub row_by_id : ℕ → List ConversationRow → Option ConversationRow
row_by_id id [] = none
row_by_id id (r ∷ rs) = if r.id == id then some r else row_by_id id rs

row_by_id-any :
    (id : ℕ) (rows : List ConversationRow) (x : ConversationRow)
    → row_by_id id rows ≡ some x
    → any (λ z. z.id == id) rows ≡ true
row_by_id-any id [] x h = absurd (ground arith)
row_by_id-any id (r ∷ rs) x h = elim (Bool-cases (r.id == id)) [
  | inl e ↦ rw e refl
  | inr e ↦ rw e (row_by_id-any id rs x (rw e at h))
]

-- The first row that passes a test passes it, and is the one with its id.
filter_head :
    (q : ConversationRow → Bool) (rows : List ConversationRow) (x : ConversationRow)
    (xs : List ConversationRow)
    → filter q rows ≡ x ∷ xs
    → DistinctIds rows
    → (q x ≡ true) × (row_by_id x.id rows ≡ some x)
filter_head q [] x xs h d = absurd (ground arith)
filter_head q (y ∷ ys) x xs h d = elim (Bool-cases (q y)) [
  | inl e ↦
      let same : y ≡ x = head-eq_of_cons-eq (rw (e, filter) at h) in
      let at : (y.id == x.id) ≡ true = (==_iff y.id x.id).1 (ap (λ z. z.id) same) in
      (ap q (sym same) ∙ e, rw at (ap some same))
  | inr e ↦
      let (t, f) = filter_head q ys x xs (rw (e, filter) at h) d.1 in
      (
        t,
        elim (Bool-cases (y.id == x.id)) [
          | inr n ↦ rw n f
          | inl a ↦
              let again : any (λ z. z.id == y.id) ys ≡ true =
                ap (λ i. any (λ z. z.id == i) ys) ((==_iff y.id x.id).0 a)
                ∙ row_by_id-any x.id ys x f in
              absurd (two d.0 again)
        ],
      )
]
  where
    two : any (λ z. z.id == y.id) ys ≡ false → any (λ z. z.id == y.id) ys ≡ true → ⊥
    two a b = ground arith

pub by_ref_head :
    (s : Store) (c : ℤ) (r : String) (x : ConversationRow) (xs : List ConversationRow)
    → DistinctIds s.conversations
    → conversation_by_ref c s r ≡ x ∷ xs
    → (x.customer_id ≡ c) × (x.conversation_ref ≡ r) × (row_by_id x.id s.conversations ≡ some x)
unfolding conversation_by_ref
by_ref_head s c r x xs d h =
    let (t, f) =
      filter_head (λ y. same_int y.customer_id c && (y.conversation_ref =ₛ r)) s.conversations x xs
        (sym (
            filter-filter (λ y. y.conversation_ref =ₛ r) (λ y. same_int y.customer_id c)
              s.conversations)
          ∙ h)
        d in
    elim (Bool-cases (same_int x.customer_id c)) [
      | inr e ↦ let k = rw e at t in absurd (ground arith)
      | inl e ↦ ((same_int_iff x.customer_id c).0 e, (eq_iff x.conversation_ref r).0 (rw e at t), f)
    ]

abbrev pub as_rows : ℕ → List Message → List MessageRow
as_rows id ms = map (λ m. record { conversation_id = id; message = m }) ms

pub append_written :
    (customer : ℤ) (id : ℕ) (ms : List Message) (s s' : Store)
    → append_messages customer id ms s ≡ ok s'
    → (s'.conversations ≡ s.conversations) × (s'.messages ≡ s.messages ++ as_rows id ms)
unfolding append_messages
append_written customer id [] s s' h =
    let e : s ≡ s' = ground arith in
    (ap (λ x. x.conversations) (sym e), ap (λ x. x.messages) (sym e) ∙ sym (append-nil s.messages))
append_written customer id (m ∷ ms) s s' h = elim (Bool-cases (in_scope customer s id)) [
  | inr e ↦ absurd (refused e)
  | inl e ↦
      let (c, t) = append_written customer id ms (with_message id m s) s' (rw e at h) in
      (c, t ∙ append_assoc s.messages (as_rows id (m ∷ [])) (as_rows id ms))
]
  where
    refused : in_scope customer s id ≡ false → ⊥
    refused e = let k = rw e at h in ground arith

pub written-rows : (id : ℕ) (ms : List Message) → written id (as_rows id ms) ≡ ms
written-rows id [] = refl
written-rows id (m ∷ ms) = rw ((==_iff id id).1 refl, filter) (ap (λ t. m ∷ t) (written-rows id ms))

pub written-other :
    (id other : ℕ) (ms : List Message) → (other == id) ≡ false → written id (as_rows other ms) ≡ []
written-other id other [] h = refl
written-other id other (m ∷ ms) h = rw (h, filter) (written-other id other ms h)

pub written-append :
    (id : ℕ) (xs ys : List MessageRow) → written id (xs ++ ys) ≡ written id xs ++ written id ys
written-append id xs ys =
    ap (map (λ m. m.message)) (filter-append (λ m. m.conversation_id == id) xs ys)
    ∙ map-append (λ m. m.message) (filter (λ m. m.conversation_id == id) xs)
        (filter (λ m. m.conversation_id == id) ys)
