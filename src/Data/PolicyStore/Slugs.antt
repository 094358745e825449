-- ===== src/Data/PolicyStore/Slugs.antt =====
-- The documents that the rows of a run stand for.
use dealership_agent.Base.{
  All, Bool, Bool-cases, List, String, [], any, ap, arith, eq_iff, false, inl, inr, map, member,
  refl, true, ◌=ₛ◌, ◌||◌, ◌∙◌, ◌∷◌, ◌≡◌,
}
use dealership_agent.Data.Policies.{Chunk}
use dealership_agent.Data.PolicyStore.{distinct, doc_slugs, text_leb}
use dealership_agent.Retrieval.Sorting.{insert, sort}

member-distinct : (s : String) (ss : List String) → member s (distinct ss) ≡ member s ss
unfolding distinct
member-distinct s [] = refl
member-distinct s (t ∷ ts) = elim (Bool-cases (member t ts)) [
  | inr e ↦ rw e (ap (λ b. (s =ₛ t) || b) (member-distinct s ts))
  | inl e ↦ elim (Bool-cases (s =ₛ t)) [
    | inr f ↦ rw (e, f) (member-distinct s ts)
    | inl f ↦
        let q : s ≡ t = (eq_iff s t).0 f in
        rw (e, f) (member-distinct s ts ∙ (ap (λ u. member u ts) q ∙ e))
  ]
]

member-insert :
    (s t : String) (ts : List String) → member s (insert text_leb t ts) ≡ ((s =ₛ t) || member s ts)
unfolding insert
member-insert s t [] = refl
member-insert s t (u ∷ us) = elim (Bool-cases (text_leb t u)) [
  | inl e ↦ rw e refl
  | inr e ↦
      rw e
        (ap (λ b. (s =ₛ u) || b) (member-insert s t us) ∙ or_swap (s =ₛ u) (s =ₛ t) (member s us))
]
  where
    or_swap : (a b c : Bool) → (a || (b || c)) ≡ (b || (a || c))
    or_swap true true c = refl
    or_swap true false c = refl
    or_swap false b c = refl

member-sort : (s : String) (ss : List String) → member s (sort text_leb ss) ≡ member s ss
unfolding sort
member-sort s [] = refl
member-sort s (t ∷ ts) =
    member-insert s t (sort text_leb ts) ∙ ap (λ b. (s =ₛ t) || b) (member-sort s ts)

abbrev pub is_stored : List Chunk → String → Bool
is_stored chunks slug = any (λ c. slug =ₛ c.doc_slug) chunks

pub member-doc_slugs : (s : String) (cs : List Chunk) → member s (doc_slugs cs) ≡ is_stored cs s
unfolding doc_slugs
member-doc_slugs s cs =
    member-sort s (distinct (map (λ c. c.doc_slug) cs))
    ∙ (member-distinct s (map (λ c. c.doc_slug) cs) ∙ go cs)
  where
    go : (cs : List Chunk) → member s (map (λ c. c.doc_slug) cs) ≡ is_stored cs s
    go [] = refl
    go (c ∷ cs) = ap (λ b. (s =ₛ c.doc_slug) || b) (go cs)

stored_later :
    (c : Chunk) (ds cs : List Chunk)
    → All (λ d. is_stored ds d.doc_slug ≡ true) cs
    → All (λ d. is_stored (c ∷ ds) d.doc_slug ≡ true) cs
stored_later c ds [] h = tt
stored_later c ds (d ∷ cs) h = (rw h.0 (ground arith), stored_later c ds cs h.1)

pub All-stored : (cs : List Chunk) → All (λ c. is_stored cs c.doc_slug ≡ true) cs
All-stored [] = tt
All-stored (c ∷ cs) =
    (rw ((eq_iff c.doc_slug c.doc_slug).1 refl) refl, stored_later c cs cs (All-stored cs))
