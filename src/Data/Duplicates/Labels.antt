-- ===== src/Data/Duplicates/Labels.antt =====
-- Rows by their labels, and filters on them.
use dealership_agent.Base.{
  ==_iff, All, Bool, Bool-cases, List, Option, String, [], any, ap, arith, false, filter,
  filter-filter, filter_cong, if◌then◌else◌, inl, inr, length, ltb, none, refl, some, suc, sym,
  true, ℕ, ◌&&◌, ◌++◌, ◌==◌, ◌||◌, ◌∙◌, ◌∷◌, ◌≡◌,
}
use dealership_agent.Data.Duplicates.{dropped, dropped_in, has_label}
use dealership_agent.Data.Duplicates.Groups.{DistinctLabels}

module _ {R : Type 0} where
  pub any_kept :
      (p q : R → Bool) (xs : List R)
      → ((x : R) → p x ≡ false → q x ≡ false)
      → any q (filter p xs) ≡ any q xs
  any_kept p q [] h = refl
  any_kept p q (x ∷ xs) h = elim (Bool-cases (p x)) [
    | inl e ↦ rw (e, filter) (ap (λ b. q x || b) (any_kept p q xs h))
    | inr e ↦ rw (e, filter, h x e) (any_kept p q xs h)
  ]

  pub any_found :
      (P : R → Type 0) (p q : R → Bool) (xs : List R)
      → All P xs
      → any q (filter p xs) ≡ true
      → (x : R) × (q x ≡ true) × (p x ≡ true) × P x
  any_found P p q [] h k = absurd (ground arith)
  any_found P p q (x ∷ xs) h k = elim (Bool-cases (p x)) [
    | inr e ↦ any_found P p q xs h.1 (rw (e, filter) at k)
    | inl e ↦ elim (Bool-cases (q x)) [
      | inl f ↦ (x, f, e, h.0)
      | inr f ↦ any_found P p q xs h.1 (rw (e, f, filter) at k)
    ]
  ]

  pub filter_swap : (p q : R → Bool) (xs : List R) → filter p (filter q xs) ≡ filter q (filter p xs)
  filter_swap p q xs =
      filter-filter p q xs
      ∙ (filter_cong (λ x. q x && p x) (λ x. p x && q x) xs (λ x. and_comm (q x) (p x))
          ∙ sym (filter-filter q p xs))
    where
      and_comm : (a b : Bool) → (a && b) ≡ (b && a)
      and_comm true true = refl
      and_comm true false = refl
      and_comm false true = refl
      and_comm false false = refl

pub has_label-append :
    (i : ℕ) (xs ys : List ℕ) → has_label i (xs ++ ys) ≡ (has_label i xs || has_label i ys)
has_label-append i [] ys = refl
has_label-append i (x ∷ xs) ys = elim (Bool-cases (x == i)) [
  | inl e ↦ rw e refl
  | inr e ↦ rw e (has_label-append i xs ys)
]

module _ {R : Type 0} (same_key : R → R → Bool) (index : R → ℕ) (text : R → String)
    (similar : String → String → Bool) where
  pub dropped_in-dropped :
      (g : List R)
      → dropped_in same_key index text similar g ≡ dropped same_key index text similar [] g
  unfolding dropped_in dropped
  dropped_in-dropped [] = refl
  dropped_in-dropped (r ∷ []) = refl
  dropped_in-dropped (r ∷ s ∷ g) = rw (long (length g)) refl
    where
      long : (n : ℕ) → ltb (suc (suc n)) 2 ≡ false
      long n = ground arith

  -- The row with a label.
  abbrev pub row_at : ℕ → List R → Option R
  row_at i [] = none
  row_at i (r ∷ rs) = if index r == i then some r else row_at i rs

  pub rows_found :
      (rows : List R)
      → DistinctLabels same_key index text similar rows
      → All (λ r. row_at (index r) rows ≡ some r) rows
  rows_found [] d = tt
  rows_found (r ∷ rs) d = (
    rw ((==_iff (index r) (index r)).1 refl) refl,
    later rs (any-none rs d.0) (rows_found rs d.1),
  )
    where
      any-none :
          (ss : List R)
          → any (λ s. index s == index r) ss ≡ false
          → All (λ s. (index r == index s) ≡ false) ss
      any-none [] h = tt
      any-none (s ∷ ss) h = elim (Bool-cases (index s == index r)) [
        | inl e ↦ let k = rw e at h in absurd (ground arith)
        | inr e ↦ (ground arith, any-none ss (rw e at h))
      ]

      later :
          (ss : List R)
          → All (λ s. (index r == index s) ≡ false) ss
          → All (λ s. row_at (index s) rs ≡ some s) ss
          → All (λ s. row_at (index s) (r ∷ rs) ≡ some s) ss
      later [] h k = tt
      later (s ∷ ss) h k = (rw h.0 k.0, later ss h.1 k.1)

  pub distinct-filter :
      (p : R → Bool) (rows : List R)
      → DistinctLabels same_key index text similar rows
      → DistinctLabels same_key index text similar (filter p rows)
  distinct-filter p [] d = tt
  distinct-filter p (r ∷ rs) d = elim (Bool-cases (p r)) [
    | inr e ↦ rw (e, filter, DistinctLabels) (distinct-filter p rs d.1)
    | inl e ↦ rw (e, filter, DistinctLabels) (fewer rs d.0, distinct-filter p rs d.1)
  ]
    where
      fewer :
          (ss : List R)
          → any (λ s. index s == index r) ss ≡ false
          → any (λ s. index s == index r) (filter p ss) ≡ false
      fewer [] h = refl
      fewer (s ∷ ss) h = elim (Bool-cases (index s == index r)) [
        | inl e ↦ let k = rw e at h in absurd (ground arith)
        | inr e ↦ elim (Bool-cases (p s)) [
          | inl f ↦ rw (f, filter, e) (fewer ss (rw e at h))
          | inr f ↦ rw (f, filter) (fewer ss (rw e at h))
        ]
      ]
