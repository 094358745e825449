-- ===== src/Data/Duplicates/Groups.antt =====
-- The loop over one group.
use mathlib.Core.List.{append_assoc}
use mathlib.Core.Path.{subst}
use dealership_agent.Base.{
  ==_iff, All, Bool, Bool-cases, List, String, [], any, ap, arith, false, filter, filter_cong_on,
  inl, inr, not, refl, sym, true, ℕ, ◌++◌, ◌==◌, ◌||◌, ◌∙◌, ◌∷◌, ◌≡◌,
}
use dealership_agent.Data.Duplicates.{dropped, has_label, is_duplicate}

module _ {R : Type 0} (same_key : R → R → Bool) (index : R → ℕ) (text : R → String)
    (similar : String → String → Bool) where
  -- The rows that the loop keeps.
  pub kept_rows : List R → List R → List R
  kept_rows kept [] = []
  kept_rows kept (r ∷ rs) = elim (is_duplicate same_key index text similar kept r) [
    | true ↦ kept_rows kept rs
    | false ↦ r ∷ kept_rows (kept ++ (r ∷ [])) rs
  ]

  -- No two rows have one label.
  abbrev pub DistinctLabels : List R → Type 0
  DistinctLabels [] = Unit
  DistinctLabels (r ∷ rs) = (any (λ s. index s == index r) rs ≡ false) × DistinctLabels rs

  -- What a row is like none of is not like it: each row is unlike all before it.
  abbrev pub IsApart : List R → List R → Type 0
  IsApart kept [] = Unit
  IsApart kept (r ∷ rs) =
      (is_duplicate same_key index text similar kept r ≡ false) × IsApart (kept ++ (r ∷ [])) rs

  pub kept_rows-IsApart : (kept rs : List R) → IsApart kept (kept_rows kept rs)
  unfolding kept_rows
  kept_rows-IsApart kept [] = tt
  kept_rows-IsApart kept (r ∷ rs) =
      elim (Bool-cases (is_duplicate same_key index text similar kept r)) [
        | inl e ↦ rw (e, IsApart) (kept_rows-IsApart kept rs)
        | inr e ↦ rw (e, IsApart) (e, kept_rows-IsApart (kept ++ (r ∷ [])) rs)
      ]

  -- Is one of the rows this one, or one that it is like?
  abbrev pub is_covered : List R → R → Bool
  is_covered rows r = any (λ k. (index k == index r) || similar (text r) (text k)) rows

  like_covered :
      (r : R) (kept after : List R)
      → is_duplicate same_key index text similar kept r ≡ true
      → is_covered (kept ++ after) r ≡ true
  like_covered r [] after h = absurd (ground arith)
  like_covered r (k ∷ ks) after h = elim (Bool-cases (similar (text r) (text k))) [
    | inl e ↦ rw e (ground arith)
    | inr e ↦ rw (like_covered r ks after (rw e at h)) (ground arith)
  ]

  self_covered : (r : R) (kept after : List R) → is_covered (kept ++ (r ∷ after)) r ≡ true
  self_covered r [] after = rw ((==_iff (index r) (index r)).1 refl) refl
  self_covered r (k ∷ ks) after = rw (self_covered r ks after) (ground arith)

  -- Every row is kept, or like a row that is.
  pub kept_rows-covered :
      (kept rs : List R) → All (λ r. is_covered (kept ++ kept_rows kept rs) r ≡ true) rs
  unfolding kept_rows
  kept_rows-covered kept [] = tt
  kept_rows-covered kept (r ∷ rs) =
      elim (Bool-cases (is_duplicate same_key index text similar kept r)) [
        | inl e ↦
            let step : kept_rows kept (r ∷ rs) ≡ kept_rows kept rs = rw (e, kept_rows) refl in
            subst covers (sym step)
              (like_covered r kept (kept_rows kept rs) e, kept_rows-covered kept rs)
        | inr e ↦
            let after = kept_rows (kept ++ (r ∷ [])) rs in
            let step : kept_rows kept (r ∷ rs) ≡ r ∷ after = rw (e, kept_rows) refl in
            subst covers (sym step) (
              self_covered r kept after,
              subst (λ t. All (λ x. is_covered t x ≡ true) rs) (append_assoc kept (r ∷ []) after)
                  (kept_rows-covered (kept ++ (r ∷ [])) rs),
            )
      ]
    where
      covers : List R → Type 0
      covers t = All (λ x. is_covered (kept ++ t) x ≡ true) (r ∷ rs)

  -- A dropped label is one of the rows'.
  pub dropped-labels :
      (kept rs : List R) (i : ℕ)
      → has_label i (dropped same_key index text similar kept rs) ≡ true
      → any (λ s. index s == i) rs ≡ true
  unfolding dropped
  dropped-labels kept [] i h = h
  dropped-labels kept (r ∷ rs) i h =
      elim (Bool-cases (is_duplicate same_key index text similar kept r)) [
        | inr e ↦ later (dropped-labels (kept ++ (r ∷ [])) rs i (rw (e, has_label) at h))
        | inl e ↦ first (rw (e, has_label) at h) (dropped-labels kept rs i)
      ]
    where
      later : any (λ s. index s == i) rs ≡ true → any (λ s. index s == i) (r ∷ rs) ≡ true
      later k = rw k (ground arith)

      first :
          ((index r == i) || has_label i (dropped same_key index text similar kept rs)) ≡ true
          → (has_label i (dropped same_key index text similar kept rs) ≡ true
              → any (λ s. index s == i) rs ≡ true)
          → any (λ s. index s == i) (r ∷ rs) ≡ true
      first k ih = elim (Bool-cases (index r == i)) [
        | inl q ↦ rw q refl
        | inr q ↦ later (ih (rw q at k))
      ]

  any-false : (p : R → Bool) (rs : List R) → any p rs ≡ false → All (λ r. p r ≡ false) rs
  any-false p [] h = tt
  any-false p (r ∷ rs) h = elim (Bool-cases (p r)) [
    | inl e ↦ let k = rw e at h in absurd (ground arith)
    | inr e ↦ (e, any-false p rs (rw e at h))
  ]

  -- Dropping the labels of a group from it leaves the rows that the loop keeps.
  pub drop-dropped :
      (kept rs : List R)
      → DistinctLabels rs
      → filter (λ r. not (has_label (index r) (dropped same_key index text similar kept rs))) rs
        ≡ kept_rows kept rs
  unfolding dropped kept_rows
  drop-dropped kept [] d = refl
  drop-dropped kept (r ∷ rs) d =
      elim (Bool-cases (is_duplicate same_key index text similar kept r)) [
        | inl e ↦
            let rest = dropped same_key index text similar kept rs in
            let step : dropped same_key index text similar kept (r ∷ rs) ≡ index r ∷ rest =
              rw (e, dropped) refl in
            let rows : kept_rows kept (r ∷ rs) ≡ kept_rows kept rs = rw (e, kept_rows) refl in
            ap (λ labels. filter (λ s. not (has_label (index s) labels)) (r ∷ rs)) step
            ∙ (rw ((==_iff (index r) (index r)).1 refl, filter)
                  (filter_cong_on (λ s. not (has_label (index s) (index r ∷ rest)))
                    (λ s. not (has_label (index s) rest)) rs
                    (others rest rs (any-false (λ s. index s == index r) rs d.0)))
                ∙ (drop-dropped kept rs d.1 ∙ sym rows))
        | inr e ↦
            let kept' = kept ++ (r ∷ []) in
            let rest = dropped same_key index text similar kept' rs in
            let step : dropped same_key index text similar kept (r ∷ rs) ≡ rest =
              rw (e, dropped) refl in
            let rows : kept_rows kept (r ∷ rs) ≡ r ∷ kept_rows kept' rs = rw (e, kept_rows) refl in
            ap (λ labels. filter (λ s. not (has_label (index s) labels)) (r ∷ rs)) step
            ∙ (rw (unlabelled, filter) (ap (λ t. r ∷ t) (drop-dropped kept' rs d.1)) ∙ sym rows)
      ]
    where
      others :
          (labels : List ℕ) (ss : List R)
          → All (λ s. (index s == index r) ≡ false) ss
          → All
              (λ s. not (has_label (index s) (index r ∷ labels)) ≡ not (has_label (index s) labels))
              ss
      others labels [] h = tt
      others labels (s ∷ ss) h =
          let other : (index r == index s) ≡ false = ground (arith, h.0) in
          (rw other refl, others labels ss h.1)

      unlabelled :
          has_label (index r) (dropped same_key index text similar (kept ++ (r ∷ [])) rs) ≡ false
      unlabelled =
          elim (Bool-cases
            (has_label (index r) (dropped same_key index text similar (kept ++ (r ∷ [])) rs))) [
              | inr e ↦ e
              | inl e ↦
                  let k = dropped-labels (kept ++ (r ∷ [])) rs (index r) e in
                  absurd (ground (arith, d.0))
            ]
