-- ===== src/Data/Duplicates/Apart.antt =====
-- All groups.
use mathlib.Core.Path.{ap₂}
use dealership_agent.Base.{
  ==_iff, All, Bool, Bool-cases, List, String, [], any, ap, arith, false, filter, filter-All,
  filter_cong_on, inl, inr, map-All, not, refl, some, sym, true, ℕ, ◌&&◌, ◌==◌, ◌||◌, ◌∙◌, ◌∷◌, ◌≡◌,
}
use dealership_agent.Data.Duplicates.{
  drop_labels, dropped, dropped_groups, dropped_in, find_near_duplicates, group_of, has_label,
  leaders,
}
use dealership_agent.Data.Duplicates.Groups.{
  DistinctLabels, IsApart, drop-dropped, dropped-labels, is_covered, kept_rows, kept_rows-IsApart,
  kept_rows-covered,
}
use dealership_agent.Data.Duplicates.Labels.{
  any_found, any_kept, distinct-filter, dropped_in-dropped, filter_swap, has_label-append, row_at,
  rows_found,
}
use dealership_agent.Data.PolicyStore.{distinct}

module _ {R : Type 0} (same_key : R → R → Bool) (index : R → ℕ) (text : R → String)
    (similar : String → String → Bool) (same_self : (a : R) → same_key a a ≡ true)
    (same_alike : (a b : R) → same_key a b ≡ true → same_key a ≡ same_key b) where
  any_leader :
      (x : R) (rows : List R)
      → any (λ l. same_key l x) (leaders same_key index text similar rows)
        ≡ any (λ l. same_key l x) rows
  unfolding leaders
  any_leader x [] = refl
  any_leader x (r ∷ rs) = elim (Bool-cases (same_key r x)) [
    | inl e ↦ rw e refl
    | inr e ↦ rw e (
        any_kept (λ s. not (same_key r s)) (λ l. same_key l x)
          (leaders same_key index text similar rs) (removed e)
        ∙ any_leader x rs)
  ]
    where
      removed : same_key r x ≡ false → (s : R) → not (same_key r s) ≡ false → same_key s x ≡ false
      removed e s k = elim (Bool-cases (same_key r s)) [
        | inl f ↦ ap (λ t. t x) (sym (same_alike r s f)) ∙ e
        | inr f ↦ let q = rw f at k in absurd (ground arith)
      ]

  any_self : (rows : List R) → All (λ x. any (λ l. same_key l x) rows ≡ true) rows
  any_self [] = tt
  any_self (r ∷ rs) = (
    rw (same_self r) refl,
    map-All (λ x. any (λ l. same_key l x) rs ≡ true) (λ x. any (λ l. same_key l x) (r ∷ rs) ≡ true)
        rs (λ x h. rw h (ground arith)) (any_self rs),
  )

  module _ (rows : List R) (distinct : DistinctLabels same_key index text similar rows) where
    abbrev labels_of : R → List ℕ
    labels_of l =
        dropped same_key index text similar [] (group_of same_key index text similar l rows)

    -- A row of another group has no label of this one.
    elsewhere :
        (l r : R)
        → row_at same_key index text similar (index r) rows ≡ some r
        → same_key l r ≡ false
        → has_label (index r) (labels_of l) ≡ false
    elsewhere l r found other = elim (Bool-cases (has_label (index r) (labels_of l))) [
      | inr e ↦ e
      | inl e ↦
          let (s, i, k, f) =
            any_found (λ s. row_at same_key index text similar (index s) rows ≡ some s) (same_key l)
              (λ s. index s == index r) rows (rows_found same_key index text similar rows distinct)
              (dropped-labels same_key index text similar []
                (group_of same_key index text similar l rows) (index r) e) in
          let same : s ≡ r = some_injective s r (
            sym f
            ∙ (ap (λ j. row_at same_key index text similar j rows)
                  ((==_iff (index s) (index r)).0 i)
                ∙ found)) in
          let k' : same_key l r ≡ true = ap (same_key l) (sym same) ∙ k in absurd (ground arith)
    ]
      where
        some_injective : (a b : R) → some a ≡ some b → a ≡ b
        some_injective a b h = ground arith

    in_groups :
        (r : R) (ls : List R)
        → row_at same_key index text similar (index r) rows ≡ some r
        → has_label (index r) (dropped_groups same_key index text similar rows ls)
          ≡ (any (λ l. same_key l r) ls && has_label (index r) (labels_of r))
    unfolding dropped_groups
    in_groups r [] found = refl
    in_groups r (l ∷ ls) found =
        has_label-append (index r)
          (dropped_in same_key index text similar (group_of same_key index text similar l rows))
          (dropped_groups same_key index text similar rows ls)
        ∙ (ap₂ (λ a b. has_label (index r) a || b)
              (dropped_in-dropped same_key index text similar
                (group_of same_key index text similar l rows))
              (in_groups r ls found)
            ∙ elim (Bool-cases (same_key l r)) [
              | inr e ↦ rw (e, elsewhere l r found e) refl
              | inl e ↦ rw e (
                  ap
                    (λ p.
                      has_label (index r) (dropped same_key index text similar [] (filter p rows))
                      || (any (λ l. same_key l r) ls && has_label (index r) (labels_of r)))
                    (same_alike l r e)
                  ∙ absorb (has_label (index r) (labels_of r)) (any (λ l. same_key l r) ls))
            ])
      where
        absorb : (a b : Bool) → (a || (b && a)) ≡ a
        absorb true b = refl
        absorb false true = refl
        absorb false false = refl

    -- A row is dropped exactly if the loop over its own group drops it.
    own_group :
        All
          (λ r.
            has_label (index r) (find_near_duplicates same_key index text similar rows)
            ≡ has_label (index r) (labels_of r))
          rows
    unfolding find_near_duplicates
    own_group = go rows (rows_found same_key index text similar rows distinct) (any_self rows)
      where
        go :
            (rs : List R)
            → All (λ r. row_at same_key index text similar (index r) rows ≡ some r) rs
            → All (λ r. any (λ l. same_key l r) rows ≡ true) rs
            → All
                (λ r.
                  has_label (index r) (
                    dropped_groups same_key index text similar rows
                      (leaders same_key index text similar rows))
                  ≡ has_label (index r) (labels_of r))
                rs
        go [] f h = tt
        go (r ∷ rs) f h = (
          in_groups r (leaders same_key index text similar rows) f.0
              ∙ ap (λ b. b && has_label (index r) (labels_of r)) (any_leader r rows ∙ h.0),
          go rs f.1 h.1,
        )

    abbrev remaining : List R
    remaining =
        drop_labels same_key index text similar
          (find_near_duplicates same_key index text similar rows) rows

    -- The rows that are left of a group are those that its loop keeps.
    remaining_group :
        (l : R)
        → filter (same_key l) remaining
          ≡ kept_rows same_key index text similar [] (group_of same_key index text similar l rows)
    unfolding drop_labels
    remaining_group l =
        let labels = find_near_duplicates same_key index text similar rows in
        filter_swap (same_key l) (λ r. not (has_label (index r) labels)) rows
        ∙ (filter_cong_on (λ r. not (has_label (index r) labels))
              (λ r. not (has_label (index r) (labels_of l))) (filter (same_key l) rows)
              (map-All
                (λ r.
                  (has_label (index r) labels ≡ has_label (index r) (labels_of r))
                  × (same_key l r ≡ true))
                (λ r. not (has_label (index r) labels) ≡ not (has_label (index r) (labels_of l)))
                (filter (same_key l) rows)
                (λ r h. ap not (
                  h.0
                  ∙ ap
                      (λ p.
                        has_label (index r)
                          (dropped same_key index text similar [] (filter p rows)))
                      (sym (same_alike l r h.1))))
                (filter-All (λ r. has_label (index r) labels ≡ has_label (index r) (labels_of r))
                  (same_key l) rows own_group))
            ∙ drop-dropped same_key index text similar [] (filter (same_key l) rows)
                (distinct-filter same_key index text similar (same_key l) rows distinct))

  -- What is left of the group of a row.
  abbrev pub left_of : List R → R → List R
  left_of rows l = filter (same_key l) (
      drop_labels same_key index text similar
        (find_near_duplicates same_key index text similar rows) rows)

  -- If no two rows have one label, dropping the near duplicates leaves of each group rows that are
  -- apart, as none of them is similar to one that stands before it, and that cover the group, as each
  -- row of the group is still there or is similar to one that is.
  pub find_near_duplicates-IsApart :
      (rows : List R)
      → DistinctLabels same_key index text similar rows
      → (l : R)
      → IsApart same_key index text similar [] (left_of rows l)
        × All
            (λ r. is_covered same_key index text similar (left_of rows l) r ≡ true)
            (filter (same_key l) rows)
  find_near_duplicates-IsApart rows distinct l = rw (remaining_group rows distinct l) (
    kept_rows-IsApart same_key index text similar [] (group_of same_key index text similar l rows),
    kept_rows-covered same_key index text similar [] (group_of same_key index text similar l rows),
  )
