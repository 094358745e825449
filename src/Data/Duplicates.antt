-- ===== src/Data/Duplicates.antt =====
-- data/scripts/clean_listings.py, `find_near_duplicates`, over rows with an index, an equality of the
-- columns of DEDUPE_KEY_COLUMNS, and a text in lower case and stripped. `similar` is
-- `SequenceMatcher(None, a, b).ratio() >= DEDUPE_SIMILARITY_THRESHOLD`, the standard library's measure.
-- The groups stand here in the order of their first rows; as the result is a set of labels, that
-- order does not show.
pub mod Groups
pub mod Labels
pub mod Apart
use dealership_agent.Base.{
  Bool, List, String, [], any, false, filter, if◌then◌else◌, length, ltb, not, true, ℕ, ◌++◌, ◌==◌,
  ◌||◌, ◌∷◌,
}

abbrev pub has_label : ℕ → List ℕ → Bool
has_label i [] = false
has_label i (j ∷ js) = (j == i) || has_label i js

module _ {R : Type 0} (same_key : R → R → Bool) (index : R → ℕ) (text : R → String)
    (similar : String → String → Bool) where
  -- The first row of each group.
  unfoldable pub leaders : List R → List R
  leaders [] = []
  leaders (r ∷ rs) = r ∷ filter (λ s. not (same_key r s)) (leaders rs)

  abbrev pub group_of : R → List R → List R
  group_of l rows = filter (same_key l) rows

  -- Is the row like one of those kept so far?
  abbrev pub is_duplicate : List R → R → Bool
  is_duplicate kept r = any (λ k. similar (text r) (text k)) kept

  -- The loop over a group: the labels that are dropped.
  unfoldable pub dropped : List R → List R → List ℕ
  dropped kept [] = []
  dropped kept (r ∷ rs) = elim (is_duplicate kept r) [
    | true ↦ index r ∷ dropped kept rs
    | false ↦ dropped (kept ++ (r ∷ [])) rs
  ]

  -- if len(group) < 2: continue
  unfoldable pub dropped_in : List R → List ℕ
  unfolding dropped
  dropped_in group = if ltb (length group) 2 then [] else dropped [] group

  unfoldable pub dropped_groups : List R → List R → List ℕ
  unfolding dropped_in
  dropped_groups rows [] = []
  dropped_groups rows (l ∷ ls) = dropped_in (group_of l rows) ++ dropped_groups rows ls

  unfoldable pub find_near_duplicates : List R → List ℕ
  unfolding leaders dropped_groups
  find_near_duplicates rows = dropped_groups rows (leaders rows)

  -- df.drop(index=…)
  unfoldable pub drop_labels : List ℕ → List R → List R
  drop_labels labels rows = filter (λ r. not (has_label (index r) labels)) rows
