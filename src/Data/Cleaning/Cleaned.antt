-- ===== src/Data/Cleaning/Cleaned.antt =====
-- What cleaning makes of the listings.
use dealership_agent.Base.{
  All, Bool, List, Option, String, [], any, ap, arith, false, filter, filter-All, length, map,
  map-All, none, not, refl, some, suc, sym, true, ℕ, ◌&&◌, ◌<◌, ◌==◌, ◌||◌, ◌∙◌, ◌∷◌, ◌≡◌,
}
use dealership_agent.Data.Cleaning.{
  Cleaner, CleaningStats, FrameRow, RawListing, clean, comparable, duplicate_index, frame_from,
  has_no_price, is_reliable, midpoint, normalize_make, normalize_makes, normalize_model,
  normalize_models, redacted_frame, row_with, same_key, stats_of, stripped, with_texts,
  without_duplicates,
}
use dealership_agent.Data.Cleaning.Keys.{same_key_alike, same_key_self}
use dealership_agent.Data.Duplicates.{drop_labels, has_label}
use dealership_agent.Data.Duplicates.Apart.{find_near_duplicates-IsApart}
use dealership_agent.Data.Duplicates.Groups.{DistinctLabels, IsApart, is_covered}
use dealership_agent.Data.Redaction.{redact_descriptions}
use dealership_agent.Python.{ok}

abbrev pub is_missing : Option ℕ → Bool
is_missing none = true
is_missing (some n) = false

abbrev pub is_zero : Option ℕ → Bool
is_zero none = false
is_zero (some n) = n == 0

-- A price is the midpoint; it is missing exactly if a bound is, and unreliable exactly if both bounds
-- are zero.
abbrev pub IsValued : FrameRow → Type 0
IsValued r =
    (r.price ≡ midpoint r.raw.kbb_fair_price_low r.raw.kbb_fair_price_high)
    × (has_no_price r
        ≡ (is_missing r.raw.kbb_fair_price_low || is_missing r.raw.kbb_fair_price_high))
    × (r.is_price_reliable
        ≡ not (is_zero r.raw.kbb_fair_price_low && is_zero r.raw.kbb_fair_price_high))

-- A listing has a make and a model.
abbrev pub IsNamed : RawListing → Type 0
IsNamed raw =
    ((make : String) × (raw.make_name ≡ some make))
    × ((model : String) × (raw.model_name ≡ some model))

abbrev pub in_form : (String → String) → Option String → Option String
in_form f none = none
in_form f (some name) = some (f name)

-- The names of a row are those of its listing in their normal form.
abbrev pub IsNormal : Cleaner → FrameRow → Type 0
IsNormal c r =
    (r.make ≡ in_form (normalize_make c) r.raw.make_name)
    × (r.model ≡ in_form (normalize_model c) r.raw.model_name)

abbrev IsPlain : FrameRow → Type 0
IsPlain r = IsValued r × (r.make ≡ r.raw.make_name) × (r.model ≡ r.raw.model_name) × IsNamed r.raw

abbrev IsMade : Cleaner → FrameRow → Type 0
IsMade c r =
    IsValued r
    × (r.make ≡ in_form (normalize_make c) r.raw.make_name)
    × (r.model ≡ r.raw.model_name)
    × IsNamed r.raw

row_with-IsValued : (raw : RawListing) (n : ℕ) (text : String) → IsValued (row_with raw n text)
unfolding midpoint is_reliable
row_with-IsValued raw n text =
    let (missing, zero_bounds) = go raw.kbb_fair_price_low raw.kbb_fair_price_high in
    (refl, missing, zero_bounds)
  where
    go :
        (low high : Option ℕ)
        → ((elim (midpoint low high) [ none ↦ true | some p ↦ false ])
            ≡ (is_missing low || is_missing high))
          × (is_reliable (midpoint low high) ≡ not (is_zero low && is_zero high))
    go none none = (refl, refl)
    go none (some high) = (refl, refl)
    go (some low) none = (refl, ground arith)
    go (some low) (some high) = (refl, ground arith)

frame_from-IsPlain :
    (n : ℕ) (raws : List RawListing) (texts : List String)
    → All IsNamed raws
    → All IsPlain (frame_from n raws texts)
unfolding frame_from
frame_from-IsPlain n [] texts h = tt
frame_from-IsPlain n (raw ∷ raws) [] h =
    ((row_with-IsValued raw n "", refl, refl, h.0), frame_from-IsPlain (suc n) raws [] h.1)
frame_from-IsPlain n (raw ∷ raws) (t ∷ ts) h =
    ((row_with-IsValued raw n t, refl, refl, h.0), frame_from-IsPlain (suc n) raws ts h.1)

labels_above :
    (m n : ℕ) (raws : List RawListing) (texts : List String)
    → m < n
    → any (λ r. r.index == m) (frame_from n raws texts) ≡ false
unfolding frame_from
labels_above m n [] texts h = refl
labels_above m n (raw ∷ raws) [] h =
    let apart : (n == m) ≡ false = ground arith in
    rw apart (labels_above m (suc n) raws [] (omega arith))
labels_above m n (raw ∷ raws) (t ∷ ts) h =
    let apart : (n == m) ≡ false = ground arith in
    rw apart (labels_above m (suc n) raws ts (omega arith))

with_texts-IsPlain :
    (rs : List FrameRow) (ts : List String) → All IsPlain rs → All IsPlain (with_texts rs ts)
unfolding with_texts
with_texts-IsPlain [] ts h = tt
with_texts-IsPlain (r ∷ rs) [] h = h
with_texts-IsPlain (r ∷ rs) (t ∷ ts) h = (h.0, with_texts-IsPlain rs ts h.1)

with_texts-raw :
    (rs : List FrameRow) (ts : List String)
    → map (λ r. r.raw) (with_texts rs ts) ≡ map (λ r. r.raw) rs
unfolding with_texts
with_texts-raw [] ts = refl
with_texts-raw (r ∷ rs) [] = refl
with_texts-raw (r ∷ rs) (t ∷ ts) = ap (λ t. r.raw ∷ t) (with_texts-raw rs ts)

module _ (c : Cleaner) where
  -- What a column of names becomes.
  makes_normal :
      (rs : List FrameRow)
      → All IsPlain rs
      → (out : List FrameRow) × (normalize_makes c rs ≡ ok out)
        × All (IsMade c) out
        × (map (λ r. r.raw) out ≡ map (λ r. r.raw) rs)
  unfolding normalize_makes
  makes_normal [] h = ([], refl, tt, refl)
  makes_normal (r ∷ rs) ((v, m, n, named), later) =
      let (out, e, made, raws) = makes_normal rs later in
      let (make, k) = named.0 in
      (
        record r { make = some (normalize_make c make) } ∷ out,
        rw (m ∙ k, e) refl,
        ((v, ap (in_form (normalize_make c)) (sym k), n, named), made),
        ap (λ t. r.raw ∷ t) raws,
      )

  models-IsNormal :
      (rs : List FrameRow)
      → All (IsMade c) rs
      → (out : List FrameRow) × (normalize_models c rs ≡ ok out)
        × All IsValued out
        × All (IsNormal c) out
        × (map (λ r. r.raw) out ≡ map (λ r. r.raw) rs)
  unfolding normalize_models
  models-IsNormal [] h = ([], refl, tt, tt, refl)
  models-IsNormal (r ∷ rs) ((v, m, n, named), later) =
      let (out, e, valued, normal, raws) = models-IsNormal rs later in
      let (model, k) = named.1 in
      (
        record r { model = some (normalize_model c model) } ∷ out,
        rw (n ∙ k, e) refl,
        (v, valued),
        ((m, ap (in_form (normalize_model c)) (sym k)), normal),
        ap (λ t. r.raw ∷ t) raws,
      )

module _ (c : Cleaner) where
  frame_labels :
      (n : ℕ) (raws : List RawListing) (texts : List String)
      → DistinctLabels same_key (λ r. r.index) (comparable c) c.similar (frame_from n raws texts)
  unfolding frame_from
  frame_labels n [] texts = tt
  frame_labels n (raw ∷ raws) [] =
      (labels_above n (suc n) raws [] (omega arith), frame_labels (suc n) raws [])
  frame_labels n (raw ∷ raws) (t ∷ ts) =
      (labels_above n (suc n) raws ts (omega arith), frame_labels (suc n) raws ts)

  -- Rows of which no later one is like one that stands before it.
  abbrev pub AreApart : List FrameRow → Type 0
  AreApart rows = IsApart same_key (λ r. r.index) (comparable c) c.similar [] rows

  -- Each row stands among those that are left, or is like one of them.
  abbrev pub AreCovered : List FrameRow → List FrameRow → Type 0
  AreCovered left rows =
      All (λ r. is_covered same_key (λ r. r.index) (comparable c) c.similar left r ≡ true) rows

  frame_apart :
      (raws : List RawListing) (l : FrameRow)
      → AreApart (filter (same_key l) (without_duplicates c (redacted_frame c raws)))
        × AreCovered
            (filter (same_key l) (without_duplicates c (redacted_frame c raws)))
            (filter (same_key l) (redacted_frame c raws))
  unfolding redacted_frame without_duplicates duplicate_index drop_labels
  frame_apart raws l =
      let texts = (redact_descriptions c.tables (map (λ r. r.description) raws)).0 in
      find_near_duplicates-IsApart same_key (λ r. r.index) (comparable c) c.similar same_key_self
        same_key_alike (redacted_frame c raws) (frame_labels 0 raws texts) l

  -- What every listing has, every row of the frame that is left has.
  pub left_raws :
      (P : RawListing → Type 0) (raws : List RawListing)
      → All P raws
      → All (λ r. P r.raw) (without_duplicates c (redacted_frame c raws))
  unfolding redacted_frame without_duplicates duplicate_index drop_labels frame_from
  left_raws P raws h =
      let texts = (redact_descriptions c.tables (map (λ r. r.description) raws)).0 in
      let frame = redacted_frame c raws in
      let labels = duplicate_index c frame in
      map-All (λ r. P r.raw × (not (has_label r.index labels) ≡ true)) (λ r. P r.raw)
        (without_duplicates c frame) (λ r k. k.0)
        (filter-All (λ r. P r.raw) (λ r. not (has_label r.index labels)) frame
          (all_raws 0 raws texts h))
    where
      all_raws :
          (n : ℕ) (xs : List RawListing) (ts : List String)
          → All P xs
          → All (λ r. P r.raw) (frame_from n xs ts)
      all_raws n [] ts k = tt
      all_raws n (x ∷ xs) [] k = (k.0, all_raws (suc n) xs [] k.1)
      all_raws n (x ∷ xs) (t ∷ ts) k = (k.0, all_raws (suc n) xs ts k.1)

  pub cleaned_rows :
      (raws : List RawListing)
      → All IsNamed raws
      → (rows : List FrameRow) × (clean c raws ≡ ok (rows, stats_of c raws rows))
        × (map (λ r. r.raw) rows ≡ map (λ r. r.raw) (without_duplicates c (redacted_frame c raws)))
        × All IsValued rows
        × All (IsNormal c) rows
  unfolding clean redacted_frame without_duplicates duplicate_index drop_labels
  cleaned_rows raws named =
      let texts = (redact_descriptions c.tables (map (λ r. r.description) raws)).0 in
      let frame = redacted_frame c raws in
      let left = without_duplicates c frame in
      let labels = duplicate_index c frame in
      let cut = (stripped c raws).0 in
      let plain : All IsPlain left =
        map-All (λ r. IsPlain r × (not (has_label r.index labels) ≡ true)) IsPlain left (λ r h. h.0)
          (filter-All IsPlain (λ r. not (has_label r.index labels)) frame
            (frame_from-IsPlain 0 raws texts named)) in
      let (made, e, are_made, same) =
        makes_normal c (with_texts left cut) (with_texts-IsPlain left cut plain) in
      let (rows, f, valued, normal, same') = models-IsNormal c made are_made in
      (rows, rw (e, f) refl, same' ∙ (same ∙ with_texts-raw left cut), valued, normal)

  -- If every listing has a make and a model, cleaning succeeds. What is left are the rows without the
  -- near duplicates, in their order: of those of one key, none is like one before it in its redacted
  -- description, and each row of the key that is gone is like one that is left. Each row is of its
  -- listing: the price is the midpoint, missing exactly if a bound is, and unreliable exactly if both
  -- bounds are zero; the make and the model are the listing's in their normal form. The counts of the rows
  -- before and after are right.
  pub clean_returns :
      (raws : List RawListing)
      → All IsNamed raws
      → (l : FrameRow)
      → (rows : List FrameRow) × (stats : CleaningStats) × (clean c raws ≡ ok (rows, stats))
        × (map (λ r. r.raw) rows ≡ map (λ r. r.raw) (without_duplicates c (redacted_frame c raws)))
        × All IsValued rows
        × All (IsNormal c) rows
        × AreApart (filter (same_key l) (without_duplicates c (redacted_frame c raws)))
        × AreCovered
            (filter (same_key l) (without_duplicates c (redacted_frame c raws)))
            (filter (same_key l) (redacted_frame c raws))
        × (stats.rows_before ≡ length raws)
        × (stats.rows_after ≡ length rows)
  unfolding stats_of
  clean_returns raws named l =
      let (rows, e, same, valued, normal) = cleaned_rows raws named in
      let (apart, covered) = frame_apart raws l in
      (rows, stats_of c raws rows, e, same, valued, normal, apart, covered, refl, refl)
