-- ===== src/Data/Frames/Priced.antt =====
-- The prices of a catalog that was loaded.
use mathlib.Core.Path.{subst}
use dealership_agent.Api.Health.{listings}
use dealership_agent.Base.{
  All, All-append, All-split, Bool-cases, List, Option, [], arith, inl, inr, length, map, none, not,
  some, suc, sym, true, zero, ℕ, ◌&&◌, ◌+◌, ◌<◌, ◌=ₛ◌, ◌∙◌, ◌∷◌, ◌≡◌,
}
use dealership_agent.Data.Batches.{batches, flatten, flatten-batches}
use dealership_agent.Data.Cleaning.{
  Cleaner, FrameRow, RawListing, clean, midpoint, redacted_frame, without_duplicates,
}
use dealership_agent.Data.Cleaning.Cleaned.{IsNamed, IsValued, cleaned_rows, is_zero, left_raws}
use dealership_agent.Data.Frames.{
  as_vehicle, cents, listing_row, load_frame, required, rounded, rows_from_dataframe,
}
use dealership_agent.Data.Listings.{
  Catalog, CatalogRow, ListingRow, can_execute, chunk_size, execute, has_ref, load_statements,
  load_vehicles, updated, upsert, upsert_all,
}
use dealership_agent.Python.{ok, ok_injective, then_ok, ◌>>=◌}
use dealership_agent.Retrieval.Search.Asked.{IsAbsentOrPositive, IsMarked}

-- A bound of zero stands with another: the valuation of a listing is whole or none.
abbrev pub IsWhole : RawListing → Type 0
IsWhole raw = is_zero raw.kbb_fair_price_low ≡ is_zero raw.kbb_fair_price_high

-- A listing that is marked as reliably priced has no price of zero.
abbrev pub IsSound : ListingRow → Type 0
IsSound row =
    row.is_price_reliable ≡ true
    → IsAbsentOrPositive row.price
      × IsAbsentOrPositive row.price_low
      × IsAbsentOrPositive row.price_high

rounded_positive : (n : ℕ) → 0 < n → 0 < rounded n
unfolding rounded
rounded_positive zero h = absurd (omega arith)
rounded_positive (suc zero) h = omega arith
rounded_positive (suc (suc n)) h = omega arith

bounds_positive :
    (low high : Option ℕ)
    → is_zero low ≡ is_zero high
    → not (is_zero low && is_zero high) ≡ true
    → IsAbsentOrPositive (cents (midpoint low high))
      × IsAbsentOrPositive low
      × IsAbsentOrPositive high
unfolding cents midpoint
bounds_positive none none e h = (tt, tt, tt)
bounds_positive none (some high) e h = (tt, tt, ground arith)
bounds_positive (some low) none e h = (tt, ground arith, tt)
bounds_positive (some low) (some high) e h =
    let positive : 0 < low = ground arith in
    (rounded_positive (low + high) (omega arith), positive, ground arith)

listing_row-IsSound :
    (r : FrameRow)
    → IsValued r
    → IsWhole r.raw
    → (row : ListingRow) → listing_row r ≡ ok row
    → IsSound row
unfolding listing_row
listing_row-IsSound r (price, missing, reliable) whole row h =
    let (make, m, h1) = then_ok (required r.make) _ row h in
    let (model, n, h2) = then_ok (required r.model) _ row h1 in
    let (mileage, k, h3) = then_ok (required r.raw.mileage) _ row h2 in
    let sound = bounds_positive r.raw.kbb_fair_price_low r.raw.kbb_fair_price_high whole in
    subst IsSound (ok_injective _ row h3) (λ t. rw price (sound (sym reliable ∙ t)))

rows_from_dataframe-IsSound :
    (rs : List FrameRow)
    → All IsValued rs
    → All (λ r. IsWhole r.raw) rs
    → (rows : List ListingRow) → rows_from_dataframe rs ≡ ok rows
    → All IsSound rows
unfolding rows_from_dataframe
rows_from_dataframe-IsSound [] v w rows h = subst (All IsSound) (ok_injective [] rows h) tt
rows_from_dataframe-IsSound (r ∷ rs) v w rows h =
    let (row, k, h1) = then_ok (listing_row r) _ rows h in
    let (rest, e, h2) = then_ok (rows_from_dataframe rs) _ rows h1 in
    subst (All IsSound) (ok_injective (row ∷ rest) rows h2)
      (listing_row-IsSound r v.0 w.0 row k, rows_from_dataframe-IsSound rs v.1 w.1 rest e)

abbrev pub HasSound : Catalog → Type 0
HasSound c = All (λ r. IsSound r.listing) c.rows

updated-IsSound :
    (row : ListingRow) (rs : List CatalogRow)
    → IsSound row
    → All (λ r. IsSound r.listing) rs
    → All (λ r. IsSound r.listing) (updated row rs)
updated-IsSound row [] s h = tt
updated-IsSound row (r ∷ rs) s h = elim (Bool-cases (r.listing.external_ref =ₛ row.external_ref)) [
  | inl e ↦ rw e (s, updated-IsSound row rs s h.1)
  | inr e ↦ rw e (h.0, updated-IsSound row rs s h.1)
]

upsert-HasSound :
    (row : ListingRow) (c : Catalog) → IsSound row → HasSound c → HasSound (upsert row c)
unfolding upsert
upsert-HasSound row c s h = elim (Bool-cases (has_ref row.external_ref c.rows)) [
  | inl e ↦ rw e (updated-IsSound row c.rows s h)
  | inr e ↦ rw e (
      All-append (λ r. IsSound r.listing) c.rows (record { id = c.next_id; listing = row } ∷ []) h
        (s, tt))
]

upsert_all-HasSound :
    (rows : List ListingRow) (c : Catalog)
    → All IsSound rows
    → HasSound c
    → HasSound (upsert_all rows c)
unfolding upsert_all
upsert_all-HasSound [] c s h = h
upsert_all-HasSound (r ∷ rs) c s h =
    upsert_all-HasSound rs (upsert r c) s.1 (upsert-HasSound r c s.0 h)

load_statements-HasSound :
    (chunks : List (List ListingRow)) (total : ℕ) (c : Catalog)
    → All IsSound (flatten chunks)
    → HasSound c
    → (r : ℕ × Catalog) → load_statements chunks total c ≡ ok r
    → HasSound r.1
unfolding load_statements execute
load_statements-HasSound [] total c s h r e =
    subst (λ t. HasSound t.1) (ok_injective (total, c) r e) h
load_statements-HasSound (chunk ∷ chunks) total c s h r e =
    let (a, b) = All-split IsSound chunk (flatten chunks) s in
    elim (Bool-cases (can_execute chunk c)) [
      | inl d ↦
          load_statements-HasSound chunks (total + length chunk) (upsert_all chunk c) b
            (upsert_all-HasSound chunk c a h) r (rw d at e)
      | inr d ↦ let k = rw d at e in absurd (ground arith)
    ]

load_vehicles-HasSound :
    (rows : List ListingRow) (c : Catalog)
    → All IsSound rows
    → HasSound c
    → (r : ℕ × Catalog) → load_vehicles rows c ≡ ok r
    → HasSound r.1
unfolding load_vehicles
load_vehicles-HasSound rows c s h r e =
    load_statements-HasSound (batches chunk_size rows) 0 c
      (subst (All IsSound) (sym (flatten-batches 999 rows)) s) h r e

raws-IsWhole :
    (rows left : List FrameRow)
    → map (λ r. r.raw) rows ≡ map (λ r. r.raw) left
    → All (λ r. IsWhole r.raw) left
    → All (λ r. IsWhole r.raw) rows
raws-IsWhole rows left e h = from_raws rows (subst (All IsWhole) (sym e) (to_raws left h))
  where
    to_raws : (rs : List FrameRow) → All (λ r. IsWhole r.raw) rs → All IsWhole (map (λ r. r.raw) rs)
    to_raws [] k = tt
    to_raws (r ∷ rs) k = (k.0, to_raws rs k.1)

    from_raws :
        (rs : List FrameRow) → All IsWhole (map (λ r. r.raw) rs) → All (λ r. IsWhole r.raw) rs
    from_raws [] k = tt
    from_raws (r ∷ rs) k = (k.0, from_raws rs k.1)

vehicles-IsMarked :
    (rs : List CatalogRow) → All (λ r. IsSound r.listing) rs → All IsMarked (map as_vehicle rs)
vehicles-IsMarked [] h = tt
vehicles-IsMarked (r ∷ rs) h = (h.0, vehicles-IsMarked rs h.1)

-- Cleaned listings that are loaded keep the catalog as the search takes it: if each listing has a make
-- and a model, no listing has just one bound that is zero, and every vehicle of the
-- catalog that was marked as reliably priced had no price of zero, then after cleaning and loading
-- that succeed, every vehicle that is marked as reliably priced still has no price of zero.
pub load_frame-IsMarked :
    (c : Cleaner) (raws : List RawListing) (catalog after : Catalog) (n : ℕ)
    → All IsNamed raws
    → All IsWhole raws
    → HasSound catalog
    → (clean c raws >>= λ (rows, stats). load_frame rows catalog) ≡ ok (n, after)
    → All IsMarked (map as_vehicle after.rows)
unfolding load_frame
load_frame-IsMarked c raws catalog after n named whole sound h =
    let (rows, e, same, valued, normal) = cleaned_rows c raws named in
    let loaded : load_frame rows catalog ≡ ok (n, after) = (rw e at h) in
    let (listings, k, l) = then_ok (rows_from_dataframe rows) _ (n, after) loaded in
    let whole_rows =
      raws-IsWhole rows (without_duplicates c (redacted_frame c raws)) same
        (left_raws c IsWhole raws whole) in
    vehicles-IsMarked after.rows (
      load_vehicles-HasSound listings catalog
        (rows_from_dataframe-IsSound rows valued whole_rows listings k) sound (n, after) l)
