-- ===== src/Data/Listings/Loaded.antt =====
-- What loading leaves in the table, as a map from references to listings.
use mathlib.Core.Path.{ap₂, fun_ext}
use dealership_agent.Base.{
  All, Bool-cases, List, Option, String, [], ap, arith, eq_iff, false, if◌then◌else◌, inl, inr, leb,
  length, length-append, none, refl, some, suc, sym, true, ℕ, ◌++◌, ◌+◌, ◌=ₛ◌, ◌∙◌, ◌∷◌, ◌≡◌, ◌≤◌,
}
use dealership_agent.Data.Batches.{batches, flatten, flatten-batches}
use dealership_agent.Data.Listings.{
  Catalog, CatalogRow, ListingRow, can_execute, chunk_size, distinct_refs, execute, fits_all,
  fits_columns, has_ref, load_statements, load_vehicles, updated, upsert, upsert_all,
}
use dealership_agent.Db.{max_int4}
use dealership_agent.Python.{ok}

-- The abstract table: the id and the listing under a reference.
abbrev pub Listed : Type 0
Listed = String → Option (ℕ × ListingRow)

abbrev pub listed_at : List CatalogRow → Listed
listed_at [] ref = none
listed_at (r ∷ rs) ref =
    if r.listing.external_ref =ₛ ref then some (r.id, r.listing) else listed_at rs ref

abbrev pub id_or : ℕ → Option (ℕ × ListingRow) → ℕ
id_or next none = next
id_or next (some (id, listing)) = id

-- The abstract upsert: a listing keeps its id, and a new one gets the next.
abbrev pub put : ListingRow → ℕ → Listed → Listed
put row next m ref =
    if row.external_ref =ₛ ref then some (id_or next (m row.external_ref), row) else m ref

abbrev pub put_all : List ListingRow → ℕ → Listed → Listed
put_all [] next m = m
put_all (r ∷ rs) next m = put_all rs (suc next) (put r next m)

relist : ListingRow → Option (ℕ × ListingRow) → Option (ℕ × ListingRow)
relist row none = none
relist row (some (id, listing)) = some (id, row)

listed_at-updated_self :
    (row : ListingRow) (rs : List CatalogRow)
    → listed_at (updated row rs) row.external_ref ≡ relist row (listed_at rs row.external_ref)
unfolding relist
listed_at-updated_self row [] = refl
listed_at-updated_self row (r ∷ rs) =
    elim (Bool-cases (r.listing.external_ref =ₛ row.external_ref)) [
      | inl e ↦ rw (e, (eq_iff row.external_ref row.external_ref).1 refl) refl
      | inr e ↦ rw (e, e) (listed_at-updated_self row rs)
    ]

listed_at-updated_other :
    (row : ListingRow) (rs : List CatalogRow) (ref : String)
    → (row.external_ref =ₛ ref) ≡ false
    → listed_at (updated row rs) ref ≡ listed_at rs ref
listed_at-updated_other row [] ref n = refl
listed_at-updated_other row (r ∷ rs) ref n =
    elim (Bool-cases (r.listing.external_ref =ₛ row.external_ref)) [
      | inl e ↦
          let other : (r.listing.external_ref =ₛ ref) ≡ false =
            ap (λ s. s =ₛ ref) ((eq_iff r.listing.external_ref row.external_ref).0 e) ∙ n in
          rw (e, n, other) (listed_at-updated_other row rs ref n)
      | inr e ↦ elim (Bool-cases (r.listing.external_ref =ₛ ref)) [
        | inl f ↦ rw (e, f) refl
        | inr f ↦ rw (e, f) (listed_at-updated_other row rs ref n)
      ]
    ]

listed_at-append :
    (rs : List CatalogRow) (id : ℕ) (row : ListingRow) (ref : String)
    → has_ref row.external_ref rs ≡ false
    → listed_at (rs ++ (record { id = id; listing = row } ∷ [])) ref
      ≡ (if row.external_ref =ₛ ref then some (id, row) else listed_at rs ref)
listed_at-append [] id row ref h = refl
listed_at-append (r ∷ rs) id row ref h =
    elim (Bool-cases (r.listing.external_ref =ₛ row.external_ref)) [
      | inl e ↦ let k = rw e at h in absurd (ground arith)
      | inr e ↦ elim (Bool-cases (r.listing.external_ref =ₛ ref)) [
        | inr f ↦ rw f (listed_at-append rs id row ref (rw e at h))
        | inl f ↦ let other : (row.external_ref =ₛ ref) ≡ false = apart e f in rw (f, other) refl
      ]
    ]
  where
    apart :
        (r.listing.external_ref =ₛ row.external_ref) ≡ false
        → (r.listing.external_ref =ₛ ref) ≡ true
        → (row.external_ref =ₛ ref) ≡ false
    apart e f = elim (Bool-cases (row.external_ref =ₛ ref)) [
      | inr g ↦ g
      | inl g ↦
          let same =
            (eq_iff r.listing.external_ref ref).0 f ∙ sym ((eq_iff row.external_ref ref).0 g) in
          let k = (eq_iff r.listing.external_ref row.external_ref).1 same in absurd (ground arith)
    ]

has_ref-listed_at :
    (rs : List CatalogRow) (ref : String)
    → has_ref ref rs ≡ true
    → (x : ℕ × ListingRow) × (listed_at rs ref ≡ some x)
has_ref-listed_at [] ref h = absurd (ground arith)
has_ref-listed_at (r ∷ rs) ref h = elim (Bool-cases (r.listing.external_ref =ₛ ref)) [
  | inl e ↦ ((r.id, r.listing), rw e refl)
  | inr e ↦ let (x, k) = has_ref-listed_at rs ref (rw e at h) in (x, rw e k)
]

no_ref-listed_at :
    (rs : List CatalogRow) (ref : String) → has_ref ref rs ≡ false → listed_at rs ref ≡ none
no_ref-listed_at [] ref h = refl
no_ref-listed_at (r ∷ rs) ref h = elim (Bool-cases (r.listing.external_ref =ₛ ref)) [
  | inl e ↦ let k = rw e at h in absurd (ground arith)
  | inr e ↦ rw e (no_ref-listed_at rs ref (rw e at h))
]

listed_at-upsert :
    (row : ListingRow) (c : Catalog) (ref : String)
    → listed_at (upsert row c).rows ref ≡ put row c.next_id (listed_at c.rows) ref
unfolding upsert
listed_at-upsert row c ref = elim (Bool-cases (has_ref row.external_ref c.rows)) [
  | inr h ↦
      rw (h, no_ref-listed_at c.rows row.external_ref h)
        (listed_at-append c.rows c.next_id row ref h)
  | inl h ↦ elim (Bool-cases (row.external_ref =ₛ ref)) [
    | inr n ↦ rw (h, n) (listed_at-updated_other row c.rows ref n)
    | inl e ↦ rw (h, e) (listed (has_ref-listed_at c.rows row.external_ref h) e)
  ]
]
  where
    listed :
        ((x : ℕ × ListingRow) × (listed_at c.rows row.external_ref ≡ some x))
        → (row.external_ref =ₛ ref) ≡ true
        → listed_at (updated row c.rows) ref
          ≡ some (id_or c.next_id (listed_at c.rows row.external_ref), row)
    listed ((id, old), k) e =
        ap (listed_at (updated row c.rows)) (sym ((eq_iff row.external_ref ref).0 e))
        ∙ (listed_at-updated_self row c.rows ∙ rw k (unfold relist in refl))

next-upsert : (row : ListingRow) (c : Catalog) → (upsert row c).next_id ≡ suc c.next_id
unfolding upsert
next-upsert row c = elim (Bool-cases (has_ref row.external_ref c.rows)) [
  | inl h ↦ rw h refl
  | inr h ↦ rw h refl
]

pub listed_at-upsert_all :
    (rows : List ListingRow) (c : Catalog)
    → (listed_at (upsert_all rows c).rows ≡ put_all rows c.next_id (listed_at c.rows))
      × ((upsert_all rows c).next_id ≡ c.next_id + length rows)
unfolding upsert_all
listed_at-upsert_all [] c = (refl, omega arith)
listed_at-upsert_all (r ∷ rs) c =
    let (m, n) = listed_at-upsert_all rs (upsert r c) in
    let s : (upsert r c).next_id ≡ suc c.next_id = next-upsert r c in
    (m ∙ ap₂ (λ k t. put_all rs k t) s (fun_ext (listed_at-upsert r c)), n ∙ omega (arith, s))

put_all-append :
    (rs ss : List ListingRow) (next : ℕ) (m : Listed)
    → put_all (rs ++ ss) next m ≡ put_all ss (next + length rs) (put_all rs next m)
put_all-append [] ss next m = ap (λ k. put_all ss k m) (omega arith)
put_all-append (r ∷ rs) ss next m =
    put_all-append rs ss (suc next) (put r next m)
    ∙ ap (λ k. put_all ss k (put_all rs (suc next) (put r next m))) (omega arith)

fits_all-append :
    (rs ss : List ListingRow)
    → fits_all (rs ++ ss) ≡ true
    → (fits_all rs ≡ true) × (fits_all ss ≡ true)
unfolding fits_all
fits_all-append [] ss h = (refl, h)
fits_all-append (r ∷ rs) ss h = elim (Bool-cases (fits_columns r)) [
  | inr e ↦ let k = rw e at h in absurd (ground arith)
  | inl e ↦ let (a, b) = fits_all-append rs ss (rw e at h) in (rw (e, a) refl, b)
]

-- Statements that each have distinct references, with rows that fit, all succeed, and what they leave.
statements_refine :
    (chunks : List (List ListingRow)) (total : ℕ) (c : Catalog)
    → All (λ chunk. distinct_refs chunk ≡ true) chunks
    → fits_all (flatten chunks) ≡ true
    → c.next_id + length (flatten chunks) ≤ 2147483648
    → (c' : Catalog) × (load_statements chunks total c ≡ ok (total + length (flatten chunks), c'))
      × (listed_at c'.rows ≡ put_all (flatten chunks) c.next_id (listed_at c.rows))
unfolding load_statements execute can_execute
statements_refine [] total c h fits room = (c, ap (λ n. ok (n, c)) (omega arith), refl)
statements_refine (chunk ∷ chunks) total c (first, rest) fits room =
    let (fits_first, fits_rest) = fits_all-append chunk (flatten chunks) fits in
    let sizes = length-append chunk (flatten chunks) in
    let (m', next) = listed_at-upsert_all chunk c in
    let ids : leb (c.next_id + length chunk) (suc max_int4) ≡ true =
      enough (c.next_id + length chunk) (suc max_int4) (omega (arith, sizes, room)) in
    let (c', k, m) =
      statements_refine chunks (total + length chunk) (upsert_all chunk c) rest fits_rest
        (omega (arith, next, sizes, room)) in
    let sum : total + length chunk + length (flatten chunks)
        ≡ total + length (chunk ++ flatten chunks) =
      omega (arith, sizes) in
    (
      c',
      rw (first, fits_first, ids) (k ∙ ap (λ n. ok (n, c')) sum),
      m
          ∙ (ap₂ (λ k t. put_all (flatten chunks) k t) next m'
              ∙ sym (put_all-append chunk (flatten chunks) c.next_id (listed_at c.rows))),
    )
  where
    enough : (a b : ℕ) → a ≤ b → leb a b ≡ true
    enough a b h = ground arith

pub load_vehicles-refines :
    (rows : List ListingRow) (c : Catalog)
    → All (λ chunk. distinct_refs chunk ≡ true) (batches chunk_size rows)
    → fits_all rows ≡ true
    → c.next_id + length rows ≤ 2147483648
    → (c' : Catalog) × (load_vehicles rows c ≡ ok (length rows, c'))
      × (listed_at c'.rows ≡ put_all rows c.next_id (listed_at c.rows))
unfolding load_vehicles
load_vehicles-refines rows c h fits room =
    let all : flatten (batches chunk_size rows) ≡ rows = flatten-batches 999 rows in
    let (c', k, m) =
      statements_refine (batches chunk_size rows) 0 c h (ap fits_all all ∙ fits)
        (omega (arith, ap length all, room)) in
    (
      c',
      k ∙ ap (λ n. ok (n, c')) (omega arith ∙ ap length all),
      m ∙ ap (λ rs. put_all rs c.next_id (listed_at c.rows)) all,
    )
