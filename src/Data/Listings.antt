-- ===== src/Data/Listings.antt =====
-- data/scripts/load_listings.py: cleaned listings as rows of `vehicles`, an upsert by `external_ref`.
pub mod Loaded
pub mod Complete
use dealership_agent.Base.{
  Bool, List, Option, String, [], any, if◌then◌else◌, leb, length, map, not, suc, true, ℕ, ◌&&◌,
  ◌++◌, ◌+◌, ◌=ₛ◌, ◌∷◌,
}
use dealership_agent.Data.Batches.{batches}
use dealership_agent.Db.{fits_or_null, fits_text, fits_varchar, max_int4, max_numeric}
use dealership_agent.Python.{Outcome, external_error, ok, raise, ◌>>=◌}

-- VEHICLE_COLUMNS
pub record ListingRow : Type 0 where
  pub external_ref : String
  pub year : ℕ
  pub make : String
  pub model : String
  pub trim : Option String
  pub body_style : Option String
  pub fuel_type : Option String
  pub mileage : ℕ
  pub price : Option ℕ
  pub price_low : Option ℕ
  pub price_high : Option ℕ
  pub is_price_reliable : Bool
  pub seller_state : Option String
  pub description_raw : Option String
  pub description_clean : Option String
  pub is_available : Bool

pub record CatalogRow : Type 0 where
  pub id : ℕ
  pub listing : ListingRow

-- The table with its sequence of ids.
pub record Catalog : Type 0 where
  pub rows : List CatalogRow
  pub next_id : ℕ

abbrev pub chunk_size : ℕ
chunk_size = 1000

abbrev pub has_ref : String → List CatalogRow → Bool
has_ref ref rows = any (λ r. r.listing.external_ref =ₛ ref) rows

-- ON CONFLICT (external_ref) DO UPDATE: every column but the key, and the id stays.
abbrev pub updated : ListingRow → List CatalogRow → List CatalogRow
updated row rows =
    map (λ r. if r.listing.external_ref =ₛ row.external_ref then record r { listing = row } else r)
      rows

-- The sequence is advanced for an update too.
unfoldable pub upsert : ListingRow → Catalog → Catalog
upsert row c =
    if has_ref row.external_ref c.rows
    then record { rows = updated row c.rows; next_id = suc c.next_id }
    else record {
      rows = c.rows ++ (record { id = c.next_id; listing = row } ∷ []);
      next_id = suc c.next_id;
    }

unfoldable pub upsert_all : List ListingRow → Catalog → Catalog
unfolding upsert
upsert_all [] c = c
upsert_all (r ∷ rs) c = upsert_all rs (upsert r c)

-- No two rows of a list have one reference.
unfoldable pub distinct_refs : List ListingRow → Bool
distinct_refs [] = true
distinct_refs (r ∷ rs) = not (any (λ s. s.external_ref =ₛ r.external_ref) rs) && distinct_refs rs

-- The columns of `vehicles` that are loaded.
unfoldable pub fits_columns : ListingRow → Bool
unfolding fits_text fits_varchar fits_or_null
fits_columns r =
    fits_varchar 64 r.external_ref
    && (fits_varchar 64 r.make
        && (fits_varchar 64 r.model
            && (fits_or_null (fits_varchar 128) r.trim
                && (fits_or_null (fits_varchar 32) r.body_style
                    && (fits_or_null (fits_varchar 32) r.fuel_type
                        && (fits_or_null (fits_varchar 2) r.seller_state
                            && (fits_or_null fits_text r.description_raw
                                && (fits_or_null fits_text r.description_clean
                                    && (leb r.year max_int4
                                        && (leb r.mileage max_int4
                                            && (fits_or_null (λ p. leb p max_numeric) r.price
                                                && (fits_or_null (λ p. leb p max_numeric)
                                                      r.price_low
                                                    && fits_or_null (λ p. leb p max_numeric)
                                                        r.price_high))))))))))))

unfoldable pub fits_all : List ListingRow → Bool
unfolding fits_columns
fits_all [] = true
fits_all (r ∷ rs) = fits_columns r && fits_all rs

-- One statement: its rows must fit their columns, the sequence must have an id for each of them, and
-- no two of them may have one reference, for it may not meet a row twice. Which of the errors it is
-- is left out.
unfoldable pub can_execute : List ListingRow → Catalog → Bool
unfolding fits_all distinct_refs
can_execute chunk c =
    distinct_refs chunk && (fits_all chunk && leb (c.next_id + length chunk) (suc max_int4))

unfoldable pub execute : List ListingRow → Catalog → Outcome Catalog
unfolding upsert_all can_execute
execute chunk c =
    if can_execute chunk c then ok (upsert_all chunk c) else raise (external_error "DBAPIError")

unfoldable pub load_statements : List (List ListingRow) → ℕ → Catalog → Outcome (ℕ × Catalog)
unfolding execute
load_statements [] total c = ok (total, c)
load_statements (chunk ∷ chunks) total c =
    execute chunk c >>= λ c'. load_statements chunks (total + length chunk) c'

-- The count that is returned, and the table after the one transaction.
unfoldable pub load_vehicles : List ListingRow → Catalog → Outcome (ℕ × Catalog)
unfolding load_statements batches
load_vehicles rows c = load_statements (batches chunk_size rows) 0 c
