-- ===== src/Data/Frames.antt =====
-- data/scripts/load_listings.py, `_rows_from_dataframe` and the load of a cleaned frame, and db/models.py,
-- the columns of a vehicle.
pub mod Priced
use dealership_agent.Base.{List, Option, [], none, some, suc, true, zero, ℕ, ◌∷◌}
use dealership_agent.Data.Cleaning.{FrameRow}
use dealership_agent.Data.Listings.{Catalog, CatalogRow, ListingRow, load_vehicles}
use dealership_agent.Python.{Outcome, external_error, ok, raise, ◌>>=◌}
use dealership_agent.Retrieval.Search.{Vehicle}

-- A price in whole cents, as NUMERIC(10, 2) rounds it.
unfoldable pub rounded : ℕ → ℕ
rounded zero = 0
rounded (suc zero) = 1
rounded (suc (suc n)) = suc (rounded n)

unfoldable pub cents : Option ℕ → Option ℕ
unfolding rounded
cents none = none
cents (some half_cents) = some (rounded half_cents)

-- A column that is NOT NULL: the insert of the row raises.
abbrev pub required {ℓ} : {A : Type ℓ} → Option A → Outcome A
required none = raise (external_error "null value violates not-null constraint")
required (some x) = ok x

unfoldable pub listing_row : FrameRow → Outcome ListingRow
unfolding cents
listing_row r = required r.make >>= λ make. required r.model >>= λ model.
    required r.raw.mileage >>= λ mileage. ok (record {
      external_ref = r.raw.listing_id;
      year = r.raw.year;
      make = make;
      model = model;
      trim = r.raw.trim;
      body_style = r.raw.body_style;
      fuel_type = r.raw.fuel_type;
      mileage = mileage;
      price = cents r.price;
      price_low = r.raw.kbb_fair_price_low;
      price_high = r.raw.kbb_fair_price_high;
      is_price_reliable = r.is_price_reliable;
      seller_state = r.raw.seller_state;
      description_raw = r.raw.description;
      description_clean = some r.description_clean;
      is_available = true;
    })

unfoldable pub rows_from_dataframe : List FrameRow → Outcome (List ListingRow)
unfolding listing_row
rows_from_dataframe [] = ok []
rows_from_dataframe (r ∷ rs) =
    listing_row r >>= λ row. rows_from_dataframe rs >>= λ rows. ok (row ∷ rows)

-- The rows of a frame, loaded.
unfoldable pub load_frame : List FrameRow → Catalog → Outcome (ℕ × Catalog)
unfolding rows_from_dataframe load_vehicles
load_frame frame c = rows_from_dataframe frame >>= λ rows. load_vehicles rows c

-- A row of the table as the search reads it.
abbrev pub as_vehicle : CatalogRow → Vehicle
as_vehicle r = record {
  id = r.id;
  external_ref = r.listing.external_ref;
  year = r.listing.year;
  make = r.listing.make;
  model = r.listing.model;
  trim = r.listing.trim;
  body_style = r.listing.body_style;
  fuel_type = r.listing.fuel_type;
  mileage = r.listing.mileage;
  price = r.listing.price;
  price_low = r.listing.price_low;
  price_high = r.listing.price_high;
  is_price_reliable = r.listing.is_price_reliable;
  seller_state = r.listing.seller_state;
  description_clean = r.listing.description_clean;
  is_available = r.listing.is_available;
}
