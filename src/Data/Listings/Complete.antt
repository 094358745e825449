-- ===== src/Data/Listings/Complete.antt =====
-- data/scripts/load_listings.py, `load_vehicles`: what a load needs and what it leaves.
use dealership_agent.Base.{All, List, length, true, ℕ, ◌+◌, ◌≡◌, ◌≤◌, ◌⊎◌}
use dealership_agent.Data.Batches.{batches}
use dealership_agent.Data.Listings.{Catalog, ListingRow, chunk_size, distinct_refs, fits_all}
use dealership_agent.Data.Listings.Loaded.{listed_at, put_all}
use dealership_agent.Python.{Outcome, ok, raise}

-- What the database asks of a load: no statement meets a reference twice, each row fits the columns
-- of the table, and the sequence has an id for each row.
pub record CanLoad (rows : List ListingRow) (c : Catalog) : Type 0 where
  pub apart : All (λ chunk. distinct_refs chunk ≡ true) (batches chunk_size rows)
  pub fits : fits_all rows ≡ true
  pub room : (length rows ≡ 0) ⊎ (c.next_id + length rows ≤ 2147483648)

abbrev pub IsLoaded : List ListingRow → Catalog → Outcome (ℕ × Catalog) → Type 0
IsLoaded rows c (raise e) = ¬ CanLoad rows c
IsLoaded rows c (ok (total, c')) =
    CanLoad rows c
    × (total ≡ length rows)
    × (listed_at c'.rows ≡ put_all rows c.next_id (listed_at c.rows))
