-- ===== src/Tests/Loading.antt =====
-- Listings in the catalog, and their embeddings.
use dealership_agent.Base.{
  All, List, Option, String, [], join, len, length, map, none, pos, refl, some, strip, true, ℕ,
  ◌++◌, ◌∷◌, ◌≡◌,
}
use dealership_agent.Data.Batches.{batches, batches_within}
use dealership_agent.Data.Embeddings.{
  embed_batch, embed_batches, embed_pending_vehicles, embedding_of, listing_text, pending,
}
use dealership_agent.Data.Embeddings.Pending.{embed_pending_vehicles_idempotent}
use dealership_agent.Data.Listings.{
  Catalog, CatalogRow, ListingRow, can_execute, chunk_size, distinct_refs, execute, fits_all,
  fits_columns, load_statements, load_vehicles, upsert, upsert_all,
}
use dealership_agent.Db.{fits_or_null, fits_text, fits_varchar}
use dealership_agent.Python.{Outcome, external_error, ok, raise}
use dealership_agent.Retrieval.Search.{VehicleEmbedding}
use dealership_agent.Retrieval.Sorting.{insert, sort}
use dealership_agent.Tests.{toy}
use dealership_agent.Tests.Catalog.{catalog}
use dealership_agent.Tests.Policies.{ruler}

abbrev listing : String → ℕ → ListingRow
listing ref price = record {
  external_ref = ref;
  year = 2020;
  make = "Audi";
  model = "A3";
  trim = none;
  body_style = none;
  fuel_type = none;
  mileage = 40000;
  price = some price;
  price_low = none;
  price_high = none;
  is_price_reliable = true;
  seller_state = none;
  description_raw = none;
  description_clean = none;
  is_available = true;
}

abbrev listings : Catalog
listings = record { rows = record { id = 4; listing = listing "a" 9 } ∷ []; next_id = 5 }

abbrev deliveries : List ListingRow
deliveries = listing "a" 8 ∷ listing "b" 7 ∷ []

apart_refs : All (λ chunk. distinct_refs chunk ≡ true) (batches chunk_size deliveries)
unfolding batches batches_within distinct_refs
apart_refs = (refl, tt)

abbrev ref_and_id : CatalogRow → String × ℕ × Option ℕ
ref_and_id r = (r.listing.external_ref, r.id, r.listing.price)

abbrev refs_and_ids : Outcome (ℕ × Catalog) → List (String × ℕ × Option ℕ)
refs_and_ids (raise e) = []
refs_and_ids (ok (n, c)) = map ref_and_id c.rows

-- The update keeps its id and takes a value of the sequence with it.
deliveries_loaded :
    refs_and_ids (load_vehicles deliveries listings) ≡ (("a", 4, some 8) ∷ ("b", 6, some 7) ∷ [])
unfolding load_vehicles load_statements batches batches_within execute upsert_all upsert
    distinct_refs can_execute fits_all fits_columns fits_text fits_varchar fits_or_null len
deliveries_loaded = refl

-- A value that is too long for its column undoes the whole load.
too_long :
    load_vehicles
      (listing "a" 8 ∷ record (listing "b" 7) { seller_state = some "Ohio" } ∷ [])
      listings
    ≡ raise (external_error "DBAPIError")
unfolding load_vehicles load_statements batches batches_within execute upsert_all upsert
    distinct_refs can_execute fits_all fits_columns fits_text fits_varchar fits_or_null len
too_long = refl

embed_pending_vehicles_idempotent_example :
    (after : List (VehicleEmbedding ℕ)) × (embed_pending_vehicles toy ruler "m" (pos 2) catalog []
      ≡ ok (length (pending toy ruler "m" catalog []), after))
    × (after ≡ [] ++ map (embedding_of toy ruler "m") (pending toy ruler "m" catalog []))
    × (pending toy ruler "m" catalog after ≡ [])
    × (embed_pending_vehicles toy ruler "m" (pos 2) catalog after ≡ ok (0, after))
embed_pending_vehicles_idempotent_example =
    embed_pending_vehicles_idempotent toy ruler "m" 1 catalog []

abbrev embedded_ids : Outcome (ℕ × List (VehicleEmbedding ℕ)) → List ℕ
embedded_ids (raise e) = []
embedded_ids (ok (n, embeddings)) = map (λ ve. ve.vehicle_id) embeddings

-- The second vehicle has one under another model only.
pending_embedded :
    embedded_ids (
      embed_pending_vehicles toy ruler "m" (pos 2) catalog (
        record { vehicle_id = 1; embedding = 5; model_name = "m" }
        ∷ record { vehicle_id = 2; embedding = 3; model_name = "other" }
        ∷ []))
    ≡ (1 ∷ 2 ∷ 2 ∷ 3 ∷ [])
unfolding embed_pending_vehicles pending embed_batches embed_batch batches batches_within sort
    insert listing_text strip join len
pending_embedded = refl
