-- ===== src/Tests/Frames.antt =====
-- A listing, cleaned and loaded.
use dealership_agent.Base.{
  All, List, [], is_space, len, map, none, prefix, refl, some, strip, true, ◌∷◌, ◌≡◌,
}
use dealership_agent.Data.Batches.{batches, batches_within}
use dealership_agent.Data.Boilerplate.{
  boilerplate_segments, br_re, bump, bump_all, count_texts, long_segments, segment_counts,
  segment_re, strip_boilerplate,
}
use dealership_agent.Data.Cleaning.{
  RawListing, clean, count_rows, duplicate_index, frame_from, is_reliable, midpoint, normalize_make,
  normalize_makes, normalize_model, normalize_models, redacted_frame, stats_of, with_texts,
  without_duplicates,
}
use dealership_agent.Data.Duplicates.{
  drop_labels, dropped, dropped_groups, dropped_in, find_near_duplicates, leaders,
}
use dealership_agent.Data.Frames.{
  as_vehicle, cents, listing_row, load_frame, rounded, rows_from_dataframe,
}
use dealership_agent.Data.Frames.Priced.{load_frame-IsMarked}
use dealership_agent.Data.Listings.{
  Catalog, can_execute, distinct_refs, execute, fits_all, fits_columns, load_statements,
  load_vehicles, upsert, upsert_all,
}
use dealership_agent.Data.Pattern.{
  count_matched, findall_count, match_at, match_many, match_one, match_then, parts, pieces, split,
  sub,
}
use dealership_agent.Data.Redaction.{
  address_re, email_re, phone_re, redact_all, redact_descriptions, redact_pii, redact_with, url_re,
}
use dealership_agent.Db.{fits_or_null, fits_text, fits_varchar}
use dealership_agent.Python.{ok, ◌>>=◌}
use dealership_agent.Retrieval.Search.Asked.{IsMarked}
use dealership_agent.Tests.Cleaning.{cleaner}

abbrev offered : List RawListing
offered =
    record {
      listing_id = "r1";
      year = 2021;
      make_name = some "audi";
      model_name = some " a3";
      trim = none;
      mileage = some 12000;
      body_style = none;
      fuel_type = none;
      seller_state = none;
      kbb_fair_price_low = some 101;
      kbb_fair_price_high = some 300;
      description = some "Nice.";
    }
    ∷ []

-- The midpoint is 200.5 cents.
abbrev offered_catalog : Catalog
offered_catalog = record {
  rows =
      record {
        id = 1;
        listing = record {
          external_ref = "r1";
          year = 2021;
          make = "audi";
          model = "a3";
          trim = none;
          body_style = none;
          fuel_type = none;
          mileage = 12000;
          price = some 201;
          price_low = some 101;
          price_high = some 300;
          is_price_reliable = true;
          seller_state = none;
          description_raw = some "Nice.";
          description_clean = some "Nice.";
          is_available = true;
        };
      }
      ∷ [];
  next_id = 2;
}

abbrev empty_catalog : Catalog
empty_catalog = record { rows = []; next_id = 1 }

offered_loaded :
    (clean cleaner offered >>= λ (rows, stats). load_frame rows empty_catalog)
    ≡ ok (1, offered_catalog)
unfolding clean redacted_frame frame_from midpoint is_reliable redact_descriptions redact_all
    redact_pii redact_with phone_re email_re url_re address_re sub findall_count pieces match_at
    match_then match_one match_many count_matched prefix without_duplicates duplicate_index
    drop_labels find_near_duplicates leaders dropped_groups dropped_in dropped with_texts
    normalize_makes normalize_models normalize_make normalize_model strip is_space stats_of
    count_rows segment_counts count_texts segment_re br_re long_segments bump_all bump split parts
    len boilerplate_segments strip_boilerplate load_frame rows_from_dataframe listing_row cents
    rounded load_vehicles load_statements batches batches_within execute upsert_all upsert
    distinct_refs can_execute fits_all fits_columns fits_text fits_varchar fits_or_null
offered_loaded = refl

load_frame-IsMarked_example : All IsMarked (map as_vehicle offered_catalog.rows)
load_frame-IsMarked_example =
    load_frame-IsMarked cleaner offered empty_catalog offered_catalog 1
      ((("audi", refl), (" a3", refl)), tt) (refl, tt) tt offered_loaded
