-- ===== src/Tests/Cleaning.antt =====
-- Descriptions without what they must not say, and listings without near duplicates.
use dealership_agent.Base.{
  All, Bool, List, Option, String, [], false, filter, is_space, len, length, map, member, none,
  prefix, refl, some, strip, true, ℕ, ◌==◌, ◌=ₛ◌, ◌||◌, ◌↔◌, ◌∷◌, ◌≡◌, ◌≤◌,
}
use dealership_agent.Data.Boilerplate.{
  boilerplate_segments, br_re, bump, bump_all, count_texts, long_segments, segment_counts,
  segment_re, strip_boilerplate,
}
use dealership_agent.Data.Boilerplate.Counted.{boilerplate_segments_iff, times_in}
use dealership_agent.Data.Cleaning.{
  Cleaner, CleaningStats, FrameRow, RawListing, clean, count_rows, duplicate_index, frame_from,
  is_reliable, midpoint, normalize_make, normalize_makes, normalize_model, normalize_models,
  redacted_frame, row_with, same_key, stats_of, with_texts, without_duplicates,
}
use dealership_agent.Data.Cleaning.Cleaned.{AreApart, AreCovered, IsNormal, IsValued, clean_returns}
use dealership_agent.Data.Duplicates.{
  drop_labels, dropped, dropped_groups, dropped_in, find_near_duplicates, leaders,
}
use dealership_agent.Data.Pattern.{
  count_matched, findall_count, match_at, match_many, match_one, match_then, parts, pieces, split,
  sub,
}
use dealership_agent.Data.Redaction.{
  CharTables, address_re, email_re, in_range, is_alnum, is_char, phone_re, pii_patterns, redact_all,
  redact_descriptions, redact_pii, redact_with, url_re,
}
use dealership_agent.Data.Redaction.Redacted.{Redacts, redact_pii-Redacts}
use dealership_agent.Python.{Outcome, ok, raise}

abbrev ascii_tables : CharTables
ascii_tables = record { digit = in_range b'0' b'9'; word = λ c. is_alnum c || is_char b'_' c }

abbrev contact : String
contact = "Call (555) 123-4567 or a@b.co, see WWW.x.com/a. 12 Oak Dr. now"

redact_pii-Redacts_example :
    Redacts
      (pii_patterns ascii_tables)
      contact
      (redact_pii ascii_tables contact).0
      (redact_pii ascii_tables contact).1
redact_pii-Redacts_example = redact_pii-Redacts ascii_tables contact

-- The comma that ends the address of the mail stays, the full stop of the link does not.
contact_redacted : redact_pii ascii_tables contact ≡ (
  "Call [REDACTED_PHONE] or [REDACTED_EMAIL], see [REDACTED_URL] [REDACTED_ADDRESS] now",
  1 ∷ 1 ∷ 1 ∷ 1 ∷ [],
)
unfolding redact_pii redact_with phone_re email_re url_re address_re sub findall_count pieces
    match_at match_then match_one match_many count_matched prefix is_space
contact_redacted = refl

abbrev ads : List String
ads = "Great car. Financing for everyone. Visit us! Bye" ∷ "Financing for everyone." ∷ []

boilerplate_segments_iff_example :
    (member "Financing for everyone." (boilerplate_segments ads) ≡ true)
    ↔ ((20 ≤ len "Financing for everyone.") × (50 ≤ times_in "Financing for everyone." ads))
boilerplate_segments_iff_example = boilerplate_segments_iff ads "Financing for everyone."

-- Two occurrences are counted, and too few to be removed.
ads_counted :
    (segment_counts ads ≡ (("Financing for everyone.", 2) ∷ []))
    × (strip_boilerplate ads ≡ (ads, [], 0))
unfolding segment_counts count_texts segment_re br_re long_segments bump_all bump split pieces
    match_at match_then match_one match_many parts strip len is_space boilerplate_segments
    strip_boilerplate
ads_counted = (refl, refl)

-- A row: its label, the columns of the key, and its text.
abbrev Ad : Type 0
Ad = ℕ × String × String

abbrev same_car : Ad → Ad → Bool
same_car a b = a.1 =ₛ b.1

abbrev as_long : String → String → Bool
as_long s t = len s == len t

abbrev rows : List Ad
rows = (0, "audi", "red") ∷ (1, "bmw", "red") ∷ (2, "audi", "tan") ∷ (3, "audi", "blue") ∷ []

-- The later car of one key and a like text goes; a like text under another key stays.
rows_dropped : find_near_duplicates same_car (λ r. r.0) (λ r. r.2) as_long rows ≡ (2 ∷ [])
unfolding find_near_duplicates leaders dropped_groups dropped_in dropped len
rows_dropped = refl

abbrev downloaded : String → Option ℕ → Option ℕ → RawListing
downloaded make low high = record {
  listing_id = "1";
  year = 2020;
  make_name = some make;
  model_name = some "a3";
  trim = none;
  mileage = none;
  body_style = none;
  fuel_type = none;
  seller_state = none;
  kbb_fair_price_low = low;
  kbb_fair_price_high = high;
  description = none;
}

-- Texts whose case is left as it is, and are alike if they are the same.
abbrev pub cleaner : Cleaner
cleaner = record {
  tables = ascii_tables;
  lower = λ s. s;
  upper = λ s. s;
  title = λ s. s;
  similar = λ s t. s =ₛ t;
}

abbrev downloads : List RawListing
downloads =
    downloaded " BMW " (some 100) (some 300)
    ∷ downloaded "audi" (some 0) (some 0)
    ∷ downloaded " BMW " none (some 300)
    ∷ downloaded "BMW" none (some 300)
    ∷ []

abbrev first_download : FrameRow
first_download = row_with (downloaded " BMW " none none) 0 ""

clean_returns_example :
    (rows : List FrameRow) × (stats : CleaningStats) × (clean cleaner downloads ≡ ok (rows, stats))
    × (map (λ r. r.raw) rows
        ≡ map (λ r. r.raw) (without_duplicates cleaner (redacted_frame cleaner downloads)))
    × All IsValued rows
    × All (IsNormal cleaner) rows
    × AreApart cleaner (
        filter
          (same_key first_download)
          (without_duplicates cleaner (redacted_frame cleaner downloads)))
    × AreCovered cleaner
        (filter
          (same_key first_download)
          (without_duplicates cleaner (redacted_frame cleaner downloads)))
        (filter (same_key first_download) (redacted_frame cleaner downloads))
    × (stats.rows_before ≡ length downloads)
    × (stats.rows_after ≡ length rows)
clean_returns_example =
    clean_returns cleaner downloads
      (
        ((" BMW ", refl), ("a3", refl)),
        (
          (("audi", refl), ("a3", refl)),
          (((" BMW ", refl), ("a3", refl)), ((("BMW", refl), ("a3", refl)), tt)),
        ),
      )
      first_download

abbrev make_and_price : FrameRow → Option String × Option ℕ × Bool
make_and_price r = (r.make, r.price, r.is_price_reliable)

abbrev makes_and_prices :
    Outcome (List FrameRow × CleaningStats) → List (Option String × Option ℕ × Bool)
makes_and_prices (raise e) = []
makes_and_prices (ok (rows, stats)) = map make_and_price rows

-- The third is like the first. The fourth has another key, as names are compared before they are in
-- their normal form.
downloads_cleaned :
    makes_and_prices (clean cleaner downloads)
    ≡ ((some "BMW", some 400, true) ∷ (some "audi", some 0, false) ∷ (some "BMW", none, true) ∷ [])
unfolding clean redacted_frame frame_from midpoint is_reliable redact_descriptions redact_all
    redact_pii redact_with phone_re email_re url_re address_re sub findall_count pieces match_at
    match_then match_one match_many count_matched without_duplicates duplicate_index drop_labels
    find_near_duplicates leaders dropped_groups dropped_in dropped with_texts normalize_makes
    normalize_models normalize_make normalize_model strip is_space stats_of count_rows
    segment_counts count_texts segment_re br_re long_segments bump_all bump split parts len
    boilerplate_segments strip_boilerplate
downloads_cleaned = refl
