-- ===== src/Data/Cleaning.antt =====
-- data/scripts/clean_listings.py: `compute_price`, the normal form of names, and `clean`. The bounds of
-- a price are whole cents and the price is in half cents, so that the midpoint is exact.
pub mod Keys
pub mod Cleaned
use dealership_agent.Base.{
  Bool, List, Option, String, [], false, filter, if◌then◌else◌, length, map, member, none, not,
  some, strip, suc, take, true, ℕ, ◌&&◌, ◌+◌, ◌==◌, ◌=ₛ◌, ◌∷◌,
}
use dealership_agent.Data.Boilerplate.{strip_boilerplate}
use dealership_agent.Data.Duplicates.{drop_labels, find_near_duplicates}
use dealership_agent.Data.Redaction.{CharTables, redact_descriptions}
use dealership_agent.Python.{Outcome, attribute_error, ok, raise, ◌>>=◌}

-- The columns of a downloaded listing; a missing value is `none`.
pub record RawListing : Type 0 where
  pub listing_id : String
  pub year : ℕ
  pub make_name : Option String
  pub model_name : Option String
  pub trim : Option String
  pub mileage : Option ℕ
  pub body_style : Option String
  pub fuel_type : Option String
  pub seller_state : Option String
  pub kbb_fair_price_low : Option ℕ
  pub kbb_fair_price_high : Option ℕ
  pub description : Option String

-- A row of the frame: the listing, whose other columns are copied as they are, the label, and the
-- columns that are computed.
pub record FrameRow : Type 0 where
  pub raw : RawListing
  pub index : ℕ
  pub price : Option ℕ
  pub is_price_reliable : Bool
  pub description_clean : String
  pub make : Option String
  pub model : Option String

-- What the script takes from its libraries: the tables of `\d` and `\w`, the letter case of a text,
-- and the measure of similarity with its threshold.
pub record Cleaner : Type 0 where
  pub tables : CharTables
  pub lower : String → String
  pub upper : String → String
  pub title : String → String
  pub similar : String → String → Bool

pub record CleaningStats : Type 0 where
  pub rows_before : ℕ
  pub rows_with_null_price : ℕ
  pub rows_with_unreliable_price : ℕ
  pub pii_counts : List ℕ
  pub duplicates_removed : ℕ
  pub boilerplate_segments_found : ℕ
  pub boilerplate_segments_examples : List String
  pub boilerplate_removals : ℕ
  pub rows_after : ℕ

-- (price_low + price_high) / 2
unfoldable pub midpoint : Option ℕ → Option ℕ → Option ℕ
midpoint none high = none
midpoint (some low) none = none
midpoint (some low) (some high) = some (low + high)

-- price != 0, which holds of a missing price
unfoldable pub is_reliable : Option ℕ → Bool
is_reliable none = true
is_reliable (some price) = not (price == 0)

-- A row with its price, its redacted description, and the names as they came.
abbrev pub row_with : RawListing → ℕ → String → FrameRow
unfolding midpoint is_reliable
row_with raw index text =
    let price = midpoint raw.kbb_fair_price_low raw.kbb_fair_price_high in
    record {
      raw = raw;
      index = index;
      price = price;
      is_price_reliable = is_reliable price;
      description_clean = text;
      make = raw.make_name;
      model = raw.model_name;
    }

-- The rows are numbered from zero; there is a text for each of them.
unfoldable pub frame_from : ℕ → List RawListing → List String → List FrameRow
unfolding midpoint is_reliable
frame_from n [] texts = []
frame_from n (raw ∷ raws) [] = row_with raw n "" ∷ frame_from (suc n) raws []
frame_from n (raw ∷ raws) (text ∷ texts) = row_with raw n text ∷ frame_from (suc n) raws texts

abbrev pub same_text : Option String → Option String → Bool
same_text none none = true
same_text none (some t) = false
same_text (some s) none = false
same_text (some s) (some t) = s =ₛ t

abbrev pub same_number : Option ℕ → Option ℕ → Bool
same_number none none = true
same_number none (some n) = false
same_number (some m) none = false
same_number (some m) (some n) = m == n

-- DEDUPE_KEY_COLUMNS, where missing values are one value
abbrev pub same_key : FrameRow → FrameRow → Bool
same_key a b =
    same_text a.make b.make
    && (same_text a.model b.model
        && (a.raw.year == b.raw.year
            && (same_text a.raw.trim b.raw.trim && same_number a.raw.mileage b.raw.mileage)))

abbrev pub all_caps_makes : List String
all_caps_makes = "BMW" ∷ "GMC" ∷ "RAM" ∷ "MINI" ∷ "FIAT" ∷ []

-- The rows whose price is missing, and those whose price is not reliable.
unfoldable pub count_rows : (FrameRow → Bool) → List FrameRow → ℕ
count_rows p rows = length (filter p rows)

abbrev pub has_no_price : FrameRow → Bool
has_no_price r = elim r.price [ none ↦ true | some p ↦ false ]

unfoldable pub with_texts : List FrameRow → List String → List FrameRow
with_texts [] texts = []
with_texts (r ∷ rs) [] = r ∷ rs
with_texts (r ∷ rs) (t ∷ ts) = record r { description_clean = t } ∷ with_texts rs ts

-- A method call on a missing name.
abbrev pub name_of : Option String → Outcome String
name_of none = raise attribute_error
name_of (some name) = ok name

module _ (c : Cleaner) where
  unfoldable pub normalize_make : String → String
  unfolding strip
  normalize_make make =
      let stripped = strip make in
      if member (c.upper stripped) all_caps_makes then c.upper stripped else c.title stripped

  unfoldable pub normalize_model : String → String
  unfolding strip
  normalize_model model = c.title (strip model)

  -- The two columns of names, one after the other.
  unfoldable pub normalize_makes : List FrameRow → Outcome (List FrameRow)
  unfolding normalize_make
  normalize_makes [] = ok []
  normalize_makes (r ∷ rs) = name_of r.make >>= λ make.
      normalize_makes rs >>= λ rest. ok (record r { make = some (normalize_make make) } ∷ rest)

  unfoldable pub normalize_models : List FrameRow → Outcome (List FrameRow)
  unfolding normalize_model
  normalize_models [] = ok []
  normalize_models (r ∷ rs) = name_of r.model >>= λ model.
      normalize_models rs >>= λ rest. ok (record r { model = some (normalize_model model) } ∷ rest)

  abbrev pub comparable : FrameRow → String
  unfolding strip
  comparable r = strip (c.lower r.description_clean)

  -- The labels of the near duplicates, and the rows without them.
  unfoldable pub duplicate_index : List FrameRow → List ℕ
  unfolding find_near_duplicates
  duplicate_index rows = find_near_duplicates same_key (λ r. r.index) comparable c.similar rows

  unfoldable pub without_duplicates : List FrameRow → List FrameRow
  unfolding duplicate_index drop_labels
  without_duplicates rows =
      drop_labels same_key (λ r. r.index) comparable c.similar (duplicate_index rows) rows

  -- The frame with its prices and redacted descriptions.
  unfoldable pub redacted_frame : List RawListing → List FrameRow
  unfolding frame_from redact_descriptions
  redacted_frame raws =
      frame_from 0 raws (redact_descriptions c.tables (map (λ r. r.description) raws)).0

  -- What is left of the descriptions, the segments and the number of removals.
  abbrev pub stripped : List RawListing → List String × List String × ℕ
  unfolding redacted_frame without_duplicates strip_boilerplate
  stripped raws =
      strip_boilerplate (map (λ r. r.description_clean) (without_duplicates (redacted_frame raws)))

  unfoldable pub stats_of : List RawListing → List FrameRow → CleaningStats
  unfolding redacted_frame redact_descriptions duplicate_index count_rows
  stats_of raws rows =
      let frame = redacted_frame raws in
      let (texts, segments, removals) = stripped raws in
      record {
        rows_before = length raws;
        rows_with_null_price = count_rows has_no_price frame;
        rows_with_unreliable_price = count_rows (λ r. not r.is_price_reliable) frame;
        pii_counts = (redact_descriptions c.tables (map (λ r. r.description) raws)).1;
        duplicates_removed = length (duplicate_index frame);
        boilerplate_segments_found = length segments;
        boilerplate_segments_examples = take 5 segments;
        boilerplate_removals = removals;
        rows_after = length rows;
      }

  unfoldable pub clean : List RawListing → Outcome (List FrameRow × CleaningStats)
  unfolding redacted_frame without_duplicates with_texts normalize_makes normalize_models stats_of
  clean raws =
      let left = without_duplicates (redacted_frame raws) in
      normalize_makes (with_texts left (stripped raws).0) >>= λ made.
      normalize_models made >>= λ rows. ok (rows, stats_of raws rows)
