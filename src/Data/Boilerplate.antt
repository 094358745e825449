-- ===== src/Data/Boilerplate.antt =====
-- data/scripts/clean_listings.py, `segment_counts`, `_boilerplate_segments` and `strip_boilerplate`.
pub mod Counted
use text.Mathlib.Text.{starts_with}
use dealership_agent.Base.{
  List, String, [], contains, false, if◌then◌else◌, is_space, leb, len, strip, suc, true, zero, ℕ,
  ◌-◌, ◌=ₛ◌, ◌∷◌,
}
use dealership_agent.Data.Pattern.{Pattern, behind, either, followed, many, maybe, split, sub}
use dealership_agent.Data.Redaction.{among, literal, some_of}

abbrev pub boilerplate_min_occurrences : ℕ
boilerplate_min_occurrences = 50

abbrev pub boilerplate_min_length : ℕ
boilerplate_min_length = 20

-- <br\s*/?>
unfoldable pub br_re : Pattern
br_re =
    followed (literal (b'<' ∷ b'b' ∷ b'r' ∷ []))
      (followed (many is_space) (followed (maybe (literal (b'/' ∷ []))) (literal (b'>' ∷ []))))

-- <br\s*/?>\s*<br\s*/?>|(?<=[.!])\s+
unfoldable pub segment_re : Pattern
unfolding br_re
segment_re =
    either (followed br_re (followed (many is_space) br_re))
      (followed (behind (among (b'.' ∷ b'!' ∷ []))) (some_of is_space))

-- The segments of a text that are long enough, stripped.
unfoldable pub long_segments : List String → List String
unfolding strip len
long_segments [] = []
long_segments (s ∷ ss) =
    if leb boilerplate_min_length (len (strip s))
    then strip s ∷ long_segments ss
    else long_segments ss

-- A Counter: its entries in the order of their first occurrence.
abbrev pub Counter : Type 0
Counter = List (String × ℕ)

-- counts[s] += 1
unfoldable pub bump : String → Counter → Counter
bump s [] = (s, 1) ∷ []
bump s ((t, n) ∷ rest) = if t =ₛ s then (t, suc n) ∷ rest else (t, n) ∷ bump s rest

unfoldable pub bump_all : List String → Counter → Counter
unfolding bump
bump_all [] counts = counts
bump_all (s ∷ ss) counts = bump_all ss (bump s counts)

abbrev pub segments_of : String → List String
unfolding segment_re split long_segments
segments_of text = long_segments (split segment_re text)

unfoldable pub count_texts : List String → Counter → Counter
unfolding segments_of bump_all
count_texts [] counts = counts
count_texts (text ∷ texts) counts = count_texts texts (bump_all (segments_of text) counts)

-- segment_counts, of texts in which a missing one is empty
unfoldable pub segment_counts : List String → Counter
unfolding count_texts
segment_counts texts = count_texts texts []

abbrev pub frequent : Counter → List String
frequent [] = []
frequent ((s, n) ∷ rest) =
    let later = frequent rest in if leb boilerplate_min_occurrences n then s ∷ later else later

-- _boilerplate_segments
unfoldable pub boilerplate_segments : List String → List String
unfolding segment_counts
boilerplate_segments texts = frequent (segment_counts texts)

-- cleaned.replace(segment, ""), where `inside` characters still belong to an occurrence
unfoldable pub remove_from : String → ℕ → String → String
unfolding len
remove_from segment inside String.[] = ""
remove_from segment (suc n) (String.◌∷◌ c s) = remove_from segment n s
remove_from segment zero (String.◌∷◌ c s) = elim (starts_with (String.◌∷◌ c s) segment) [
  | true ↦ remove_from segment (len segment - 1) s
  | false ↦ String.◌∷◌ c (remove_from segment zero s)
]

-- The loop over the segments, with the removals so far.
unfoldable pub remove_segments : List String → ℕ → String → String × ℕ
unfolding contains remove_from
remove_segments [] removals text = (text, removals)
remove_segments (s ∷ ss) removals text = elim (contains s text) [
  | true ↦ remove_segments ss (suc removals) (remove_from s 0 text)
  | false ↦ remove_segments ss removals text
]

-- The breaks as spaces, and every run of spaces as one.
unfoldable pub tidy : String → String
unfolding br_re sub strip
tidy text = strip (sub (some_of is_space) " " (sub br_re " " text))

unfoldable pub strip_texts : List String → ℕ → List String → List String × ℕ
unfolding remove_segments tidy
strip_texts segments removals [] = ([], removals)
strip_texts segments removals (text ∷ texts) =
    let (cleaned, removals') = remove_segments segments removals text in
    let (rest, total) = strip_texts segments removals' texts in (tidy cleaned ∷ rest, total)

-- What is left of the texts, the segments, and the number of removals.
abbrev pub strip_found : List String → List String → List String × List String × ℕ
unfolding strip_texts
strip_found [] texts = (texts, [], 0)
strip_found (s ∷ ss) texts =
    let (cleaned, removals) = strip_texts (s ∷ ss) 0 texts in (cleaned, s ∷ ss, removals)

unfoldable pub strip_boilerplate : List String → List String × List String × ℕ
unfolding boilerplate_segments strip_found
strip_boilerplate texts = strip_found (boilerplate_segments texts) texts
