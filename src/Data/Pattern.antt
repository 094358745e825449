-- ===== src/Data/Pattern.antt =====
-- What the data scripts use of Python's `re`: patterns that backtrack, tried from left to right, and
-- `sub`, `findall` and `split` over the matches that do not overlap. The word characters and the
-- digits are those of Unicode's tables, a parameter.
pub mod Scanned
use Prim.Native.Char.{Char}
use dealership_agent.Base.{
  Bool, List, Option, String, [], false, if◌then◌else◌, none, not, prefix, some, suc, true, zero, ℕ,
  ◌<>◌, ◌∷◌,
}

-- The patterns that the scripts write. `many` is a greedy `*` of one class.
pub data Pattern : Type 0 where
  one : (Char → Bool) → Pattern
  many : (Char → Bool) → Pattern
  followed : Pattern → Pattern → Pattern
  either : Pattern → Pattern → Pattern
  maybe : Pattern → Pattern
  -- `\b`
  boundary : (Char → Bool) → Pattern
  -- `(?<=…)` of one class
  behind : (Char → Bool) → Pattern

-- What follows a match: how much has been taken, the character before, and the rest.
abbrev pub Next : Type 0
Next = ℕ → Option Char → String → Option ℕ

abbrev pub or_try : Option ℕ → Option ℕ → Option ℕ
or_try none b = b
or_try (some n) b = some n

abbrev pub passes : (Char → Bool) → Option Char → Bool
passes p none = false
passes p (some c) = p c

abbrev pub first_char : String → Option Char
first_char String.[] = none
first_char (String.◌∷◌ c s) = some c

unfoldable pub match_one : (Char → Bool) → ℕ → String → Next → Option ℕ
match_one p n String.[] next = none
match_one p n (String.◌∷◌ c s) next = if p c then next (suc n) (some c) s else none

unfoldable pub match_many : (Char → Bool) → ℕ → Option Char → String → Next → Option ℕ
match_many p n before String.[] next = next n before ""
match_many p n before (String.◌∷◌ c s) next =
    let longer = match_many p (suc n) (some c) s next in
    if p c then or_try longer (next n before (String.◌∷◌ c s)) else next n before (String.◌∷◌ c s)

abbrev pub differ : Bool → Bool → Bool
differ true b = not b
differ false b = b

-- The length of the match at a place of a text, when what follows the pattern is `next`.
unfoldable pub match_then : Pattern → ℕ → Option Char → String → Next → Option ℕ
unfolding match_one match_many
match_then (one p) n before s next = match_one p n s next
match_then (many p) n before s next = match_many p n before s next
match_then (followed a b) n before s next =
    match_then a n before s (λ m c t. match_then b m c t next)
match_then (either a b) n before s next =
    or_try (match_then a n before s next) (match_then b n before s next)
match_then (maybe a) n before s next = or_try (match_then a n before s next) (next n before s)
match_then (boundary word) n before s next =
    if differ (passes word before) (passes word (first_char s)) then next n before s else none
match_then (behind p) n before s next = if passes p before then next n before s else none

unfoldable pub match_at : Pattern → Option Char → String → Option ℕ
unfolding match_then
match_at p before s = match_then p 0 before s (λ n c t. some n)

-- A text cut at its matches: what stands outside, character by character, and what is matched.
pub data Piece : Type 0 where
  between : Char → Piece
  matched : String → Piece

abbrev pub piece_at : Option ℕ → Char → String → (ℕ → List Piece) → List Piece → List Piece
piece_at none c s after rest = between c ∷ rest
piece_at (some zero) c s after rest = between c ∷ rest
piece_at (some (suc n)) c s after rest = matched (String.◌∷◌ c (prefix n s)) ∷ after n

-- From left to right; `inside` characters still belong to a match. A match that takes nothing is
-- passed over: no pattern of the scripts has one.
unfoldable pub pieces : Pattern → ℕ → Option Char → String → List Piece
unfolding match_at prefix
pieces p inside before String.[] = []
pieces p zero before (String.◌∷◌ c s) =
    piece_at (match_at p before (String.◌∷◌ c s)) c s (λ n. pieces p n (some c) s)
      (pieces p zero (some c) s)
pieces p (suc n) before (String.◌∷◌ c s) = pieces p n (some c) s

-- len(pattern.findall(text))
unfoldable pub count_matched : List Piece → ℕ
count_matched [] = 0
count_matched (between c ∷ ps) = count_matched ps
count_matched (matched t ∷ ps) = suc (count_matched ps)

unfoldable pub replaced : String → List Piece → String
replaced with [] = ""
replaced with (between c ∷ ps) = String.◌∷◌ c (replaced with ps)
replaced with (matched t ∷ ps) = with <> replaced with ps

-- The texts between the matches.
abbrev pub onto_part : Char → List String → List String
onto_part c [] = String.◌∷◌ c "" ∷ []
onto_part c (s ∷ ss) = String.◌∷◌ c s ∷ ss

unfoldable pub parts : List Piece → List String
parts [] = "" ∷ []
parts (between c ∷ ps) = onto_part c (parts ps)
parts (matched t ∷ ps) = "" ∷ parts ps

-- pattern.findall(text), counted; pattern.sub(with, text); pattern.split(text)
unfoldable pub findall_count : Pattern → String → ℕ
unfolding pieces count_matched
findall_count p text = count_matched (pieces p 0 none text)

unfoldable pub sub : Pattern → String → String → String
unfolding pieces replaced
sub p with text = replaced with (pieces p 0 none text)

unfoldable pub split : Pattern → String → List String
unfolding pieces parts
split p text = parts (pieces p 0 none text)
