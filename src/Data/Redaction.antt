-- ===== src/Data/Redaction.antt =====
-- data/scripts/clean_listings.py, `redact_pii` and `redact_descriptions`, with their patterns.
pub mod Redacted
use Prim.Native.Char.{Char, code}
use dealership_agent.Base.{
  Bool, List, Option, String, [], false, if◌then◌else◌, is_space, leb, none, not, some, suc, zero,
  ℕ, ◌&&◌, ◌+◌, ◌==◌, ◌||◌, ◌∷◌,
}
use dealership_agent.Data.Pattern.{
  Pattern, boundary, either, findall_count, followed, many, maybe, one, sub,
}

-- The decimal digits of `\d` and the word characters of `\w`, from Unicode's tables.
pub record CharTables : Type 0 where
  pub digit : Char → Bool
  pub word : Char → Bool

abbrev pub is_char : ℕ → Char → Bool
is_char n c = code c == n

abbrev pub among : List ℕ → Char → Bool
among [] c = false
among (n ∷ ns) c = is_char n c || among ns c

abbrev pub in_range : ℕ → ℕ → Char → Bool
in_range low high c = leb low (code c) && leb (code c) high

abbrev pub is_upper : Char → Bool
is_upper = in_range b'A' b'Z'

abbrev pub is_alpha : Char → Bool
is_alpha c = is_upper c || in_range b'a' b'z' c

abbrev pub is_alnum : Char → Bool
is_alnum c = is_alpha c || in_range b'0' b'9' c

-- A pattern that takes nothing.
abbrev pub empty : Pattern
empty = many (λ c. false)

abbrev pub literal : List ℕ → Pattern
literal [] = empty
literal (n ∷ ns) = followed (one (is_char n)) (literal ns)

abbrev pub some_of : (Char → Bool) → Pattern
some_of p = followed (one p) (many p)

-- p{n}
abbrev pub times : ℕ → Pattern → Pattern
times zero p = empty
times (suc n) p = followed p (times n p)

-- p{0,n}
abbrev pub up_to : ℕ → Pattern → Pattern
up_to zero p = empty
up_to (suc n) p = maybe (followed p (up_to n p))

-- [-.\s]
abbrev pub separator : Char → Bool
separator c = among (b'-' ∷ b'.' ∷ []) c || is_space c

unfoldable pub phone_re : CharTables → Pattern
phone_re t =
    followed
      (maybe (
        followed (maybe (literal (b'+' ∷ [])))
          (followed (literal (b'1' ∷ [])) (maybe (one separator)))))
      (followed (maybe (literal (b'(' ∷ []))) (
        followed (times 3 (one t.digit)) (
          followed (maybe (literal (b')' ∷ []))) (
            followed (one separator) (
              followed (times 3 (one t.digit))
                (followed (one separator) (followed (times 4 (one t.digit)) (boundary t.word))))))))

unfoldable pub email_re : Pattern
email_re = followed (some_of (λ c. is_alnum c || among (b'_' ∷ b'.' ∷ b'+' ∷ b'-' ∷ []) c)) (
    followed (literal (b'@' ∷ [])) (
      followed (some_of (λ c. is_alnum c || is_char b'-' c))
        (followed (literal (b'.' ∷ [])) (some_of (λ c. is_alnum c || among (b'.' ∷ b'-' ∷ []) c)))))

-- A letter under re.IGNORECASE: `s` is also the long s.
abbrev pub either_case : ℕ → ℕ → Char → Bool
either_case upper lower c = is_char upper c || is_char lower c

abbrev pub letter_s : Char → Bool
letter_s c = either_case b'S' b's' c || is_char 383 c

unfoldable pub url_re : Pattern
url_re =
    followed
      (either
        (followed (one (either_case b'H' b'h')) (
          followed (times 2 (one (either_case b'T' b't'))) (
            followed (one (either_case b'P' b'p'))
              (followed (maybe (one letter_s)) (literal (b':' ∷ b'/' ∷ b'/' ∷ []))))))
        (followed (times 3 (one (either_case b'W' b'w'))) (literal (b'.' ∷ []))))
      (some_of (λ c. not (is_space c || among (b'<' ∷ b'>' ∷ 34 ∷ 39 ∷ b')' ∷ []) c)))

abbrev pub suffixes : Pattern
suffixes = either (literal (b'S' ∷ b't' ∷ [])) (
    either (literal (b'A' ∷ b'v' ∷ b'e' ∷ [])) (
      either (literal (b'B' ∷ b'l' ∷ b'v' ∷ b'd' ∷ [])) (
        either (literal (b'R' ∷ b'd' ∷ [])) (
          either (literal (b'D' ∷ b'r' ∷ [])) (
            either (literal (b'L' ∷ b'n' ∷ [])) (
              either (literal (b'C' ∷ b't' ∷ [])) (
                either (literal (b'P' ∷ b'l' ∷ [])) (
                  either (literal (b'P' ∷ b'k' ∷ b'w' ∷ b'y' ∷ [])) (
                    either (literal (b'C' ∷ b'i' ∷ b'r' ∷ []))
                      (literal (b'T' ∷ b'e' ∷ b'r' ∷ [])))))))))))

abbrev pub street_word : Pattern
street_word =
    followed (one is_upper)
      (followed (many (λ c. is_alpha c || among (39 ∷ b'.' ∷ []) c)) (some_of is_space))

unfoldable pub address_re : CharTables → Pattern
address_re t = followed (boundary t.word) (
    followed (followed (one t.digit) (up_to 5 (one t.digit))) (
      followed (some_of is_space) (
        followed (followed street_word (up_to 2 street_word))
          (followed suffixes (literal (b'.' ∷ []))))))

-- PII_PATTERNS, in the order of the dict, with the marker of each category
abbrev pub pii_patterns : CharTables → List (String × Pattern)
unfolding phone_re email_re url_re address_re
pii_patterns t =
    ("[REDACTED_PHONE]", phone_re t)
    ∷ ("[REDACTED_EMAIL]", email_re)
    ∷ ("[REDACTED_URL]", url_re)
    ∷ ("[REDACTED_ADDRESS]", address_re t)
    ∷ []

-- The loop over the categories; the counts stand in their order.
unfoldable pub redact_with : List (String × Pattern) → String → String × List ℕ
redact_with [] text = (text, [])
redact_with ((marker, p) ∷ categories) text =
    let count = findall_count p text in
    let text' = if count == 0 then text else sub p marker text in
    let (redacted, counts) = redact_with categories text' in (redacted, count ∷ counts)

unfoldable pub redact_pii : CharTables → String → String × List ℕ
unfolding redact_with
redact_pii t text = redact_with (pii_patterns t) text

abbrev pub add_counts : List ℕ → List ℕ → List ℕ
add_counts [] ns = ns
add_counts (m ∷ ms) [] = m ∷ ms
add_counts (m ∷ ms) (n ∷ ns) = (m + n) ∷ add_counts ms ns

abbrev pub text_or_empty : Option String → String
text_or_empty none = ""
text_or_empty (some s) = s

-- redact_descriptions, with the totals so far
unfoldable pub redact_all : CharTables → List ℕ → List (Option String) → List String × List ℕ
unfolding redact_pii
redact_all t totals [] = ([], totals)
redact_all t totals (d ∷ ds) =
    let (redacted, counts) = redact_pii t (text_or_empty d) in
    let (rest, totals') = redact_all t (add_counts totals counts) ds in (redacted ∷ rest, totals')

unfoldable pub redact_descriptions : CharTables → List (Option String) → List String × List ℕ
unfolding redact_all
redact_descriptions t descriptions = redact_all t (0 ∷ 0 ∷ 0 ∷ 0 ∷ []) descriptions
