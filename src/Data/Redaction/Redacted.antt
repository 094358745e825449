-- ===== src/Data/Redaction/Redacted.antt =====
-- What redacting does to a text.
use mathlib.Core.Path.{subst}
use dealership_agent.Base.{
  ==_iff, Bool-cases, List, String, [], inl, inr, none, sym, ℕ, ◌==◌, ◌∷◌, ◌≡◌,
}
use dealership_agent.Data.Pattern.{
  Pattern, Piece, count_matched, findall_count, pieces, replaced, sub,
}
use dealership_agent.Data.Pattern.Scanned.{Scan, pieces-Scan, replaced_none}
use dealership_agent.Data.Redaction.{CharTables, pii_patterns, redact_pii, redact_with}

-- One category after the other: the text is cut at the matches of the category, each is replaced by
-- the marker, and the count is their number.
pub data Redacts : List (String × Pattern) → String → String → List ℕ → Type 0 where
  done : (text : String) → Redacts [] text text []
  redact :
      {categories : List (String × Pattern)} {result : String} {counts : List ℕ}
      (marker text : String) (p : Pattern) (ps : List Piece)
      → Scan p none text ps
      → Redacts categories (replaced marker ps) result counts
      → Redacts ((marker, p) ∷ categories) text result (count_matched ps ∷ counts)

redact_with-Redacts :
    (categories : List (String × Pattern)) (text : String)
    → Redacts categories text (redact_with categories text).0 (redact_with categories text).1
unfolding redact_with findall_count sub
redact_with-Redacts [] text = done text
redact_with-Redacts ((marker, p) ∷ categories) text =
    let ps = pieces p 0 none text in
    let scan = pieces-Scan p text in
    elim (Bool-cases (count_matched ps == 0)) [
      | inr e ↦
          rw e (redact marker text p ps scan (redact_with-Redacts categories (replaced marker ps)))
      | inl e ↦
          let same : replaced marker ps ≡ text =
            replaced_none p marker scan ((==_iff (count_matched ps) 0).0 e) in
          rw e (
            redact marker text p ps scan (
              subst
                (λ t.
                  Redacts categories t (redact_with categories text).0
                    (redact_with categories text).1)
                (sym same) (redact_with-Redacts categories text)))
    ]

-- Redacting goes through the categories in their order: in each step the text is cut at the matches
-- of the category's pattern, from left to right and without overlap, every match is replaced by the
-- marker and nothing else is changed, and the count of the category is the number of matches.
pub redact_pii-Redacts :
    (t : CharTables) (text : String)
    → Redacts (pii_patterns t) text (redact_pii t text).0 (redact_pii t text).1
unfolding redact_pii
redact_pii-Redacts t text = redact_with-Redacts (pii_patterns t) text
