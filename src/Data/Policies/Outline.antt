-- ===== src/Data/Policies/Outline.antt =====
-- The sections of a document, against an outline of it that is read off its lines.
use mathlib.Core.List.{append-nil, append_assoc}
use dealership_agent.Base.{
  Bool, List, Option, String, [], ap, false, filter, none, refl, some, sym, true, ◌++◌, ◌∙◌, ◌∷◌,
  ◌≡◌,
}
use dealership_agent.Data.Policies.{
  Parsing, Section, closed, h1_match, h2_match, new_parsing, on_match, parse_lines, sections_of,
}

abbrev pub onto_body : String → List Section → List Section
onto_body line [] = []
onto_body line ((heading, body) ∷ rest) = (heading, line ∷ body) ∷ rest

abbrev pub outline_line :
    Option String
    → Option String
    → Option String
    → String
    → (Option String → List Section)
    → List Section
outline_line (some title) h2 heading line later = later heading
outline_line none (some next) heading line later = (heading, []) ∷ later (some next)
outline_line none none heading line later = onto_body line (later heading)

-- Under `heading`: the lines up to the next heading of level two are the body of a section, and the
-- rest is outlined under that heading. A heading of level one is no line of a body.
unfoldable pub outline : List String → Option String → List Section
outline [] heading = (heading, []) ∷ []
outline (line ∷ lines) heading =
    outline_line (h1_match line) (h2_match line) heading line (outline lines)

abbrev pub has_lines : Section → Bool
has_lines (heading, []) = false
has_lines (heading, line ∷ lines) = true

-- Lines in front of the body of the first section.
attach : List String → List Section → List Section
attach lines [] = []
attach lines ((heading, body) ∷ rest) = (heading, lines ++ body) ∷ rest

attach-nil : (ss : List Section) → attach [] ss ≡ ss
unfolding attach
attach-nil [] = refl
attach-nil (s ∷ ss) = refl

attach-onto_body :
    (lines : List String) (line : String) (ss : List Section)
    → attach (lines ++ (line ∷ [])) ss ≡ attach lines (onto_body line ss)
unfolding attach
attach-onto_body lines line [] = refl
attach-onto_body lines line ((heading, body) ∷ rest) =
    ap (λ b. (heading, b) ∷ rest) (append_assoc lines (line ∷ []) body)

closed-filter :
    (ss : List Section) (heading : Option String) (lines : List String) (rest : List Section)
    → closed ss heading lines ++ filter has_lines rest
      ≡ ss ++ filter has_lines ((heading, lines ++ []) ∷ rest)
closed-filter ss heading [] rest = refl
closed-filter ss heading (l ∷ ls) rest =
    append_assoc ss ((heading, l ∷ ls) ∷ []) (filter has_lines rest)
    ∙ ap (λ b. ss ++ ((heading, l ∷ b) ∷ filter has_lines rest)) (sym (append-nil ls))

sections-from :
    (lines : List String) (p : Parsing)
    → sections_of (parse_lines p lines)
      ≡ p.sections ++ filter has_lines (attach p.current_lines (outline lines p.current_heading))
unfolding sections_of parse_lines outline attach
sections-from [] p =
    sym (append-nil (closed p.sections p.current_heading p.current_lines))
    ∙ closed-filter p.sections p.current_heading p.current_lines []
sections-from (line ∷ lines) p = go (h1_match line) (h2_match line) (sections-from lines)
  where
    go :
        (h1 h2 : Option String)
        → ((q : Parsing)
            → sections_of (parse_lines q lines)
              ≡ q.sections
                ++ filter has_lines (attach q.current_lines (outline lines q.current_heading)))
        → sections_of (parse_lines (on_match h1 h2 line p) lines)
          ≡ p.sections
            ++ filter has_lines
                (attach p.current_lines (outline_line h1 h2 p.current_heading line (outline lines)))
    go (some title) h2 ih = ih (record p { doc_title = title })
    go none (some next) ih =
        ih (on_match none (some next) line p)
        ∙ (ap (λ ss. closed p.sections p.current_heading p.current_lines ++ filter has_lines ss)
              (attach-nil (outline lines (some next)))
            ∙ closed-filter p.sections p.current_heading p.current_lines
                (outline lines (some next)))
    go none none ih =
        ih (on_match none none line p)
        ∙ ap (λ ss. p.sections ++ filter has_lines ss)
            (attach-onto_body p.current_lines line (outline lines p.current_heading))

-- The loop over the lines of a document finds the sections of its outline that have a line.
pub sections_of-parse_lines :
    (slug : String) (lines : List String)
    → sections_of (parse_lines (new_parsing slug) lines) ≡ filter has_lines (outline lines none)
sections_of-parse_lines slug lines =
    sections-from lines (new_parsing slug)
    ∙ ap (λ ss. filter has_lines ss) (attach-nil (outline lines none))
