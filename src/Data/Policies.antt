-- ===== src/Data/Policies.antt =====
-- data/scripts/embed_policies.py: policy documents as chunks, and the chunks as rows.
use Prim.Native.Char.{code}
pub mod Lines
pub mod Outline
pub mod Chunks
use dealership_agent.Base.{
  Bool, List, Option, String, [], contains, if◌then◌else◌, is_space, join, none, some, strip, suc,
  ℕ, ◌++◌, ◌==◌, ◌=ₛ◌, ◌∷◌,
}
use dealership_agent.Data.Policies.Lines.{splitlines}

-- What follows the marks of a heading: at least one space, and a title that is stripped.
abbrev pub heading_text : String → Option String
heading_text String.[] = none
heading_text (String.◌∷◌ c s) = if is_space c then some (strip s) else none

-- H1_RE.match(line), and its group
unfoldable pub h1_match : String → Option String
h1_match String.[] = none
h1_match (String.◌∷◌ c s) = if code c == b'#' then heading_text s else none

-- H2_RE.match(line), and its group
unfoldable pub h2_match : String → Option String
unfolding h1_match
h2_match String.[] = none
h2_match (String.◌∷◌ c s) = if code c == b'#' then h1_match s else none

-- A section: its heading and its lines.
abbrev pub Section : Type 0
Section = Option String × List String

-- The variables of the loop over the lines.
pub record Parsing : Type 0 where
  pub doc_title : String
  pub sections : List Section
  pub current_heading : Option String
  pub current_lines : List String

-- if current_lines: sections.append((current_heading, current_lines))
abbrev pub closed : List Section → Option String → List String → List Section
closed sections heading [] = sections
closed sections heading (l ∷ ls) = sections ++ ((heading, l ∷ ls) ∷ [])

-- The body of the loop, from what the two patterns match.
abbrev pub on_match : Option String → Option String → String → Parsing → Parsing
on_match (some title) h2 line p = record p { doc_title = title }
on_match none (some heading) line p = record p {
  sections = closed p.sections p.current_heading p.current_lines;
  current_heading = some heading;
  current_lines = [];
}
on_match none none line p = record p { current_lines = p.current_lines ++ (line ∷ []) }

unfoldable pub parse_line : Parsing → String → Parsing
parse_line p line = on_match (h1_match line) (h2_match line) line p

unfoldable pub parse_lines : Parsing → List String → Parsing
unfolding parse_line
parse_lines p [] = p
parse_lines p (line ∷ lines) = parse_lines (parse_line p line) lines

unfoldable pub sections_of : Parsing → List Section
sections_of p = closed p.sections p.current_heading p.current_lines

pub record Chunk : Type 0 where
  pub doc_slug : String
  pub doc_title : String
  pub section_heading : Option String
  pub chunk_index : ℕ
  pub content : String
  pub is_superseded : Bool

unfoldable pub section_content : List String → String
unfolding strip join
section_content body = strip (join "\n" body)

-- for index, (heading, body_lines) in enumerate(sections)
unfoldable pub chunks_from : String → String → ℕ → List Section → List Chunk
unfolding section_content contains
chunks_from slug title index [] = []
chunks_from slug title index ((heading, body) ∷ rest) =
    let later = chunks_from slug title (suc index) rest in
    if section_content body =ₛ ""
    then later
    else record {
      doc_slug = slug;
      doc_title = title;
      section_heading = heading;
      chunk_index = index;
      content = section_content body;
      is_superseded = contains "superseded" slug;
    }
      ∷ later

abbrev pub new_parsing : String → Parsing
new_parsing slug = record {
  doc_title = slug;
  sections = [];
  current_heading = none;
  current_lines = [];
}

-- parse_document, from the stem of the path and the text of the file
unfoldable pub parse_document : String → String → List Chunk
unfolding parse_lines sections_of chunks_from splitlines
parse_document slug text =
    let p = parse_lines (new_parsing slug) (splitlines text) in
    chunks_from slug p.doc_title 0 (sections_of p)

-- if chunk.section_heading: parts.append(chunk.section_heading)
abbrev pub heading_part : Option String → List String
heading_part none = []
heading_part (some heading) = if heading =ₛ "" then [] else heading ∷ []

-- _embedding_text
unfoldable pub embedding_text : Chunk → String
unfolding join
embedding_text chunk =
    join "\n" (chunk.doc_title ∷ (heading_part chunk.section_heading ++ (chunk.content ∷ [])))

-- all_chunks, for the documents in the order of their paths
unfoldable pub load_chunks : List (String × String) → List Chunk
unfolding parse_document
load_chunks [] = []
load_chunks ((slug, text) ∷ documents) = parse_document slug text ++ load_chunks documents
