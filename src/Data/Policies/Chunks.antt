-- ===== src/Data/Policies/Chunks.antt =====
-- The chunks of a document.
use text.Mathlib.TextEquality.{eq_iff}
use dealership_agent.Base.{
  All, Bool, Bool-cases, List, Option, String, [], all, any, ap, arith, contains, false, filter,
  get_elem?, inl, inr, none, not, refl, some, suc, sym, true, zero, ℕ, ◌+◌, ◌<◌, ◌==◌, ◌=ₛ◌, ◌∙◌,
  ◌∷◌, ◌≡◌, ◌≢◌,
}
use dealership_agent.Data.Policies.{
  Chunk, Section, chunks_from, new_parsing, parse_document, parse_lines, section_content,
}
use dealership_agent.Data.Policies.Lines.{splitlines}
use dealership_agent.Data.Policies.Outline.{has_lines, outline, sections_of-parse_lines}

-- What a chunk of the sections is: the text of the section at its index, and it is not empty.
abbrev pub IsChunkOf : String → List Section → Chunk → Type 0
IsChunkOf slug sections c =
    (body : List String) × (get_elem? sections c.chunk_index ≡ some (c.section_heading, body))
    × (c.content ≡ section_content body)
    × (c.content ≢ "")
    × (c.doc_slug ≡ slug)
    × (c.is_superseded ≡ contains "superseded" slug)

-- The indices rise from chunk to chunk.
abbrev pub IsNumbered : List Chunk → Type 0
IsNumbered [] = Unit
IsNumbered (c ∷ cs) = All (λ d. c.chunk_index < d.chunk_index) cs × IsNumbered cs

abbrev pub has_index : ℕ → List Chunk → Bool
has_index i chunks = any (λ c. c.chunk_index == i) chunks

-- Is there a section, with a text that is not blank?
abbrev pub is_written : Option Section → Bool
is_written none = false
is_written (some (heading, body)) = not (section_content body =ₛ "")

module _ (slug title : String) where
  indices_above :
      (m n : ℕ) (sections : List Section)
      → m < n
      → All (λ c. m < c.chunk_index) (chunks_from slug title n sections)
  unfolding chunks_from
  indices_above m n [] h = tt
  indices_above m n ((heading, body) ∷ rest) h = elim (Bool-cases (section_content body =ₛ "")) [
    | inl e ↦ rw e (indices_above m (suc n) rest (omega arith))
    | inr e ↦ rw e (h, indices_above m (suc n) rest (omega arith))
  ]

  chunks_from-IsNumbered :
      (n : ℕ) (sections : List Section) → IsNumbered (chunks_from slug title n sections)
  unfolding chunks_from
  chunks_from-IsNumbered n [] = tt
  chunks_from-IsNumbered n ((heading, body) ∷ rest) =
      elim (Bool-cases (section_content body =ₛ "")) [
        | inl e ↦ rw e (chunks_from-IsNumbered (suc n) rest)
        | inr e ↦
            rw e (indices_above n (suc n) rest (omega arith), chunks_from-IsNumbered (suc n) rest)
      ]

  chunks_from-IsChunkOf :
      (all : List Section) (n : ℕ) (rest : List Section)
      → ((k : ℕ) → get_elem? rest k ≡ get_elem? all (n + k))
      → All (IsChunkOf slug all) (chunks_from slug title n rest)
  unfolding chunks_from
  chunks_from-IsChunkOf all n [] same = tt
  chunks_from-IsChunkOf all n ((heading, body) ∷ rest) same =
      let later =
        chunks_from-IsChunkOf all (suc n) rest
          (λ k. same (suc k) ∙ ap (get_elem? all) (omega arith)) in
      let here : get_elem? all n ≡ some (heading, body) =
        ap (get_elem? all) (omega arith) ∙ sym (same 0) in
      elim (Bool-cases (section_content body =ₛ "")) [
        | inl e ↦ rw e later
        | inr e ↦ rw e ((body, here, refl, kept e, refl, refl), later)
      ]
    where
      kept : (section_content body =ₛ "") ≡ false → section_content body ≢ ""
      kept e q = let t = (eq_iff (section_content body) "").1 q in let k = rw e at t in ground arith

  no_index :
      (m n : ℕ) (sections : List Section)
      → m < n
      → has_index m (chunks_from slug title n sections) ≡ false
  unfolding chunks_from
  no_index m n [] h = refl
  no_index m n ((heading, body) ∷ rest) h =
      let later = no_index m (suc n) rest (omega arith) in
      let apart : (n == m) ≡ false = ground arith in
      elim (Bool-cases (section_content body =ₛ "")) [
        | inl e ↦ rw e later
        | inr e ↦ rw (e, apart) later
      ]

  has_index-chunks_from :
      (n k : ℕ) (sections : List Section)
      → has_index (n + k) (chunks_from slug title n sections) ≡ is_written (get_elem? sections k)
  unfolding chunks_from
  has_index-chunks_from n k [] = refl
  has_index-chunks_from n zero ((heading, body) ∷ rest) =
      elim (Bool-cases (section_content body =ₛ "")) [
        | inl e ↦ rw e (no_index (n + 0) (suc n) rest (omega arith))
        | inr e ↦ let same : (n == n + 0) ≡ true = ground arith in rw (e, same) refl
      ]
  has_index-chunks_from n (suc k) ((heading, body) ∷ rest) =
      let later : has_index (n + suc k) (chunks_from slug title (suc n) rest)
          ≡ is_written (get_elem? rest k) =
        ap (λ i. has_index i (chunks_from slug title (suc n) rest)) (omega arith)
        ∙ has_index-chunks_from (suc n) k rest in
      let apart : (n == n + suc k) ≡ false = ground arith in
      elim (Bool-cases (section_content body =ₛ "")) [
        | inl e ↦ rw e later
        | inr e ↦ rw (e, apart) later
      ]

abbrev pub document_sections : String → List Section
document_sections text = filter has_lines (outline (splitlines text) none)

-- The chunks of a document are the sections of its outline that are not blank: each chunk has the
-- heading and the stripped text of the section at its index, and that text is not empty; the indices
-- rise; and there is a chunk with an index exactly if there is a section at it with a text that is
-- not blank. A chunk is superseded if the name of its document says so.
pub parse_document-IsChunkOf :
    (slug text : String)
    → All (IsChunkOf slug (document_sections text)) (parse_document slug text)
      × IsNumbered (parse_document slug text)
      × ((k : ℕ)
          → has_index k (parse_document slug text)
            ≡ is_written (get_elem? (document_sections text) k))
unfolding parse_document
parse_document-IsChunkOf slug text =
    let title = (parse_lines (new_parsing slug) (splitlines text)).doc_title in
    let sections = document_sections text in
    rw (sections_of-parse_lines slug (splitlines text)) (
      chunks_from-IsChunkOf slug title sections 0 sections
          (λ k. ap (get_elem? sections) (omega arith)),
      chunks_from-IsNumbered slug title 0 sections,
      λ k.
          ap (λ i. has_index i (chunks_from slug title 0 sections)) (omega arith)
          ∙ has_index-chunks_from slug title 0 k sections,
    )
