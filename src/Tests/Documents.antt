-- ===== src/Tests/Documents.antt =====
-- A policy document as chunks, and the chunks in the table.
use dealership_agent.Base.{
  All, List, Option, String, [], contains, false, get_elem?, if◌then◌else◌, join, len, map, refl,
  some, strip, ℕ, ◌&&◌, ◌=ₛ◌, ◌∷◌, ◌≡◌,
}
use dealership_agent.Data.Policies.{
  Chunk, chunks_from, embedding_text, h1_match, h2_match, parse_document, parse_line, parse_lines,
  section_content, sections_of,
}
use dealership_agent.Data.Policies.Chunks.{
  IsChunkOf, IsNumbered, document_sections, has_index, is_written, parse_document-IsChunkOf,
}
use dealership_agent.Data.Policies.Lines.{is_line_break, splitlines}
use dealership_agent.Data.PolicyStore.{
  delete_all, distinct, doc_slugs, embed_texts, insert_all, store_chunks,
}
use dealership_agent.Data.PolicyStore.Replaced.{fresh_rows, rows_of, store_chunks-rows}
use dealership_agent.Data.PolicyStore.Slugs.{is_stored}
use dealership_agent.Retrieval.PolicySearch.{PolicyChunk}
use dealership_agent.Retrieval.Sorting.{insert, sort}
use dealership_agent.Tests.Policies.{chunk_of, ruler}

abbrev returns_text : String
returns_text = "# Returns\n\n## Cars\nSeven days.\n## Parts\n\n## Fees\r\nNone."

parse_document-IsChunkOf_example :
    All
      (IsChunkOf "returns" (document_sections returns_text))
      (parse_document "returns" returns_text)
    × IsNumbered (parse_document "returns" returns_text)
    × ((k : ℕ)
        → has_index k (parse_document "returns" returns_text)
          ≡ is_written (get_elem? (document_sections returns_text) k))
parse_document-IsChunkOf_example = parse_document-IsChunkOf "returns" returns_text

abbrev heading_and_text : Chunk → Option String × ℕ × String
heading_and_text c = (c.section_heading, c.chunk_index, c.content)

-- The blank line above the first heading and the blank section take an index each.
returns_parsed :
    map heading_and_text (parse_document "returns" returns_text)
    ≡ ((some "Cars", 1, "Seven days.") ∷ (some "Fees", 3, "None.") ∷ [])
unfolding parse_document parse_lines parse_line h1_match h2_match sections_of chunks_from
    section_content splitlines is_line_break strip join contains
returns_parsed = refl

abbrev stored : List (PolicyChunk ℕ)
stored = chunk_of "returns" false 1 ∷ chunk_of "delivery" false 2 ∷ []

abbrev fresh_chunk : Chunk
fresh_chunk = record {
  doc_slug = "returns";
  doc_title = "Returns";
  section_heading = some "Cars";
  chunk_index = 0;
  content = "Seven days.";
  is_superseded = false;
}

store_chunks-rows_example :
    (rows_of ruler "m" "delivery" "m" (store_chunks ruler "m" (fresh_chunk ∷ []) stored).1 ≡ (
      if is_stored (fresh_chunk ∷ []) "delivery" && ("m" =ₛ "m")
      then rows_of ruler "m" "delivery" "m" (fresh_rows ruler "m" (fresh_chunk ∷ []))
      else rows_of ruler "m" "delivery" "m" stored))
    × ((store_chunks ruler "m"
          (fresh_chunk ∷ [])
          (store_chunks ruler "m" (fresh_chunk ∷ []) stored).1).1
        ≡ (store_chunks ruler "m" (fresh_chunk ∷ []) stored).1)
store_chunks-rows_example = store_chunks-rows ruler "m" (fresh_chunk ∷ []) stored "delivery" "m"

abbrev slug_and_text : PolicyChunk ℕ → String × String
slug_and_text r = (r.doc_slug, r.content)

-- The old chunk of the document is gone, and the other document is as it was.
returns_stored :
    map slug_and_text (store_chunks ruler "m" (fresh_chunk ∷ []) stored).1
    ≡ (("delivery", "") ∷ ("returns", "Seven days.") ∷ [])
unfolding store_chunks doc_slugs distinct sort insert delete_all insert_all embed_texts
    embedding_text join len
returns_stored = refl
