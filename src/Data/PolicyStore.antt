-- ===== src/Data/PolicyStore.antt =====
-- data/scripts/embed_policies.py, `store_chunks`: the chunks as rows of `policy_chunks`. An embedding
-- is outside the program, one vector for each text, so that the two lists that are zipped are always
-- of one length. The widths of the columns of `policy_chunks` are not checked here: the database
-- raises on a text that is too long for its column, and then nothing is stored.
pub mod Replaced
pub mod Slugs
use Prim.Native.Nat.{Ordering}
use Prim.Native.String.{compare}
use dealership_agent.Base.{
  Bool, List, String, [], false, filter, if◌then◌else◌, length, map, member, not, true, ℕ, ◌&&◌,
  ◌++◌, ◌=ₛ◌, ◌∷◌,
}
use dealership_agent.Data.Policies.{Chunk, embedding_text}
use dealership_agent.Retrieval.PolicySearch.{Embedding, PolicyChunk}
use dealership_agent.Retrieval.Sorting.{sort}

unfoldable pub distinct : List String → List String
distinct [] = []
distinct (s ∷ ss) = let rest = distinct ss in if member s ss then rest else s ∷ rest

-- The order of code points.
abbrev pub text_leb : String → String → Bool
text_leb s t = elim (compare s t) [ Ordering.gt ↦ false | _ ↦ true ]

-- sorted({chunk.doc_slug for chunk in chunks})
unfoldable pub doc_slugs : List Chunk → List String
unfolding distinct sort
doc_slugs chunks = sort text_leb (distinct (map (λ c. c.doc_slug) chunks))

module _ (e : Embedding) (model_name : String) where
  -- embed_texts
  unfoldable pub embed_texts : List String → List e.Vector
  embed_texts texts = map e.embed_text texts

  -- A row with the values of an insert.
  abbrev pub row_of : Chunk → e.Vector → PolicyChunk e.Vector
  row_of c vector = record {
    doc_slug = c.doc_slug;
    doc_title = c.doc_title;
    section_heading = c.section_heading;
    chunk_index = c.chunk_index;
    content = c.content;
    is_superseded = c.is_superseded;
    embedding = vector;
    model_name = model_name;
  }

  -- WHERE doc_slug = :doc_slug AND model_name = :model_name
  abbrev pub is_of : String → PolicyChunk e.Vector → Bool
  is_of slug row = (row.doc_slug =ₛ slug) && (row.model_name =ₛ model_name)

  unfoldable pub delete_all :
      List String → List (PolicyChunk e.Vector) → List (PolicyChunk e.Vector)
  delete_all [] table = table
  delete_all (slug ∷ slugs) table = delete_all slugs (filter (λ r. not (is_of slug r)) table)

  unfoldable pub insert_all :
      List Chunk → List e.Vector → List (PolicyChunk e.Vector) → List (PolicyChunk e.Vector)
  insert_all [] vectors table = table
  insert_all (c ∷ cs) [] table = table
  insert_all (c ∷ cs) (v ∷ vs) table = insert_all cs vs (table ++ (row_of c v ∷ []))

  -- The count that is returned, and the table after the one transaction.
  unfoldable pub store_chunks :
      List Chunk → List (PolicyChunk e.Vector) → ℕ × List (PolicyChunk e.Vector)
  unfolding embed_texts doc_slugs delete_all insert_all embedding_text
  store_chunks [] table = (0, table)
  store_chunks (c ∷ cs) table = (
    length (c ∷ cs),
    insert_all (c ∷ cs) (embed_texts (map embedding_text (c ∷ cs)))
        (delete_all (doc_slugs (c ∷ cs)) table),
  )
