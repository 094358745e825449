-- ===== src/Retrieval/PolicySearch.antt =====
-- retrieval/policy_search.py: the search over the policy documents. The embedding of a text and the
-- distance of two embeddings are outside the program; a distance is a whole number of its smallest
-- differences. A result keeps the distance, since its `similarity` is one minus it. The rows that the
-- database yields for a query, nearest first, are a parameter too: by the HNSW index of the table they
-- need not be all of them, and they are filtered by their model afterwards.
pub mod Ranked
use dealership_agent.Base.{
  Bool, List, Option, String, false, filter, leb, length, map, max, negsuc, pos, suc, take, true, ℕ,
  ℤ, ◌*◌, ◌-◌, ◌=ₛ◌,
}
use dealership_agent.Retrieval.Sorting.{sort}

pub record Embedding : Type 1 where
  pub Vector : Type 0
  pub embed_text : String → Vector
  pub distance : Vector → Vector → ℕ

-- A row of `policy_chunks`.
pub record PolicyChunk (Vector : Type 0) : Type 0 where
  pub doc_slug : String
  pub doc_title : String
  pub section_heading : Option String
  pub chunk_index : ℕ
  pub content : String
  pub is_superseded : Bool
  pub embedding : Vector
  pub model_name : String

pub record PolicyChunkResult : Type 0 where
  pub doc_slug : String
  pub doc_title : String
  pub section_heading : Option String
  pub content : String
  pub is_superseded : Bool
  pub distance : ℕ

abbrev pub candidate_pool_multiplier : ℕ
candidate_pool_multiplier = 4

abbrev pub min_candidate_pool : ℕ
min_candidate_pool = 20

-- max(limit * CANDIDATE_POOL_MULTIPLIER, MIN_CANDIDATE_POOL)
unfoldable pub pool_size : ℤ → ℕ
pool_size (pos limit) = max (limit * candidate_pool_multiplier) min_candidate_pool
pool_size (negsuc n) = min_candidate_pool

-- candidates[:limit]
unfoldable pub upto {ℓ} : {A : Type ℓ} → ℤ → List A → List A
upto (pos limit) xs = take limit xs
upto (negsuc n) xs = take (length xs - suc n) xs

-- The comparison of two keys (is_superseded, -similarity).
unfoldable pub key_leb : Bool → ℕ → Bool → ℕ → Bool
key_leb false a true b = true
key_leb true a false b = false
key_leb false a false b = leb a b
key_leb true a true b = leb a b

abbrev pub ranks_before : PolicyChunkResult → PolicyChunkResult → Bool
ranks_before c d = key_leb c.is_superseded c.distance d.is_superseded d.distance

module _ (e : Embedding)
    (index_scan : e.Vector → List (PolicyChunk e.Vector) → List (PolicyChunk e.Vector))
    (model_name : String) where
  -- A row as a result: its columns, and its distance to the query.
  abbrev pub result_of : String → PolicyChunk e.Vector → PolicyChunkResult
  result_of query row = record {
    doc_slug = row.doc_slug;
    doc_title = row.doc_title;
    section_heading = row.section_heading;
    content = row.content;
    is_superseded = row.is_superseded;
    distance = e.distance row.embedding (e.embed_text query);
  }

  -- ORDER BY the distance, WHERE model_name = :model_name
  unfoldable pub matching : String → List (PolicyChunk e.Vector) → List PolicyChunkResult
  matching query table =
      map (result_of query)
        (filter (λ row. row.model_name =ₛ model_name) (index_scan (e.embed_text query) table))

  -- LIMIT :pool_size
  unfoldable pub candidates : String → ℤ → List (PolicyChunk e.Vector) → List PolicyChunkResult
  unfolding matching pool_size
  candidates query limit table = take (pool_size limit) (matching query table)

  unfoldable pub search_policy_docs :
      String → ℤ → List (PolicyChunk e.Vector) → List PolicyChunkResult
  unfolding candidates upto sort
  search_policy_docs query limit table =
      upto limit (sort ranks_before (candidates query limit table))
