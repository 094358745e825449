-- ===== src/Tests/Policies.antt =====
-- A search of the policy documents.
use dealership_agent.Base.{
  All, Bool, List, String, [], false, filter, if◌then◌else◌, leb, len, length, map, min, negsuc,
  none, pos, refl, take, true, ℕ, ◌-◌, ◌=ₛ◌, ◌∷◌, ◌≡◌,
}
use dealership_agent.Retrieval.PolicySearch.{
  Embedding, PolicyChunk, candidates, key_leb, matching, pool_size, search_policy_docs, upto,
}
use dealership_agent.Retrieval.PolicySearch.Ranked.{IsFrom, IsRanked, search_policy_docs-IsRanked}
use dealership_agent.Retrieval.Search.{rows}
use dealership_agent.Retrieval.Sorting.{insert, sort}

abbrev pub ruler : Embedding
ruler = record {
  Vector = ℕ;
  embed_text = λ text. len text;
  distance = λ a b. if leb a b then b - a else a - b;
}

abbrev pub chunk_of : String → Bool → ℕ → PolicyChunk ℕ
chunk_of slug superseded vector = record {
  doc_slug = slug;
  doc_title = slug;
  section_heading = none;
  chunk_index = 0;
  content = "";
  is_superseded = superseded;
  embedding = vector;
  model_name = "m";
}

abbrev pub returns : List (PolicyChunk ℕ)
returns =
    chunk_of "returns-2024-superseded" true 7
    ∷ chunk_of "delivery" false 3
    ∷ chunk_of "returns" false 9
    ∷ []

-- A scan that yields every row, and one of an index that has lost sight of the farthest.
abbrev pub exact : ℕ → List (PolicyChunk ℕ) → List (PolicyChunk ℕ)
exact query rows =
    sort (λ r s. leb (ruler.distance r.embedding query) (ruler.distance s.embedding query)) rows

abbrev pub short_sighted : ℕ → List (PolicyChunk ℕ) → List (PolicyChunk ℕ)
short_sighted query rows = take 2 (exact query rows)

search_policy_docs-IsRanked_example :
    IsRanked (search_policy_docs ruler short_sighted "m" "returns" (pos 3) returns)
    × All
        (IsFrom ruler short_sighted "m" "returns" (short_sighted 7 returns))
        (search_policy_docs ruler short_sighted "m" "returns" (pos 3) returns)
    × (length (search_policy_docs ruler short_sighted "m" "returns" (pos 3) returns)
        ≡ min 3 (length (filter (λ row. row.model_name =ₛ "m") (short_sighted 7 returns))))
unfolding len
search_policy_docs-IsRanked_example =
    search_policy_docs-IsRanked ruler short_sighted "m" "returns" returns 3

-- The superseded text is the nearest, and stands last.
superseded_last :
    map (λ r. r.doc_slug) (search_policy_docs ruler exact "m" "returns" (pos 5) returns)
    ≡ ("returns" ∷ "delivery" ∷ "returns-2024-superseded" ∷ [])
unfolding search_policy_docs candidates matching pool_size upto sort insert key_leb len
superseded_last = refl

-- A negative limit leaves that many off the end.
negative_limit :
    map (λ r. r.doc_slug) (search_policy_docs ruler exact "m" "returns" (negsuc 0) returns)
    ≡ ("returns" ∷ "delivery" ∷ [])
unfolding search_policy_docs candidates matching pool_size upto sort insert key_leb len
negative_limit = refl
