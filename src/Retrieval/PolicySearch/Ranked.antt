-- ===== src/Retrieval/PolicySearch/Ranked.antt =====
-- The order and the number of the results of a policy search.
use dealership_agent.Base.{
  All, Bool, Bool-cases, List, String, [], arith, eq_iff, false, filter, get_elem?, inl, inr,
  length, length-map, length-take, map, max, min, pos, refl, some, suc, take, take-All, true, zero,
  ℕ, ℤ, ◌*◌, ◌=ₛ◌, ◌∷◌, ◌≡◌, ◌≤◌,
}
use dealership_agent.Retrieval.PolicySearch.{
  Embedding, PolicyChunk, PolicyChunkResult, candidates, key_leb, matching, pool_size, ranks_before,
  result_of, search_policy_docs, upto,
}
use dealership_agent.Retrieval.Search.{rows}
use dealership_agent.Retrieval.Sorting.{IsSorted, length-sort, sort, sort-All, sort-IsSorted}

-- The first result is no superseded document above a current one, and of two documents of one kind
-- it is the one no farther from the query.
abbrev pub IsAbove : PolicyChunkResult → PolicyChunkResult → Type 0
IsAbove c d =
    (c.is_superseded ≡ true → d.is_superseded ≡ true)
    × (c.is_superseded ≡ d.is_superseded → c.distance ≤ d.distance)

-- Each result is above all that follow.
abbrev pub IsRanked : List PolicyChunkResult → Type 0
IsRanked [] = Unit
IsRanked (c ∷ cs) = All (IsAbove c) cs × IsRanked cs

key_total : (s : Bool) (a : ℕ) (t : Bool) (b : ℕ) → key_leb s a t b ≡ false → key_leb t b s a ≡ true
unfolding key_leb
key_total false a false b h = ground arith
key_total false a true b h = ground arith
key_total true a false b h = refl
key_total true a true b h = ground arith

key_trans :
    (s : Bool) (a : ℕ) (t : Bool) (b : ℕ) (u : Bool) (c : ℕ)
    → key_leb s a t b ≡ true
    → key_leb t b u c ≡ true
    → key_leb s a u c ≡ true
unfolding key_leb
key_trans false a t b true c h k = refl
key_trans false a false b false c h k = ground arith
key_trans false a true b false c h k = ground arith
key_trans true a false b u c h k = ground arith
key_trans true a true b false c h k = ground arith
key_trans true a true b true c h k = ground arith

key_above :
    (s : Bool) (a : ℕ) (t : Bool) (b : ℕ)
    → key_leb s a t b ≡ true
    → (s ≡ true → t ≡ true) × (s ≡ t → a ≤ b)
unfolding key_leb
key_above false a false b h = (λ k. k, λ k. ground arith)
key_above false a true b h = (λ k. refl, λ k. ground arith)
key_above true a false b h = ground arith
key_above true a true b h = (λ k. refl, λ k. ground arith)

IsAbove-All :
    (c : PolicyChunkResult) (ds : List PolicyChunkResult)
    → All (λ d. ranks_before c d ≡ true) ds
    → All (IsAbove c) ds
IsAbove-All c [] h = tt
IsAbove-All c (d ∷ ds) h =
    (key_above c.is_superseded c.distance d.is_superseded d.distance h.0, IsAbove-All c ds h.1)

IsRanked-sorted : (cs : List PolicyChunkResult) → IsSorted ranks_before cs → IsRanked cs
IsRanked-sorted [] h = tt
IsRanked-sorted (c ∷ cs) h = (IsAbove-All c cs h.0, IsRanked-sorted cs h.1)

take-IsRanked : (n : ℕ) (cs : List PolicyChunkResult) → IsRanked cs → IsRanked (take n cs)
take-IsRanked zero cs h = tt
take-IsRanked (suc n) [] h = tt
take-IsRanked (suc n) (c ∷ cs) h = (take-All (IsAbove c) n cs h.0, take-IsRanked n cs h.1)

module _ (e : Embedding)
    (index_scan : e.Vector → List (PolicyChunk e.Vector) → List (PolicyChunk e.Vector))
    (model_name query : String) where
  -- A result is one of these rows, of the embedding model that is asked for.
  abbrev pub IsFrom : List (PolicyChunk e.Vector) → PolicyChunkResult → Type 0
  IsFrom rows r =
      (k : ℕ) × (row : PolicyChunk e.Vector) × (get_elem? rows k ≡ some row)
      × (row.model_name ≡ model_name)
      × (r ≡ result_of e index_scan model_name query row)

  later_IsFrom :
      (row : PolicyChunk e.Vector) (rows : List (PolicyChunk e.Vector))
      (rs : List PolicyChunkResult)
      → All (IsFrom rows) rs
      → All (IsFrom (row ∷ rows)) rs
  later_IsFrom row rows [] h = tt
  later_IsFrom row rows (r ∷ rs) ((k, x, at_k, m, same), h) =
      ((suc k, x, at_k, m, same), later_IsFrom row rows rs h)

  rows-IsFrom :
      (rows : List (PolicyChunk e.Vector))
      → All (IsFrom rows) (
          map
            (result_of e index_scan model_name query)
            (filter (λ row. row.model_name =ₛ model_name) rows))
  rows-IsFrom [] = tt
  rows-IsFrom (row ∷ rows) =
      let later = later_IsFrom row rows _ (rows-IsFrom rows) in
      elim (Bool-cases (row.model_name =ₛ model_name)) [
        | inl h ↦
            rw (h, filter) ((0, row, refl, (eq_iff row.model_name model_name).0 h, refl), later)
        | inr h ↦ rw (h, filter) later
      ]

  module _ (table : List (PolicyChunk e.Vector)) where
    IsRanked-pool :
        (limit : ℤ)
        → IsRanked (sort ranks_before (candidates e index_scan model_name query limit table))
    IsRanked-pool limit =
        IsRanked-sorted (sort ranks_before (candidates e index_scan model_name query limit table)) (
          sort-IsSorted ranks_before
            (λ c d. key_total c.is_superseded c.distance d.is_superseded d.distance)
            (λ c d f.
              key_trans c.is_superseded c.distance d.is_superseded d.distance f.is_superseded
                f.distance)
            (candidates e index_scan model_name query limit table))

    -- A search with a limit that is not negative returns as many results as the limit, or one for
    -- each chunk of the embedding model that the scan of the database yields if these are fewer.
    -- Each result is one of these chunks. Each is ranked above all that follow: no superseded
    -- document stands above a current one, and two documents of one kind stand in the order of their
    -- distances to the query.
    pub search_policy_docs-IsRanked :
        (limit : ℕ)
        → IsRanked (search_policy_docs e index_scan model_name query (pos limit) table)
          × All
              (IsFrom (index_scan (e.embed_text query) table))
              (search_policy_docs e index_scan model_name query (pos limit) table)
          × (length (search_policy_docs e index_scan model_name query (pos limit) table)
              ≡ min limit (
                  length (
                    filter
                      (λ row. row.model_name =ₛ model_name)
                      (index_scan (e.embed_text query) table))))
    unfolding search_policy_docs candidates matching upto pool_size
    search_policy_docs-IsRanked limit =
        let scanned = index_scan (e.embed_text query) table in
        let kept = filter (λ row. row.model_name =ₛ model_name) scanned in
        let near = map (result_of e index_scan model_name query) kept in
        let pool = max (limit * 4) 20 in
        let n = length-map (result_of e index_scan model_name query) kept in
        let k = length-take pool near in
        let s = length-sort ranks_before (take pool near) in
        let t = length-take limit (sort ranks_before (take pool near)) in
        (
          take-IsRanked limit
              (sort ranks_before (candidates e index_scan model_name query (pos limit) table))
              (IsRanked-pool (pos limit)),
          take-All (IsFrom scanned) limit _ (
              sort-All ranks_before (IsFrom scanned) (take pool near)
                (take-All (IsFrom scanned) pool near (rows-IsFrom scanned))),
          omega (arith, n, k, s, t),
        )
