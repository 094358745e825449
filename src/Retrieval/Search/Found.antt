-- ===== src/Retrieval/Search/Found.antt =====
-- The results of a search of the catalog, from the rows of the query.
use dealership_agent.Base.{
  All, All-append, Bool, List, String, [], arith, filter, filter-All, length, map, pos, refl, suc,
  take, take-All, true, zero, ℕ, ◌&&◌, ◌==◌, ◌=ₛ◌, ◌∷◌, ◌≡◌, ◌≤◌,
}
use dealership_agent.Python.{ok}
use dealership_agent.Retrieval.PolicySearch.{Embedding}
use dealership_agent.Retrieval.Search.{
  Filters, Vehicle, VehicleEmbedding, VehicleSearchResult, conditions, embedded, holds, nearer_row,
  result_row, rows, search_listings,
}
use dealership_agent.Retrieval.Search.Asked.{
  IsAsked, IsLike-column, IsMarked, at_least, at_most, holds-append, like, masked_positive,
}
use dealership_agent.Retrieval.Search.Priced.{price_in}
use dealership_agent.Retrieval.Sorting.{sort, sort-All}

module _ (ilike : String → String → Bool) (f : Filters) where
  row-IsAsked :
      (v : Vehicle) (distance : ℕ)
      → IsMarked v
      → holds (conditions ilike f) v ≡ true
      → IsAsked ilike f (result_row (v, distance))
  unfolding conditions result_row
  row-IsAsked v distance marked h =
      let a = (holds-append ((λ v. v.is_available) ∷ []) _ v h).1 in
      let shown = masked_positive v marked in
      let usable = holds-append _ _ v a in
      let low = holds-append _ _ v usable.1 in
      let high = holds-append _ _ v low.1 in
      let year_low = holds-append _ _ v high.1 in
      let year_high = holds-append _ _ v year_low.1 in
      let miles = holds-append _ _ v year_high.1 in
      let make = holds-append _ _ v miles.1 in
      let model = holds-append _ _ v make.1 in
      let body = holds-append _ _ v model.1 in
      (
        price_in f.price_min f.price_max v usable.0 low.0 high.0,
        at_least f.year_min (λ v. v.year) v year_low.0,
        at_most f.year_max (λ v. v.year) v year_high.0,
        at_most f.max_mileage (λ v. v.mileage) v miles.0,
        like ilike f.make (λ v. v.make) v make.0,
        like ilike f.model (λ v. v.model) v model.0,
        IsLike-column ilike f.body_style (λ v. v.body_style) v body.0,
        IsLike-column ilike f.fuel_type (λ v. v.fuel_type) v body.1,
        shown.0,
        shown.1,
        shown.2,
      )

  abbrev IsAskedRow : Vehicle × ℕ → Type 0
  IsAskedRow r = IsAsked ilike f (result_row r)

  module _ (e : Embedding) (model_name query : String)
      (embeddings : List (VehicleEmbedding e.Vector)) where
    embedded_asked :
        (v : Vehicle) (ves : List (VehicleEmbedding e.Vector))
        → IsMarked v
        → holds (conditions ilike f) v ≡ true
        → All IsAskedRow (map (λ ve. (v, e.distance ve.embedding (e.embed_text query))) ves)
    embedded_asked v [] m h = tt
    embedded_asked v (ve ∷ ves) m h =
        (row-IsAsked v (e.distance ve.embedding (e.embed_text query)) m h, embedded_asked v ves m h)

    rows_asked :
        (vs : List Vehicle)
        → All (λ v. IsMarked v × (holds (conditions ilike f) v ≡ true)) vs
        → All IsAskedRow (rows ilike e model_name query embeddings vs)
    unfolding rows
    rows_asked [] m = tt
    rows_asked (v ∷ vs) m =
        All-append IsAskedRow (embedded ilike e model_name query embeddings v)
          (rows ilike e model_name query embeddings vs)
          (embedded_asked v
            (filter (λ ve. (ve.vehicle_id == v.id) && (ve.model_name =ₛ model_name)) embeddings)
            m.0.0 m.0.1)
          (rows_asked vs m.1)

    -- If every vehicle that is marked as reliably priced has no price of zero, a search whose limit
    -- is not negative succeeds, and each of its results is what was asked for: in the bounds on the
    -- year and the mileage, like the texts, with a shown price in the bounds on the price if there
    -- is one, and with no price of zero. It has no more results than the limit.
    pub search_listings-IsAsked :
        (vehicles : List Vehicle) (limit : ℕ)
        → All IsMarked vehicles
        → (results : List VehicleSearchResult) × (search_listings ilike e model_name query f
              (pos limit)
              vehicles
              embeddings
            ≡ ok results)
          × All (IsAsked ilike f) results
          × (length results ≤ limit)
    unfolding search_listings
    search_listings-IsAsked vehicles limit marked =
        let found =
          rows ilike e model_name query embeddings (filter (holds (conditions ilike f)) vehicles) in
        let near = sort nearer_row found in
        (
          map result_row (take limit near),
          refl,
          asked_map (take limit near) (
              take-All IsAskedRow limit near (
                sort-All nearer_row IsAskedRow found (
                  rows_asked (filter (holds (conditions ilike f)) vehicles)
                    (filter-All IsMarked (holds (conditions ilike f)) vehicles marked)))),
          bounded limit near,
        )
      where
        asked_map :
            (rs : List (Vehicle × ℕ))
            → All IsAskedRow rs
            → All (IsAsked ilike f) (map result_row rs)
        asked_map [] h = tt
        asked_map (r ∷ rs) h = (h.0, asked_map rs h.1)

        bounded : (n : ℕ) (rs : List (Vehicle × ℕ)) → length (map result_row (take n rs)) ≤ n
        bounded zero rs = omega arith
        bounded (suc n) [] = omega arith
        bounded (suc n) (r ∷ rs) = omega (arith, bounded n rs)
