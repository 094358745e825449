-- ===== src/Tests/Catalog.antt =====
-- A search of the catalog.
use dealership_agent.Api.Health.{healthz}
use dealership_agent.Base.{
  All, Bool, List, Option, String, [], arith, false, len, length, map, none, pos, refl, some, true,
  ℕ, ◌=ₛ◌, ◌∷◌, ◌≡◌, ◌≤◌,
}
use dealership_agent.Python.{Outcome, end, field, ok, raise, str}
use dealership_agent.Retrieval.Search.{
  Filters, Vehicle, VehicleEmbedding, VehicleSearchResult, conditions, holds, price_conditions,
  result_row, rows, search_listings,
}
use dealership_agent.Retrieval.Search.Asked.{IsAsked}
use dealership_agent.Retrieval.Search.Found.{search_listings-IsAsked}
use dealership_agent.Retrieval.Sorting.{insert, sort}
use dealership_agent.Tests.Policies.{ruler}
use dealership_agent.Tools.Public.{ToolFilters, filters_of, search_listings_tool}

abbrev pub car : ℕ → String → ℕ → Bool → Vehicle
car id make price reliable = record {
  id = id;
  external_ref = "ref";
  year = 2020;
  make = make;
  model = "A3";
  trim = none;
  body_style = some "suv";
  fuel_type = none;
  mileage = 40000;
  price = some price;
  price_low = some price;
  price_high = some price;
  is_price_reliable = reliable;
  seller_state = none;
  description_clean = none;
  is_available = true;
}

abbrev pub catalog : List Vehicle
catalog = car 1 "Audi" 2500000 true ∷ car 2 "Audi" 0 false ∷ car 3 "BMW" 2000000 true ∷ []

abbrev pub vectors : List (VehicleEmbedding ℕ)
vectors =
    record { vehicle_id = 1; embedding = 5; model_name = "m" }
    ∷ record { vehicle_id = 2; embedding = 3; model_name = "m" }
    ∷ record { vehicle_id = 3; embedding = 3; model_name = "m" }
    ∷ []

abbrev pub cheap : Filters
cheap = record {
  price_min = none;
  price_max = some 3000000;
  year_min = some 2018;
  year_max = none;
  max_mileage = some 50000;
  make = none;
  model = none;
  body_style = some "suv";
  fuel_type = none;
}

abbrev pub unpriced : Filters
unpriced = record cheap { price_max = none }

search_listings-IsAsked_example :
    (results : List VehicleSearchResult) × (search_listings
        (λ a b. a =ₛ b)
        ruler
        "m"
        "red"
        cheap
        (pos 2)
        catalog
        vectors
      ≡ ok results)
    × All (IsAsked (λ a b. a =ₛ b) cheap) results
    × (length results ≤ 2)
search_listings-IsAsked_example =
    search_listings-IsAsked (λ a b. a =ₛ b) cheap ruler "m" "red" vectors catalog 2
      (
        λ h. (omega arith, omega arith, omega arith),
        (λ h. ground arith, (λ h. (omega arith, omega arith, omega arith), tt)),
      )

abbrev pub ids_and_prices : Outcome (List VehicleSearchResult) → List (ℕ × Option ℕ)
ids_and_prices (raise e) = []
ids_and_prices (ok rs) = map (λ r. (r.id, r.price)) rs

-- With a bound on the price, the vehicle without a valuation is left out.
cheap_listed :
    ids_and_prices (search_listings (λ a b. a =ₛ b) ruler "m" "red" cheap (pos 5) catalog vectors)
    ≡ ((3, some 2000000) ∷ (1, some 2500000) ∷ [])
unfolding search_listings conditions price_conditions holds rows sort insert result_row len
cheap_listed = refl

-- Without one it is listed, with its price left blank.
unpriced_listed :
    ids_and_prices
      (search_listings (λ a b. a =ₛ b) ruler "m" "red" unpriced (pos 5) catalog vectors)
    ≡ ((2, none) ∷ (3, some 2000000) ∷ (1, some 2500000) ∷ [])
unfolding search_listings conditions price_conditions holds rows sort insert result_row len
unpriced_listed = refl

abbrev asked : ToolFilters
asked = record {
  price_min = none;
  price_max = some 2200000;
  year_min = none;
  max_mileage = none;
  make = none;
  body_style = some "suv";
  fuel_type = none;
}

-- The tool asks as the endpoint does without the two arguments that it does not have.
tool_listed :
    (ids_and_prices
        (search_listings_tool (λ a b. a =ₛ b) ruler "m" "red" asked (pos 5) catalog vectors)
      ≡ ((3, some 2000000) ∷ []))
    × (healthz ≡ field "status" (str "ok") end)
unfolding search_listings_tool filters_of search_listings conditions price_conditions holds rows
    sort insert result_row len healthz
tool_listed = (refl, refl)
