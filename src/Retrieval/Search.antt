-- ===== src/Retrieval/Search.antt =====
-- retrieval/search.py: the search of the vehicle catalog. Prices are whole cents, and a distance is
-- a whole number as in PolicySearch. ILIKE is the database's and a parameter; on a missing column
-- it gives NULL, which WHERE does not accept. The order of the rows is exact, where a scan of the HNSW
-- index may leave some of them out.
pub mod Asked
pub mod Priced
pub mod Found
use dealership_agent.Base.{
  Bool, List, Option, String, [], false, filter, if◌then◌else◌, leb, map, negsuc, none, pos, some,
  take, true, ℕ, ℤ, ◌&&◌, ◌++◌, ◌==◌, ◌=ₛ◌, ◌∷◌,
}
use dealership_agent.Python.{Outcome, external_error, ok, raise}
use dealership_agent.Retrieval.PolicySearch.{Embedding}
use dealership_agent.Retrieval.Sorting.{sort}

-- The columns of `vehicles` that the query reads.
pub record Vehicle : Type 0 where
  pub id : ℕ
  pub external_ref : String
  pub year : ℕ
  pub make : String
  pub model : String
  pub trim : Option String
  pub body_style : Option String
  pub fuel_type : Option String
  pub mileage : ℕ
  pub price : Option ℕ
  pub price_low : Option ℕ
  pub price_high : Option ℕ
  pub is_price_reliable : Bool
  pub seller_state : Option String
  pub description_clean : Option String
  pub is_available : Bool

pub record VehicleEmbedding (Vector : Type 0) : Type 0 where
  pub vehicle_id : ℕ
  pub embedding : Vector
  pub model_name : String

pub record VehicleSearchResult : Type 0 where
  pub id : ℕ
  pub external_ref : String
  pub year : ℕ
  pub make : String
  pub model : String
  pub trim : Option String
  pub body_style : Option String
  pub fuel_type : Option String
  pub mileage : ℕ
  pub price : Option ℕ
  pub price_low : Option ℕ
  pub price_high : Option ℕ
  pub seller_state : Option String
  pub description_clean : Option String
  pub distance : ℕ

-- The arguments of the search that narrow it.
pub record Filters : Type 0 where
  pub price_min : Option ℕ
  pub price_max : Option ℕ
  pub year_min : Option ℕ
  pub year_max : Option ℕ
  pub max_mileage : Option ℕ
  pub make : Option String
  pub model : Option String
  pub body_style : Option String
  pub fuel_type : Option String

-- A condition that stands in the query if its argument is given.
abbrev pub when {ℓ} : {A : Type ℓ} → Option A → (A → Vehicle → Bool) → List (Vehicle → Bool)
when none condition = []
when (some x) condition = condition x ∷ []

-- A condition on a column that can be NULL.
abbrev pub on_column {ℓ} : {A : Type ℓ} → Option A → (A → Bool) → Bool
on_column none test = false
on_column (some x) test = test x

abbrev pub usable_price : List (Vehicle → Bool)
usable_price = (λ v. on_column v.price (λ p. true)) ∷ (λ v. v.is_price_reliable) ∷ []

-- if price_min is not None or price_max is not None
unfoldable pub price_conditions : Option ℕ → Option ℕ → List (Vehicle → Bool)
price_conditions none none = []
price_conditions (some p) high = usable_price
price_conditions none (some p) = usable_price

unfoldable pub holds : List (Vehicle → Bool) → Vehicle → Bool
holds [] v = true
holds (c ∷ cs) v = let rest = holds cs v in if c v then rest else false

-- if not data.pop("is_price_reliable")
abbrev pub masked : Bool → Option ℕ → Option ℕ
masked false price = none
masked true price = price

unfoldable pub result_row : Vehicle × ℕ → VehicleSearchResult
result_row (v, distance) = record {
  id = v.id;
  external_ref = v.external_ref;
  year = v.year;
  make = v.make;
  model = v.model;
  trim = v.trim;
  body_style = v.body_style;
  fuel_type = v.fuel_type;
  mileage = v.mileage;
  price = masked v.is_price_reliable v.price;
  price_low = masked v.is_price_reliable v.price_low;
  price_high = masked v.is_price_reliable v.price_high;
  seller_state = v.seller_state;
  description_clean = v.description_clean;
  distance = distance;
}

abbrev pub nearer_row : Vehicle × ℕ → Vehicle × ℕ → Bool
nearer_row r s = leb r.1 s.1

module _ (ilike : String → String → Bool) where
  unfoldable pub conditions : Filters → List (Vehicle → Bool)
  unfolding price_conditions
  conditions f =
      (λ v. v.is_available)
      ∷ (price_conditions f.price_min f.price_max
          ++ (when f.price_min (λ p v. on_column v.price (λ q. leb p q))
              ++ (when f.price_max (λ p v. on_column v.price (λ q. leb q p))
                  ++ (when f.year_min (λ y v. leb y v.year)
                      ++ (when f.year_max (λ y v. leb v.year y)
                          ++ (when f.max_mileage (λ m v. leb v.mileage m)
                              ++ (when f.make (λ s v. ilike v.make s)
                                  ++ (when f.model (λ s v. ilike v.model s)
                                      ++ (when f.body_style
                                            (λ s v. on_column v.body_style (λ b. ilike b s))
                                          ++ when f.fuel_type (λ s v.
                                            on_column v.fuel_type (λ b. ilike b s)))))))))))

  module _ (e : Embedding) (model_name : String) where
    -- JOIN vehicle_embeddings ve ON ve.vehicle_id = v.id AND ve.model_name = :model_name
    abbrev pub embedded : String → List (VehicleEmbedding e.Vector) → Vehicle → List (Vehicle × ℕ)
    embedded query embeddings v =
        map (λ ve. (v, e.distance ve.embedding (e.embed_text query)))
          (filter (λ ve. (ve.vehicle_id == v.id) && (ve.model_name =ₛ model_name)) embeddings)

    unfoldable pub rows :
        String → List (VehicleEmbedding e.Vector) → List Vehicle → List (Vehicle × ℕ)
    rows query embeddings [] = []
    rows query embeddings (v ∷ vs) = embedded query embeddings v ++ rows query embeddings vs

    unfoldable pub search_listings :
        String
        → Filters
        → ℤ
        → List Vehicle
        → List (VehicleEmbedding e.Vector)
        → Outcome (List VehicleSearchResult)
    unfolding rows conditions holds sort result_row
    search_listings query f (negsuc n) vehicles embeddings =
        raise (external_error "LIMIT must not be negative")
    search_listings query f (pos limit) vehicles embeddings = ok (
        map result_row (
          take limit
            (sort nearer_row (rows query embeddings (filter (holds (conditions f)) vehicles)))))
