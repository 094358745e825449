-- ===== src/Tools/Public.antt =====
-- tools/server.py: the public search of listings, and the log line of every call. The dicts that the
-- tool makes of its results stand here as the results.
use dealership_agent.Base.{Bool, List, Option, String, [], length, none, some, ℕ, ℤ, ◌∷◌}
use dealership_agent.Data.PolicyStore.{text_leb}
use dealership_agent.Python.{Fields, Outcome, Value, arr, elements, end, field, null, ok, raise}
use dealership_agent.Retrieval.PolicySearch.{Embedding}
use dealership_agent.Retrieval.Search.{
  Filters, Vehicle, VehicleEmbedding, VehicleSearchResult, search_listings,
}
use dealership_agent.Retrieval.Sorting.{sort}
use dealership_agent.Tools.Identity.{RequestIdentity}

-- The arguments of the tool: a bound on the year from above and a model are none of them.
pub record ToolFilters : Type 0 where
  pub price_min : Option ℕ
  pub price_max : Option ℕ
  pub year_min : Option ℕ
  pub max_mileage : Option ℕ
  pub make : Option String
  pub body_style : Option String
  pub fuel_type : Option String

unfoldable pub filters_of : ToolFilters → Filters
filters_of f = record {
  price_min = f.price_min;
  price_max = f.price_max;
  year_min = f.year_min;
  year_max = none;
  max_mileage = f.max_mileage;
  make = f.make;
  model = none;
  body_style = f.body_style;
  fuel_type = f.fuel_type;
}

unfoldable pub search_listings_tool :
    (String → String → Bool)
    → (e : Embedding) → String
    → String
    → ToolFilters
    → ℤ
    → List Vehicle
    → List (VehicleEmbedding e.Vector)
    → Outcome (List VehicleSearchResult)
unfolding search_listings filters_of
search_listings_tool ilike e model_name query f limit vehicles embeddings =
    search_listings ilike e model_name query (filters_of f) limit vehicles embeddings

-- A result of a tool: nothing, a list, or something else.
unfoldable pub row_count : Value → ℕ
row_count null = 0
row_count (arr vs) = length (elements vs)
row_count _ = 1

-- What a call leaves in the log.
pub record ToolCallLog : Type 0 where
  pub tool : String
  pub session_id : Option Value
  pub argument_keys : List String
  pub row_count : ℕ
  pub duration_ms : ℕ

unfoldable pub keys : Fields → List String
keys end = []
keys (field key value rest) = key ∷ keys rest

unfoldable pub logged_rows : Outcome Value → ℕ
unfolding row_count
logged_rows (ok v) = row_count v
logged_rows (raise e) = 0

abbrev pub logged_session : Option RequestIdentity → Option Value
logged_session none = none
logged_session (some identity) = some identity.session_id

-- The wrapper of a tool: its outcome and the line that `finally` writes, also for one that raises.
unfoldable pub log_tool_call :
    String
    → Option RequestIdentity
    → ℕ
    → (Fields → Outcome Value)
    → Fields
    → Outcome Value × ToolCallLog
unfolding keys logged_rows
log_tool_call name identity duration fn kwargs =
    let result = fn kwargs in
    (
      result,
      record {
        tool = name;
        session_id = logged_session identity;
        argument_keys = sort text_leb (keys kwargs);
        row_count = logged_rows result;
        duration_ms = duration;
      },
    )
