-- ===== src/Api/Health.antt =====
-- api/app.py: `healthz`, `readyz` and the public `listings`. A check of a dependency is outside the
-- program and returns or raises.
use dealership_agent.Base.{Bool, List, String, false, if◌then◌else◌, true, ℕ, ℤ, ◌<>◌}
use dealership_agent.Python.{Fields, Library, Outcome, end, field, obj, ok, raise, str}
use dealership_agent.Retrieval.PolicySearch.{Embedding}
use dealership_agent.Retrieval.Search.{
  Filters, Vehicle, VehicleEmbedding, VehicleSearchResult, search_listings,
}

unfoldable pub healthz : Fields
healthz = field "status" (str "ok") end

-- The response: its status code and its body.
pub record Readiness : Type 0 where
  pub status_code : ℕ
  pub body : Fields

-- checks[name], and whether `healthy` stays
abbrev pub check_text : Library → Outcome {0} Unit → String
check_text lib (ok u) = "ok"
check_text lib (raise e) = "error: " <> lib.message e

abbrev pub still_healthy : Outcome {0} Unit → Bool → Bool
still_healthy (ok u) healthy = healthy
still_healthy (raise e) healthy = false

-- The database is checked first, then a session of the tool server with an anonymous identity.
unfoldable pub readyz : Library → Outcome {0} Unit → Outcome {0} Unit → Readiness
readyz lib database mcp_server =
    let healthy = still_healthy mcp_server (still_healthy database true) in
    record {
      status_code = if healthy then 200 else 503;
      body = field "status" (str (if healthy then "ok" else "unavailable")) (
          field "checks"
            (obj (
              field "database" (str (check_text lib database))
                (field "mcp_server" (str (check_text lib mcp_server)) end)))
            end);
    }

unfoldable pub listings :
    (String → String → Bool)
    → (e : Embedding) → String
    → String
    → Filters
    → ℤ
    → List Vehicle
    → List (VehicleEmbedding e.Vector)
    → Outcome (List VehicleSearchResult)
unfolding search_listings
listings ilike e model_name query filters limit vehicles embeddings =
    search_listings ilike e model_name query filters limit vehicles embeddings
