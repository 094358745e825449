-- ===== src/Data/Embeddings.antt =====
-- data/scripts/embed_listings.py: the embeddings of the vehicles that have none under the model.
pub mod Pending
use dealership_agent.Base.{
  Bool, List, Option, String, [], any, filter, if◌then◌else◌, join, leb, length, negsuc, none, not,
  pos, prefix, some, strip, suc, zero, ℕ, ℤ, ◌&&◌, ◌++◌, ◌+◌, ◌<>◌, ◌==◌, ◌=ₛ◌, ◌∷◌,
}
use dealership_agent.Data.Batches.{batches}
use dealership_agent.Data.Pattern.{parts}
use dealership_agent.Python.{Library, Outcome, int, num, ok, raise, value_error}
use dealership_agent.Retrieval.PolicySearch.{Embedding}
use dealership_agent.Retrieval.Search.{Vehicle, VehicleEmbedding}
use dealership_agent.Retrieval.Sorting.{sort}

abbrev pub or_empty : Option String → String
or_empty none = ""
or_empty (some s) = s

-- part for part in … if part
abbrev pub non_empty : List String → List String
non_empty [] = []
non_empty (s ∷ ss) = if s =ₛ "" then non_empty ss else s ∷ non_empty ss

-- _embedding_text
unfoldable pub listing_text : Library → Vehicle → String
unfolding strip join
listing_text lib v =
    let parts = lib.format (num (int (pos v.year))) ∷ v.make ∷ v.model ∷ or_empty v.trim ∷ [] in
    let prefix = strip (join " " (non_empty parts)) in
    strip (prefix <> (" " <> or_empty v.description_clean))

module _ (lib : Library) (e : Embedding) (model_name : String) where
  abbrev pub is_embedded : List (VehicleEmbedding e.Vector) → Vehicle → Bool
  is_embedded embeddings v =
      any (λ ve. (ve.vehicle_id == v.id) && (ve.model_name =ₛ model_name)) embeddings

  abbrev pub by_id : Vehicle → Vehicle → Bool
  by_id v w = leb v.id w.id

  -- SELECT_UNEMBEDDED: the anti-join, in the order of the ids
  unfoldable pub pending : List Vehicle → List (VehicleEmbedding e.Vector) → List Vehicle
  unfolding sort
  pending vehicles embeddings = sort by_id (filter (λ v. not (is_embedded embeddings v)) vehicles)

  -- INSERT_EMBEDDING
  abbrev pub embedding_of : Vehicle → VehicleEmbedding e.Vector
  embedding_of v = record {
    vehicle_id = v.id;
    embedding = e.embed_text (listing_text lib v);
    model_name = model_name;
  }

  -- One batch: a transaction of its own.
  unfoldable pub embed_batch :
      List Vehicle → List (VehicleEmbedding e.Vector) → List (VehicleEmbedding e.Vector)
  embed_batch [] embeddings = embeddings
  embed_batch (v ∷ vs) embeddings = embed_batch vs (embeddings ++ (embedding_of v ∷ []))

  unfoldable pub embed_batches :
      List (List Vehicle)
      → ℕ
      → List (VehicleEmbedding e.Vector)
      → ℕ × List (VehicleEmbedding e.Vector)
  unfolding embed_batch
  embed_batches [] total embeddings = (total, embeddings)
  embed_batches (b ∷ bs) total embeddings =
      embed_batches bs (total + length b) (embed_batch b embeddings)

  -- A step of zero is an error of `range`, and with a negative one the loop does not run.
  unfoldable pub embed_pending_vehicles :
      ℤ
      → List Vehicle
      → List (VehicleEmbedding e.Vector)
      → Outcome (ℕ × List (VehicleEmbedding e.Vector))
  unfolding pending embed_batches batches
  embed_pending_vehicles (pos zero) vehicles embeddings = raise value_error
  embed_pending_vehicles (pos (suc size)) vehicles embeddings =
      ok (embed_batches (batches (suc size) (pending vehicles embeddings)) 0 embeddings)
  embed_pending_vehicles (negsuc n) vehicles embeddings = ok (0, embeddings)
