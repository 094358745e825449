-- ===== src/Data/Embeddings/Pending.antt =====
-- What a run over the vehicles leaves to be done.
use mathlib.Core.Path.{ap₂}
use mathlib.Core.List.{append-nil, append_assoc, map-append}
use dealership_agent.Base.{
  ==_iff, All, Bool, Bool-cases, List, String, [], any, ap, arith, eq_iff, false, filter,
  filter_nothing, inl, inr, length, length-append, map, not, pos, refl, suc, sym, true, ℕ, ◌&&◌,
  ◌++◌, ◌+◌, ◌==◌, ◌=ₛ◌, ◌||◌, ◌∙◌, ◌∷◌, ◌≡◌,
}
use dealership_agent.Data.Batches.{batches, flatten, flatten-batches}
use dealership_agent.Data.Embeddings.{
  by_id, embed_batch, embed_batches, embed_pending_vehicles, embedding_of, is_embedded, pending,
}
use dealership_agent.Python.{Library, ok}
use dealership_agent.Retrieval.PolicySearch.{Embedding}
use dealership_agent.Retrieval.Search.{Vehicle, VehicleEmbedding}
use dealership_agent.Retrieval.Sorting.{insert, sort}

any-insert :
    (le : Vehicle → Vehicle → Bool) (p : Vehicle → Bool) (v : Vehicle) (vs : List Vehicle)
    → any p (insert le v vs) ≡ (p v || any p vs)
unfolding insert
any-insert le p v [] = refl
any-insert le p v (w ∷ ws) = elim (Bool-cases (le v w)) [
  | inl h ↦ rw h refl
  | inr h ↦ rw h (ap (λ b. p w || b) (any-insert le p v ws) ∙ or_swap (p w) (p v) (any p ws))
]
  where
    or_swap : (a b c : Bool) → (a || (b || c)) ≡ (b || (a || c))
    or_swap true true c = refl
    or_swap true false c = refl
    or_swap false b c = refl

any-sort :
    (le : Vehicle → Vehicle → Bool) (p : Vehicle → Bool) (vs : List Vehicle)
    → any p (sort le vs) ≡ any p vs
unfolding sort
any-sort le p [] = refl
any-sort le p (v ∷ vs) = any-insert le p v (sort le vs) ∙ ap (λ b. p v || b) (any-sort le p vs)

any-append {ℓ} :
    {A : Type ℓ} (p : A → Bool) (xs ys : List A) → any p (xs ++ ys) ≡ (any p xs || any p ys)
any-append p [] ys = refl
any-append p (x ∷ xs) ys = elim (Bool-cases (p x)) [
  | inl h ↦ rw h refl
  | inr h ↦ rw h (any-append p xs ys)
]

abbrev has_id : List Vehicle → Vehicle → Bool
has_id vs v = any (λ w. w.id == v.id) vs

has_id-later :
    (v : Vehicle) (ws vs : List Vehicle)
    → All (λ w. has_id ws w ≡ true) vs
    → All (λ w. has_id (v ∷ ws) w ≡ true) vs
has_id-later v ws [] h = tt
has_id-later v ws (w ∷ vs) h = (rw h.0 (ground arith), has_id-later v ws vs h.1)

has_id_self : (vs : List Vehicle) → All (λ w. has_id vs w ≡ true) vs
has_id_self [] = tt
has_id_self (v ∷ vs) = (rw ((==_iff v.id v.id).1 refl) refl, has_id-later v vs vs (has_id_self vs))

-- Either a vehicle has passed the test, or it is among those that have not.
covered :
    (p : Vehicle → Bool) (found vs : List Vehicle)
    → All (λ w. has_id found w ≡ true) (filter (λ v. not (p v)) vs)
    → All (λ v. (p v || has_id found v) ≡ true) vs
covered p found [] h = tt
covered p found (v ∷ vs) h = elim (Bool-cases (p v)) [
  | inl e ↦ (rw e refl, covered p found vs (rw (e, filter, not) at h))
  | inr e ↦
      let k : (has_id found v ≡ true)
          × All (λ w. has_id found w ≡ true) (filter (λ v. not (p v)) vs) =
        (rw (e, filter, not) at h) in
      (rw e k.0, covered p found vs k.1)
]

module _ (lib : Library) (e : Embedding) (model_name : String) where
  embed_batch-append :
      (vs : List Vehicle) (embeddings : List (VehicleEmbedding e.Vector))
      → embed_batch lib e model_name vs embeddings
        ≡ embeddings ++ map (embedding_of lib e model_name) vs
  unfolding embed_batch
  embed_batch-append [] embeddings = sym (append-nil embeddings)
  embed_batch-append (v ∷ vs) embeddings =
      let new = embedding_of lib e model_name v in
      embed_batch-append vs (embeddings ++ (new ∷ []))
      ∙ append_assoc embeddings (new ∷ []) (map (embedding_of lib e model_name) vs)

  embed_batches-append :
      (bs : List (List Vehicle)) (total : ℕ) (embeddings : List (VehicleEmbedding e.Vector))
      → (embed_batches lib e model_name bs total embeddings).1
        ≡ embeddings ++ map (embedding_of lib e model_name) (flatten bs)
  unfolding embed_batches
  embed_batches-append [] total embeddings = sym (append-nil embeddings)
  embed_batches-append (b ∷ bs) total embeddings =
      let new = embedding_of lib e model_name in
      embed_batches-append bs (total + length b) (embed_batch lib e model_name b embeddings)
      ∙ (ap (λ t. t ++ map new (flatten bs)) (embed_batch-append b embeddings)
          ∙ (append_assoc embeddings (map new b) (map new (flatten bs))
              ∙ ap (λ t. embeddings ++ t) (sym (map-append new b (flatten bs)))))

  embed_batches-count :
      (bs : List (List Vehicle)) (total : ℕ) (embeddings : List (VehicleEmbedding e.Vector))
      → (embed_batches lib e model_name bs total embeddings).0 ≡ total + length (flatten bs)
  unfolding embed_batches
  embed_batches-count [] total embeddings = omega arith
  embed_batches-count (b ∷ bs) total embeddings =
      embed_batches-count bs (total + length b) (embed_batch lib e model_name b embeddings)
      ∙ omega (arith, length-append b (flatten bs))

  is_embedded-fresh :
      (v : Vehicle) (vs : List Vehicle)
      → is_embedded lib e model_name (map (embedding_of lib e model_name) vs) v
        ≡ any (λ w. w.id == v.id) vs
  is_embedded-fresh v [] = refl
  is_embedded-fresh v (w ∷ ws) =
      ap₂ (λ a b. a || b) (rw ((eq_iff model_name model_name).1 refl) (and_true (w.id == v.id)))
        (is_embedded-fresh v ws)
    where
      and_true : (b : Bool) → (b && true) ≡ b
      and_true true = refl
      and_true false = refl

  -- The embeddings after a run over the pending vehicles.
  after_run : List Vehicle → List (VehicleEmbedding e.Vector) → List (VehicleEmbedding e.Vector)
  after_run vehicles embeddings =
      embeddings
      ++ map (embedding_of lib e model_name) (pending lib e model_name vehicles embeddings)

  embedded_after :
      (vehicles : List Vehicle) (embeddings : List (VehicleEmbedding e.Vector)) (v : Vehicle)
      → is_embedded lib e model_name (after_run vehicles embeddings) v ≡ (
          is_embedded lib e model_name embeddings v
          || has_id (filter (λ w. not (is_embedded lib e model_name embeddings w)) vehicles) v)
  unfolding after_run pending
  embedded_after vehicles embeddings v =
      let picked = filter (λ w. not (is_embedded lib e model_name embeddings w)) vehicles in
      any-append (λ ve. (ve.vehicle_id == v.id) && (ve.model_name =ₛ model_name)) embeddings
        (map (embedding_of lib e model_name) (sort (by_id lib e model_name) picked))
      ∙ ap (λ b. is_embedded lib e model_name embeddings v || b)
          (is_embedded-fresh v (sort (by_id lib e model_name) picked)
            ∙ any-sort (by_id lib e model_name) (λ w. w.id == v.id) picked)

  All-embedded :
      (embeddings after : List (VehicleEmbedding e.Vector)) (found vs : List Vehicle)
      → ((v : Vehicle)
          → is_embedded lib e model_name after v
            ≡ (is_embedded lib e model_name embeddings v || has_id found v))
      → All (λ v. (is_embedded lib e model_name embeddings v || has_id found v) ≡ true) vs
      → All (λ v. not (is_embedded lib e model_name after v) ≡ false) vs
  All-embedded embeddings after found [] same h = tt
  All-embedded embeddings after found (v ∷ vs) same h =
      (ap not (same v ∙ h.0), All-embedded embeddings after found vs same h.1)

  none_pending :
      (vehicles : List Vehicle) (embeddings : List (VehicleEmbedding e.Vector))
      → pending lib e model_name vehicles (after_run vehicles embeddings) ≡ []
  unfolding pending sort
  none_pending vehicles embeddings =
      let p = is_embedded lib e model_name embeddings in
      let picked = filter (λ w. not (p w)) vehicles in
      let after = after_run vehicles embeddings in
      ap (sort (by_id lib e model_name)) (
        filter_nothing (λ w. not (is_embedded lib e model_name after w)) vehicles
          (All-embedded embeddings after picked vehicles (embedded_after vehicles embeddings)
            (covered p picked vehicles (has_id_self picked))))

  run :
      (size : ℕ) (vehicles : List Vehicle) (embeddings : List (VehicleEmbedding e.Vector))
      → embed_pending_vehicles lib e model_name (pos (suc size)) vehicles embeddings
        ≡ ok (length (pending lib e model_name vehicles embeddings), after_run vehicles embeddings)
  unfolding embed_pending_vehicles after_run
  run size vehicles embeddings =
      let todo = pending lib e model_name vehicles embeddings in
      let all : flatten (batches (suc size) todo) ≡ todo = flatten-batches size todo in
      ap₂ (λ n t. ok (n, t))
        (embed_batches-count (batches (suc size) todo) 0 embeddings ∙ (omega arith ∙ ap length all))
        (embed_batches-append (batches (suc size) todo) 0 embeddings
          ∙ ap (λ vs. embeddings ++ map (embedding_of lib e model_name) vs) all)

  -- With a positive batch size a run succeeds, whatever the size is. It counts the vehicles without
  -- an embedding under the model, adds one embedding for each of them and changes no other; then no
  -- vehicle is left without one, and a second run adds nothing.
  pub embed_pending_vehicles_idempotent :
      (size : ℕ) (vehicles : List Vehicle) (embeddings : List (VehicleEmbedding e.Vector))
      → (after : List (VehicleEmbedding e.Vector)) × (embed_pending_vehicles lib e model_name
            (pos (suc size))
            vehicles
            embeddings
          ≡ ok (length (pending lib e model_name vehicles embeddings), after))
        × (after
            ≡ embeddings
              ++ map (embedding_of lib e model_name) (pending lib e model_name vehicles embeddings))
        × (pending lib e model_name vehicles after ≡ [])
        × (embed_pending_vehicles lib e model_name (pos (suc size)) vehicles after ≡ ok (0, after))
  unfolding after_run
  embed_pending_vehicles_idempotent size vehicles embeddings =
      let after = after_run vehicles embeddings in
      let none_left = none_pending vehicles embeddings in
      (
        after,
        run size vehicles embeddings,
        refl,
        none_left,
        run size vehicles after
            ∙ ap₂ (λ n t. ok (n, t)) (ap length none_left)
                (ap (λ vs. after ++ map (embedding_of lib e model_name) vs) none_left
                  ∙ append-nil after),
      )
