-- ===== src/Data/PolicyStore/Replaced.antt =====
-- What storing leaves in the table.
use mathlib.Core.Path.{ap₂}
use mathlib.Core.List.{append-nil, append_assoc}
use dealership_agent.Base.{
  All, Bool, Bool-cases, List, String, [], ap, arith, eq_iff, false, filter, filter-append,
  filter-filter, filter-twice, filter_cong, filter_excluded, filter_implied, filter_nothing,
  filter-true, if◌then◌else◌, inl, inr, map, member, not, refl, sym, true, ◌&&◌, ◌++◌, ◌=ₛ◌, ◌||◌,
  ◌∙◌, ◌∷◌, ◌≡◌,
}
use dealership_agent.Data.Policies.{Chunk, embedding_text}
use dealership_agent.Data.PolicyStore.{
  delete_all, doc_slugs, embed_texts, insert_all, is_of, row_of, store_chunks,
}
use dealership_agent.Data.PolicyStore.Slugs.{All-stored, is_stored, member-doc_slugs}
use dealership_agent.Retrieval.PolicySearch.{Embedding, PolicyChunk}

module _ (e : Embedding) (model_name : String) where
  -- The rows of a document under an embedding model.
  abbrev pub rows_of : String → String → List (PolicyChunk e.Vector) → List (PolicyChunk e.Vector)
  rows_of slug model table = filter (λ r. (r.doc_slug =ₛ slug) && (r.model_name =ₛ model)) table

  -- The rows that chunks are to be.
  abbrev pub fresh_rows : List Chunk → List (PolicyChunk e.Vector)
  fresh_rows [] = []
  fresh_rows (c ∷ cs) = row_of e model_name c (e.embed_text (embedding_text c)) ∷ fresh_rows cs

  is_kept : (String → Bool) → PolicyChunk e.Vector → Bool
  is_kept stored r = not (stored r.doc_slug && (r.model_name =ₛ model_name))

  insert_all-fresh :
      (cs : List Chunk) (table : List (PolicyChunk e.Vector))
      → insert_all e model_name cs (embed_texts e model_name (map embedding_text cs)) table
        ≡ table ++ fresh_rows cs
  unfolding insert_all embed_texts
  insert_all-fresh [] table = sym (append-nil table)
  insert_all-fresh (c ∷ cs) table =
      let row = row_of e model_name c (e.embed_text (embedding_text c)) in
      insert_all-fresh cs (table ++ (row ∷ [])) ∙ append_assoc table (row ∷ []) (fresh_rows cs)

  delete_all-filter :
      (slugs : List String) (table : List (PolicyChunk e.Vector))
      → delete_all e model_name slugs table ≡ filter (is_kept (λ s. member s slugs)) table
  unfolding delete_all is_kept
  delete_all-filter [] table = sym (filter-true table)
  delete_all-filter (slug ∷ slugs) table =
      delete_all-filter slugs (filter (λ r. not (is_of e model_name slug r)) table)
      ∙ (filter-filter (is_kept (λ s. member s slugs)) (λ r. not (is_of e model_name slug r)) table
          ∙ filter_cong (λ r. not (is_of e model_name slug r) && is_kept (λ s. member s slugs) r)
              (is_kept (λ s. member s (slug ∷ slugs))) table
              (λ r.
                de_morgan (r.doc_slug =ₛ slug) (member r.doc_slug slugs)
                  (r.model_name =ₛ model_name)))
    where
      de_morgan : (a b m : Bool) → (not (a && m) && not (b && m)) ≡ not ((a || b) && m)
      de_morgan true b true = refl
      de_morgan true true false = refl
      de_morgan true false false = refl
      de_morgan false b m = refl

  -- The table after storing: the rows of other documents, and then the new ones.
  stored_table :
      (cs : List Chunk) (table : List (PolicyChunk e.Vector))
      → (store_chunks e model_name cs table).1
        ≡ filter (is_kept (is_stored cs)) table ++ fresh_rows cs
  unfolding store_chunks is_kept
  stored_table [] table = sym (append-nil (filter (λ r. true) table) ∙ filter-true table)
  stored_table (c ∷ cs) table =
      insert_all-fresh (c ∷ cs) (delete_all e model_name (doc_slugs (c ∷ cs)) table)
      ∙ ap (λ t. t ++ fresh_rows (c ∷ cs))
          (delete_all-filter (doc_slugs (c ∷ cs)) table
            ∙ filter_cong (is_kept (λ s. member s (doc_slugs (c ∷ cs))))
                (is_kept (is_stored (c ∷ cs))) table
                (λ r.
                  ap (λ b. not (b && (r.model_name =ₛ model_name)))
                    (member-doc_slugs r.doc_slug (c ∷ cs))))

  row_matches :
      (slug model : String) (r : PolicyChunk e.Vector)
      → ((r.doc_slug =ₛ slug) && (r.model_name =ₛ model)) ≡ true
      → (r.doc_slug ≡ slug) × (r.model_name ≡ model)
  row_matches slug model r h = elim (Bool-cases (r.doc_slug =ₛ slug)) [
    | inr f ↦ let k = rw f at h in absurd (ground arith)
    | inl f ↦ ((eq_iff r.doc_slug slug).0 f, (eq_iff r.model_name model).0 (rw f at h))
  ]

  kept_test :
      (cs : List Chunk) (slug model : String) (b : Bool)
      → (is_stored cs slug && (model =ₛ model_name)) ≡ b
      → (r : PolicyChunk e.Vector) → ((r.doc_slug =ₛ slug) && (r.model_name =ₛ model)) ≡ true
      → is_kept (is_stored cs) r ≡ not b
  unfolding is_kept
  kept_test cs slug model b h r k =
      let (s, m) = row_matches slug model r k in
      ap₂ (λ x y. not (is_stored cs x && (y =ₛ model_name))) s m ∙ ap not h

  fresh_others :
      (cs : List Chunk) (slug model : String)
      → (is_stored cs slug && (model =ₛ model_name)) ≡ false
      → All (λ r. ((r.doc_slug =ₛ slug) && (r.model_name =ₛ model)) ≡ false) (fresh_rows cs)
  fresh_others [] slug model h = tt
  fresh_others (c ∷ cs) slug model h = elim (Bool-cases (slug =ₛ c.doc_slug)) [
    | inl f ↦
        let other : (model =ₛ model_name) ≡ false = rw f at h in
        ((wrong_model other, fresh_others cs slug model (no_model other)))
    | inr f ↦ (wrong_slug f, fresh_others cs slug model (rw f at h))
  ]
    where
      wrong_slug :
          (slug =ₛ c.doc_slug) ≡ false → ((c.doc_slug =ₛ slug) && (model_name =ₛ model)) ≡ false
      wrong_slug f = elim (Bool-cases (c.doc_slug =ₛ slug)) [
        | inr g ↦ rw g refl
        | inl g ↦
            let k = (eq_iff slug c.doc_slug).1 (sym ((eq_iff c.doc_slug slug).0 g)) in
            absurd (ground arith)
      ]

      wrong_model :
          (model =ₛ model_name) ≡ false → ((c.doc_slug =ₛ slug) && (model_name =ₛ model)) ≡ false
      wrong_model f = elim (Bool-cases (model_name =ₛ model)) [
        | inr g ↦ rw g (ground arith)
        | inl g ↦
            let k = (eq_iff model model_name).1 (sym ((eq_iff model_name model).0 g)) in
            absurd (ground arith)
      ]

      no_model :
          (model =ₛ model_name) ≡ false → (is_stored cs slug && (model =ₛ model_name)) ≡ false
      no_model f = rw f (ground arith)

  fresh_replaced :
      (cs ds : List Chunk)
      → All (λ c. is_stored ds c.doc_slug ≡ true) cs
      → All (λ r. is_kept (is_stored ds) r ≡ false) (fresh_rows cs)
  unfolding is_kept
  fresh_replaced [] ds h = tt
  fresh_replaced (c ∷ cs) ds h =
      (rw (h.0, (eq_iff model_name model_name).1 refl) refl, fresh_replaced cs ds h.1)

  stored_twice :
      (cs : List Chunk) (table : List (PolicyChunk e.Vector))
      → (store_chunks e model_name cs (store_chunks e model_name cs table).1).1
        ≡ (store_chunks e model_name cs table).1
  stored_twice cs table =
      let keep : PolicyChunk e.Vector → Bool = is_kept (is_stored cs) in
      stored_table cs (store_chunks e model_name cs table).1
      ∙ (ap (λ t. filter keep t ++ fresh_rows cs) (stored_table cs table)
          ∙ (ap (λ t. t ++ fresh_rows cs)
                (filter-append keep (filter keep table) (fresh_rows cs)
                  ∙ ap₂ (λ a b. a ++ b) (filter-twice keep table)
                      (filter_nothing keep (fresh_rows cs) (fresh_replaced cs cs (All-stored cs)))
                  ∙ append-nil (filter keep table))
              ∙ sym (stored_table cs table)))

  stored_rows :
      (cs : List Chunk) (table : List (PolicyChunk e.Vector)) (slug model : String)
      → rows_of slug model (store_chunks e model_name cs table).1 ≡ (
          if is_stored cs slug && (model =ₛ model_name)
          then rows_of slug model (fresh_rows cs)
          else rows_of slug model table)
  stored_rows cs table slug model =
      let p : PolicyChunk e.Vector → Bool = λ r. (r.doc_slug =ₛ slug) && (r.model_name =ₛ model) in
      ap (filter p) (stored_table cs table)
      ∙ (filter-append p (filter (is_kept (is_stored cs)) table) (fresh_rows cs)
          ∙ elim (Bool-cases (is_stored cs slug && (model =ₛ model_name))) [
            | inl h ↦
                rw
                  (
                    h,
                    filter_excluded p (is_kept (is_stored cs)) table
                        (kept_test cs slug model true h),
                  )
                  refl
            | inr h ↦
                rw
                  (
                    h,
                    filter_implied p (is_kept (is_stored cs)) table
                        (kept_test cs slug model false h),
                    filter_nothing p (fresh_rows cs) (fresh_others cs slug model h),
                  )
                  (append-nil (filter p table))
          ])

  -- After storing chunks, the rows of a document under an embedding model are exactly the rows of
  -- its new chunks if the model is the one of the run and the document has a chunk among them;
  -- otherwise they are the rows that it had. A second run over the same documents changes nothing.
  pub store_chunks-rows :
      (cs : List Chunk) (table : List (PolicyChunk e.Vector)) (slug model : String)
      → (rows_of slug model (store_chunks e model_name cs table).1 ≡ (
          if is_stored cs slug && (model =ₛ model_name)
          then rows_of slug model (fresh_rows cs)
          else rows_of slug model table))
        × ((store_chunks e model_name cs (store_chunks e model_name cs table).1).1
            ≡ (store_chunks e model_name cs table).1)
  store_chunks-rows cs table slug model = (stored_rows cs table slug model, stored_twice cs table)
