-- ===== src/Agents/ActionClaims/Clean.antt =====
-- What a draft has passed when the check calls it clean: the check fails closed.
use mathlib.Core.Path.{subst}
use dealership_agent.Agents.ActionClaims.{
  VerificationOutcome, action_vocabulary, after_stage1, after_stage2, check_draft, claims_of, clean,
  detected_of, judged, mentions_action_vocabulary, stage1_messages, stage2_messages,
  unsubstantiated_claims,
}
use dealership_agent.Agents.ActionClaims.Precheck.{Occurs, mentions_iff}
use dealership_agent.Base.{
  All, Bool, Bool-cases, List, Option, String, [], ap, arith, false, inl, inr, member, none, refl,
  some, sym, true, ◌∷◌, ◌≡◌, ◌⊎◌,
}
use dealership_agent.Python.{
  Fields, Items, Library, Message, Outcome, Trace, Value, World, arr, bool, completion, continue,
  elements, get, get?, obj, ok, pure, raise, truthy, ◌>>=◌,
}

abbrev pub IsSubstantiated : Value → Type 0
IsSubstantiated (obj claim) = truthy (get "substantiated" claim) ≡ true
IsSubstantiated _ = ⊥

-- The way of a clean draft through the stages, from the replies of the model.
module _ (lib : Library) (w : World) (model : String) (draft : String) (evidence : Value)
    (t : Trace) where
  abbrev pub asked_once : Trace
  asked_once = completion (stage1_messages draft) model ∷ t

  -- The model answered with a JSON object.
  abbrev pub Answered : Trace → List Message → Fields → Type 0
  Answered u messages fields =
      (raw : String) × (w.complete u messages model ≡ ok raw) × (lib.loads raw ≡ some (obj fields))

  -- Stage 1 was answered by an object that says `false`.
  abbrev pub IsNoClaim : Type 0
  IsNoClaim =
      (fields : Fields) × Answered t (stage1_messages draft) fields
      × (get? "action_claim_detected" fields ≡ some (bool false))

  -- Stage 1 said `true`, and stage 2 listed claims that are all substantiated.
  abbrev pub IsAllSubstantiated : Type 0
  IsAllSubstantiated =
      (first second : Fields) × (claims : Items) × Answered t (stage1_messages draft) first
      × (get? "action_claim_detected" first ≡ some (bool true))
      × Answered asked_once (stage2_messages lib draft evidence) second
      × (get? "claims" second ≡ some (arr claims))
      × All IsSubstantiated (elements claims)

  -- No word of the vocabulary occurs in the draft in lower case.
  abbrev pub HasNoAction : Type 0
  HasNoAction = (k : String) → member k action_vocabulary ≡ true → ¬ Occurs k (lib.lower draft)

  abbrev pub Passed : Type 0
  Passed = HasNoAction ⊎ (IsNoClaim ⊎ IsAllSubstantiated)

-- What the readers of the two replies have read.
detected_from :
    (v : Option Value) (b : Bool)
    → detected_of v ≡ some b
    → (fields : Fields) × (v ≡ some (obj fields))
      × (get? "action_claim_detected" fields ≡ some (bool b))
unfolding detected_of
detected_from (some (obj fields)) b h = (fields, refl, go (get? "action_claim_detected" fields) h)
  where
    go :
        (v : Option Value)
        → (elim v [ some (bool c) ↦ some c | _ ↦ none ]) ≡ some b
        → v ≡ some (bool b)
    go none h = absurd (ground arith)
    go (some (bool c)) h = ap (λ x. some (bool x)) (ground arith)
    go (some _) h = absurd (ground arith)
detected_from _ b h = absurd (ground arith)

claims_from :
    (v : Option Value) (cs : List Value)
    → claims_of v ≡ some cs
    → (fields : Fields) × (claims : Items) × (v ≡ some (obj fields))
      × (get? "claims" fields ≡ some (arr claims))
      × (elements claims ≡ cs)
unfolding claims_of
claims_from (some (obj fields)) cs h =
    let (claims, e, k) = go (get? "claims" fields) h in (fields, claims, refl, e, k)
  where
    go :
        (v : Option Value)
        → (elim v [ some (arr xs) ↦ some (elements xs) | _ ↦ none ]) ≡ some cs
        → (claims : Items) × (v ≡ some (arr claims)) × (elements claims ≡ cs)
    go none h = absurd (ground arith)
    go (some (arr xs)) h = (xs, refl, ground arith)
    go (some _) h = absurd (ground arith)
claims_from _ cs h = absurd (ground arith)

unsubstantiated_nil :
    (claims : List Value) → unsubstantiated_claims claims ≡ ok [] → All IsSubstantiated claims
unfolding unsubstantiated_claims
unsubstantiated_nil [] h = tt
unsubstantiated_nil (obj claim ∷ cs) h = (ground arith, unsubstantiated_nil cs (ground arith))
unsubstantiated_nil (c ∷ cs) h = absurd (ground arith)

module _ (lib : Library) (w : World) (model : String) (draft : String) (evidence : Value)
    (t : Trace) where
  stage2_passed :
      (raw1 : String) (r : Outcome String) (u : Trace) (o : VerificationOutcome)
      → w.complete t (stage1_messages draft) model ≡ ok raw1
      → detected_of (lib.loads raw1) ≡ some true
      → w.complete
          (asked_once lib w model draft evidence t)
          (stage2_messages lib draft evidence)
          model
        ≡ r
      → (let out = continue r (λ raw. pure (claims_of (lib.loads raw))) u in
          (continue out.0 (after_stage2 lib w model) out.1).0)
        ≡ ok o
      → o.label ≡ clean
      → Passed lib w model draft evidence t
  unfolding after_stage2
  stage2_passed raw1 (raise e) u o a d b h c = absurd (ground arith)
  stage2_passed raw1 (ok raw2) u o a d b h c = go (claims_of (lib.loads raw2)) refl h
    where
      judged_clean :
          (bad : Outcome (List Value)) → (bad >>= λ bad. ok (judged bad)) ≡ ok o → bad ≡ ok []
      judged_clean (raise e) h = absurd (ground arith)
      judged_clean (ok []) h = refl
      judged_clean (ok (x ∷ xs)) h = absurd (ground arith)

      go :
          (cs : Option (List Value))
          → claims_of (lib.loads raw2) ≡ cs
          → (after_stage2 lib w model cs u).0 ≡ ok o
          → Passed lib w model draft evidence t
      go none e h = absurd (ground arith)
      go (some cs) e h =
          let (first, p, says_true) = detected_from (lib.loads raw1) true d in
          let (second, claims, q, listed, same) = claims_from (lib.loads raw2) cs e in
          let fine = unsubstantiated_nil cs (judged_clean (unsubstantiated_claims cs) h) in
          inr (
            inr (
              first,
              second,
              claims,
              (raw1, a, p),
              says_true,
              (raw2, b, q),
              listed,
              subst (All IsSubstantiated) (sym same) fine,
            ))

  stage1_passed :
      (r : Outcome String) (o : VerificationOutcome)
      → w.complete t (stage1_messages draft) model ≡ r
      → (let out =
            continue r
              (λ raw. pure (detected_of (lib.loads raw)))
              (asked_once lib w model draft evidence t) in
          (continue out.0 (after_stage1 lib w model draft evidence) out.1).0)
        ≡ ok o
      → o.label ≡ clean
      → Passed lib w model draft evidence t
  unfolding after_stage1
  stage1_passed (raise e) o a h c = absurd (ground arith)
  stage1_passed (ok raw) o a h c = go (detected_of (lib.loads raw)) refl h
    where
      asked : Trace
      asked = asked_once lib w model draft evidence t

      go :
          (d : Option Bool)
          → detected_of (lib.loads raw) ≡ d
          → (after_stage1 lib w model draft evidence d asked).0 ≡ ok o
          → Passed lib w model draft evidence t
      go none e h = absurd (ground arith)
      go (some false) e h =
          let (fields, p, says_false) = detected_from (lib.loads raw) false e in
          inr (inl (fields, (raw, a, p), says_false))
      go (some true) e h =
          stage2_passed raw (w.complete asked (stage2_messages lib draft evidence) model)
            (completion (stage2_messages lib draft evidence) model ∷ asked) o a e refl h c

  -- A draft that the check calls clean has no word of the vocabulary in it, or the model was asked and
  -- answered with a JSON object that says `false`, or the model was asked twice, answered with an
  -- object that says `true`, and then with one that lists claims of which each one is substantiated.
  -- So a reply that is not of that form, at either stage, never makes a draft clean.
  pub check_draft_clean :
      (o : VerificationOutcome)
      → (check_draft lib w model draft evidence t).0 ≡ ok o
      → o.label ≡ clean
      → Passed lib w model draft evidence t
  unfolding check_draft
  check_draft_clean o h c = elim (Bool-cases (mentions_action_vocabulary lib draft)) [
    | inr e ↦ inl (λ k m o. let f = (mentions_iff lib draft).1 (k, m, o) in absurd (clash e f))
    | inl e ↦ stage1_passed (w.complete t (stage1_messages draft) model) o refl (rw e at h) c
  ]
    where
      clash : {b : Bool} → b ≡ false → b ≡ true → ⊥
      clash e f = absurd (ground arith)
