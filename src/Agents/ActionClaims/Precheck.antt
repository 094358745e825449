-- ===== src/Agents/ActionClaims/Precheck.antt =====
-- Stage 0 looks for the vocabulary anywhere in the draft, and skips the model only without it.
use text.Mathlib.TextEquality.{starts_with_iff}
use text.Mathlib.TextLemmas.{nil-append, cons-append, append-eq-nil_iff}
use Prim.Native.Char.{Char}
use text.Mathlib.Text.{starts_with}
use text.Mathlib.TextPositions.{starts_with-append}
use dealership_agent.Agents.ActionClaims.{action_vocabulary, mentions_action_vocabulary}
use dealership_agent.Agents.Pricing.{mentions}
use dealership_agent.Base.{
  Bool, Bool-cases, List, String, [], any, ap, arith, contains, eq_iff, inl, inr, member, refl, sym,
  true, ◌<>◌, ◌=ₛ◌, ◌↔◌, ◌∙◌, ◌∷◌, ◌≡◌,
}
use dealership_agent.Python.{Library}

-- A text occurs in another.
abbrev pub Occurs : String → String → Type 0
Occurs needle s = (a : String) × (b : String) × (s ≡ a <> (needle <> b))

contains_of_prefix : (needle s : String) → starts_with s needle ≡ true → contains needle s ≡ true
unfolding contains
contains_of_prefix needle String.[] h =
    let (u, e) = (starts_with_iff String.[] needle).0 h in
    (eq_iff needle "").1 (append-eq-nil_iff.0 e).0
contains_of_prefix needle (String.◌∷◌ c s) h = rw h refl

contains_tail :
    (needle : String) (c : Char) (s : String)
    → contains needle s ≡ true
    → contains needle (String.◌∷◌ c s) ≡ true
unfolding contains
contains_tail needle c s h = ground arith

contains-append : (needle a b : String) → contains needle (a <> (needle <> b)) ≡ true
contains-append needle String.[] b =
    rw nil-append (contains_of_prefix needle (needle <> b) (starts_with-append needle b))
contains-append needle (String.◌∷◌ c a) b =
    rw cons-append (contains_tail needle c (a <> (needle <> b)) (contains-append needle a b))

contains-Occurs : (needle s : String) → contains needle s ≡ true → Occurs needle s
unfolding contains
contains-Occurs needle String.[] h =
    let e : needle ≡ "" = (eq_iff needle "").0 h in ("", "", rw (e, nil-append, nil-append))
contains-Occurs needle (String.◌∷◌ c s) h =
    elim (Bool-cases (starts_with (String.◌∷◌ c s) needle)) [
      | inl now ↦ at_front ((starts_with_iff (String.◌∷◌ c s) needle).0 now)
      | inr later ↦ behind (contains-Occurs needle s (rw later at h))
    ]
  where
    at_front : (u : String) × (needle <> u ≡ String.◌∷◌ c s) → Occurs needle (String.◌∷◌ c s)
    at_front (u, e) = ("", u, sym (nil-append (needle <> u) ∙ e))

    behind : Occurs needle s → Occurs needle (String.◌∷◌ c s)
    behind (a, b, e) =
        (String.◌∷◌ c a, b, ap (λ r. String.◌∷◌ c r) e ∙ sym (cons-append c a (needle <> b)))

any-member :
    (p : String → Bool) (xs : List String) (x : String)
    → member x xs ≡ true
    → p x ≡ true
    → any p xs ≡ true
any-member p [] x m h = absurd (ground arith)
any-member p (y ∷ ys) x m h = elim (Bool-cases (x =ₛ y)) [
  | inl e ↦ let same : x ≡ y = (eq_iff x y).0 e in rw (← same, h) refl
  | inr e ↦ let rest = any-member p ys x (rw e at m) h in ground arith
]

any_witness :
    (p : String → Bool) (xs : List String)
    → any p xs ≡ true
    → (x : String) × (member x xs ≡ true) × (p x ≡ true)
any_witness p [] h = absurd (ground arith)
any_witness p (y ∷ ys) h = elim (Bool-cases (p y)) [
  | inl e ↦ (y, ground (arith, eq_iff y y), e)
  | inr e ↦ let (x, m, f) = any_witness p ys (rw e at h) in (x, ground arith, f)
]

-- The vocabulary is found exactly when one of its words occurs, at any place, in the draft in lower
-- case.
pub mentions_iff :
    (lib : Library) (draft : String)
    → (mentions_action_vocabulary lib draft ≡ true)
      ↔ ((k : String) × (member k action_vocabulary ≡ true) × Occurs k (lib.lower draft))
unfolding mentions_action_vocabulary mentions
mentions_iff lib draft =
    let found : String → Bool = λ k. contains k (lib.lower draft) in
    (
      λ h.
          let (k, m, c) = any_witness found action_vocabulary h in
          (k, m, contains-Occurs k (lib.lower draft) c),
      λ (k, m, (a, b, e)). any-member found action_vocabulary k m (rw e (contains-append k a b)),
    )
