-- ===== src/Data/Batches.antt =====
-- `for start in range(0, len(rows), size)` with `rows[start : start + size]`, as both loaders have it.
use dealership_agent.Base.{
  List, [], ap, arith, drop, length, refl, suc, take, zero, ℕ, ◌++◌, ◌-◌, ◌∙◌, ◌∷◌, ◌≡◌, ◌≤◌,
}

unfoldable pub batches_within {ℓ} : {A : Type ℓ} → ℕ → ℕ → List A → List (List A)
batches_within zero size xs = []
batches_within (suc fuel) size [] = []
batches_within (suc fuel) size (x ∷ xs) =
    take size (x ∷ xs) ∷ batches_within fuel size (drop size (x ∷ xs))

-- One batch takes at least one row, so that there are as many as rows at most.
unfoldable pub batches {ℓ} : {A : Type ℓ} → ℕ → List A → List (List A)
unfolding batches_within
batches size xs = batches_within (length xs) size xs

abbrev pub flatten {ℓ} : {A : Type ℓ} → List (List A) → List A
flatten [] = []
flatten (xs ∷ xss) = xs ++ flatten xss

take-drop {ℓ} : {A : Type ℓ} (n : ℕ) (xs : List A) → take n xs ++ drop n xs ≡ xs
take-drop zero xs = refl
take-drop (suc n) [] = refl
take-drop (suc n) (x ∷ xs) = ap (λ t. x ∷ t) (take-drop n xs)

length-drop {ℓ} : {A : Type ℓ} (n : ℕ) (xs : List A) → length (drop n xs) ≡ length xs - n
length-drop zero xs = omega arith
length-drop (suc n) [] = omega arith
length-drop (suc n) (x ∷ xs) = omega (arith, length-drop n xs)

flatten_within {ℓ} :
    {A : Type ℓ} (fuel k : ℕ) (xs : List A)
    → length xs ≤ fuel
    → flatten (batches_within fuel (suc k) xs) ≡ xs
unfolding batches_within
flatten_within zero k [] h = refl
flatten_within zero k (x ∷ xs) h = absurd (omega arith)
flatten_within (suc fuel) k [] h = refl
flatten_within (suc fuel) k (x ∷ xs) h =
    let d : length (drop k xs) ≤ fuel = omega (arith, length-drop k xs) in
    ap (λ t. x ∷ (take k xs ++ t)) (flatten_within fuel k (drop k xs) d)
    ∙ ap (λ t. x ∷ t) (take-drop k xs)

-- The batches are the rows, in their order.
pub flatten-batches {ℓ} : {A : Type ℓ} (k : ℕ) (xs : List A) → flatten (batches (suc k) xs) ≡ xs
unfolding batches
flatten-batches k xs = flatten_within (length xs) k xs (omega arith)
