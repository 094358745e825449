-- ===== src/Retrieval/Search/Priced.antt =====
-- The price of a listing under a bound on the price.
use dealership_agent.Base.{Bool, Option, [], arith, leb, leb→le, none, some, true, ℕ, ◌∷◌, ◌≡◌}
use dealership_agent.Retrieval.Search.{
  Vehicle, holds, masked, on_column, price_conditions, usable_price, when,
}
use dealership_agent.Retrieval.Search.Asked.{IsPriceIn, holds-append, holds_one}

usable-reliable : (v : Vehicle) → holds usable_price v ≡ true → v.is_price_reliable ≡ true
unfolding holds
usable-reliable v h =
    holds_one (λ v. v.is_price_reliable) v
      (holds-append ((λ v. on_column v.price (λ p. true)) ∷ []) ((λ v. v.is_price_reliable) ∷ []) v
        h).1

above_price :
    (p : ℕ) (price : Option ℕ)
    → on_column price (λ q. leb p q) ≡ true
    → IsPriceIn (some p) none price
above_price p none h = ground arith
above_price p (some q) h = (leb→le p q h, tt)

below_price :
    (p : ℕ) (price : Option ℕ)
    → on_column price (λ q. leb q p) ≡ true
    → IsPriceIn none (some p) price
below_price p none h = ground arith
below_price p (some q) h = leb→le q p h

both_price :
    (low high : ℕ) (price : Option ℕ)
    → IsPriceIn (some low) none price
    → IsPriceIn none (some high) price
    → IsPriceIn (some low) (some high) price
both_price low high none h k = h
both_price low high (some q) h k = (h.0, k)

abbrev pub price_above : ℕ → Vehicle → Bool
price_above p v = on_column v.price (λ q. leb p q)

abbrev pub price_below : ℕ → Vehicle → Bool
price_below p v = on_column v.price (λ q. leb q p)

pub price_in :
    (low high : Option ℕ) (v : Vehicle)
    → holds (price_conditions low high) v ≡ true
    → holds (when low price_above) v ≡ true
    → holds (when high price_below) v ≡ true
    → IsPriceIn low high (masked v.is_price_reliable v.price)
unfolding price_conditions
price_in none none v u h k = tt
price_in (some p) none v u h k =
    rw (usable-reliable v u) (above_price p v.price (holds_one (price_above p) v h))
price_in none (some p) v u h k =
    rw (usable-reliable v u) (below_price p v.price (holds_one (price_below p) v k))
price_in (some p) (some q) v u h k = rw (usable-reliable v u) (
    both_price p q v.price (above_price p v.price (holds_one (price_above p) v h))
      (below_price q v.price (holds_one (price_below q) v k)))
