-- ===== src/Retrieval/Search/Asked.antt =====
-- What a search of the catalog returns.
use dealership_agent.Base.{
  Bool, Bool-cases, List, Option, String, [], arith, inl, inr, leb, leb→le, none, refl, some, true,
  ℕ, ◌++◌, ◌<◌, ◌∷◌, ◌≡◌, ◌≤◌,
}
use dealership_agent.Retrieval.Search.{
  Filters, Vehicle, VehicleSearchResult, holds, masked, on_column, when,
}

abbrev pub AtLeast : Option ℕ → ℕ → Type 0
AtLeast none x = Unit
AtLeast (some bound) x = bound ≤ x

abbrev pub AtMost : Option ℕ → ℕ → Type 0
AtMost none x = Unit
AtMost (some bound) x = x ≤ bound

-- With a bound on the price, a price is shown and is in the bounds.
abbrev pub IsPriceIn : Option ℕ → Option ℕ → Option ℕ → Type 0
IsPriceIn none none price = Unit
IsPriceIn (some p) high none = ⊥
IsPriceIn none (some p) none = ⊥
IsPriceIn (some p) high (some q) = p ≤ q × AtMost high q
IsPriceIn none (some p) (some q) = q ≤ p

abbrev pub IsAbsentOrPositive : Option ℕ → Type 0
IsAbsentOrPositive none = Unit
IsAbsentOrPositive (some p) = 0 < p

-- A vehicle whose prices are marked reliable has no price of zero.
abbrev pub IsMarked : Vehicle → Type 0
IsMarked v =
    v.is_price_reliable ≡ true
    → IsAbsentOrPositive v.price × IsAbsentOrPositive v.price_low × IsAbsentOrPositive v.price_high

module _ (ilike : String → String → Bool) where
  abbrev pub IsLike : Option String → Option String → Type 0
  IsLike none column = Unit
  IsLike (some pattern) none = ⊥
  IsLike (some pattern) (some column) = ilike column pattern ≡ true

  -- What the arguments ask of a result, and that none of its prices is zero.
  abbrev pub IsAsked : Filters → VehicleSearchResult → Type 0
  IsAsked f r =
      IsPriceIn f.price_min f.price_max r.price
      × AtLeast f.year_min r.year
      × AtMost f.year_max r.year
      × AtMost f.max_mileage r.mileage
      × IsLike f.make (some r.make)
      × IsLike f.model (some r.model)
      × IsLike f.body_style r.body_style
      × IsLike f.fuel_type r.fuel_type
      × IsAbsentOrPositive r.price
      × IsAbsentOrPositive r.price_low
      × IsAbsentOrPositive r.price_high

pub holds-append :
    (cs ds : List (Vehicle → Bool)) (v : Vehicle)
    → holds (cs ++ ds) v ≡ true
    → (holds cs v ≡ true) × (holds ds v ≡ true)
unfolding holds
holds-append [] ds v h = (refl, h)
holds-append (c ∷ cs) ds v h = elim (Bool-cases (c v)) [
  | inl e ↦ let k = holds-append cs ds v (rw e at h) in (rw e k.0, k.1)
  | inr e ↦ let k = rw e at h in ground arith
]

-- A condition that stands alone.
pub holds_one : (c : Vehicle → Bool) (v : Vehicle) → holds (c ∷ []) v ≡ true → c v ≡ true
unfolding holds
holds_one c v h = elim (Bool-cases (c v)) [ inl e ↦ e | inr e ↦ let k = rw e at h in ground arith ]

pub masked_positive :
    (v : Vehicle)
    → IsMarked v
    → IsAbsentOrPositive (masked v.is_price_reliable v.price)
      × IsAbsentOrPositive (masked v.is_price_reliable v.price_low)
      × IsAbsentOrPositive (masked v.is_price_reliable v.price_high)
masked_positive v marked = elim (Bool-cases v.is_price_reliable) [
  | inl e ↦ rw e (marked e)
  | inr e ↦ rw e (tt, tt, tt)
]

pub at_least :
    (bound : Option ℕ) (column : Vehicle → ℕ) (v : Vehicle)
    → holds (when bound (λ y v. leb y (column v))) v ≡ true
    → AtLeast bound (column v)
at_least none column v h = tt
at_least (some y) column v h = leb→le y (column v) (holds_one (λ v. leb y (column v)) v h)

pub at_most :
    (bound : Option ℕ) (column : Vehicle → ℕ) (v : Vehicle)
    → holds (when bound (λ y v. leb (column v) y)) v ≡ true
    → AtMost bound (column v)
at_most none column v h = tt
at_most (some y) column v h = leb→le (column v) y (holds_one (λ v. leb (column v) y) v h)

module _ (ilike : String → String → Bool) where
  pub like :
      (pattern : Option String) (column : Vehicle → String) (v : Vehicle)
      → holds (when pattern (λ s v. ilike (column v) s)) v ≡ true
      → IsLike ilike pattern (some (column v))
  like none column v h = tt
  like (some s) column v h = holds_one (λ v. ilike (column v) s) v h

  pub IsLike-column :
      (pattern : Option String) (column : Vehicle → Option String) (v : Vehicle)
      → holds (when pattern (λ s v. on_column (column v) (λ b. ilike b s))) v ≡ true
      → IsLike ilike pattern (column v)
  IsLike-column none column v h = tt
  IsLike-column (some s) column v h =
      on_test (column v) (holds_one (λ v. on_column (column v) (λ b. ilike b s)) v h)
    where
      on_test : (c : Option String) → on_column c (λ b. ilike b s) ≡ true → IsLike ilike (some s) c
      on_test none k = ground arith
      on_test (some b) k = k
