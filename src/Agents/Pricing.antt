-- ===== src/Agents/Pricing.antt =====
-- agents/pricing.py: vague price language as explicit filters.
use dealership_agent.Base.{
  Bool, List, Option, String, [], any, contains, if◌then◌else◌, negsuc, none, pos, some, ◌∷◌,
}
use dealership_agent.Python.{Fields, Library, Number, end, field, float, num}

abbrev pub cheap_keywords : List String
cheap_keywords =
    "cheap" ∷ "affordable" ∷ "budget" ∷ "inexpensive" ∷ "low-cost" ∷ "low cost" ∷ "economical" ∷ []

abbrev pub premium_keywords : List String
premium_keywords =
    "premium" ∷ "luxury" ∷ "high-end" ∷ "high end" ∷ "top-of-the-line" ∷ "upscale" ∷ []

-- 18_050.00 and 40_956.75, which is 163827 / 4
abbrev pub cheap_price_max : Number
cheap_price_max = float (pos 18050) (pos 0)

abbrev pub premium_price_min : Number
premium_price_min = float (pos 163827) (negsuc 1)

-- any(keyword in text for keyword in keywords)
unfoldable pub mentions : List String → String → Bool
mentions keywords text = any (λ keyword. contains keyword text) keywords

-- The dict of filters, or `None`.
unfoldable pub derive_price_filters : Library → String → Option Fields
derive_price_filters lib text =
    let lowered = lib.lower text in
    if mentions cheap_keywords lowered
    then some (field "price_max" (num cheap_price_max) end)
    else if mentions premium_keywords lowered
    then some (field "price_min" (num premium_price_min) end)
    else none
