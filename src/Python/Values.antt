-- ===== src/Python/Values.antt =====
-- Values as `json.loads` gives them, and the operations that the code makes on such values.
use dealership_agent.Base.{
  zero, ℤ, pos, String, Bool, true, false, Option, none, some, List, [], ◌∷◌, not, ◌||◌, ◌=ₛ◌,
  if◌then◌else◌,
}

-- A finite float is a whole number times a power of two.
pub data Number : Type 0 where
  int : ℤ → Number
  float : ℤ → ℤ → Number
  not_finite : Number

mutual
  pub data Value : Type 0 where
    null : Value
    bool : Bool → Value
    num : Number → Value
    str : String → Value
    arr : Items → Value
    obj : Fields → Value

  -- A dict: its entries in insertion order.
  pub data Fields : Type 0 where
    end : Fields
    field : String → Value → Fields → Fields

  -- The elements of a list.
  pub data Items : Type 0 where
    nil : Items
    cons : Value → Items → Items

abbrev pub elements : Items → List Value
elements nil = []
elements (cons v vs) = v ∷ elements vs

abbrev pub entries : Fields → List (String × Value)
entries end = []
entries (field k v fs) = (k, v) ∷ entries fs

abbrev pub array : List Value → Items
array [] = nil
array (v ∷ vs) = cons v (array vs)

-- d.get(key), with `none` where the key is missing
abbrev pub get? : String → Fields → Option Value
get? key end = none
get? key (field k v fs) = if k =ₛ key then some v else get? key fs

-- d.get(key), with Python's `None` where the key is missing
abbrev pub get : String → Fields → Value
get key fs = elim (get? key fs) [ none ↦ null | some v ↦ v ]

-- key in d
abbrev pub has : String → Fields → Bool
has key end = false
has key (field k v fs) = k =ₛ key || has key fs

is_zero : ℤ → Bool
is_zero (pos zero) = true
is_zero _ = false

-- bool(n)
abbrev truthy_number : Number → Bool
unfolding is_zero
truthy_number (int n) = not (is_zero n)
truthy_number (float n e) = not (is_zero n)
truthy_number not_finite = true

-- bool(v)
unfoldable pub truthy : Value → Bool
unfolding is_zero
truthy null = false
truthy (bool b) = b
truthy (num n) = truthy_number n
truthy (str s) = not (s =ₛ "")
truthy (arr nil) = false
truthy (arr (cons v vs)) = true
truthy (obj end) = false
truthy (obj (field k v fs)) = true

-- a or b
abbrev pub or_else : Value → Value → Value
or_else a b = if truthy a then a else b

-- v == "…", for a text
abbrev pub is_str : String → Value → Bool
is_str s (str t) = t =ₛ s
is_str s _ = false

-- v is None
abbrev pub is_null : Value → Bool
is_null null = true
is_null _ = false
