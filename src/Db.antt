-- ===== src/Db.antt =====
-- db/models.py: what the columns of the tables can hold. Postgres refuses a text with a NUL character,
-- one that is longer than its column, and a number out of the range of its type.
use Prim.Native.Char.{code}
use dealership_agent.Base.{
  Bool, Option, String, false, if◌then◌else◌, leb, len, none, some, true, ℕ, ◌&&◌, ◌==◌,
}

abbrev pub max_int4 : ℕ
max_int4 = 2147483647

-- NUMERIC(10, 2), in cents
abbrev pub max_numeric : ℕ
max_numeric = 9999999999

-- Text
unfoldable pub fits_text : String → Bool
fits_text String.[] = true
fits_text (String.◌∷◌ c s) = let rest = fits_text s in if code c == 0 then false else rest

-- String(n)
unfoldable pub fits_varchar : ℕ → String → Bool
unfolding fits_text len
fits_varchar n s = leb (len s) n && fits_text s

-- A column that can be NULL.
unfoldable pub fits_or_null {ℓ} : {A : Type ℓ} → (A → Bool) → Option A → Bool
fits_or_null fits none = true
fits_or_null fits (some x) = fits x
