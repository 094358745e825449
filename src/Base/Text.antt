-- ===== src/Base/Text.antt =====
-- Python's `str` as the native `String`: a sequence of characters.
use Prim.Native.Nat.{ℕ, zero, suc, ◌+◌, ◌≤◌, min}
use Prim.Native.Char.{Char, code}
use Prim.Native.String.{String, ◌++◌}
use mathlib.Core.Path.{◌≡◌}
use mathlib.Core.Logic.{inl, inr}
use mathlib.Core.Bool.{Bool, false, ◌&&◌, ◌||◌}
use mathlib.Core.List.{List, [], ◌∷◌}
use native.Mathlib.Omega.{arith}
use text.Mathlib.Text.{◌==◌, starts_with}
use text.Mathlib.TextLemmas.{nil-append, cons-append}
use dealership_agent.Base.Tests.{leb, Bool-cases, if◌then◌else◌, ◌==◌ as ◌=ₙ◌}

-- len(s)
unfoldable pub len : String → ℕ
len String.[] = 0
len (String.◌∷◌ c s) = suc (len s)

-- s[:n]
unfoldable pub prefix : ℕ → String → String
prefix zero s = ""
prefix (suc n) String.[] = ""
prefix (suc n) (String.◌∷◌ c s) = String.◌∷◌ c (prefix n s)

-- The characters that `str.isspace` accepts, which `strip` and `rstrip` remove.
unfoldable pub is_space : Char → Bool
is_space c =
    let n = code c in
    (leb 9 n && leb n 13)
    || (leb 28 n && leb n 32)
    || n =ₙ 133
    || n =ₙ 160
    || n =ₙ 5760
    || (leb 8192 n && leb n 8202)
    || n =ₙ 8232
    || n =ₙ 8233
    || n =ₙ 8239
    || n =ₙ 8287
    || n =ₙ 12288

-- A character goes if it is a space and nothing is left behind it.
rstrip_cons : Char → String → String
rstrip_cons c String.[] = if is_space c then "" else String.◌∷◌ c ""
rstrip_cons c (String.◌∷◌ d s) = String.◌∷◌ c (String.◌∷◌ d s)

-- s.rstrip()
unfoldable pub rstrip : String → String
unfolding rstrip_cons is_space
rstrip String.[] = ""
rstrip (String.◌∷◌ c s) = rstrip_cons c (rstrip s)

-- s.lstrip()
unfoldable pub lstrip : String → String
unfolding is_space
lstrip String.[] = ""
lstrip (String.◌∷◌ c s) = let rest = lstrip s in if is_space c then rest else String.◌∷◌ c s

-- s.strip()
unfoldable pub strip : String → String
unfolding lstrip rstrip
strip s = rstrip (lstrip s)

-- needle in s
unfoldable pub contains : String → String → Bool
contains needle String.[] = needle == ""
contains needle (String.◌∷◌ c s) = starts_with (String.◌∷◌ c s) needle || contains needle s

-- sep.join(parts)
unfoldable pub join : String → List String → String
join sep [] = ""
join sep (p ∷ []) = p
join sep (p ∷ q ∷ ps) = p ++ (sep ++ join sep (q ∷ ps))

-- x in parts
abbrev pub member : String → List String → Bool
member x [] = false
member x (p ∷ ps) = x == p || member x ps

pub len-append : (s t : String) → len (s ++ t) ≡ len s + len t
unfolding len
len-append String.[] t = rw nil-append (omega arith)
len-append (String.◌∷◌ c s) t = rw cons-append (omega (arith, len-append s t))

pub len-prefix : (n : ℕ) (s : String) → len (prefix n s) ≡ min n (len s)
unfolding len prefix
len-prefix zero s = omega arith
len-prefix (suc n) String.[] = omega arith
len-prefix (suc n) (String.◌∷◌ c s) = omega (arith, len-prefix n s)

len-rstrip_cons : (c : Char) (s : String) → len (rstrip_cons c s) ≤ suc (len s)
unfolding rstrip_cons len
len-rstrip_cons c String.[] = elim (Bool-cases (is_space c)) [
  | inl h ↦ rw h (omega arith)
  | inr h ↦ rw h (omega arith)
]
len-rstrip_cons c (String.◌∷◌ d s) = omega arith

pub len-rstrip : (s : String) → len (rstrip s) ≤ len s
unfolding len rstrip
len-rstrip String.[] = omega arith
len-rstrip (String.◌∷◌ c s) = omega (arith, len-rstrip s, len-rstrip_cons c (rstrip s))
