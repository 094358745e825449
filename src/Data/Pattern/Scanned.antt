-- ===== src/Data/Pattern/Scanned.antt =====
-- What the matches of a text are.
use Prim.Native.Char.{Char}
use mathlib.Core.Path.{subst}
use text.Mathlib.TextLemmas.{nil-append, cons-append}
use dealership_agent.Base.{
  Bool, Bool-cases, List, Option, String, [], ap, arith, inl, inr, len, len-prefix, none, prefix,
  refl, some, suc, sym, zero, ℕ, ◌+◌, ◌<>◌, ◌<◌, ◌∙◌, ◌∷◌, ◌≡◌, ◌≤◌,
}
use dealership_agent.Data.Pattern.{
  Next, Pattern, Piece, behind, between, boundary, count_matched, differ, either, first_char,
  followed, many, match_at, match_many, match_one, match_then, matched, maybe, one, or_try, passes,
  piece_at, pieces, replaced,
}

-- A pattern takes no more than there is, if what follows it does not.
abbrev IsBounded : Next → Type 0
IsBounded next =
    (m : ℕ) (c : Option Char) (t : String) (k : ℕ) → next m c t ≡ some k → k ≤ m + len t

match_one_bounded :
    (p : Char → Bool) (n : ℕ) (s : String) (next : Next) (k : ℕ)
    → IsBounded next
    → match_one p n s next ≡ some k
    → k ≤ n + len s
unfolding match_one len
match_one_bounded p n String.[] next k b h = absurd (ground arith)
match_one_bounded p n (String.◌∷◌ c s) next k b h = elim (Bool-cases (p c)) [
  | inl e ↦ omega (arith, b (suc n) (some c) s k (rw e at h))
  | inr e ↦ let q = rw e at h in absurd (ground arith)
]

or_bounded :
    (a b : Option ℕ) (bound k : ℕ)
    → (a ≡ some k → k ≤ bound)
    → (b ≡ some k → k ≤ bound)
    → or_try a b ≡ some k
    → k ≤ bound
or_bounded none b bound k f g h = g h
or_bounded (some n) b bound k f g h = f h

match_many_bounded :
    (p : Char → Bool) (n : ℕ) (before : Option Char) (s : String) (next : Next) (k : ℕ)
    → IsBounded next
    → match_many p n before s next ≡ some k
    → k ≤ n + len s
unfolding match_many len
match_many_bounded p n before String.[] next k b h = b n before "" k h
match_many_bounded p n before (String.◌∷◌ c s) next k b h = elim (Bool-cases (p c)) [
  | inr e ↦ b n before (String.◌∷◌ c s) k (rw e at h)
  | inl e ↦
      or_bounded (match_many p (suc n) (some c) s next) (next n before (String.◌∷◌ c s))
        (n + len (String.◌∷◌ c s)) k
        (λ q. omega (arith, match_many_bounded p (suc n) (some c) s next k b q))
        (λ q. b n before (String.◌∷◌ c s) k q) (rw e at h)
]

match_bounded :
    (p : Pattern) (n : ℕ) (before : Option Char) (s : String) (next : Next) (k : ℕ)
    → IsBounded next
    → match_then p n before s next ≡ some k
    → k ≤ n + len s
unfolding match_then
match_bounded (one p) n before s next k b h = match_one_bounded p n s next k b h
match_bounded (many p) n before s next k b h = match_many_bounded p n before s next k b h
match_bounded (followed p q) n before s next k b h =
    match_bounded p n before s (λ m c t. match_then q m c t next) k
      (λ m c t j e. match_bounded q m c t next j b e) h
match_bounded (either p q) n before s next k b h =
    or_bounded (match_then p n before s next) (match_then q n before s next) (n + len s) k
      (λ e. match_bounded p n before s next k b e) (λ e. match_bounded q n before s next k b e) h
match_bounded (maybe p) n before s next k b h =
    or_bounded (match_then p n before s next) (next n before s) (n + len s) k
      (λ e. match_bounded p n before s next k b e) (λ e. b n before s k e) h
match_bounded (boundary word) n before s next k b h =
    elim (Bool-cases (differ (passes word before) (passes word (first_char s)))) [
      | inl e ↦ b n before s k (rw e at h)
      | inr e ↦ let q = rw e at h in absurd (ground arith)
    ]
match_bounded (behind p) n before s next k b h = elim (Bool-cases (passes p before)) [
  | inl e ↦ b n before s k (rw e at h)
  | inr e ↦ let q = rw e at h in absurd (ground arith)
]

match_at_bounded :
    (p : Pattern) (before : Option Char) (s : String) (k : ℕ)
    → match_at p before s ≡ some k
    → k ≤ len s
unfolding match_at
match_at_bounded p before s k h =
    omega (arith, match_bounded p 0 before s (λ n c t. some n) k (λ m c t j e. ground arith) h)

-- s[n:], and the character before it
abbrev suffix : ℕ → String → String
suffix zero s = s
suffix (suc n) String.[] = ""
suffix (suc n) (String.◌∷◌ c s) = suffix n s

abbrev before_suffix : ℕ → Option Char → String → Option Char
before_suffix zero before s = before
before_suffix (suc n) before String.[] = before
before_suffix (suc n) before (String.◌∷◌ c s) = before_suffix n (some c) s

-- The pieces of a text, from left to right: a character stands outside where the pattern takes
-- nothing, and a matched text is what the pattern takes at its place. `before` is the character
-- before the text.
pub data Scan (p : Pattern) : Option Char → String → List Piece → Type 0 where
  stop : {before : Option Char} → Scan p before "" []
  pass :
      {before : Option Char} {s : String} {ps : List Piece} (c : Char)
      → ((n : ℕ) → match_at p before (String.◌∷◌ c s) ≡ some n → n ≡ 0)
      → Scan p (some c) s ps
      → Scan p before (String.◌∷◌ c s) (between c ∷ ps)
  take :
      {before : Option Char} {s : String} {ps : List Piece} (t : String)
      → match_at p before s ≡ some (len t)
      → 0 < len t
      → t <> suffix (len t) s ≡ s
      → Scan p (before_suffix (len t) before s) (suffix (len t) s) ps
      → Scan p before s (matched t ∷ ps)

prefix-suffix : (n : ℕ) (s : String) → prefix n s <> suffix n s ≡ s
unfolding prefix
prefix-suffix zero s = nil-append s
prefix-suffix (suc n) String.[] = nil-append ""
prefix-suffix (suc n) (String.◌∷◌ c s) =
    cons-append c (prefix n s) (suffix n s) ∙ ap (λ t. String.◌∷◌ c t) (prefix-suffix n s)

module _ (p : Pattern) where
  scan_from :
      (inside : ℕ) (before : Option Char) (s : String)
      → inside ≤ len s
      → Scan p (before_suffix inside before s) (suffix inside s) (pieces p inside before s)
  unfolding pieces len
  scan_from zero before String.[] h = stop
  scan_from (suc n) before String.[] h = absurd (omega arith)
  scan_from (suc n) before (String.◌∷◌ c s) h = scan_from n (some c) s (omega arith)
  scan_from zero before (String.◌∷◌ c s) h =
      go (match_at p before (String.◌∷◌ c s)) refl (scan_from zero (some c) s (omega arith))
        (λ n. scan_from n (some c) s)
    where
      go :
          (found : Option ℕ)
          → match_at p before (String.◌∷◌ c s) ≡ found
          → Scan p (some c) s (pieces p zero (some c) s)
          → ((n : ℕ)
              → n ≤ len s
              → Scan p (before_suffix n (some c) s) (suffix n s) (pieces p n (some c) s))
          → Scan p before
              (String.◌∷◌ c s)
              (piece_at found c s (λ n. pieces p n (some c) s) (pieces p zero (some c) s))
      go none e rest after = pass c (λ n q. absurd (ground arith)) rest
      go (some zero) e rest after = pass c (λ n q. ground arith) rest
      go (some (suc n)) e rest after =
          let fits : n ≤ len s =
            omega (arith, match_at_bounded p before (String.◌∷◌ c s) (suc n) e) in
          let l : n ≡ len (prefix n s) = omega (arith, len-prefix n s) in
          take (String.◌∷◌ c (prefix n s)) (e ∙ ap (λ k. some (suc k)) l) (omega arith)
            (cons-append c (prefix n s) (suffix (len (prefix n s)) s)
              ∙ ap (λ t. String.◌∷◌ c t)
                  (ap (λ k. prefix n s <> suffix k s) (sym l) ∙ prefix-suffix n s))
            (subst (λ k. Scan p (before_suffix k (some c) s) (suffix k s) (pieces p n (some c) s)) l
              (after n fits))

  pub pieces-Scan : (text : String) → Scan p none text (pieces p 0 none text)
  pieces-Scan text = scan_from 0 none text (omega arith)

  -- Without a match nothing is replaced.
  pub replaced_none :
      (with : String) {before : Option Char} {text : String} {ps : List Piece}
      → Scan p before text ps
      → count_matched ps ≡ 0
      → replaced with ps ≡ text
  unfolding replaced count_matched
  replaced_none with stop h = refl
  replaced_none with (pass c f rest) h = ap (λ t. String.◌∷◌ c t) (replaced_none with rest h)
  replaced_none with (take t m l e rest) h = absurd (omega arith)
