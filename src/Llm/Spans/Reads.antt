-- ===== src/Llm/Spans/Reads.antt =====
-- llm/base.py, `_find_balanced_json_span`: the states of the scan as texts of the grammar.
use Prim.Native.Char.{Char, code}
use Prim.Native.String.{String}
use mathlib.Core.Path.{subst}
use text.Mathlib.TextLemmas.{nil-append, cons-append}
use dealership_agent.Base.{
  ==_iff, Bool, Bool-cases, arith, false, inl, inr, refl, suc, sym, true, zero, ℕ, ◌-◌, ◌<>◌, ◌==◌,
  ◌||◌, ◌≡◌, ◌≤◌, ◌⊎◌,
}
use dealership_agent.Llm.Spans.{
  Scan, advance, escaped, in_string, is_backslash, is_balanced, is_close, is_open, is_quote,
  outside,
}
use dealership_agent.Llm.Spans.Grammar.{
  Closes, IsClosing, IsOpening, Quoted, closing, last, opening, plain, quote_char, quote_end,
  quote_escape, quoted,
}

-- The scan of `s` closes its first bracket with the last character of `s` and not before.
abbrev pub ClosesAtEnd : Scan → String → Type 0
ClosesAtEnd z String.[] = ⊥
ClosesAtEnd z (String.◌∷◌ c String.[]) = is_balanced (advance c z) ≡ true
ClosesAtEnd z (String.◌∷◌ c (String.◌∷◌ d s)) =
    (is_balanced (advance c z) ≡ false) × ClosesAtEnd (advance c z) (String.◌∷◌ d s)

-- What is left of a quoted text, and the text after it.
abbrev Ends : ℕ → String → Type 0
Ends n text = (q s : String) × (text ≡ q <> s) × Quoted q × Closes (suc n) s

-- What a text is for the scan that reads it.
abbrev Reads : Scan → String → Type 0
Reads (outside n) text = Closes n text
Reads (in_string n) text = elim n [ zero ↦ Unit | suc m ↦ Ends m text ]
Reads (escaped n) text = elim n [
  | zero ↦ Unit
  | suc m ↦ (d : Char) × (s : String) × (text ≡ String.◌∷◌ d s) × Ends m s
]

abbrev depth_of : Scan → ℕ
depth_of (outside n) = n
depth_of (in_string n) = n
depth_of (escaped n) = n

abbrev Both : Bool → Type 0 → Type 0
Both b A = ((b ≡ true) × A) ⊎ ((b ≡ false) × ¬ A)

is_equal : (m n : ℕ) → Both (m == n) (m ≡ n)
is_equal m n = elim (Bool-cases (m == n)) [
  | inl h ↦ inl (h, (==_iff m n).0 h)
  | inr h ↦ inr (h, λ e. absurd (ground (arith, (==_iff m n).1 e)))
]

either : (a b : Bool) (A B : Type 0) → Both a A → Both b B → Both (a || b) (A ⊎ B)
either a b A B (inl (e, x)) h = inl (ground arith, inl x)
either a b A B (inr (e, x)) (inl (f, y)) = inl (ground arith, inr y)
either a b A B (inr (e, x)) (inr (f, y)) =
    inr (ground arith, λ s. elim s [ inl p ↦ x p | inr q ↦ y q ])

IsOpening-test : (c : Char) → Both (is_open c) (IsOpening c)
unfolding is_open
IsOpening-test c = either _ _ _ _ (is_equal (code c) b'{') (is_equal (code c) b'[')

IsClosing-test : (c : Char) → Both (is_close c) (IsClosing c)
unfolding is_close
IsClosing-test c = either _ _ _ _ (is_equal (code c) b'}') (is_equal (code c) b']')

quote_test : (c : Char) → Both (is_quote c) (code c ≡ b'"')
unfolding is_quote
quote_test c = is_equal (code c) b'"'

backslash_test : (c : Char) → Both (is_backslash c) (code c ≡ b'\\')
unfolding is_backslash
backslash_test c = is_equal (code c) b'\\'

pub open_false : (c : Char) → ¬ IsOpening c → is_open c ≡ false
open_false c h = elim (IsOpening-test c) [ inl (o, f) ↦ absurd (h f) | inr (o, f) ↦ o ]

pub open_true : (c : Char) → IsOpening c → is_open c ≡ true
open_true c h = elim (IsOpening-test c) [ inl (o, f) ↦ o | inr (o, f) ↦ absurd (f h) ]

pub close_false : (c : Char) → ¬ IsClosing c → is_close c ≡ false
close_false c h = elim (IsClosing-test c) [ inl (o, f) ↦ absurd (h f) | inr (o, f) ↦ o ]

pub quote_false : (c : Char) → ¬ (code c ≡ b'"') → is_quote c ≡ false
quote_false c h = elim (quote_test c) [ inl (o, f) ↦ absurd (h f) | inr (o, f) ↦ o ]

pub backslash_false : (c : Char) → ¬ (code c ≡ b'\\') → is_backslash c ≡ false
backslash_false c h = elim (backslash_test c) [ inl (o, f) ↦ absurd (h f) | inr (o, f) ↦ o ]

-- One more character in front, inside a quoted text.
string_on :
    (n : ℕ) (c : Char) (t : String)
    → Reads (advance c (in_string (suc n))) t
    → Reads (in_string (suc n)) (String.◌∷◌ c t)
unfolding advance
string_on n c t h = elim (backslash_test c) [
  | inl (b, e) ↦
      let (d, s, f, (q, r, g, quote, closes)) = rw b at h in
      (
        String.◌∷◌ c (String.◌∷◌ d q),
        r,
        rw (f, g, cons-append, cons-append) refl,
        quote_escape c d q e quote,
        closes,
      )
  | inr (b, e) ↦ elim (quote_test c) [
    | inl (b', e') ↦
        (String.◌∷◌ c "", t, rw (cons-append, nil-append) refl, quote_end c e', rw (b, b') at h)
    | inr (b', e') ↦
        let (q, r, g, quote, closes) = rw (b, b') at h in
        (String.◌∷◌ c q, r, rw (g, cons-append) refl, quote_char c q e e' quote, closes)
  ]
]

less : (n : ℕ) → suc n - 1 ≡ n
less n = omega arith

-- One more character in front that does not close the last bracket.
Reads-on :
    (z : Scan) (c : Char) (t : String)
    → 1 ≤ depth_of z
    → is_balanced (advance c z) ≡ false
    → Reads (advance c z) t
    → Reads z (String.◌∷◌ c t)
unfolding advance is_balanced
Reads-on (outside zero) c t p b h = absurd (omega arith)
Reads-on (in_string zero) c t p b h = absurd (omega arith)
Reads-on (escaped zero) c t p b h = absurd (omega arith)
Reads-on (in_string (suc n)) c t p b h = string_on n c t h
Reads-on (escaped (suc n)) c t p b h = (c, t, refl, h)
Reads-on (outside (suc n)) c t p b h = elim (quote_test c) [
  | inl (q, e) ↦
      let (u, r, g, quote, closes) = rw q at h in
      subst (λ x. Closes (suc n) (String.◌∷◌ c x)) (sym g) (quoted n c u r e quote closes)
  | inr (q, e) ↦ elim (IsOpening-test c) [
    | inl (o, f) ↦ opening (suc n) c t f (rw (q, o) at h)
    | inr (o, f) ↦ elim (IsClosing-test c) [
      | inl (k, g) ↦
          closed n (rw (q, o, k, less n) at b)
            (subst (λ m. Closes m t) (less n) (rw (q, o, k) at h)) g
      | inr (k, g) ↦ plain n c t e f g (rw (q, o, k) at h)
    ]
  ]
]
  where
    closed :
        (m : ℕ)
        → is_balanced (outside m) ≡ false
        → Closes m t
        → IsClosing c
        → Closes (suc m) (String.◌∷◌ c t)
    closed zero b h g = absurd (ground arith)
    closed (suc m) b h g = closing m c t g h

-- The character that closes the last bracket.
Reads-last :
    (z : Scan) (c : Char)
    → 1 ≤ depth_of z
    → is_balanced (advance c z) ≡ true
    → Reads z (String.◌∷◌ c "")
unfolding advance is_balanced
Reads-last (outside zero) c p b = absurd (omega arith)
Reads-last (in_string zero) c p b = absurd (omega arith)
Reads-last (escaped zero) c p b = absurd (omega arith)
Reads-last (in_string (suc n)) c p b = elim (backslash_test c) [
  | inl (q, e) ↦ absurd (ground arith)
  | inr (q, e) ↦ elim (quote_test c) [
    | inl (k, g) ↦ absurd (ground arith)
    | inr (k, g) ↦ absurd (ground arith)
  ]
]
Reads-last (escaped (suc n)) c p b = absurd (ground arith)
Reads-last (outside (suc n)) c p b = elim (quote_test c) [
  | inl (q, e) ↦ absurd (ground arith)
  | inr (q, e) ↦ elim (IsOpening-test c) [
    | inl (o, f) ↦ absurd (ground arith)
    | inr (o, f) ↦ elim (IsClosing-test c) [
      | inl (k, g) ↦ closed n (rw (q, o, k, less n) at b) g
      | inr (k, g) ↦ absurd (ground arith)
    ]
  ]
]
  where
    closed :
        (m : ℕ) → is_balanced (outside m) ≡ true → IsClosing c → Closes (suc m) (String.◌∷◌ c "")
    closed zero b g = last c g
    closed (suc m) b g = absurd (ground arith)

depth_kept :
    (z : Scan) (c : Char)
    → 1 ≤ depth_of z
    → is_balanced (advance c z) ≡ false
    → 1 ≤ depth_of (advance c z)
unfolding advance is_balanced
depth_kept (outside zero) c p b = absurd (omega arith)
depth_kept (in_string n) c p b = elim (backslash_test c) [
  | inl (q, e) ↦ rw q p
  | inr (q, e) ↦ elim (quote_test c) [ inl (k, g) ↦ rw (q, k) p | inr (k, g) ↦ rw (q, k) p ]
]
depth_kept (escaped n) c p b = p
depth_kept (outside (suc n)) c p b = elim (quote_test c) [
  | inl (q, e) ↦ rw q p
  | inr (q, e) ↦ elim (IsOpening-test c) [
    | inl (o, f) ↦ rw (q, o) (omega arith)
    | inr (o, f) ↦ elim (IsClosing-test c) [
      | inl (k, g) ↦ rw (q, o, k, less n) (kept n (rw (q, o, k, less n) at b))
      | inr (k, g) ↦ rw (q, o, k) p
    ]
  ]
]
  where
    kept : (m : ℕ) → is_balanced (outside m) ≡ false → 1 ≤ m
    kept zero b = absurd (ground arith)
    kept (suc m) b = omega arith

pub opening_starts : (c : Char) → is_open c ≡ true → advance c (outside 0) ≡ outside 1
unfolding advance is_open is_quote
opening_starts c h = elim (quote_test c) [
  | inl (q, e) ↦ absurd (ground (arith, e))
  | inr (q, e) ↦ rw q (rw h refl)
]

pub first_bracket : (c : Char) → is_open c ≡ false → ¬ IsOpening c
first_bracket c h = elim (IsOpening-test c) [ inl (o, f) ↦ absurd (ground arith) | inr (o, f) ↦ f ]

-- A text that the scan closes with its last character is closed.
pub closes-Reads :
    (z : Scan) (c : Char) (t : String)
    → 1 ≤ depth_of z
    → ClosesAtEnd z (String.◌∷◌ c t)
    → Reads z (String.◌∷◌ c t)
closes-Reads z c String.[] p h = Reads-last z c p h
closes-Reads z c (String.◌∷◌ d t) p h =
    Reads-on z c (String.◌∷◌ d t) p h.0 (closes-Reads (advance c z) d t (depth_kept z c p h.0) h.1)

pub span-Closes :
    (c : Char) (t : String)
    → is_open c ≡ true
    → ClosesAtEnd (outside 0) (String.◌∷◌ c t)
    → Closes 0 (String.◌∷◌ c t)
unfolding advance is_balanced
span-Closes c String.[] o h = absurd (ground (arith, opening_starts c o))
span-Closes c (String.◌∷◌ d t) o h =
    let e = opening_starts c o in
    elim (IsOpening-test c) [
      | inl (q, f) ↦
          opening 0 c (String.◌∷◌ d t) f (closes-Reads (outside 1) d t (omega arith) (rw e at h.1))
      | inr (q, f) ↦ absurd (ground arith)
    ]
