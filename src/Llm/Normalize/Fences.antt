-- ===== src/Llm/Normalize/Fences.antt =====
-- llm/base.py, the first two passes of `normalize_llm_response`: a code fence is taken off.
use Prim.Native.Char.{Char, code}
use Prim.Native.String.{String}
use text.Mathlib.TextLemmas.{cons-append, nil-append}
use dealership_agent.Agents.ToolLoop.{start}
use dealership_agent.Base.{
  ==_iff, Bool-cases, ap, arith, eq_iff, false, inl, inr, len, len-append, none, refl, some, strip,
  sym, true, ◌<>◌, ◌==◌, ◌=ₛ◌, ◌≡◌, ◌≤◌, ◌⊎◌,
}
use dealership_agent.Llm.Normalize.{
  drop_letters, drop_prefix, drop_suffix, is_letter, strip_fence, strip_wrapper,
}
use dealership_agent.Python.{Library}

-- A text that does not begin with a fence or with a tag.
abbrev pub IsBare : String → Type 0
IsBare String.[] = Unit
IsBare (String.◌∷◌ c s) = (¬ (code c ≡ b'`')) × (¬ (code c ≡ b'<'))

-- A letter from a to z or from A to Z.
abbrev pub IsLetter : Char → Type 0
IsLetter c = ((65 ≤ code c) × (code c ≤ 90)) ⊎ ((97 ≤ code c) × (code c ≤ 122))

abbrev pub IsLanguage : String → Type 0
IsLanguage String.[] = Unit
IsLanguage (String.◌∷◌ c s) = IsLetter c × IsLanguage s

abbrev pub NoLetterFirst : String → Type 0
NoLetterFirst String.[] = Unit
NoLetterFirst (String.◌∷◌ c s) = ¬ IsLetter c

-- A text, and what is inside of its code fence if it has one.
pub data Unfenced (s : String) : String → Type 0 where
  bare : IsBare s → Unfenced s s
  fenced :
      (language body : String)
      → s ≡ "```" <> (language <> (body <> "```"))
      → IsLanguage language
      → NoLetterFirst body
      → IsBare (strip body)
      → Unfenced s (strip body)

other_start :
    (c d : Char) (start text : String)
    → ¬ (code d ≡ code c)
    → drop_prefix (String.◌∷◌ c start) (String.◌∷◌ d text) ≡ none
unfolding drop_prefix
other_start c d start text h = elim (Bool-cases (code c == code d)) [
  | inl e ↦ absurd (h (sym ((==_iff (code c) (code d)).0 e)))
  | inr e ↦ rw e refl
]

strip_fence-IsBare : (text : String) → IsBare text → strip_fence text ≡ text
unfolding strip_fence drop_prefix
strip_fence-IsBare String.[] h = refl
strip_fence-IsBare (String.◌∷◌ c s) h = rw (other_start "`" c "``" s h.0, strip_fence) refl

pub strip_wrapper-IsBare :
    (lib : Library) (text : String) → IsBare text → strip_wrapper lib text ≡ text
unfolding strip_wrapper drop_prefix
strip_wrapper-IsBare lib String.[] h = refl
strip_wrapper-IsBare lib (String.◌∷◌ c s) h = rw (other_start "<" c "" s h.1, strip_wrapper) refl

after_start : (start text : String) → drop_prefix start (start <> text) ≡ some text
unfolding drop_prefix
after_start String.[] text = rw nil-append refl
after_start (String.◌∷◌ c start) text =
    rw cons-append (rw ((==_iff (code c) (code c)).1 refl, after_start start text) refl)

letter_true : (c : Char) → IsLetter c → is_letter c ≡ true
unfolding is_letter
letter_true c (inl (a, b)) = ground arith
letter_true c (inr (a, b)) = ground arith

letter_false : (c : Char) → ¬ IsLetter c → is_letter c ≡ false
unfolding is_letter
letter_false c h = elim (Bool-cases (is_letter c)) [
  | inr e ↦ e
  | inl e ↦ absurd (h (letter_of c e))
]
  where
    letter_of : (c : Char) → is_letter c ≡ true → IsLetter c
    letter_of c e = ground arith

drop_letters-first :
    (body : String) → NoLetterFirst body → drop_letters (body <> "```") ≡ body <> "```"
unfolding drop_letters is_letter
drop_letters-first String.[] h = refl
drop_letters-first (String.◌∷◌ c s) h = rw cons-append (rw (letter_false c h) refl)

drop_letters-IsLanguage :
    (language body : String)
    → IsLanguage language
    → NoLetterFirst body
    → drop_letters (language <> (body <> "```")) ≡ body <> "```"
unfolding drop_letters
drop_letters-IsLanguage String.[] body h k = rw nil-append (drop_letters-first body k)
drop_letters-IsLanguage (String.◌∷◌ c s) body h k =
    rw cons-append (rw (letter_true c h.0) (drop_letters-IsLanguage s body h.1 k))

longer : (c : Char) (s : String) → (String.◌∷◌ c (s <> "```") =ₛ "```") ≡ false
unfolding len
longer c s = elim (Bool-cases (String.◌∷◌ c (s <> "```") =ₛ "```")) [
  | inr e ↦ e
  | inl e ↦
      let same = ap len ((eq_iff (String.◌∷◌ c (s <> "```")) "```").0 e) in
      absurd (omega (arith, same, len-append s "```"))
]

before_end : (body : String) → drop_suffix "```" (body <> "```") ≡ some body
unfolding drop_suffix
before_end String.[] = refl
before_end (String.◌∷◌ c s) = rw cons-append (rw (longer c s, before_end s) refl)

pub strip_fence-Unfenced : (s text : String) → Unfenced s text → strip_fence s ≡ text
unfolding strip_fence strip
strip_fence-Unfenced s text (bare b) = strip_fence-IsBare s b
strip_fence-Unfenced s text (fenced language body e l n b) = rw e (
    rw
      (
        after_start "```" (language <> (body <> "```")),
        drop_letters-IsLanguage language body l n,
        before_end body,
        strip_fence,
      )
      refl)

pub IsBare-Unfenced : (s text : String) → Unfenced s text → IsBare text
IsBare-Unfenced s text (bare b) = b
IsBare-Unfenced s text (fenced language body e l n b) = b
