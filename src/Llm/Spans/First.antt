-- ===== src/Llm/Spans/First.antt =====
-- llm/base.py, `_find_balanced_json_span`: the span that the scan returns.
use Prim.Native.Char.{Char}
use Prim.Native.String.{String}
use mathlib.Core.Path.{subst}
use text.Mathlib.TextLemmas.{nil-append, cons-append}
use dealership_agent.Base.{
  Bool, Bool-cases, Option, arith, false, if◌then◌else◌, inl, inr, none, refl, some, sym, true,
  ◌<>◌, ◌≡◌,
}
use dealership_agent.Llm.Spans.{
  Scan, advance, cons_some, find_balanced_json_span, is_balanced, is_open, outside, scan,
}
use dealership_agent.Llm.Spans.Grammar.{Closes, NoOpening}
use dealership_agent.Llm.Spans.Reads.{ClosesAtEnd, first_bracket, span-Closes}

cons_closes :
    (z : Scan) (c : Char) (s : String)
    → is_balanced (advance c z) ≡ false
    → ClosesAtEnd (advance c z) s
    → ClosesAtEnd z (String.◌∷◌ c s)
cons_closes z c String.[] b h = absurd h
cons_closes z c (String.◌∷◌ d s) b h = (b, h)

cons_some_inv :
    (c : Char) (o : Option String) (s : String)
    → cons_some c o ≡ some s
    → (t : String) × (o ≡ some t) × (s ≡ String.◌∷◌ c t)
cons_some_inv c none s h = absurd (ground arith)
cons_some_inv c (some t) s h = (t, refl, ground arith)

pick : {A : Type 0} {b : Bool} {x z : A} (y : A) → (if b then x else y) ≡ z → b ≡ true → x ≡ z
pick y h e = rw e at h

pick_else : {A : Type 0} {b : Bool} {y z : A} (x : A) → (if b then x else y) ≡ z → b ≡ false → y ≡ z
pick_else x h e = rw e at h

-- A text begins with a span that closes at its end.
abbrev pub BeginsWith : Scan → String → String → Type 0
BeginsWith z text span = ClosesAtEnd z span × (rest : String) × (text ≡ span <> rest)

scan-BeginsWith : (z : Scan) (text span : String) → scan z text ≡ some span → BeginsWith z text span
unfolding scan
scan-BeginsWith z String.[] span h = absurd (ground arith)
scan-BeginsWith z (String.◌∷◌ c s) span h = elim (Bool-cases (is_balanced (advance c z))) [
  | inl b ↦
      let q : String.◌∷◌ c "" ≡ span = ground arith in
      subst (BeginsWith z (String.◌∷◌ c s)) q (b, s, rw (cons-append, nil-append) refl)
  | inr b ↦
      let (t, e, f) = cons_some_inv c (scan (advance c z) s) span (rw b at h) in
      let (closes, rest, g) = scan-BeginsWith (advance c z) s t e in
      subst (BeginsWith z (String.◌∷◌ c s)) (sym f)
        (cons_closes z c t b closes, rest, rw (cons-append, g) refl)
]

-- A scanned span starts with the character that the scan starts with.
scan-head :
    (z : Scan) (c : Char) (s span : String)
    → scan z (String.◌∷◌ c s) ≡ some span
    → (t : String) × (span ≡ String.◌∷◌ c t)
unfolding scan
scan-head z c s span h = elim (Bool-cases (is_balanced (advance c z))) [
  | inl b ↦ ("", sym (some_inj (pick _ h b)))
  | inr b ↦ let (t, e, f) = cons_some_inv c (scan (advance c z) s) span (pick_else _ h b) in (t, f)
]
  where
    some_inj : {a b : String} → some a ≡ some b → a ≡ b
    some_inj h = ground arith

found_here :
    (c : Char) (s span : String)
    → is_open c ≡ true
    → scan (outside 0) (String.◌∷◌ c s) ≡ some span
    → Closes 0 span × (rest : String) × (String.◌∷◌ c s ≡ span <> rest)
found_here c s span o h =
    let (t, e) = scan-head (outside 0) c s span h in
    let (closes, rest, g) = scan-BeginsWith (outside 0) (String.◌∷◌ c s) span h in
    (
      subst (Closes 0) (sym e) (span-Closes c t o (subst (ClosesAtEnd (outside 0)) e closes)),
      rest,
      g,
    )

pub find_balanced_json_span_first :
    (text span : String)
    → find_balanced_json_span text ≡ some span
    → (before rest : String) × (text ≡ before <> (span <> rest)) × NoOpening before × Closes 0 span
unfolding find_balanced_json_span
find_balanced_json_span_first String.[] span h = absurd (ground arith)
find_balanced_json_span_first (String.◌∷◌ c s) span h = elim (Bool-cases (is_open c)) [
  | inl o ↦
      let (closes, rest, g) = found_here c s span o (pick _ h o) in
      ("", rest, rw (nil-append, g) refl, tt, closes)
  | inr o ↦
      let (before, rest, g, n, closes) = find_balanced_json_span_first s span (pick_else _ h o) in
      (String.◌∷◌ c before, rest, rw (cons-append, g) refl, (first_bracket c o, n), closes)
]
