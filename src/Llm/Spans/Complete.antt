-- ===== src/Llm/Spans/Complete.antt =====
-- llm/base.py, `_find_balanced_json_span`: the scan of a text that is balanced.
use Prim.Native.Char.{Char, code}
use Prim.Native.String.{String}
use mathlib.Core.Path.{subst}
use text.Mathlib.TextLemmas.{nil-append, cons-append}
use dealership_agent.Base.{
  Bool, Option, ap, arith, false, if◌then◌else◌, inl, inr, refl, some, suc, sym, true, ℕ, ◌<>◌, ◌↔◌,
  ◌≡◌,
}
use dealership_agent.Llm.Spans.{
  Scan, advance, escaped, find_balanced_json_span, in_string, is_backslash, is_balanced, is_close,
  is_open, is_quote, outside, scan,
}
use dealership_agent.Llm.Spans.First.{find_balanced_json_span_first}
use dealership_agent.Llm.Spans.Grammar.{
  Closes, IsClosing, IsOpening, NoOpening, Quoted, closing, last, opening, plain, quote_char,
  quote_end, quote_escape, quoted,
}
use dealership_agent.Llm.Spans.Reads.{
  backslash_false, close_false, open_false, open_true, quote_false,
}

scan_on :
    (z z' : Scan) (c : Char) (s rest : String)
    → advance c z ≡ z'
    → is_balanced z' ≡ false
    → scan z' (s <> rest) ≡ some s
    → scan z (String.◌∷◌ c s <> rest) ≡ some (String.◌∷◌ c s)
unfolding scan
scan_on z z' c s rest e b h = rw cons-append (rw (e, b, h) refl)

advance_opening : (n : ℕ) (c : Char) → IsOpening c → advance c (outside n) ≡ outside (suc n)
unfolding advance is_quote is_open
advance_opening n c (inl e) = rw e refl
advance_opening n c (inr e) = rw e refl

advance_closing : (n : ℕ) (c : Char) → IsClosing c → advance c (outside (suc n)) ≡ outside n
unfolding advance is_quote is_open is_close
advance_closing n c (inl e) = rw e (ap outside (omega arith))
advance_closing n c (inr e) = rw e (ap outside (omega arith))

advance_quote : (n : ℕ) (c : Char) → code c ≡ b'"' → advance c (outside n) ≡ in_string n
unfolding advance is_quote
advance_quote n c e = rw e refl

advance_plain :
    (n : ℕ) (c : Char)
    → ¬ (code c ≡ b'"')
    → ¬ IsOpening c
    → ¬ IsClosing c
    → advance c (outside n) ≡ outside n
unfolding advance
advance_plain n c q o k = rw (quote_false c q, open_false c o, close_false c k) refl

advance_end : (n : ℕ) (c : Char) → code c ≡ b'"' → advance c (in_string n) ≡ outside n
unfolding advance is_quote is_backslash
advance_end n c e = rw e refl

advance_escape : (n : ℕ) (c : Char) → code c ≡ b'\\' → advance c (in_string n) ≡ escaped n
unfolding advance is_backslash
advance_escape n c e = rw e refl

advance_inside :
    (n : ℕ) (c : Char)
    → ¬ (code c ≡ b'\\')
    → ¬ (code c ≡ b'"')
    → advance c (in_string n) ≡ in_string n
unfolding advance
advance_inside n c e f = rw (backslash_false c e, quote_false c f) refl

scan_last :
    (c : Char) (rest : String)
    → advance c (outside 1) ≡ outside 0
    → scan (outside 1) (String.◌∷◌ c "" <> rest) ≡ some (String.◌∷◌ c "")
unfolding scan is_balanced
scan_last c rest e = rw cons-append (rw e refl)

scan-Quoted :
    (n : ℕ) (q : String)
    → Quoted q
    → (s rest : String) → scan (outside (suc n)) (s <> rest) ≡ some s
    → scan (in_string (suc n)) ((q <> s) <> rest) ≡ some (q <> s)
unfolding advance is_balanced
scan-Quoted n q (quote_end c e) s rest h =
    rw (cons-append, nil-append)
      (scan_on (in_string (suc n)) (outside (suc n)) c s rest (advance_end (suc n) c e) refl h)
scan-Quoted n q (quote_escape c d t e w) s rest h =
    let inner : scan (escaped (suc n)) ((String.◌∷◌ d t <> s) <> rest)
        ≡ some (String.◌∷◌ d t <> s) =
      rw cons-append (
        scan_on (escaped (suc n)) (in_string (suc n)) d (t <> s) rest refl refl
          (scan-Quoted n t w s rest h)) in
    rw cons-append (
      scan_on (in_string (suc n)) (escaped (suc n)) c (String.◌∷◌ d t <> s) rest
        (advance_escape (suc n) c e) refl inner)
scan-Quoted n q (quote_char c t e f w) s rest h = rw cons-append (
    scan_on (in_string (suc n)) (in_string (suc n)) c (t <> s) rest (advance_inside (suc n) c e f)
      refl (scan-Quoted n t w s rest h))

scan-Closes :
    (n : ℕ) (text : String)
    → Closes n text
    → (rest : String) → scan (outside n) (text <> rest) ≡ some text
unfolding is_balanced
scan-Closes n text (opening m c s o h) rest =
    scan_on (outside m) (outside (suc m)) c s rest (advance_opening m c o) refl
      (scan-Closes (suc m) s h rest)
scan-Closes n text (closing m c s k h) rest =
    scan_on (outside (suc (suc m))) (outside (suc m)) c s rest (advance_closing (suc m) c k) refl
      (scan-Closes (suc m) s h rest)
scan-Closes n text (last c k) rest = scan_last c rest (advance_closing 0 c k)
scan-Closes n text (quoted m c q s e w h) rest =
    scan_on (outside (suc m)) (in_string (suc m)) c (q <> s) rest (advance_quote (suc m) c e) refl
      (scan-Quoted m q w s rest (scan-Closes (suc m) s h rest))
scan-Closes n text (plain m c s q o k h) rest =
    scan_on (outside (suc m)) (outside (suc m)) c s rest (advance_plain (suc m) c q o k) refl
      (scan-Closes (suc m) s h rest)

head-Closes :
    (n : ℕ) (text : String)
    → Closes n text
    → n ≡ 0
    → (c : Char) × (s : String) × (text ≡ String.◌∷◌ c s) × IsOpening c
head-Closes n text (opening m c s o h) e = (c, s, refl, o)
head-Closes n text (closing m c s k h) e = absurd (omega arith)
head-Closes n text (last c k) e = absurd (omega arith)
head-Closes n text (quoted m c q s f w h) e = absurd (omega arith)
head-Closes n text (plain m c s q o k h) e = absurd (omega arith)

taken :
    {b : Bool} {x z : Option String} (y : Option String)
    → b ≡ true
    → x ≡ z
    → (if b then x else y) ≡ z
taken y e h = rw (e, h) refl

found_at_start :
    (c : Char) (s rest : String)
    → IsOpening c
    → scan (outside 0) (String.◌∷◌ c s <> rest) ≡ some (String.◌∷◌ c s)
    → find_balanced_json_span (String.◌∷◌ c s <> rest) ≡ some (String.◌∷◌ c s)
unfolding find_balanced_json_span
found_at_start c s rest o h =
    let again : scan (outside 0) (String.◌∷◌ c (s <> rest)) ≡ some (String.◌∷◌ c s) =
      rw cons-append at h in
    rw cons-append (taken _ (open_true c o) again)

-- A balanced text after a text without an opening bracket is found, whatever follows it.
pub find_balanced_json_span-Closes :
    (before span rest : String)
    → NoOpening before
    → Closes 0 span
    → find_balanced_json_span (before <> (span <> rest)) ≡ some span
unfolding find_balanced_json_span
find_balanced_json_span-Closes String.[] span rest n h =
    let (c, s, e, o) = head-Closes 0 span h refl in
    let again = subst (λ x. scan (outside 0) (x <> rest) ≡ some x) e (scan-Closes 0 span h rest) in
    rw nil-append (
      subst (λ x. find_balanced_json_span (x <> rest) ≡ some x) (sym e)
        (found_at_start c s rest o again))
find_balanced_json_span-Closes (String.◌∷◌ c before) span rest n h =
    rw cons-append
      (rw (open_false c n.0, find_balanced_json_span-Closes before span rest n.1 h) refl)

-- A span is found in a text exactly if the text has the span after a part without an opening
-- bracket, and the span is balanced: its last character closes its first bracket and no character
-- before does, where the brackets of quoted texts do not count, a quoted text ends with its first
-- quote that no backslash takes with it, and both kinds of brackets count alike.
pub find_balanced_json_span_iff :
    (text span : String)
    → (find_balanced_json_span text ≡ some span) ↔ (
        (before rest : String) × (text ≡ before <> (span <> rest))
        × NoOpening before
        × Closes 0 span)
find_balanced_json_span_iff text span = (
  find_balanced_json_span_first text span,
  λ (before, rest, e, n, h). rw e (find_balanced_json_span-Closes before span rest n h),
)
