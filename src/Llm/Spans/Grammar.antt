-- ===== src/Llm/Spans/Grammar.antt =====
-- llm/base.py, `_find_balanced_json_span`: what a balanced text is, without the variables of the loop.
use Prim.Native.Char.{Char, code}
use Prim.Native.String.{String}
use dealership_agent.Base.{suc, ℕ, ◌<>◌, ◌≡◌, ◌⊎◌}

-- The rest of a quoted text after its opening quote: a backslash takes the next character with it,
-- whatever it is, and the first other quote is the end.
pub data Quoted : String → Type 0 where
  quote_end : (c : Char) → code c ≡ b'"' → Quoted (String.◌∷◌ c "")
  quote_escape :
      (c d : Char) (s : String) → code c ≡ b'\\' → Quoted s → Quoted (String.◌∷◌ c (String.◌∷◌ d s))
  quote_char :
      (c : Char) (s : String)
      → ¬ (code c ≡ b'\\')
      → ¬ (code c ≡ b'"')
      → Quoted s
      → Quoted (String.◌∷◌ c s)

abbrev pub IsOpening : Char → Type 0
IsOpening c = (code c ≡ b'{') ⊎ (code c ≡ b'[')

abbrev pub IsClosing : Char → Type 0
IsClosing c = (code c ≡ b'}') ⊎ (code c ≡ b']')

-- A text read at a depth of brackets, whose last character closes the last open bracket, and which
-- closes it nowhere before: brackets count outside of quoted texts only.
pub data Closes : ℕ → String → Type 0 where
  opening :
      (n : ℕ) (c : Char) (s : String) → IsOpening c → Closes (suc n) s → Closes n (String.◌∷◌ c s)
  closing :
      (n : ℕ) (c : Char) (s : String)
      → IsClosing c
      → Closes (suc n) s
      → Closes (suc (suc n)) (String.◌∷◌ c s)
  last : (c : Char) → IsClosing c → Closes 1 (String.◌∷◌ c "")
  quoted :
      (n : ℕ) (c : Char) (q s : String)
      → code c ≡ b'"'
      → Quoted q
      → Closes (suc n) s
      → Closes (suc n) (String.◌∷◌ c (q <> s))
  plain :
      (n : ℕ) (c : Char) (s : String)
      → ¬ (code c ≡ b'"')
      → ¬ IsOpening c
      → ¬ IsClosing c
      → Closes (suc n) s
      → Closes (suc n) (String.◌∷◌ c s)

-- A text without an opening bracket.
abbrev pub NoOpening : String → Type 0
NoOpening String.[] = Unit
NoOpening (String.◌∷◌ c s) = (¬ IsOpening c) × NoOpening s
