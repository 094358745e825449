-- ===== src/Llm/Spans.antt =====
-- llm/base.py, `_find_balanced_json_span`: the first balanced `{…}` or `[…]` of a text.
pub mod Grammar
pub mod Reads
pub mod First
pub mod Complete
use Prim.Native.Char.{Char, code}
use Prim.Native.String.{String}
use dealership_agent.Base.{
  Bool, Option, [], false, if◌then◌else◌, none, some, suc, true, zero, ℕ, ◌-◌, ◌==◌, ◌||◌, ◌∷◌,
}

unfoldable pub is_open : Char → Bool
is_open c = code c == b'{' || code c == b'['

unfoldable pub is_close : Char → Bool
is_close c = code c == b'}' || code c == b']'

unfoldable pub is_quote : Char → Bool
is_quote c = code c == b'"'

unfoldable pub is_backslash : Char → Bool
is_backslash c = code c == b'\\'

-- The variables of the loop.
pub data Scan : Type 0 where
  outside : ℕ → Scan
  in_string : ℕ → Scan
  escaped : ℕ → Scan

-- One character; `depth` is at least 1 before a bracket that closes.
unfoldable pub advance : Char → Scan → Scan
unfolding is_open is_close is_quote is_backslash
advance c (outside depth) =
    if is_quote c
    then in_string depth
    else if is_open c
    then outside (suc depth)
    else if is_close c
    then outside (depth - 1)
    else outside depth
advance c (in_string depth) =
    if is_backslash c then escaped depth else if is_quote c then outside depth else in_string depth
advance c (escaped depth) = in_string depth

-- depth == 0, tested after a bracket that closes
unfoldable pub is_balanced : Scan → Bool
is_balanced (outside zero) = true
is_balanced _ = false

abbrev pub cons_some : Char → Option String → Option String
cons_some c none = none
cons_some c (some s) = some (String.◌∷◌ c s)

-- The rest of the loop: the text up to the bracket that closes the first one.
unfoldable pub scan : Scan → String → Option String
unfolding advance is_balanced
scan z String.[] = none
scan z (String.◌∷◌ c s) =
    let rest = scan (advance c z) s in
    if is_balanced (advance c z) then some (String.◌∷◌ c "") else cons_some c rest

unfoldable pub find_balanced_json_span : String → Option String
unfolding is_open scan
find_balanced_json_span String.[] = none
find_balanced_json_span (String.◌∷◌ c s) =
    let later = find_balanced_json_span s in
    if is_open c then scan (outside 0) (String.◌∷◌ c s) else later
