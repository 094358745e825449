-- ===== src/Data/Policies/Lines.antt =====
-- `str.splitlines`, on the text that `read_text` gives.
use Prim.Native.Char.{Char, code}
use dealership_agent.Base.{Bool, List, String, [], false, if◌then◌else◌, leb, ◌&&◌, ◌==◌, ◌||◌, ◌∷◌}

abbrev pub is_newline : Char → Bool
is_newline c = code c == 10

-- The characters that end a line.
unfoldable pub is_line_break : Char → Bool
is_line_break c =
    let n = code c in
    (leb 10 n && leb n 13) || ((leb 28 n && leb n 30) || (n == 133 || (n == 8232 || n == 8233)))

abbrev pub starts_newline : String → Bool
starts_newline String.[] = false
starts_newline (String.◌∷◌ c s) = is_newline c

-- A character in front of the first line.
abbrev pub onto_first : Char → List String → List String
onto_first c [] = String.◌∷◌ c "" ∷ []
onto_first c (line ∷ lines) = String.◌∷◌ c line ∷ lines

-- A carriage return before a newline is one line break with it.
unfoldable pub splitlines : String → List String
unfolding is_line_break
splitlines String.[] = []
splitlines (String.◌∷◌ c s) =
    let rest = splitlines s in
    if (code c == 13) && starts_newline s
    then rest
    else if is_line_break c
    then "" ∷ rest
    else onto_first c rest
