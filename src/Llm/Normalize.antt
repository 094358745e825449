-- ===== src/Llm/Normalize.antt =====
-- llm/base.py, `normalize_llm_response`. The optional newlines next to the fences of `_FENCE_RE` go
-- with the `strip` that follows; a greedy `[a-zA-Z]*` or `\w+` never gives back what it took, for no
-- such character begins what has to follow.
pub mod Fences
pub mod Actions
use Prim.Native.Char.{Char, code}
use Prim.Native.String.{String}
use dealership_agent.Base.{
  Bool, Option, [], if◌then◌else◌, leb, none, some, strip, ◌&&◌, ◌<>◌, ◌==◌, ◌=ₛ◌, ◌||◌, ◌∷◌,
}
use dealership_agent.Llm.Spans.{cons_some, find_balanced_json_span}
use dealership_agent.Python.{Fields, Library, Value, arr, cons, field, has, nil, obj, str}

unfoldable pub is_letter : Char → Bool
is_letter c = (leb 65 (code c) && leb (code c) 90) || (leb 97 (code c) && leb (code c) 122)

unfoldable pub drop_letters : String → String
unfolding is_letter
drop_letters String.[] = ""
drop_letters (String.◌∷◌ c s) =
    let rest = drop_letters s in if is_letter c then rest else String.◌∷◌ c s

-- What follows `start` in the text.
unfoldable pub drop_prefix : String → String → Option String
drop_prefix String.[] text = some text
drop_prefix (String.◌∷◌ c start) String.[] = none
drop_prefix (String.◌∷◌ c start) (String.◌∷◌ d text) =
    let rest = drop_prefix start text in if code c == code d then rest else none

-- What stands before the suffix at the end of the text; the suffix is not empty.
unfoldable pub drop_suffix : String → String → Option String
drop_suffix suffix String.[] = none
drop_suffix suffix (String.◌∷◌ c s) =
    let rest = drop_suffix suffix s in
    if String.◌∷◌ c s =ₛ suffix then some "" else cons_some c rest

-- fence_match.group(1).strip(), or the text as it is
unfoldable pub strip_fence : String → String
unfolding drop_letters drop_prefix drop_suffix
strip_fence text = elim (drop_prefix "```" text) [
  | none ↦ text
  | some rest ↦ elim (drop_suffix "```" (drop_letters rest)) [
    | none ↦ text
    | some body ↦ strip body
  ]
]

-- The word at the start of the text, and the rest.
unfoldable pub split_word : Library → String → String × String
split_word lib String.[] = ("", "")
split_word lib (String.◌∷◌ c s) =
    let (word, rest) = split_word lib s in
    if lib.is_word c then (String.◌∷◌ c word, rest) else ("", String.◌∷◌ c s)

-- From the tag's name and what follows it.
unfoldable pub tag_body : String → String → Option String
unfolding drop_prefix drop_suffix
tag_body String.[] rest = none
tag_body (String.◌∷◌ c word) rest = elim (drop_prefix ">" rest) [
  | none ↦ none
  | some body ↦ drop_suffix ("</" <> (String.◌∷◌ c word <> ">")) body
]

-- wrapper_match.group(2).strip(), or the text as it is
unfoldable pub strip_wrapper : Library → String → String
unfolding drop_prefix split_word tag_body
strip_wrapper lib text = elim (drop_prefix "<" text) [
  | none ↦ text
  | some rest ↦ elim (tag_body (split_word lib rest).0 (split_word lib rest).1) [
    | none ↦ text
    | some body ↦ strip body
  ]
]

abbrev pub span_or_text : String → Option String → String
span_or_text text none = text
span_or_text text (some span) = span

-- The text that is parsed.
unfoldable pub cleaned : Library → String → String
unfolding strip_fence strip_wrapper find_balanced_json_span
cleaned lib raw =
    let text = strip_wrapper lib (strip_fence (strip raw)) in
    span_or_text text (find_balanced_json_span text)

-- A list of exactly one dict stands for the dict.
unfoldable pub unwrap_single : Value → Value
unwrap_single (arr (cons (obj fields) nil)) = obj fields
unwrap_single v = v

-- A dict without "action" is given one by its shape.
unfoldable pub infer_action : Fields → Fields
infer_action fields =
    if has "action" fields
    then fields
    else if has "tool" fields && has "arguments" fields
    then field "action" (str "call_tool") fields
    else if has "answer" fields
    then field "action" (str "final") fields
    else fields

-- The end: a dict is printed again, anything else leaves the text.
unfoldable pub print_dict : Library → String → Value → String
unfolding infer_action
print_dict lib text (obj fields) = lib.dumps (obj (infer_action fields))
print_dict lib text _ = text

unfoldable pub normalize_text : Library → String → Option Value → String
unfolding unwrap_single print_dict
normalize_text lib text none = text
normalize_text lib text (some v) = print_dict lib text (unwrap_single v)

unfoldable pub normalize_llm_response : Library → String → String
unfolding cleaned normalize_text
normalize_llm_response lib raw = normalize_text lib (cleaned lib raw) (lib.loads (cleaned lib raw))
