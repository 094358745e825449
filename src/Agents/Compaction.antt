-- ===== src/Agents/Compaction.antt =====
-- agents/compaction.py: tool results as short observations.
pub mod Bounds
use dealership_agent.Base.{
  ℕ, ◌+◌, ◌/◌, max, String, ◌<>◌, Bool, true, false, List, [], ◌∷◌, ◌&&◌, Option, none, some, ltb,
  if◌then◌else◌, len, prefix, rstrip, strip, join, length,
}
use dealership_agent.Python.{
  Value, null, bool, num, str, arr, obj, Items, nil, cons, Fields, elements, entries, get, get?,
  has, truthy, or_else, Exn, Outcome, ok, raise, ◌>>=◌, traverse, type_error, attribute_error,
  key_error, Library,
}

abbrev pub truncation_marker : String
truncation_marker = "...[truncated]"

-- `if len(s) > n: s = s[:n].rstrip() + TRUNCATION_MARKER`
unfoldable pub clip : ℕ → String → String
clip n s = if ltb n (len s) then rstrip (prefix n s) <> truncation_marker else s

concat : List String → String
concat = join ""

-- f"{content}" after the cut, for a `content` of any type
clip_value : Library → ℕ → Value → Outcome String
unfolding clip
clip_value lib n (str s) = ok (clip n s)
clip_value lib n (arr vs) =
    if ltb n (length (elements vs)) then raise attribute_error else ok (lib.format (arr vs))
clip_value lib n (obj fs) =
    if ltb n (length (entries fs)) then raise (key_error "slice") else ok (lib.format (obj fs))
clip_value lib n _ = raise type_error

price_text : Library → Fields → Outcome String
price_text lib item = elim (get "price" item) [
  | null ↦ ok "price unavailable"
  | price ↦ (lib.format_money price >>= λ s. ok ("$" <> s))
]

similarity_text : Library → Value → String
similarity_text lib (num n) = lib.format_fixed (num n)
similarity_text lib (bool b) = lib.format_fixed (bool b)
similarity_text lib _ = "n/a"

vehicle_line : Library → Fields → String → String
unfolding concat similarity_text
vehicle_line lib item price =
    let show = λ (key : String). lib.format (get key item) in
    let show_or = λ (key alt : String). lib.format (or_else (get key item) (str alt)) in
    strip (
      concat (
        "#"
        ∷ show "id"
        ∷ " "
        ∷ show "year"
        ∷ " "
        ∷ show "make"
        ∷ " "
        ∷ show "model"
        ∷ " "
        ∷ show_or "trim" ""
        ∷ " ("
        ∷ show_or "body_style" "n/a"
        ∷ ", "
        ∷ show_or "fuel_type" "n/a"
        ∷ "), "
        ∷ show "mileage"
        ∷ " mi, "
        ∷ price
        ∷ ", ref="
        ∷ show "external_ref"
        ∷ ", similarity="
        ∷ similarity_text lib (get "similarity" item)
        ∷ []))

unfoldable pub compact_vehicle : Library → Value → Outcome String
unfolding price_text vehicle_line
compact_vehicle lib (obj item) = price_text lib item >>= λ price. ok (vehicle_line lib item price)
compact_vehicle lib _ = raise attribute_error

chunk_line : Library → Fields → String → String
unfolding concat
chunk_line lib item content = concat (
    "["
    ∷ lib.format (get "doc_title" item)
    ∷ " - "
    ∷ lib.format (or_else (get "section_heading" item) (str "general"))
    ∷ (if truthy (get "is_superseded" item) then " [SUPERSEDED]" else "")
    ∷ "] "
    ∷ content
    ∷ [])

-- item.get("content", "")
content_of : Fields → Value
content_of item = elim (get? "content" item) [ none ↦ str "" | some v ↦ v ]

unfoldable pub compact_policy_chunk : Library → ℕ → Value → Outcome String
unfolding clip_value chunk_line content_of
compact_policy_chunk lib max_chars (obj item) =
    clip_value lib max_chars (content_of item) >>= λ content. ok (chunk_line lib item content)
compact_policy_chunk lib max_chars _ = raise attribute_error

-- The first element decides, and only the keys that it has.
first_has : String → String → Value → Bool
first_has a b (arr (cons (obj item) _)) = has a item && has b item
first_has a b _ = false

unfoldable pub is_vehicle_list : Value → Bool
unfolding first_has
is_vehicle_list = first_has "external_ref" "year"

unfoldable pub is_policy_chunk_list : Value → Bool
unfolding first_has
is_policy_chunk_list = first_has "doc_slug" "content"

list_of : Value → List Value
list_of (arr vs) = elements vs
list_of _ = []

lines : Outcome (List String) → Outcome String
lines r = r >>= λ ls. ok (join "\n" ls)

-- The body before the last cut.
unfoldable pub compact_body : Library → ℕ → Value → Outcome String
unfolding list_of lines
compact_body lib max_chars result =
    if is_vehicle_list result
    then lines (traverse (compact_vehicle lib) (list_of result))
    else if is_policy_chunk_list result
    then lines (
        traverse (compact_policy_chunk lib (max 100 (max_chars / max 1 (length (list_of result)))))
          (list_of result))
    else ok (lib.dumps result)

unfoldable pub compact_tool_result : Library → ℕ → Value → Outcome String
compact_tool_result lib max_chars null = ok "null"
compact_tool_result lib max_chars (arr nil) = ok "[] (zero results)"
compact_tool_result lib max_chars result =
    compact_body lib max_chars result >>= λ body. ok (clip max_chars body)

unfoldable pub compact_error : ℕ → String → String
compact_error max_chars text = clip max_chars text
