-- ===== src/Llm/Normalize/Actions.antt =====
-- llm/base.py, `normalize_llm_response`: the decision in a reply with prose around it.
use Prim.Native.String.{String}
use dealership_agent.Base.{
  Bool-cases, false, if◌then◌else◌, inl, inr, refl, some, strip, true, ◌<>◌, ◌≡◌, ◌⊎◌,
}
use dealership_agent.Llm.Normalize.{
  cleaned, infer_action, normalize_llm_response, normalize_text, print_dict, unwrap_single,
}
use dealership_agent.Llm.Normalize.Fences.{
  Unfenced, IsBare-Unfenced, strip_fence-Unfenced, strip_wrapper-IsBare,
}
use dealership_agent.Llm.Spans.Complete.{find_balanced_json_span-Closes}
use dealership_agent.Llm.Spans.Grammar.{Closes, NoOpening}
use dealership_agent.Python.{Fields, Library, Value, arr, cons, field, has, nil, obj, str}

-- A dict and what it is once it says which action it is.
pub data Acts (fields : Fields) : Fields → Type 0 where
  named : has "action" fields ≡ true → Acts fields fields
  tool_named :
      has "action" fields ≡ false
      → has "tool" fields ≡ true
      → has "arguments" fields ≡ true
      → Acts fields (field "action" (str "call_tool") fields)
  answered :
      has "action" fields ≡ false
      → (has "tool" fields ≡ false) ⊎ (has "arguments" fields ≡ false)
      → has "answer" fields ≡ true
      → Acts fields (field "action" (str "final") fields)
  shapeless :
      has "action" fields ≡ false
      → (has "tool" fields ≡ false) ⊎ (has "arguments" fields ≡ false)
      → has "answer" fields ≡ false
      → Acts fields fields

infer_action-Acts : (fields : Fields) → Acts fields (infer_action fields)
unfolding infer_action
infer_action-Acts fields = elim (Bool-cases (has "action" fields)) [
  | inl a ↦ rw a (named a)
  | inr a ↦ rw a (elim (Bool-cases (has "tool" fields)) [
    | inl t ↦ elim (Bool-cases (has "arguments" fields)) [
      | inl g ↦ rw (t, g) (tool_named a t g)
      | inr g ↦ rw (t, g) (by_answer a (inr g))
    ]
    | inr t ↦ rw t (by_answer a (inl t))
  ])
]
  where
    by_answer :
        has "action" fields ≡ false
        → (has "tool" fields ≡ false) ⊎ (has "arguments" fields ≡ false)
        → Acts fields (if has "answer" fields then field "action" (str "final") fields else fields)
    by_answer a n = elim (Bool-cases (has "answer" fields)) [
      | inl f ↦ rw f (answered a n f)
      | inr f ↦ rw f (shapeless a n f)
    ]

-- A dict, alone or as the one element of a list.
abbrev pub IsTheDict : Fields → Value → Type 0
IsTheDict fields v = (v ≡ obj fields) ⊎ (v ≡ arr (cons (obj fields) nil))

cleaned-Closes :
    (lib : Library) (raw text before span rest : String)
    → Unfenced (strip raw) text
    → text ≡ before <> (span <> rest)
    → NoOpening before
    → Closes 0 span
    → cleaned lib raw ≡ span
unfolding cleaned
cleaned-Closes lib raw text before span rest u e n h =
    rw
      (
        strip_fence-Unfenced (strip raw) text u,
        strip_wrapper-IsBare lib text (IsBare-Unfenced (strip raw) text u),
      )
      (rw e (rw (find_balanced_json_span-Closes before span rest n h) refl))

unwrap_single-IsTheDict :
    (fields : Fields) (v : Value) → IsTheDict fields v → unwrap_single v ≡ obj fields
unfolding unwrap_single
unwrap_single-IsTheDict fields v (inl e) = rw e refl
unwrap_single-IsTheDict fields v (inr e) = rw e refl

-- A reply that does not begin with a fence or a tag, or that is one code fence around such a text,
-- with or without the name of a language, is taken for the balanced text after its first opening
-- bracket, whatever prose stands around it: where that is the JSON of a dict, alone or as the one
-- element of a list, the provider returns the print of the dict, unchanged if it has an action, else
-- as a tool call if it has a tool and arguments, else as a final answer if it has an answer, and
-- else unchanged.
pub normalize_llm_response_decides :
    (lib : Library) (raw text before span rest : String) (v : Value) (fields : Fields)
    → Unfenced (strip raw) text
    → text ≡ before <> (span <> rest)
    → NoOpening before
    → Closes 0 span
    → lib.loads span ≡ some v
    → IsTheDict fields v
    → (decision : Fields) × Acts fields decision
      × (normalize_llm_response lib raw ≡ lib.dumps (obj decision))
unfolding normalize_llm_response normalize_text print_dict
normalize_llm_response_decides lib raw text before span rest v fields u e n h l d = (
  infer_action fields,
  infer_action-Acts fields,
  rw (cleaned-Closes lib raw text before span rest u e n h, l, unwrap_single-IsTheDict fields v d)
      refl,
)
