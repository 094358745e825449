-- ===== src/Llm/Bedrock.antt =====
-- llm/bedrock_provider.py. The client of the Bedrock Converse API is outside the program: it answers
-- a request with content blocks, of which those with no text are `none`.
use dealership_agent.Base.{
  Bool, List, Option, String, [], false, filter, map, none, not, some, true, ◌<>◌, ◌∷◌,
}
use dealership_agent.Llm.Normalize.{normalize_llm_response}
use dealership_agent.Python.{Library, Message, Outcome, Role, assistant, ok, system, user, ◌>>=◌}

pub record ConverseRequest : Type 0 where
  pub model_id : String
  pub messages : List (Role × String)
  pub system : List String

abbrev pub Converse : Type 0
Converse = ConverseRequest → Outcome (List (Option String))

abbrev pub is_system : Message → Bool
is_system m = elim m.role [ system ↦ true | user ↦ false | assistant ↦ false ]

unfoldable pub request_of : List Message → String → ConverseRequest
request_of messages model = record {
  model_id = model;
  messages = map (λ m. (m.role, m.content)) (filter (λ m. not (is_system m)) messages);
  system = map (λ m. m.content) (filter is_system messages);
}

-- "".join(block["text"] for block in content if "text" in block)
unfoldable pub joined_text : List (Option String) → String
joined_text [] = ""
joined_text (none ∷ blocks) = joined_text blocks
joined_text (some text ∷ blocks) = text <> joined_text blocks

unfoldable pub complete : Library → Converse → List Message → String → Outcome String
unfolding request_of joined_text
complete lib converse messages model = converse (request_of messages model) >>= λ content.
    ok (normalize_llm_response lib (joined_text content))
