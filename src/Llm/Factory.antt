-- ===== src/Llm/Factory.antt =====
-- llm/factory.py: the provider that the settings ask for, behind the contract of llm/base.py.
use dealership_agent.Base.{List, String, if◌then◌else◌, ℕ, ◌=ₛ◌}
use dealership_agent.Config.{Settings}
use dealership_agent.Llm.Bedrock
use dealership_agent.Llm.Bedrock.{Converse}
use dealership_agent.Llm.Groq
use dealership_agent.Llm.Groq.{GroqProvider, Reply}
use dealership_agent.Python.{Library, Message, Outcome, ok, raise, value_error}

-- LLMProvider, with a constructor for each subclass
pub data LlmProvider : Type 0 where
  groq : String → GroqProvider → LlmProvider
  bedrock : String → LlmProvider

unfoldable pub get_llm_provider : Settings → Outcome LlmProvider
get_llm_provider settings =
    if settings.llm_provider =ₛ "groq"
    then ok (
        groq settings.groq_api_key (record {
          max_retries = settings.llm_retry_max_retries;
          base_delay = settings.llm_retry_base_delay_seconds;
          max_delay = settings.llm_retry_max_delay_seconds;
        }))
    else if settings.llm_provider =ₛ "bedrock"
    then ok (bedrock settings.aws_region)
    else raise value_error

-- The services that the two providers call. Groq answers a request by the number of the attempt.
pub record Services : Type 0 where
  pub groq : List Message → String → ℕ → Reply
  pub converse : Converse

-- LLMProvider.complete
unfoldable pub complete_with :
    Library → Services → LlmProvider → List Message → String → Outcome String
complete_with lib services (groq key provider) messages model =
    (Groq.complete lib provider (services.groq messages model)).result
complete_with lib services (bedrock region) messages model =
    Bedrock.complete lib services.converse messages model
